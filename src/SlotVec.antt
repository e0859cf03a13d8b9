-- ===== src/SlotVec.antt =====
-- A vector of slots whose indices are stable: services/libs/aster-util/src/slot_vec.rs.
-- A panic of the source (an `unwrap` on an absent value) is `none`; memory never runs out.
mod Count
pub mod Laws
pub mod Listing
mod Tests
use jinux.Base.{
  ℕ, zero, suc, ◌+◌, ◌-◌, Bool, Option, none, some, List, [], ◌∷◌, ◌++◌, ◌==◌, leb, if◌then◌else◌,
  is_some, is_none, length, get_elem?, set, replicate,
}

pub record SlotVec {ℓ} (A : Type ℓ) : Type ℓ where
  pub slots : List (Option A)
  pub num_occupied : ℕ

module _ {ℓ} {A : Type ℓ} where
  -- `SlotVec::is_empty`
  unfoldable pub is_empty : SlotVec A → Bool
  is_empty sv = sv.num_occupied == 0

  -- `SlotVec::len`
  unfoldable pub len : SlotVec A → ℕ
  len sv = sv.num_occupied

  -- `SlotVec::slots_len`
  abbrev pub slots_len : SlotVec A → ℕ
  slots_len sv = length sv.slots

  -- What the slot at `idx` holds; there is nothing beyond the end.
  abbrev pub slot_at : List (Option A) → ℕ → Option A
  slot_at [] idx = none
  slot_at (x ∷ xs) zero = x
  slot_at (x ∷ xs) (suc idx) = slot_at xs idx

  -- `SlotVec::get`
  unfoldable pub get : SlotVec A → ℕ → Option A
  get sv idx = if leb (slots_len sv) idx then none else slot_at sv.slots idx

  -- `self.slots.iter().position(|x| x.is_none())`
  abbrev pub position_none : List (Option A) → Option ℕ
  position_none [] = none
  position_none (none ∷ xs) = some 0
  position_none (some _ ∷ xs) = elim (position_none xs) [ none ↦ none | some i ↦ some (suc i) ]

  -- The `else` branch of `put`, with the position found there.
  abbrev put_into : SlotVec A → A → Option ℕ → Option (SlotVec A × ℕ)
  put_into sv entry none = none
  put_into sv entry (some idx) =
      some
        (record { slots = set sv.slots idx (some entry); num_occupied = sv.num_occupied + 1 }, idx)

  -- `SlotVec::put`
  unfoldable pub put : SlotVec A → A → Option (SlotVec A × ℕ)
  put sv entry =
      if sv.num_occupied == slots_len sv
      then some (
        record { slots = sv.slots ++ some entry ∷ []; num_occupied = sv.num_occupied + 1 },
        slots_len sv,
      )
      else put_into sv entry (position_none sv.slots)

  -- `resize_with(len, Default::default)`, where it grows
  abbrev pub grow : List (Option A) → ℕ → List (Option A)
  grow xs n = xs ++ replicate (n - length xs) none

  -- `SlotVec::put_at`: the new vector and what the slot held before.
  unfoldable pub put_at : SlotVec A → ℕ → A → SlotVec A × Option A
  put_at sv idx item =
      let grown = if leb (slots_len sv) idx then grow sv.slots (idx + 1) else sv.slots in
      let sub_item = slot_at grown idx in
      (
        record {
          slots = set grown idx (some item);
          num_occupied = if is_none sub_item then sv.num_occupied + 1 else sv.num_occupied;
        },
        sub_item,
      )

  -- `SlotVec::remove`
  unfoldable pub remove : SlotVec A → ℕ → SlotVec A × Option A
  remove sv idx =
      if leb (slots_len sv) idx
      then (sv, none)
      else let del_item = slot_at sv.slots idx in
        (
          record {
            slots = set sv.slots idx none;
            num_occupied = if is_some del_item then sv.num_occupied - 1 else sv.num_occupied;
          },
          del_item,
        )

  -- `enumerate().filter(…).map(…)` of `SlotVec::idxes_and_items`, from the index `i` on
  abbrev pub items_from : ℕ → List (Option A) → List (ℕ × A)
  items_from i [] = []
  items_from i (none ∷ xs) = items_from (suc i) xs
  items_from i (some x ∷ xs) = (i, x) ∷ items_from (suc i) xs

  -- `SlotVec::idxes_and_items`
  unfoldable pub idxes_and_items : SlotVec A → List (ℕ × A)
  idxes_and_items sv = items_from 0 sv.slots

  -- `filter_map(|x| x.as_ref())` of `SlotVec::iter`
  abbrev pub occupied : List (Option A) → List A
  occupied [] = []
  occupied (none ∷ xs) = occupied xs
  occupied (some x ∷ xs) = x ∷ occupied xs

  -- `SlotVec::iter`
  unfoldable pub iter : SlotVec A → List A
  iter sv = occupied sv.slots

-- `SlotVec::new` and `SlotVec::with_capacity`
unfoldable pub new {ℓ} : (A : Type ℓ) → SlotVec A
new A = record { slots = []; num_occupied = 0 }
