-- ===== src/SlotVec/Laws.antt =====
-- A slot vector refines a finite map from indices: each operation of slot_vec.rs in terms of `get`.
use jinux.Base.{
  ℕ, zero, suc, ◌+◌, ◌-◌, ◌≤◌, ◌<◌, ◌≡◌, ◌≢◌, refl, sym, ap, ◌∙◌, inl, inr, Option, none, some,
  List, [], ◌∷◌, ◌++◌, arith, ◌==◌, leb, if◌then◌else◌, Bool-cases, length, length-append,
  replicate, set,
}
use jinux.SlotVec.{SlotVec, new, slots_len, get, put, put_at, remove, slot_at, position_none, grow}
use jinux.SlotVec.Count.{
  count_occupied, count_occupied-le, count_occupied-append, count_occupied-grow, count_occupied-set,
  slot_at-set, slot_at-beyond, slot_at-grow, slot_at-push, slot_at-full, IsFirstEmpty,
  position_none-IsFirstEmpty,
}

-- The counter counts the occupied slots.
abbrev pub IsValid {ℓ} : {A : Type ℓ} → SlotVec A → Type 0
IsValid sv = sv.num_occupied ≡ count_occupied sv.slots

pub new-IsValid {ℓ} : (A : Type ℓ) → IsValid (new A)
unfolding new
new-IsValid A = refl

module _ {ℓ} {A : Type ℓ} where
  -- `get` is the slot, in and out of bounds.
  pub get-slot_at : (sv : SlotVec A) (i : ℕ) → get sv i ≡ slot_at sv.slots i
  unfolding get
  get-slot_at sv i = elim (Bool-cases (leb (slots_len sv) i)) [
    | inl beyond ↦ rw beyond (sym (slot_at-beyond sv.slots i (ground arith)))
    | inr within ↦ rw within
  ]

  -- A view of the slots is a view of the vector.
  view_of_slots :
      (sv sv' : SlotVec A) (i j : ℕ) (v : Option A)
      → slot_at sv'.slots j ≡ (if i == j then v else slot_at sv.slots j)
      → get sv' j ≡ (if i == j then v else get sv j)
  view_of_slots sv sv' i j v h = rw (get-slot_at sv j, get-slot_at sv' j) h

  -- What `put` promises of its result.
  pub record PutResult (sv : SlotVec A) (entry : A) (sv' : SlotVec A) (idx : ℕ) : Type ℓ where
    pub result : put sv entry ≡ some (sv', idx)
    pub valid : IsValid sv'
    pub was_free : get sv idx ≡ none
    pub lowest : (j : ℕ) → j < idx → get sv j ≢ none
    pub view : (j : ℕ) → get sv' j ≡ (if idx == j then some entry else get sv j)
    pub counted : sv'.num_occupied ≡ sv.num_occupied + 1
    pub bound : idx ≤ slots_len sv

  put_full :
      (sv : SlotVec A) (entry : A)
      → IsValid sv
      → sv.num_occupied ≡ slots_len sv
      → PutResult sv entry
          (record { slots = sv.slots ++ some entry ∷ []; num_occupied = sv.num_occupied + 1 })
          (slots_len sv)
  unfolding put
  put_full sv entry v full = record {
    result = ground arith;
    valid = omega (arith, count_occupied-append sv.slots (some entry ∷ []));
    was_free =
        ground (arith, get-slot_at sv (slots_len sv), slot_at-beyond sv.slots (slots_len sv));
    lowest = λ j lt. ground (arith, get-slot_at sv j, slot_at-full sv.slots (omega arith) j lt);
    view = λ j. view_of_slots sv _ _ j _ (slot_at-push sv.slots (some entry) j);
    counted = refl;
    bound = omega arith;
  }

  put_gap :
      (sv : SlotVec A) (entry : A) (idx : ℕ)
      → IsValid sv
      → sv.num_occupied ≢ slots_len sv
      → position_none sv.slots ≡ some idx
      → IsFirstEmpty sv.slots idx
      → PutResult sv entry
          (record { slots = set sv.slots idx (some entry); num_occupied = sv.num_occupied + 1 })
          idx
  unfolding put
  put_gap sv entry idx v gap e p = record {
    result = ground arith;
    valid = ground (arith, count_occupied-set sv.slots idx (some entry) p.within, p.empty);
    was_free = ground (arith, get-slot_at sv idx, p.empty);
    lowest = λ j lt. ground (arith, get-slot_at sv j, p.first j lt);
    view = λ j. view_of_slots sv _ idx j _ (slot_at-set sv.slots idx j (some entry) p.within);
    counted = refl;
    bound = omega (arith, p.within);
  }

  -- In a valid vector `put` never panics: it takes the lowest free index, stores the entry there,
  -- changes no other index, and counts one item more.
  pub put_lem :
      (sv : SlotVec A) (entry : A)
      → IsValid sv
      → (sv' : SlotVec A) × (idx : ℕ) × PutResult sv entry sv' idx
  put_lem sv entry v = elim (Bool-cases (sv.num_occupied == slots_len sv)) [
    | inl full ↦ (_, _, put_full sv entry v (ground arith))
    | inr gap ↦
        let (idx, e, p) =
          position_none-IsFirstEmpty sv.slots (ground (arith, count_occupied-le sv.slots)) in
        (_, _, put_gap sv entry idx v (ground arith) e p)
  ]

  grow-within :
      (sv : SlotVec A) (idx : ℕ) → slots_len sv ≤ idx → idx < length (grow sv.slots (idx + 1))
  grow-within sv idx h = omega (
    arith,
    length-append sv.slots (replicate (idx + 1 - slots_len sv) none),
    length-empties (idx + 1 - slots_len sv),
  )
    where
      length-empties : (n : ℕ) → length {A = Option A} (replicate n none) ≡ n
      length-empties zero = refl
      length-empties (suc n) = omega (arith, length-empties n)

  -- What an operation promises that returns what the slot `idx` held and leaves `v` in it.
  pub record Stored (sv : SlotVec A) (idx : ℕ) (v : Option A) (out : SlotVec A × Option A)
      : Type ℓ where
    pub valid : IsValid out.0
    pub old : out.1 ≡ get sv idx
    pub view : (j : ℕ) → get out.0 j ≡ (if idx == j then v else get sv j)

  -- The slot list of `put_at` before the write: long enough, and with the same contents.
  put_at_slots : SlotVec A → ℕ → List (Option A)
  put_at_slots sv idx = if leb (slots_len sv) idx then grow sv.slots (idx + 1) else sv.slots

  record Grown (sv : SlotVec A) (idx : ℕ) (xs : List (Option A)) : Type ℓ where
    within : idx < length xs
    same : (j : ℕ) → slot_at xs j ≡ slot_at sv.slots j
    counted : count_occupied xs ≡ count_occupied sv.slots

  put_at_slots-Grown : (sv : SlotVec A) (idx : ℕ) → Grown sv idx (put_at_slots sv idx)
  unfolding put_at_slots
  put_at_slots-Grown sv idx = elim (Bool-cases (leb (slots_len sv) idx)) [
    | inl beyond ↦ rw beyond (record {
      within = grow-within sv idx (ground arith);
      same = λ j. slot_at-grow sv.slots _ j;
      counted = count_occupied-grow sv.slots _;
    })
    | inr inside ↦ rw inside (record { within = ground arith; same = λ j. refl; counted = refl })
  ]

  -- In a valid vector `put_at` stores the item at the index asked for, grown or not, returns what
  -- was there, changes no other index, and leaves a valid vector.
  pub put_at_lem :
      (sv : SlotVec A) (idx : ℕ) (item : A)
      → IsValid sv
      → Stored sv idx (some item) (put_at sv idx item)
  unfolding put_at put_at_slots
  put_at_lem sv idx item v = record {
    valid = ground (arith, count_occupied-set xs idx (some item) g.within, g.counted);
    old = g.same idx ∙ sym (get-slot_at sv idx);
    view = λ j. view_of_slots sv _ idx j _ (
        slot_at-set xs idx j (some item) g.within
        ∙ ap (λ o. if idx == j then some item else o) (g.same j));
  }
    where
      xs : List (Option A)
      xs = put_at_slots sv idx

      g : Grown sv idx xs
      g = put_at_slots-Grown sv idx

  -- In a valid vector `remove` empties the index asked for, returns what was there, changes no
  -- other index, and leaves a valid vector.
  pub remove_lem : (sv : SlotVec A) (idx : ℕ) → IsValid sv → Stored sv idx none (remove sv idx)
  unfolding remove
  remove_lem sv idx v = elim (Bool-cases (leb (slots_len sv) idx)) [
    | inl beyond ↦ rw beyond (record {
      valid = v;
      old = sym (get_beyond idx (ground arith));
      view = λ j. elim (Bool-cases (idx == j)) [
        | inl e ↦ rw e (get_beyond j (ground arith))
        | inr e ↦ rw e
      ];
    })
    | inr inside ↦ rw inside (record {
      valid = ground (arith, count_occupied-set sv.slots idx none (ground arith));
      old = sym (get-slot_at sv idx);
      view = λ j. view_of_slots sv _ idx j _ (slot_at-set sv.slots idx j none (ground arith));
    })
  ]
    where
      get_beyond : (i : ℕ) → slots_len sv ≤ i → get sv i ≡ none
      get_beyond i h = get-slot_at sv i ∙ slot_at-beyond sv.slots i h
