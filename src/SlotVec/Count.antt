-- ===== src/SlotVec/Count.antt =====
-- The number of occupied slots under the updates of a slot list.
use jinux.Base.{
  ℕ, zero, suc, ◌+◌, ◌≤◌, ◌<◌, ◌≡◌, ◌≢◌, refl, Option, none, some, List, [], ◌∷◌, ◌++◌, arith, ◌==◌,
  if◌then◌else◌, length, set, replicate,
}
use jinux.SlotVec.{slot_at, position_none}

-- One for an occupied slot.
abbrev pub weight {ℓ} : {A : Type ℓ} → Option A → ℕ
weight none = 0
weight (some _) = 1

module _ {ℓ} {A : Type ℓ} where
  abbrev pub count_occupied : List (Option A) → ℕ
  count_occupied [] = 0
  count_occupied (x ∷ xs) = weight x + count_occupied xs

  pub count_occupied-le : (xs : List (Option A)) → count_occupied xs ≤ length xs
  count_occupied-le [] = omega arith
  count_occupied-le (none ∷ xs) = omega (arith, count_occupied-le xs)
  count_occupied-le (some x ∷ xs) = omega (arith, count_occupied-le xs)

  pub count_occupied-append :
      (xs ys : List (Option A)) → count_occupied (xs ++ ys) ≡ count_occupied xs + count_occupied ys
  count_occupied-append [] ys = omega arith
  count_occupied-append (x ∷ xs) ys = omega (arith, count_occupied-append xs ys)

  pub count_occupied-grow :
      (xs : List (Option A)) (n : ℕ) → count_occupied (xs ++ replicate n none) ≡ count_occupied xs
  count_occupied-grow [] zero = refl
  count_occupied-grow [] (suc n) = omega (arith, count_occupied-grow [] n)
  count_occupied-grow (x ∷ xs) n = omega (arith, count_occupied-grow xs n)

  pub count_occupied-set :
      (xs : List (Option A)) (i : ℕ) (v : Option A)
      → i < length xs
      → count_occupied (set xs i v) + weight (slot_at xs i) ≡ count_occupied xs + weight v
  count_occupied-set [] i v h = elim h [ ]
  count_occupied-set (x ∷ xs) zero v h = omega arith
  count_occupied-set (x ∷ xs) (suc i) v h = omega (arith, count_occupied-set xs i v (omega arith))

  pub slot_at-set :
      (xs : List (Option A)) (i j : ℕ) (v : Option A)
      → i < length xs
      → slot_at (set xs i v) j ≡ (if i == j then v else slot_at xs j)
  slot_at-set [] i j v h = elim h [ ]
  slot_at-set (x ∷ xs) zero zero v h = refl
  slot_at-set (x ∷ xs) zero (suc j) v h = ground arith
  slot_at-set (x ∷ xs) (suc i) zero v h = ground arith
  slot_at-set (x ∷ xs) (suc i) (suc j) v h = ground (arith, slot_at-set xs i j v (omega arith))

  pub slot_at-beyond : (xs : List (Option A)) (i : ℕ) → length xs ≤ i → slot_at xs i ≡ none
  slot_at-beyond [] i h = refl
  slot_at-beyond (x ∷ xs) zero h = absurd (omega arith)
  slot_at-beyond (x ∷ xs) (suc i) h = slot_at-beyond xs i (omega arith)

  -- Growing by empty slots does not show.
  pub slot_at-grow :
      (xs : List (Option A)) (n i : ℕ) → slot_at (xs ++ replicate n none) i ≡ slot_at xs i
  slot_at-grow [] zero i = refl
  slot_at-grow [] (suc n) zero = refl
  slot_at-grow [] (suc n) (suc i) = slot_at-grow [] n i
  slot_at-grow (x ∷ xs) n zero = refl
  slot_at-grow (x ∷ xs) n (suc i) = slot_at-grow xs n i

  pub slot_at-push :
      (xs : List (Option A)) (v : Option A) (j : ℕ)
      → slot_at (xs ++ v ∷ []) j ≡ (if length xs == j then v else slot_at xs j)
  slot_at-push [] v zero = refl
  slot_at-push [] v (suc j) = ground arith
  slot_at-push (x ∷ xs) v zero = ground arith
  slot_at-push (x ∷ xs) v (suc j) = ground (arith, slot_at-push xs v j)

  -- A list with an empty slot has a first one.
  pub record IsFirstEmpty (xs : List (Option A)) (i : ℕ) : Type ℓ where
    pub within : i < length xs
    pub empty : slot_at xs i ≡ none
    pub first : (j : ℕ) → j < i → slot_at xs j ≢ none

  pub position_none-IsFirstEmpty :
      (xs : List (Option A))
      → count_occupied xs < length xs
      → (i : ℕ) × (position_none xs ≡ some i) × IsFirstEmpty xs i
  position_none-IsFirstEmpty [] h = elim h [ ]
  position_none-IsFirstEmpty (none ∷ xs) h =
      (0, refl, record { within = omega arith; empty = refl; first = λ j lt. absurd (omega arith) })
  position_none-IsFirstEmpty (some x ∷ xs) h =
      let (i, e, p) = position_none-IsFirstEmpty xs (omega arith) in
      (
        suc i,
        ground arith,
        record {
          within = omega (arith, p.within);
          empty = p.empty;
          first = elim [ zero ↦ λ lt. cc | suc j ↦ λ lt. p.first j (omega arith) ];
        },
      )

  -- Where every slot is occupied, every index before the end is.
  pub slot_at-full :
      (xs : List (Option A))
      → count_occupied xs ≡ length xs
      → (j : ℕ) → j < length xs
      → slot_at xs j ≢ none
  slot_at-full [] h j lt = elim lt [ ]
  slot_at-full (none ∷ xs) h j lt = absurd (omega (arith, count_occupied-le xs))
  slot_at-full (some x ∷ xs) h zero lt = cc
  slot_at-full (some x ∷ xs) h (suc j) lt = slot_at-full xs (omega arith) j (omega arith)
