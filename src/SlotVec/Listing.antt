-- ===== src/SlotVec/Listing.antt =====
-- The iterators of slot_vec.rs list exactly the occupied slots, in the order of their indices.
use jinux.Base.{
  ℕ, zero, suc, ◌+◌, ◌<◌, ◌≡◌, refl, ap, ◌∙◌, sym, Option, none, some, List, [], ◌∷◌, map, arith,
  length,
}
use jinux.Base.Dict.{lookup, Above, IsSorted}
use jinux.SlotVec.{SlotVec, get, idxes_and_items, iter, items_from, occupied, slot_at}
use jinux.SlotVec.Count.{count_occupied}
use jinux.SlotVec.Laws.{get-slot_at, IsValid}

module _ {A : Type 0} where
  Above-items_from : (k i : ℕ) (xs : List (Option A)) → k < i → Above k (items_from i xs)
  Above-items_from k i [] h = tt
  Above-items_from k i (none ∷ xs) h = Above-items_from k (suc i) xs (omega arith)
  Above-items_from k i (some x ∷ xs) h = (h, Above-items_from k (suc i) xs (omega arith))

  IsSorted-items_from : (i : ℕ) (xs : List (Option A)) → IsSorted (items_from i xs)
  IsSorted-items_from i [] = tt
  IsSorted-items_from i (none ∷ xs) = IsSorted-items_from (suc i) xs
  IsSorted-items_from i (some x ∷ xs) =
      (Above-items_from i (suc i) xs (omega arith), IsSorted-items_from (suc i) xs)

  lookup_before : (j i : ℕ) (xs : List (Option A)) → j < i → lookup j (items_from i xs) ≡ none
  lookup_before j i [] h = refl
  lookup_before j i (none ∷ xs) h = lookup_before j (suc i) xs (omega arith)
  lookup_before j i (some x ∷ xs) h = ground (arith, lookup_before j (suc i) xs (omega arith))

  lookup-items_from :
      (j k i : ℕ) (xs : List (Option A)) → j ≡ i + k → lookup j (items_from i xs) ≡ slot_at xs k
  lookup-items_from j k i [] h = refl
  lookup-items_from j zero i (none ∷ xs) h = lookup_before j (suc i) xs (omega arith)
  lookup-items_from j zero i (some x ∷ xs) h = ground arith
  lookup-items_from j (suc k) i (none ∷ xs) h = lookup-items_from j k (suc i) xs (omega arith)
  lookup-items_from j (suc k) i (some x ∷ xs) h =
      ground (arith, lookup-items_from j k (suc i) xs (omega arith))

  -- Read as a dictionary, the listing of a vector is the vector, in strictly ascending order.
  pub idxes_and_items_lem :
      (sv : SlotVec A)
      → IsSorted (idxes_and_items sv) × ((j : ℕ) → lookup j (idxes_and_items sv) ≡ get sv j)
  unfolding idxes_and_items
  idxes_and_items_lem sv = (
    IsSorted-items_from 0 sv.slots,
    λ j. lookup-items_from j j 0 sv.slots (omega arith) ∙ sym (get-slot_at sv j),
  )

  items_from-occupied :
      (i : ℕ) (xs : List (Option A)) → map (λ p. p.1) (items_from i xs) ≡ occupied xs
  items_from-occupied i [] = refl
  items_from-occupied i (none ∷ xs) = items_from-occupied (suc i) xs
  items_from-occupied i (some x ∷ xs) = ap (λ ys. x ∷ ys) (items_from-occupied (suc i) xs)

  length-occupied : (xs : List (Option A)) → length (occupied xs) ≡ count_occupied xs
  length-occupied [] = refl
  length-occupied (none ∷ xs) = omega (arith, length-occupied xs)
  length-occupied (some x ∷ xs) = omega (arith, length-occupied xs)

  -- The iterator over the items of a valid vector yields those of the indexed listing, as many as
  -- the vector counts.
  pub iter_lem :
      (sv : SlotVec A)
      → IsValid sv
      → (iter sv ≡ map (λ p. p.1) (idxes_and_items sv)) × (length (iter sv) ≡ sv.num_occupied)
  unfolding iter idxes_and_items
  iter_lem sv v = (sym (items_from-occupied 0 sv.slots), omega (arith, length-occupied sv.slots))
