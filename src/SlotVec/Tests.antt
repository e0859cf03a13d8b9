-- ===== src/SlotVec/Tests.antt =====
-- Small vectors of slot_vec.rs.
use jinux.Base.{ℕ, ◌≡◌, refl, some, none, [], ◌∷◌}
use jinux.Base.Dict.{lookup, IsSorted}
use jinux.SlotVec.{SlotVec, get, put, put_at, idxes_and_items}
use jinux.SlotVec.Listing.{idxes_and_items_lem}

-- A vector with a gap at index 1.
abbrev gapped : SlotVec ℕ
gapped = record { slots = some 10 ∷ none ∷ some 12 ∷ []; num_occupied = 2 }

put_at_gap :
    put gapped 11 ≡ some (record { slots = some 10 ∷ some 11 ∷ some 12 ∷ []; num_occupied = 3 }, 1)
unfolding put
put_at_gap = refl

put_at_end :
    (put_at gapped 4 14).0
    ≡ record { slots = some 10 ∷ none ∷ some 12 ∷ none ∷ some 14 ∷ []; num_occupied = 3 }
unfolding put_at
put_at_end = refl

idxes_and_items_lem_example :
    IsSorted (idxes_and_items gapped) × ((j : ℕ) → lookup j (idxes_and_items gapped) ≡ get gapped j)
idxes_and_items_lem_example = idxes_and_items_lem gapped
