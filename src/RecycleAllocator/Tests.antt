-- ===== src/RecycleAllocator/Tests.antt =====
-- An allocator of recycle_allocator.rs with a recycled and a skipped id.
use jinux.Base.{◌≡◌, refl, some, [], ◌∷◌, arith}
use jinux.RecycleAllocator.{RecycleAllocator, alloc}
use jinux.RecycleAllocator.Laws.{IsValid}
use jinux.RecycleAllocator.Twice.{alloc_many, last_or, reserve_and_release, handed_out_twice}

-- 0, 2 and 3 are handed out, 1 was given back, and 4 is reserved.
abbrev some_used : RecycleAllocator
some_used = record { current = 4; recycled = 1 ∷ []; skip = 4 ∷ []; max = 100 }

some_used-IsValid : IsValid some_used
some_used-IsValid = record {
  below = ground arith;
  distinct = ground arith;
  unskipped = λ id h. ground arith;
}

next_ids : alloc_many 3 some_used ≡ 1 ∷ 5 ∷ 6 ∷ []
unfolding alloc_many
next_ids = refl

handed_out_twice_example :
    (a : RecycleAllocator) × (reserve_and_release 3 100 ≡ some a)
    × ((alloc a).0 ≡ 3)
    × (last_or 100 (alloc_many 4 (alloc a).1) ≡ 3)
handed_out_twice_example = handed_out_twice 3 100 (omega arith)
