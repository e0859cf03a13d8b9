-- ===== src/RecycleAllocator/Twice.antt =====
-- An id that is reserved by `get_target` and given back is handed out twice (recycle_allocator.rs).
use jinux.Base.{ℕ, zero, suc, ◌+◌, ◌<◌, ◌≡◌, refl, ◌∙◌, Option, some, List, [], ◌∷◌, arith}
use jinux.RecycleAllocator.{RecycleAllocator, with_start_max, alloc, dealloc, get_target}

-- The ids of `n` calls of `alloc`, in order.
unfoldable pub alloc_many : ℕ → RecycleAllocator → List ℕ
unfolding alloc
alloc_many zero a = []
alloc_many (suc n) a = (alloc a).0 ∷ alloc_many n (alloc a).1

abbrev pub last_or : ℕ → List ℕ → ℕ
last_or d [] = d
last_or d (x ∷ xs) = last_or x xs

-- The counter hands out one id after the other.
alloc_many-counter :
    (n c max d : ℕ)
    → c + n < max
    → last_or d (alloc_many (suc n) (record { current = c; recycled = []; skip = []; max = max }))
      ≡ c + n
unfolding alloc_many alloc
alloc_many-counter zero c max d h = ground arith
alloc_many-counter (suc n) c max d h =
    ground (arith, alloc_many-counter n (c + 1) max c (omega arith))

-- A target below `max` is reserved in a new allocator and given back, and then ids are allocated.
unfoldable pub reserve_and_release : ℕ → ℕ → Option RecycleAllocator
unfolding get_target dealloc with_start_max
reserve_and_release target max = dealloc target (get_target target (with_start_max 0 max)).1

-- A target below `max` that is reserved in a new allocator and then given back is handed out by the
-- next `alloc`, and handed out again by a later one though nobody has given it back in between.
pub handed_out_twice :
    (target max : ℕ)
    → target < max
    → (a : RecycleAllocator) × (reserve_and_release target max ≡ some a)
      × ((alloc a).0 ≡ target)
      × (last_or max (alloc_many (suc target) (alloc a).1) ≡ target)
unfolding reserve_and_release alloc
handed_out_twice target max h = (
  record { current = 0; recycled = target ∷ []; skip = []; max = max },
  ground arith,
  refl,
  alloc_many-counter target 0 max max (omega arith) ∙ omega arith,
)
