-- ===== src/RecycleAllocator.antt =====
-- The allocator of ids: framework/aster-frame/src/util/recycle_allocator.rs.
-- `recycled` lists the last id pushed first. A failed assertion is `none`; usize is 64 bits wide.
pub mod Laws
pub mod Alloc
pub mod Target
pub mod Twice
mod Tests
use jinux.Base.{
  ℕ, zero, suc, ◌+◌, ◌-◌, ◌^◌, Bool, true, false, not, ◌||◌, ◌&&◌, Option, none, some, List, [],
  ◌∷◌, ◌==◌, ◌!=◌, leb, ltb, if◌then◌else◌, length,
}

pub record RecycleAllocator : Type 0 where
  pub current : ℕ
  pub recycled : List ℕ
  pub skip : List ℕ
  pub max : ℕ

-- `usize::MAX`
abbrev pub usize_max : ℕ
usize_max = 2 ^ 64 - 1

-- `RecycleAllocator::with_start_max`
unfoldable pub with_start_max : ℕ → ℕ → RecycleAllocator
with_start_max start max = record { current = start; recycled = []; skip = []; max = max }

-- `Vec::contains`, and the `any` of `dealloc`
abbrev pub has : ℕ → List ℕ → Bool
has id [] = false
has id (x ∷ xs) = id == x || has id xs

-- `retain(|value| *value != id)`
abbrev pub retain_ne : ℕ → List ℕ → List ℕ
retain_ne id [] = []
retain_ne id (x ∷ xs) = if x == id then retain_ne id xs else x ∷ retain_ne id xs

-- The `while` loop of `alloc`, with the number of rounds left.
unfoldable pub skip_on : ℕ → ℕ → List ℕ → ℕ
skip_on zero current skip = current
skip_on (suc n) current skip =
    let rest = skip_on n (current + 1) skip in if has current skip then rest else current

-- `alloc` after the loop, which has brought `current` to `c`.
abbrev pub alloc_at : ℕ → RecycleAllocator → ℕ × RecycleAllocator
alloc_at c a =
    if c == a.max then (usize_max, record a { current = c }) else (c, record a { current = c + 1 })

-- `alloc`, with the recycled ids that it reads.
abbrev pub alloc_from : List ℕ → RecycleAllocator → ℕ × RecycleAllocator
alloc_from (id ∷ ids) a = (id, record a { recycled = ids })
alloc_from [] a = alloc_at (skip_on (length a.skip) a.current a.skip) a

-- `RecycleAllocator::alloc`
unfoldable pub alloc : RecycleAllocator → ℕ × RecycleAllocator
unfolding skip_on
alloc a = alloc_from a.recycled a

-- `RecycleAllocator::dealloc`
unfoldable pub dealloc : ℕ → RecycleAllocator → Option RecycleAllocator
dealloc id a =
    if not (has id a.skip)
    then if ltb id a.current && not (has id a.recycled)
      then some (record a { recycled = id ∷ a.recycled })
      else none
    else some (record a { skip = retain_ne id a.skip; recycled = id ∷ a.recycled })

-- `RecycleAllocator::get_target`
unfoldable pub get_target : ℕ → RecycleAllocator → Bool × RecycleAllocator
get_target target a =
    if leb a.max target
    then (false, a)
    else if leb a.current target
    then if has target a.skip then (false, a) else (true, record a { skip = target ∷ a.skip })
    else if has target a.recycled
    then (true, record a { recycled = retain_ne target a.recycled })
    else (false, a)
