-- ===== src/RecycleAllocator/Laws.antt =====
-- Which ids are free, and what it is to hand one out (recycle_allocator.rs).
use jinux.Base.{
  ℕ, ◌≤◌, ◌<◌, ◌≡◌, refl, Bool, true, false, not, ◌||◌, ◌&&◌, List, [], ◌∷◌, ◌==◌, leb,
  if◌then◌else◌, arith,
}
use jinux.RecycleAllocator.{RecycleAllocator, with_start_max, has}

-- An id may be handed out: it was given back, or the counter has not passed it and it is not skipped.
abbrev pub is_free : RecycleAllocator → ℕ → Bool
is_free a id = has id a.recycled || leb a.current id && not (has id a.skip)

abbrev pub AllBelow : ℕ → List ℕ → Type 0
AllBelow n [] = Unit
AllBelow n (x ∷ xs) = (x < n) × AllBelow n xs

abbrev pub IsDistinct : List ℕ → Type 0
IsDistinct [] = Unit
IsDistinct (x ∷ xs) = (has x xs ≡ false) × IsDistinct xs

-- The recycled ids are distinct, below the counter and not skipped.
pub record IsValid (a : RecycleAllocator) : Type 0 where
  pub below : AllBelow a.current a.recycled
  pub distinct : IsDistinct a.recycled
  pub unskipped : (id : ℕ) → has id a.recycled ≡ true → has id a.skip ≡ false

pub with_start_max-IsValid : (start max : ℕ) → IsValid (with_start_max start max)
unfolding with_start_max
with_start_max-IsValid start max = record { below = tt; distinct = tt; unskipped = λ id h. refl }

pub AllBelow-mono : (m n : ℕ) (xs : List ℕ) → m ≤ n → AllBelow m xs → AllBelow n xs
AllBelow-mono m n [] h b = tt
AllBelow-mono m n (x ∷ xs) h b = (omega (arith, b.0), AllBelow-mono m n xs h b.1)

pub AllBelow-has : (n id : ℕ) (xs : List ℕ) → AllBelow n xs → has id xs ≡ true → id < n
AllBelow-has n id [] b h = ground arith
AllBelow-has n id (x ∷ xs) b h = ground (arith, b.0, AllBelow-has n id xs b.1)

-- An operation hands out `id`: it was free, it is not any more, and no other id changes.
pub record HandsOut (a : RecycleAllocator) (id : ℕ) (a' : RecycleAllocator) : Type 0 where
  pub valid : IsValid a'
  pub was_free : is_free a id ≡ true
  pub view : (j : ℕ) → is_free a' j ≡ (if id == j then false else is_free a j)
