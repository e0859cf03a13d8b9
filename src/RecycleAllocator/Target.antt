-- ===== src/RecycleAllocator/Target.antt =====
-- `get_target` and `dealloc` (recycle_allocator.rs).
use jinux.Base.{
  ℕ, ◌≤◌, ◌<◌, ◌≡◌, refl, ◌⊎◌, inl, inr, Bool, true, false, not, ◌||◌, ◌&&◌, some, List, [], ◌∷◌,
  ◌==◌, leb, arith, Bool-cases,
}
use jinux.RecycleAllocator.{RecycleAllocator, has, retain_ne, dealloc, get_target}
use jinux.RecycleAllocator.Laws.{is_free, AllBelow, IsDistinct, IsValid, AllBelow-has, HandsOut}

has-retain_ne : (j id : ℕ) (xs : List ℕ) → has j (retain_ne id xs) ≡ (not (id == j) && has j xs)
has-retain_ne j id [] = ground arith
has-retain_ne j id (x ∷ xs) = ground (arith, has-retain_ne j id xs)

AllBelow-retain_ne : (n id : ℕ) (xs : List ℕ) → AllBelow n xs → AllBelow n (retain_ne id xs)
AllBelow-retain_ne n id [] b = tt
AllBelow-retain_ne n id (x ∷ xs) b = ground (arith, AllBelow-retain_ne n id xs b.1, b.0)

IsDistinct-retain_ne : (id : ℕ) (xs : List ℕ) → IsDistinct xs → IsDistinct (retain_ne id xs)
IsDistinct-retain_ne id [] d = tt
IsDistinct-retain_ne id (x ∷ xs) d =
    ground (arith, IsDistinct-retain_ne id xs d.1, has-retain_ne x id xs, d.0)

-- What `get_target` promises of a target below `max`: it hands it out if it is free, and otherwise
-- changes nothing.
abbrev pub Targeted : ℕ → RecycleAllocator → Bool × RecycleAllocator → Type 0
Targeted target a out =
    ((out.0 ≡ true) × (target < a.max) × HandsOut a target out.1)
    ⊎ ((out ≡ (false, a)) × ((a.max ≤ target) ⊎ (is_free a target ≡ false)))

take_skip :
    (target : ℕ) (a : RecycleAllocator)
    → IsValid a
    → a.current ≤ target
    → has target a.skip ≡ false
    → HandsOut a target (record a { skip = target ∷ a.skip })
take_skip target a v ge free = record {
  valid = record {
    below = v.below;
    distinct = v.distinct;
    unskipped =
        λ j h. ground (arith, v.unskipped j h, AllBelow-has a.current j a.recycled v.below h);
  };
  was_free = ground arith;
  view = λ j. ground (arith, AllBelow-has a.current j a.recycled v.below);
}

take_recycled :
    (target : ℕ) (a : RecycleAllocator)
    → IsValid a
    → target < a.current
    → has target a.recycled ≡ true
    → HandsOut a target (record a { recycled = retain_ne target a.recycled })
take_recycled target a v lt free = record {
  valid = record {
    below = AllBelow-retain_ne a.current target a.recycled v.below;
    distinct = IsDistinct-retain_ne target a.recycled v.distinct;
    unskipped = λ j h. ground (arith, has-retain_ne j target a.recycled, v.unskipped j);
  };
  was_free = ground arith;
  view = λ j. ground (arith, has-retain_ne j target a.recycled);
}

-- On a valid allocator `get_target` hands out the target if it is below `max` and free, after which
-- it alone is no longer free; otherwise it returns false and changes nothing.
pub get_target_lem :
    (target : ℕ) (a : RecycleAllocator) → IsValid a → Targeted target a (get_target target a)
unfolding get_target
get_target_lem target a v = elim (Bool-cases (leb a.max target)) [
  | inl beyond ↦ rw beyond (inr (refl, inl (ground arith)))
  | inr within ↦ elim (Bool-cases (leb a.current target)) [
    | inl ahead ↦ elim (Bool-cases (has target a.skip)) [
      | inl skipped ↦ rw within (
          rw ahead (
            rw skipped
              (inr (refl, inr (ground (arith, AllBelow-has a.current target a.recycled v.below))))))
      | inr free ↦
          rw within (
            rw ahead (rw free (inl (refl, ground arith, take_skip target a v (ground arith) free))))
    ]
    | inr behind ↦ elim (Bool-cases (has target a.recycled)) [
      | inl free ↦ rw within (
          rw behind
            (rw free (inl (refl, ground arith, take_recycled target a v (ground arith) free))))
      | inr used ↦ rw within (rw behind (rw used (inr (refl, inr (ground arith)))))
    ]
  ]
]

-- What `dealloc` promises: it gives the id back, and no other id changes.
pub record GivenBack (id : ℕ) (a : RecycleAllocator) (a' : RecycleAllocator) : Type 0 where
  pub result : dealloc id a ≡ some a'
  pub valid : IsValid a'
  pub view : (j : ℕ) → is_free a' j ≡ (id == j || is_free a j)

-- On a valid allocator `dealloc` of an id that is not free and below the counter does not panic: it
-- makes that id free, changes no other, and leaves a valid allocator.
pub dealloc_lem :
    (id : ℕ) (a : RecycleAllocator)
    → IsValid a
    → id < a.current
    → is_free a id ≡ false
    → (a' : RecycleAllocator) × GivenBack id a a'
unfolding dealloc
dealloc_lem id a v lt used = elim (Bool-cases (has id a.skip)) [
  | inl skipped ↦ (
    record a { skip = retain_ne id a.skip; recycled = id ∷ a.recycled },
    record {
      result = ground arith;
      valid = record {
        below = ground (arith, v.below);
        distinct = ground (arith, v.distinct);
        unskipped = λ j h. ground (arith, has-retain_ne j id a.skip, v.unskipped j);
      };
      view = λ j. ground (arith, has-retain_ne j id a.skip);
    },
  )
  | inr plain ↦ (
    record a { recycled = id ∷ a.recycled },
    record {
      result = ground arith;
      valid = record {
        below = ground (arith, v.below);
        distinct = ground (arith, v.distinct);
        unskipped = λ j h. ground (arith, v.unskipped j);
      };
      view = λ j. ground arith;
    },
  )
]
