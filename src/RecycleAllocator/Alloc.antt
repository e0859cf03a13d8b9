-- ===== src/RecycleAllocator/Alloc.antt =====
-- `RecycleAllocator::alloc` (recycle_allocator.rs).
use jinux.Base.{
  ℕ, zero, suc, ◌+◌, ◌≤◌, ◌<◌, ◌≡◌, refl, ◌⊎◌, inl, inr, true, false, List, [], ◌∷◌, ◌==◌, leb,
  if◌then◌else◌, length, arith, Bool-cases, sym, ap, ◌∙◌, subst,
}
use jinux.RecycleAllocator.{RecycleAllocator, usize_max, has, skip_on, alloc_at, alloc_from, alloc}
use jinux.RecycleAllocator.Laws.{is_free, AllBelow, IsDistinct, IsValid, AllBelow-mono, HandsOut}

-- How many of the ids are at least `c`.
abbrev count_from : ℕ → List ℕ → ℕ
count_from c [] = 0
count_from c (x ∷ xs) = (if leb c x then 1 else 0) + count_from c xs

count_from-le : (c : ℕ) (xs : List ℕ) → count_from c xs ≤ length xs
count_from-le c [] = omega arith
count_from-le c (x ∷ xs) = ground (arith, count_from-le c xs)

count_from-suc : (c : ℕ) (xs : List ℕ) → count_from (c + 1) xs ≤ count_from c xs
count_from-suc c [] = omega arith
count_from-suc c (x ∷ xs) = ground (arith, count_from-suc c xs)

count_from-has : (c : ℕ) (xs : List ℕ) → has c xs ≡ true → count_from (c + 1) xs < count_from c xs
count_from-has c [] h = ground arith
count_from-has c (x ∷ xs) h = ground (arith, count_from-has c xs, count_from-suc c xs)

count_from-none : (c : ℕ) (xs : List ℕ) → count_from c xs ≡ 0 → has c xs ≡ false
count_from-none c [] h = refl
count_from-none c (x ∷ xs) h = ground (arith, count_from-none c xs)

-- The loop stops at the first id that is not skipped.
pub record IsFirstUnskipped (c : ℕ) (skip : List ℕ) (r : ℕ) : Type 0 where
  pub unskipped : has r skip ≡ false
  pub above : c ≤ r
  pub passed : (j : ℕ) → c ≤ j → j < r → has j skip ≡ true

skip_on-IsFirstUnskipped :
    (n c : ℕ) (skip : List ℕ) → count_from c skip ≤ n → IsFirstUnskipped c skip (skip_on n c skip)
unfolding skip_on
skip_on-IsFirstUnskipped zero c skip h = record {
  unskipped = count_from-none c skip (omega arith);
  above = omega arith;
  passed = λ j ge lt. absurd (omega arith);
}
skip_on-IsFirstUnskipped (suc n) c skip h = elim (Bool-cases (has c skip)) [
  | inl hit ↦
      let p = skip_on-IsFirstUnskipped n (c + 1) skip (omega (arith, count_from-has c skip hit)) in
      rw hit (record {
        unskipped = p.unskipped;
        above = omega (arith, p.above);
        passed = λ j ge lt. elim (Bool-cases (c == j)) [
          | inl e ↦ ground arith
          | inr e ↦ p.passed j (ground arith) lt
        ];
      })
  | inr miss ↦
      rw miss
        (record { unskipped = miss; above = omega arith; passed = λ j ge lt. absurd (omega arith) })
]

-- No id is left: the counter has come to `max`, none is recycled, and all ids between are skipped.
pub record IsExhausted (a : RecycleAllocator) : Type 0 where
  pub none_recycled : a.recycled ≡ []
  pub taken : (j : ℕ) → j < a.max → is_free a j ≡ false

alloc_recycled :
    (id : ℕ) (ids : List ℕ) (a : RecycleAllocator)
    → IsValid a
    → a.recycled ≡ id ∷ ids
    → HandsOut a id (record a { recycled = ids })
alloc_recycled id ids a v e =
    let below : AllBelow a.current (id ∷ ids) = subst (AllBelow a.current) e v.below in
    let distinct : IsDistinct (id ∷ ids) = subst IsDistinct e v.distinct in
    record {
      valid = record {
        below = below.1;
        distinct = distinct.1;
        unskipped = λ j h. v.unskipped j (ground (arith, ap (has j) e));
      };
      was_free = ground (arith, ap (has id) e);
      view = λ j. ground (arith, ap (has j) e, distinct.0, below.0);
    }

alloc_fresh :
    (c : ℕ) (a : RecycleAllocator)
    → IsValid a
    → a.recycled ≡ []
    → IsFirstUnskipped a.current a.skip c
    → HandsOut a c (record a { current = c + 1 })
alloc_fresh c a v e p = record {
  valid = record {
    below = AllBelow-mono a.current (c + 1) a.recycled (omega (arith, p.above)) v.below;
    distinct = v.distinct;
    unskipped = v.unskipped;
  };
  was_free = ground (arith, p.above, p.unskipped);
  view = λ j. ground (arith, ap (has j) e, p.above, p.passed j);
}

-- What `alloc` promises: a free id, or that there is none below `max`.
abbrev pub Allocated : RecycleAllocator → Type 0
Allocated a =
    ((id : ℕ) × (a' : RecycleAllocator) × (alloc a ≡ (id, a')) × HandsOut a id a')
    ⊎ (((alloc a).0 ≡ usize_max) × IsExhausted a × IsValid (alloc a).1)

alloc_after_loop :
    (c : ℕ) (a : RecycleAllocator)
    → IsValid a
    → a.recycled ≡ []
    → IsFirstUnskipped a.current a.skip c
    → alloc a ≡ alloc_at c a
    → Allocated a
alloc_after_loop c a v e p step = elim (Bool-cases (c == a.max)) [
  | inl full ↦ inr (
    ground arith,
    record { none_recycled = e; taken = λ j lt. ground (arith, ap (has j) e, p.passed j) },
    subst IsValid (sym (ap (λ x. x.1) (step ∙ at_end full))) (record {
      below = AllBelow-mono a.current c a.recycled p.above v.below;
      distinct = v.distinct;
      unskipped = v.unskipped;
    }),
  )
  | inr room ↦ inl (c, record a { current = c + 1 }, step ∙ ground arith, alloc_fresh c a v e p)
]
  where
    at_end : (c == a.max) ≡ true → alloc_at c a ≡ (usize_max, record a { current = c })
    at_end full = rw full

-- On a valid allocator `alloc` hands out an id that is free, after which that id alone is no longer
-- free, or, if no id below `max` is free, returns `usize::MAX`. The allocator stays valid.
pub alloc_lem : (a : RecycleAllocator) → IsValid a → Allocated a
unfolding alloc
alloc_lem a v = by_recycled a.recycled refl
  where
    by_recycled : (ids : List ℕ) → a.recycled ≡ ids → Allocated a
    by_recycled [] e =
        alloc_after_loop (skip_on (length a.skip) a.current a.skip) a v e
          (skip_on-IsFirstUnskipped (length a.skip) a.current a.skip
            (count_from-le a.current a.skip))
          (ap (λ ids. alloc_from ids a) e)
    by_recycled (id ∷ ids) e =
        inl (
          id,
          record a { recycled = ids },
          ap (λ xs. alloc_from xs a) e,
          alloc_recycled id ids a v e,
        )
