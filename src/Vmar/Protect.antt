-- ===== src/Vmar/Protect.antt =====
-- `check_protected_range` finds out whether every address of a range is in use (vmar/mod.rs).
use Prim.Native.Nat.{max}
use jinux.Base.{
  ℕ, ◌≤◌, ◌≡◌, ◌∙◌, refl, Bool, true, false, ◌&&◌, ◌||◌, some, [], ◌∷◌, Result, ok, err, Errno,
  eacces, arith, Bool-cases, inl, inr,
}
use jinux.Base.Dict.{Dict}
use jinux.Mapping.{Mapping}
use jinux.Region.{Range, Regions, is_intersected, get_intersected_range}
use jinux.Region.Cover.{in_range, covers, in_range-get_intersected_range, not_intersected}
use jinux.Vmar.{
  Vmar, vmar, Children, no_child, child, vmar_range, meets_free, check_protected_range,
  check_children,
}

-- An address is free in a region, or in a child that has it.
abbrev mutual
  pub is_free : ℕ → Vmar → Bool
  is_free a (vmar d base size cs ms free) = covers a free || is_free_in a cs

  pub is_free_in : ℕ → Children → Bool
  is_free_in a no_child = false
  is_free_in a (child key v cs) = (in_range a (vmar_range v) && is_free a v) || is_free_in a cs

-- What an answer says of a range, given which addresses are free.
abbrev pub Says : Range → (ℕ → Bool) → Result (Unit {0}) → Type 0
Says r free (ok u) = (a : ℕ) → in_range a r ≡ true → free a ≡ false
Says r free (err e) = (e ≡ eacces) × (a : ℕ) × (in_range a r ≡ true) × (free a ≡ true)

meets_free-false :
    (a : ℕ) (r : Range) (free : Regions)
    → meets_free r free ≡ false
    → in_range a r ≡ true
    → covers a free ≡ false
meets_free-false a r [] e i = refl
meets_free-false a r ((b, s) ∷ free) e i =
    ground (arith, not_intersected a s r, meets_free-false a r free)

is_intersected-some :
    (r s : Range) → is_intersected r s ≡ true → in_range (max r.start s.start) r ≡ true
unfolding is_intersected
is_intersected-some r s e = ground arith

is_intersected-other :
    (r s : Range) → is_intersected r s ≡ true → in_range (max r.start s.start) s ≡ true
unfolding is_intersected
is_intersected-other r s e = ground arith

meets_free-true :
    (r : Range) (free : Regions)
    → meets_free r free ≡ true
    → (a : ℕ) × (in_range a r ≡ true) × (covers a free ≡ true)
meets_free-true r [] e = ground arith
meets_free-true r ((b, s) ∷ free) e = elim (Bool-cases (is_intersected s r)) [
  | inl meet ↦ (
    max s.start r.start,
    is_intersected-other s r meet,
    ground (arith, is_intersected-some s r meet),
  )
  | inr apart ↦
      let rest = meets_free-true r free (ground arith) in (rest.0, rest.1, ground (arith, rest.2))
]

-- The answer on a range in a region.
abbrev pub Answers : Range → Vmar → Type 0
Answers r v =
    (res : Result (Unit {0})) × (check_protected_range r v ≡ some res)
    × Says r (λ a. is_free a v) res

abbrev AnswersIn : Range → Children → Type 0
AnswersIn r cs =
    (res : Result (Unit {0})) × (check_children r cs ≡ some res) × Says r (λ a. is_free_in a cs) res

check_children-err :
    (r : Range) (key : ℕ) (v : Vmar) (cs : Children) (e : Errno)
    → is_intersected (vmar_range v) r ≡ true
    → check_protected_range (get_intersected_range (vmar_range v) r) v ≡ some (err e)
    → check_children r (child key v cs) ≡ some (err e)
unfolding check_children
check_children-err r key v cs e m p = ground (arith, m, p)

check_children-ok :
    (r : Range) (key : ℕ) (v : Vmar) (cs : Children)
    → is_intersected (vmar_range v) r ≡ true
    → check_protected_range (get_intersected_range (vmar_range v) r) v ≡ some (ok tt)
    → check_children r (child key v cs) ≡ check_children r cs
unfolding check_children
check_children-ok r key v cs m p = ground (arith, m, p)

check_children-apart :
    (r : Range) (key : ℕ) (v : Vmar) (cs : Children)
    → is_intersected (vmar_range v) r ≡ false
    → check_children r (child key v cs) ≡ check_children r cs
unfolding check_children
check_children-apart r key v cs m = ground (arith, m)

-- Where a child has nothing free in a range, the answer is that of the other children.
Says-rest :
    (r : Range) (key : ℕ) (v : Vmar) (cs : Children) (res : Result (Unit {0}))
    → ((a : ℕ) → in_range a r ≡ true → (in_range a (vmar_range v) && is_free a v) ≡ false)
    → Says r (λ a. is_free_in a cs) res
    → Says r (λ a. is_free_in a (child key v cs)) res
Says-rest r key v cs (ok u) h says = λ a i. ground (arith, h a i, says a i)
Says-rest r key v cs (err e) h says = (says.0, says.1, says.2, ground (arith, says.3))

Answers-child :
    (r : Range) (key : ℕ) (v : Vmar) (cs : Children)
    → is_intersected (vmar_range v) r ≡ true
    → Answers (get_intersected_range (vmar_range v) r) v
    → AnswersIn r cs
    → AnswersIn r (child key v cs)
Answers-child r key v cs m (ok u, p, says) rest = (
  rest.0,
  check_children-ok r key v cs m p ∙ rest.1,
  Says-rest r key v cs rest.0
      (λ a i. ground (arith, i, says a, in_range-get_intersected_range a (vmar_range v) r)) rest.2,
)
Answers-child r key v cs m (err e, p, (same, a, i, free)) rest = (
  err e,
  check_children-err r key v cs e m p,
  (
    same,
    a,
    ground (arith, i, in_range-get_intersected_range a (vmar_range v) r),
    ground (arith, i, free, in_range-get_intersected_range a (vmar_range v) r),
  ),
)

Answers-apart :
    (r : Range) (key : ℕ) (v : Vmar) (cs : Children)
    → is_intersected (vmar_range v) r ≡ false
    → AnswersIn r cs
    → AnswersIn r (child key v cs)
Answers-apart r key v cs m rest = (
  rest.0,
  check_children-apart r key v cs m ∙ rest.1,
  Says-rest r key v cs rest.0 (λ a i. ground (arith, i, not_intersected a (vmar_range v) r m))
      rest.2,
)

-- The assertions of the check.
abbrev pub IsInside : Range → Vmar → Type 0
IsInside r v = ((vmar_range v).start ≤ r.start) × (r.end ≤ (vmar_range v).end)

IsInside-get_intersected_range :
    (r : Range) (v : Vmar) → IsInside (get_intersected_range (vmar_range v) r) v
unfolding get_intersected_range
IsInside-get_intersected_range r v = ground arith

Answers-free :
    (r : Range) (d : Bool) (base size : ℕ) (cs : Children) (ms : Dict Mapping) (free : Regions)
    → IsInside r (vmar d base size cs ms free)
    → meets_free r free ≡ true
    → Answers r (vmar d base size cs ms free)
unfolding check_protected_range
Answers-free r d base size cs ms free inside m =
    let found = meets_free-true r free m in
    (err eacces, ground arith, (refl, found.0, found.1, ground (arith, found.2)))

Answers-used :
    (r : Range) (d : Bool) (base size : ℕ) (cs : Children) (ms : Dict Mapping) (free : Regions)
    → IsInside r (vmar d base size cs ms free)
    → meets_free r free ≡ false
    → AnswersIn r cs
    → Answers r (vmar d base size cs ms free)
unfolding check_protected_range
Answers-used r d base size cs ms free inside m (ok u, p, says) =
    (ok u, ground (arith, p), λ a i. ground (arith, says a i, meets_free-false a r free m i))
Answers-used r d base size cs ms free inside m (err e, p, (same, a, i, f)) =
    (err e, ground (arith, p), (same, a, i, ground (arith, f)))

Answers-none : (r : Range) → AnswersIn r no_child
unfolding check_children
Answers-none r = (ok tt, refl, λ a i. refl)

mutual
  check_region_lem : (r : Range) (v : Vmar) → IsInside r v → Answers r v
  check_region_lem r (vmar d base size cs ms free) inside = elim (Bool-cases (meets_free r free)) [
    | inl m ↦ Answers-free r d base size cs ms free inside m
    | inr m ↦ Answers-used r d base size cs ms free inside m (check_children_lem r cs)
  ]

  check_children_lem : (r : Range) (cs : Children) → AnswersIn r cs
  check_children_lem r no_child = Answers-none r
  check_children_lem r (child key v cs) = elim (Bool-cases (is_intersected (vmar_range v) r)) [
    | inl m ↦
        Answers-child r key v cs m
          (check_region_lem (get_intersected_range (vmar_range v) r) v
            (IsInside-get_intersected_range r v))
          (check_children_lem r cs)
    | inr m ↦ Answers-apart r key v cs m (check_children_lem r cs)
  ]

-- On a range inside a region `check_protected_range` does not panic, at any depth of children: it succeeds exactly
-- when no address of the range is free, in the region or in the child that has it, and fails with EACCES otherwise.
pub check_protected_range_lem : (r : Range) (v : Vmar) → IsInside r v → Answers r v
check_protected_range_lem = check_region_lem
