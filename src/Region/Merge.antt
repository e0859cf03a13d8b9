-- ===== src/Region/Merge.antt =====
-- `merge_continuous_regions` beside a plain recursion that joins neighbours (vmar/mod.rs).
use mathlib.Core.List.{append_assoc}
use jinux.Base.{
  ℕ, zero, suc, ◌≤◌, ◌<◌, ◌≡◌, ◌∙◌, sym, ap, refl, false, ◌||◌, none, some, List, [], ◌∷◌, ◌++◌,
  map, ◌==◌, if◌then◌else◌, arith, Bool-cases, inl, inr, length,
}
use jinux.Base.Dict.{lookup, insert}
use jinux.Region.{
  Range, Regions, merge_other_region, merge_following, merge_keys, merge_continuous_regions,
}
use jinux.Region.Cover.{in_range, covers, AreSeparate, AreSeparate-mono, lookup-below}
use jinux.Region.Split.{Below, Below-mono, Below-append}

-- A region in front of regions, joined with the first of them where it ends there.
abbrev pub glue : ℕ → Range → Regions → Regions
glue b r [] = (b, r) ∷ []
glue b r ((c, s) ∷ d) =
    if r.end == c then (b, record { start = r.start; end = s.end }) ∷ d else (b, r) ∷ (c, s) ∷ d

-- The regions with neighbours joined.
abbrev pub coalesce : Regions → Regions
coalesce [] = []
coalesce ((b, r) ∷ d) = glue b r (coalesce d)

-- The inner loop on regions in order: the region it ends with, and those behind it.
abbrev absorb : Range → Regions → Range × Regions
absorb r [] = (r, [])
absorb r ((c, s) ∷ d) =
    if r.end == c then absorb (record { start = r.start; end = s.end }) d else (r, (c, s) ∷ d)

merge_following-absorb :
    (n : ℕ) (r : Range) (d : Regions)
    → r.start < r.end
    → AreSeparate r.end d
    → length d ≤ n
    → merge_following n r d ≡ some (absorb r d)
unfolding merge_following merge_other_region
merge_following-absorb zero r [] l h fuel = refl
merge_following-absorb (suc n) r [] l h fuel = refl
merge_following-absorb zero r ((c, s) ∷ d) l h fuel = absurd (omega arith)
merge_following-absorb (suc n) r ((c, s) ∷ d) l h fuel = ground (
  arith,
  h.0,
  h.1,
  h.2,
  h.3,
  lookup-below r.end s.end d h.3,
  merge_following-absorb n (record { start = r.start; end = s.end }) d,
)

absorb-AreSeparate :
    (m : ℕ) (r : Range) (d : Regions)
    → m ≤ r.end
    → AreSeparate r.end d
    → AreSeparate m (absorb r d).1
absorb-AreSeparate m r [] l h = tt
absorb-AreSeparate m r ((c, s) ∷ d) l h = ground (
  arith,
  h.0,
  h.1,
  h.2,
  h.3,
  AreSeparate-mono m r.end ((c, s) ∷ d) l h,
  absorb-AreSeparate m (record { start = r.start; end = s.end }) d,
)

insert-last :
    (b : ℕ) (r : Range) (new : Regions) → Below b new → insert b r new ≡ new ++ ((b, r) ∷ [])
insert-last b r [] h = refl
insert-last b r ((c, s) ∷ new) h = ground (arith, h.0, insert-last b r new h.1)

glue-glue :
    (b c : ℕ) (r s : Range) (d : Regions)
    → r.end ≡ c
    → s.start ≡ c
    → glue b r (glue c s d) ≡ glue b (record { start = r.start; end = s.end }) d
glue-glue b c r s [] e f = ground arith
glue-glue b c r s ((a, t) ∷ d) e f = ground arith

glue-apart :
    (b c : ℕ) (r s : Range) (d : Regions)
    → (r.end == c) ≡ false
    → glue b r (glue c s d) ≡ (b, r) ∷ glue c s d
glue-apart b c r s [] e = ground arith
glue-apart b c r s ((a, t) ∷ d) e = ground arith

merge_keys-skip :
    (k : ℕ) (ks : List ℕ) (free new : Regions)
    → lookup k free ≡ none
    → merge_keys (k ∷ ks) free new ≡ merge_keys ks free new
unfolding merge_keys
merge_keys-skip k ks free new e = rw (e, merge_keys) refl

merge_keys-take :
    (k : ℕ) (ks : List ℕ) (r : Range) (d new : Regions)
    → r.start ≡ k
    → r.start < r.end
    → AreSeparate r.end d
    → merge_keys (k ∷ ks) ((k, r) ∷ d) new
      ≡ merge_keys ks (absorb r d).1 (insert (absorb r d).0.start (absorb r d).0 new)
unfolding merge_keys
merge_keys-take k ks r d new e l h =
    ground (arith, merge_following-absorb (suc (length d)) r d l h (omega arith))

absorb-start : (r : Range) (d : Regions) → (absorb r d).0.start ≡ r.start
absorb-start r [] = refl
absorb-start r ((c, s) ∷ d) =
    ground (arith, absorb-start (record { start = r.start; end = s.end }) d)

-- The outer loop over the keys that are left, with a region in hand.
merge_keys-glue :
    (r : Range) (d new : Regions)
    → r.start < r.end
    → AreSeparate r.end d
    → Below r.start new
    → merge_keys (map (λ e. e.0) d) (absorb r d).1 (insert (absorb r d).0.start (absorb r d).0 new)
      ≡ some (new ++ glue r.start r (coalesce d))
unfolding merge_keys
merge_keys-glue r [] new l h below = ap some (insert-last r.start r new below)
merge_keys-glue r ((c, s) ∷ d) new l h below = elim (Bool-cases (r.end == c)) [
  | inl touch ↦
      let m : Range = record { start = r.start; end = s.end } in
      rw touch (
        merge_keys-skip c (map (λ e. e.0) d) (absorb m d).1
          (insert (absorb m d).0.start (absorb m d).0 new)
          (lookup-below c s.end (absorb m d).1 (absorb-AreSeparate s.end m d (omega arith) h.3)
            (omega (arith, h.1, h.2)))
        ∙ merge_keys-glue m d new (omega (arith, h.0, h.1, h.2, l)) h.3 below
        ∙ ap (λ x. some (new ++ x)) (sym (glue-glue r.start c r s (coalesce d) (ground arith) h.1)))
  | inr apart ↦ rw apart (
      merge_keys-take c (map (λ e. e.0) d) s d (insert r.start r new) h.1 h.2 h.3
      ∙ merge_keys-glue s d (insert r.start r new) h.2 h.3 (
          rw (insert-last r.start r new below) (
            Below-append s.start new ((r.start, r) ∷ [])
              (Below-mono r.start s.start new (omega (arith, h.0, h.1, l)) below)
              (omega (arith, h.0, h.1, l), tt)))
      ∙ ap some (
          ap (λ x. x ++ glue s.start s (coalesce d)) (insert-last r.start r new below)
          ∙ append_assoc new ((r.start, r) ∷ []) (glue s.start s (coalesce d))
          ∙ ap (λ x. new ++ x)
              (ap (λ x. (r.start, r) ∷ glue x s (coalesce d)) h.1
                ∙ sym (glue-apart r.start c r s (coalesce d) apart))))
]

-- On regions that are in order and do not overlap, `merge_continuous_regions` does not panic, and joins each region
-- with the one behind it where that starts at its end.
pub merge_continuous_regions_lem :
    (lo : ℕ) (d : Regions) → AreSeparate lo d → merge_continuous_regions d ≡ some (coalesce d)
unfolding merge_continuous_regions merge_keys
merge_continuous_regions_lem lo [] h = refl
merge_continuous_regions_lem lo ((b, r) ∷ d) h =
    merge_keys-take b (map (λ e. e.0) d) r d [] h.1 h.2 h.3
    ∙ merge_keys-glue r d [] h.2 h.3 tt
    ∙ ap (λ x. some (glue x r (coalesce d))) h.1

-- Regions in order, none starting where another ends.
abbrev pub AreApart : Regions → Type 0
AreApart [] = Unit
AreApart ((b, r) ∷ []) = Unit
AreApart ((b, r) ∷ (c, s) ∷ d) = (r.end < c) × AreApart ((c, s) ∷ d)

glue-AreSeparate :
    (lo b : ℕ) (r : Range) (d : Regions)
    → lo ≤ b
    → r.start ≡ b
    → r.start < r.end
    → AreSeparate r.end d
    → AreSeparate lo (glue b r d)
glue-AreSeparate lo b r [] l e m h = (l, e, m, tt)
glue-AreSeparate lo b r ((c, s) ∷ d) l e m h = ground (arith, h.0, h.1, h.2, h.3)

glue-AreApart :
    (b : ℕ) (r : Range) (d : Regions) → AreSeparate r.end d → AreApart d → AreApart (glue b r d)
glue-AreApart b r [] h k = tt
glue-AreApart b r ((c, s) ∷ []) h k = ground (arith, h.0)
glue-AreApart b r ((c, s) ∷ (a, t) ∷ d) h k = ground (arith, h.0, k.0, k.1)

glue-covers :
    (a b : ℕ) (r : Range) (d : Regions)
    → r.start < r.end
    → AreSeparate r.end d
    → covers a (glue b r d) ≡ (in_range a r || covers a d)
glue-covers a b r [] l h = refl
glue-covers a b r ((c, s) ∷ d) l h = ground (arith, h.0, h.1, h.2)

coalesce-AreSeparate : (lo : ℕ) (d : Regions) → AreSeparate lo d → AreSeparate lo (coalesce d)
coalesce-AreSeparate lo [] h = tt
coalesce-AreSeparate lo ((b, r) ∷ d) h =
    glue-AreSeparate lo b r (coalesce d) h.0 h.1 h.2 (coalesce-AreSeparate r.end d h.3)

coalesce-AreApart : (lo : ℕ) (d : Regions) → AreSeparate lo d → AreApart (coalesce d)
coalesce-AreApart lo [] h = tt
coalesce-AreApart lo ((b, r) ∷ d) h =
    glue-AreApart b r (coalesce d) (coalesce-AreSeparate r.end d h.3)
      (coalesce-AreApart r.end d h.3)

coalesce-covers : (a lo : ℕ) (d : Regions) → AreSeparate lo d → covers a (coalesce d) ≡ covers a d
coalesce-covers a lo [] h = refl
coalesce-covers a lo ((b, r) ∷ d) h =
    glue-covers a b r (coalesce d) h.2 (coalesce-AreSeparate r.end d h.3)
    ∙ ap (λ x. in_range a r || x) (coalesce-covers a r.end d h.3)

-- On regions that are in order and do not overlap, `merge_continuous_regions` does not panic; its regions are in
-- order, none starts where another ends, and they cover the addresses covered before.
pub merge_continuous_regions-covers :
    (lo : ℕ) (d : Regions)
    → AreSeparate lo d
    → (d' : Regions) × (merge_continuous_regions d ≡ some d')
      × AreSeparate lo d'
      × AreApart d'
      × ((a : ℕ) → covers a d' ≡ covers a d)
merge_continuous_regions-covers lo d h = (
  coalesce d,
  merge_continuous_regions_lem lo d h,
  coalesce-AreSeparate lo d h,
  coalesce-AreApart lo d h,
  λ a. coalesce-covers a lo d h,
)
