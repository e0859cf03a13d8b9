-- ===== src/Region/Split.antt =====
-- Taking a range out of all the free regions that it meets (vmar/mod.rs).

use jinux.Base.{
  ℕ, ◌≤◌, ◌<◌, ◌≡◌, ◌∙◌, sym, ap, refl, true, not, ◌&&◌, some, List, [], ◌∷◌, ◌++◌, if◌then◌else◌,
  arith, Bool-cases, inl, inr,
}
use mathlib.Core.List.{append_assoc}
use jinux.Base.Dict.{lookup, erase}
use jinux.Region.{
  Range, Regions, is_intersected, get_intersected_range, allocate_range, insert_all, allocate_at,
  split_regions, split_each,
}
use jinux.Region.Cover.{
  in_range, covers, AreSeparate, in_range-get_intersected_range, not_intersected,
}
use jinux.Region.Carve.{
  Within, parts, insert_all-front, insert_all-behind, covers-append, covers-parts,
  AreSeparate-parts,
}

-- Every base is below `lo`.
abbrev pub Below : ℕ → Regions → Type 0
Below lo [] = Unit
Below lo ((b, r) ∷ d) = (b < lo) × Below lo d

-- Each region less the range.
abbrev splits : Range → Regions → Regions
splits range [] = []
splits range ((b, r) ∷ d) =
    (if is_intersected r range then parts r (get_intersected_range r range) else (b, r) ∷ [])
    ++ splits range d

pub Below-mono : (m n : ℕ) (p : Regions) → m ≤ n → Below m p → Below n p
Below-mono m n [] l h = tt
Below-mono m n ((b, r) ∷ p) l h = (omega (arith, h.0), Below-mono m n p l h.1)

pub Below-append : (m : ℕ) (p q : Regions) → Below m p → Below m q → Below m (p ++ q)
Below-append m [] q h k = k
Below-append m ((b, r) ∷ p) q h k = (h.0, Below-append m p q h.1 k)

Below-parts : (r al : Range) → r.start < r.end → Within al r → Below r.end (parts r al)
Below-parts r al l w = ground (arith, w.0, w.1, w.2)

intersected-Within :
    (r s : Range) → is_intersected r s ≡ true → Within (get_intersected_range r s) r
unfolding is_intersected get_intersected_range
intersected-Within r s h = ground arith

lookup-append :
    (b lo : ℕ) (r : Range) (p d : Regions)
    → Below lo p
    → lo ≤ b
    → lookup b (p ++ ((b, r) ∷ d)) ≡ some r
lookup-append b lo r [] d h l = ground arith
lookup-append b lo r ((c, s) ∷ p) d h l = ground (arith, h.0, lookup-append b lo r p d h.1 l)

allocate-append :
    (b lo : ℕ) (r al : Range) (p d : Regions)
    → Below lo p
    → lo ≤ b
    → r.start ≡ b
    → Within al r
    → AreSeparate r.end d
    → insert_all (allocate_range r al) (erase b (p ++ ((b, r) ∷ d))) ≡ p ++ (parts r al ++ d)
allocate-append b lo r al [] d h l e w s = ground (arith, insert_all-front lo r al d s w)
allocate-append b lo r al ((c, t) ∷ p) d h l e w s = ground (
  arith,
  h.0,
  insert_all-behind c t r al (erase b (p ++ ((b, r) ∷ d))),
  allocate-append b lo r al p d h.1 l e w s,
)

allocate_at-append :
    (b lo : ℕ) (r : Range) (f : Range → Range) (p d : Regions)
    → Below lo p
    → lo ≤ b
    → r.start ≡ b
    → Within (f r) r
    → AreSeparate r.end d
    → allocate_at b f (p ++ ((b, r) ∷ d)) ≡ some (p ++ (parts r (f r) ++ d))
unfolding allocate_at
allocate_at-append b lo r f p d h l e w s =
    rw (lookup-append b lo r p d h l, allocate_at)
      (ap some (allocate-append b lo r (f r) p d h l e w s))

split_each-step :
    (range : Range) (b : ℕ) (bases : List ℕ) (free free' : Regions)
    → allocate_at b (λ x. get_intersected_range x range) free ≡ some free'
    → split_each range (b ∷ bases) free ≡ split_each range bases free'
unfolding split_each
split_each-step range b bases free free' e = rw (e, split_each) refl

split_each-append :
    (range : Range) (lo : ℕ) (p d : Regions)
    → Below lo p
    → AreSeparate lo d
    → split_each range (split_regions range d) (p ++ d) ≡ some (p ++ splits range d)
unfolding split_each
split_each-append range lo p [] h s = refl
split_each-append range lo p ((b, r) ∷ d) h s = elim (Bool-cases (is_intersected r range)) [
  | inl meet ↦
      let within = intersected-Within r range meet in
      let al = get_intersected_range r range in
      rw meet (
        split_each-step range b (split_regions range d) (p ++ ((b, r) ∷ d)) (p ++ (parts r al ++ d))
          (allocate_at-append b lo r (λ x. get_intersected_range x range) p d h s.0 s.1 within s.3)
        ∙ rw
            (
              sym (append_assoc p (parts r al) d),
              sym (append_assoc p (parts r al) (splits range d)),
            )
            (split_each-append range r.end (p ++ parts r al) d
              (Below-append r.end p (parts r al)
                (Below-mono lo r.end p (omega (arith, s.0, s.1, s.2)) h)
                (Below-parts r al s.2 within))
              s.3))
  | inr apart ↦ rw apart (
      rw (sym (append_assoc p ((b, r) ∷ []) d), sym (append_assoc p ((b, r) ∷ []) (splits range d)))
        (split_each-append range r.end (p ++ ((b, r) ∷ [])) d
          (Below-append r.end p ((b, r) ∷ [])
            (Below-mono lo r.end p (omega (arith, s.0, s.1, s.2)) h) (omega (arith, s.1, s.2), tt))
          s.3))
]

splits-covers :
    (a lo : ℕ) (range : Range) (d : Regions)
    → AreSeparate lo d
    → covers a (splits range d) ≡ (covers a d && not (in_range a range))
splits-covers a lo range [] s = refl
splits-covers a lo range ((b, r) ∷ d) s = elim (Bool-cases (is_intersected r range)) [
  | inl meet ↦
      rw (meet, covers-append a (parts r (get_intersected_range r range)) (splits range d))
        (ground (
          arith,
          covers-parts a r (get_intersected_range r range) (intersected-Within r range meet),
          in_range-get_intersected_range a r range,
          splits-covers a r.end range d s.3,
        ))
  | inr apart ↦
      rw apart (ground (arith, not_intersected a r range apart, splits-covers a r.end range d s.3))
]

splits-AreSeparate :
    (lo : ℕ) (range : Range) (d : Regions) → AreSeparate lo d → AreSeparate lo (splits range d)
splits-AreSeparate lo range [] s = tt
splits-AreSeparate lo range ((b, r) ∷ d) s = elim (Bool-cases (is_intersected r range)) [
  | inl meet ↦ rw meet (
      AreSeparate-parts lo r (get_intersected_range r range) (splits range d)
        (omega (arith, s.0, s.1)) (intersected-Within r range meet)
        (splits-AreSeparate r.end range d s.3))
  | inr apart ↦ rw apart (s.0, s.1, s.2, splits-AreSeparate r.end range d s.3)
]

-- Where the regions are in order and do not overlap, taking a range out of each region that meets it succeeds; the
-- regions left are in order, do not overlap, and cover what was covered before less the range.
pub split_each_lem :
    (range : Range) (lo : ℕ) (d : Regions)
    → AreSeparate lo d
    → (d' : Regions) × (split_each range (split_regions range d) d ≡ some d')
      × AreSeparate lo d'
      × ((a : ℕ) → covers a d' ≡ (covers a d && not (in_range a range)))
split_each_lem range lo d s = (
  splits range d,
  split_each-append range lo [] d tt s,
  splits-AreSeparate lo range d s,
  λ a. splits-covers a lo range d s,
)
