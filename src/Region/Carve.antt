-- ===== src/Region/Carve.antt =====
-- What taking ranges out of the free regions does to the addresses they cover (vmar/mod.rs).

use jinux.Base.{
  ℕ, ◌≤◌, ◌<◌, ◌≡◌, ap, refl, not, ◌&&◌, ◌||◌, some, [], ◌∷◌, ◌++◌, ltb, ◌==◌, if◌then◌else◌, arith,
}
use jinux.Base.Dict.{lookup, insert, erase}
use jinux.Region.{Range, Regions, allocate_range, insert_all, allocate_at}
use jinux.Region.Cover.{in_range, covers, AreSeparate, AreSeparate-mono, covers-below}

-- What is left of a region, as entries of the map.
abbrev pub parts : Range → Range → Regions
parts r al =
    (if ltb r.start al.start
      then (r.start, record { start = r.start; end = al.start }) ∷ []
      else [])
    ++ (if ltb al.end r.end then (al.end, record { start = al.end; end = r.end }) ∷ [] else [])

abbrev splice : ℕ → Range → Regions → Regions
splice k al [] = []
splice k al ((b, r) ∷ d) = if k == b then parts r al ++ d else (b, r) ∷ splice k al d

-- The range is one of the region's.
abbrev pub Within : Range → Range → Type 0
Within al r = (r.start ≤ al.start) × (al.start ≤ al.end) × (al.end ≤ r.end)

insert-front :
    (s hi : ℕ) (x : Range) (d : Regions) → AreSeparate hi d → s < hi → insert s x d ≡ (s, x) ∷ d
insert-front s hi x [] h l = refl
insert-front s hi x ((b, r) ∷ d) h l = ground (arith, h.0)

pub lookup-above :
    (k lo : ℕ) (r : Range) (d : Regions)
    → AreSeparate lo d
    → lookup k d ≡ some r
    → (lo ≤ k) × (r.start ≡ k) × (r.start < r.end)
lookup-above k lo r [] h e = ground arith
lookup-above k lo r ((b, r0) ∷ d) h e = ground (arith, h.0, h.1, h.2, lookup-above k r0.end r d h.3)

pub insert_all-front :
    (lo : ℕ) (r al : Range) (d : Regions)
    → AreSeparate r.end d
    → Within al r
    → insert_all (allocate_range r al) d ≡ parts r al ++ d
unfolding allocate_range
insert_all-front lo r al d h w = ground (
  arith,
  w.0,
  w.1,
  w.2,
  insert-front r.start r.end (record { start = r.start; end = al.start }) d h,
  insert-front al.end r.end (record { start = al.end; end = r.end }) d h,
)

pub insert_all-behind :
    (b : ℕ) (r0 r al : Range) (d : Regions)
    → b < r.start
    → Within al r
    → insert_all (allocate_range r al) ((b, r0) ∷ d) ≡ (b, r0) ∷ insert_all (allocate_range r al) d
unfolding allocate_range
insert_all-behind b r0 r al d l w = ground (arith, w.0, w.1)

allocate-splice :
    (k lo : ℕ) (r al : Range) (d : Regions)
    → AreSeparate lo d
    → lookup k d ≡ some r
    → Within al r
    → insert_all (allocate_range r al) (erase k d) ≡ splice k al d
allocate-splice k lo r al [] h e w = ground arith
allocate-splice k lo r al ((b, r0) ∷ d) h e w = ground (
  arith,
  h.0,
  h.1,
  h.2,
  lookup-above k r0.end r d h.3,
  insert_all-front lo r al d,
  insert_all-behind b r0 r al (erase k d),
  allocate-splice k r0.end r al d h.3,
)

pub covers-append : (a : ℕ) (c d : Regions) → covers a (c ++ d) ≡ (covers a c || covers a d)
covers-append a [] d = refl
covers-append a ((b, r) ∷ c) d = ground (arith, covers-append a c d)

pub covers-parts :
    (a : ℕ) (r al : Range)
    → Within al r
    → covers a (parts r al) ≡ (in_range a r && not (in_range a al))
covers-parts a r al w = ground (arith, w.0, w.1, w.2)

covers-splice :
    (a k lo : ℕ) (r al : Range) (d : Regions)
    → AreSeparate lo d
    → lookup k d ≡ some r
    → Within al r
    → covers a (splice k al d) ≡ (covers a d && not (in_range a al))
covers-splice a k lo r al [] h e w = ground arith
covers-splice a k lo r al ((b, r0) ∷ d) h e w = ground (
  arith,
  h.0,
  h.1,
  h.2,
  w.0,
  w.1,
  w.2,
  lookup-above k r0.end r d h.3,
  covers-append a (parts r al) d,
  covers-parts a r al w,
  covers-below a r0.end d h.3,
  covers-splice a k r0.end r al d h.3,
)

pub AreSeparate-parts :
    (lo : ℕ) (r al : Range) (d : Regions)
    → lo ≤ r.start
    → Within al r
    → AreSeparate r.end d
    → AreSeparate lo (parts r al ++ d)
AreSeparate-parts lo r al d l w h =
    ground (arith, w.0, w.1, w.2, AreSeparate-mono al.start r.end d, AreSeparate-mono lo r.end d)

AreSeparate-splice :
    (k lo : ℕ) (r al : Range) (d : Regions)
    → AreSeparate lo d
    → lookup k d ≡ some r
    → Within al r
    → AreSeparate lo (splice k al d)
AreSeparate-splice k lo r al [] h e w = tt
AreSeparate-splice k lo r al ((b, r0) ∷ d) h e w =
    ground (
      arith,
      h.0,
      h.1,
      h.2,
      h.3,
      AreSeparate-parts lo r al d,
      AreSeparate-splice k r0.end r al d h.3,
    )

-- Taking a range that lies in the region found under a base succeeds, and the map covers afterwards what it covered
-- before less that range; its regions are still in order and do not overlap.
pub allocate_at_lem :
    (k lo : ℕ) (r : Range) (f : Range → Range) (d : Regions)
    → AreSeparate lo d
    → lookup k d ≡ some r
    → Within (f r) r
    → (d' : Regions) × (allocate_at k f d ≡ some d')
      × AreSeparate lo d'
      × ((a : ℕ) → covers a d' ≡ (covers a d && not (in_range a (f r))))
unfolding allocate_at
allocate_at_lem k lo r f d h e w = (
  splice k (f r) d,
  rw (e, allocate_at) (ap some (allocate-splice k lo r (f r) d h e w)),
  AreSeparate-splice k lo r (f r) d h e w,
  λ a. covers-splice a k lo r (f r) d h e w,
)
