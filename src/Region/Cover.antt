-- ===== src/Region/Cover.antt =====
-- The addresses that ranges and maps of regions cover (vmar/mod.rs).

use jinux.Base.{ℕ, ◌≤◌, ◌<◌, ◌≡◌, refl, Bool, false, ◌&&◌, ◌||◌, none, [], ◌∷◌, leb, ltb, arith}
use jinux.Base.Dict.{lookup}
use jinux.Region.{Range, Regions, is_intersected, get_intersected_range}

abbrev pub in_range : ℕ → Range → Bool
in_range a r = leb r.start a && ltb a r.end

abbrev pub covers : ℕ → Regions → Bool
covers a [] = false
covers a ((base, r) ∷ free) = in_range a r || covers a free

-- Regions in the order of their bases, none empty, none overlapping the one before, from `lo` on.
abbrev pub AreSeparate : ℕ → Regions → Type 0
AreSeparate lo [] = Unit
AreSeparate lo ((base, r) ∷ free) =
    (lo ≤ base) × (r.start ≡ base) × (r.start < r.end) × AreSeparate r.end free

-- Two ranges intersect exactly when the range computed is not empty, and it has the addresses of both.
pub in_range-get_intersected_range :
    (a : ℕ) (r s : Range) → in_range a (get_intersected_range r s) ≡ (in_range a r && in_range a s)
unfolding get_intersected_range
in_range-get_intersected_range a r s = ground arith

pub not_intersected :
    (a : ℕ) (r s : Range) → is_intersected r s ≡ false → (in_range a r && in_range a s) ≡ false
unfolding is_intersected
not_intersected a r s h = ground arith

pub AreSeparate-mono : (m n : ℕ) (d : Regions) → m ≤ n → AreSeparate n d → AreSeparate m d
AreSeparate-mono m n [] h s = tt
AreSeparate-mono m n ((base, r) ∷ d) h s = (omega (arith, s.0), s.1, s.2, s.3)

pub covers-below : (a lo : ℕ) (d : Regions) → AreSeparate lo d → a < lo → covers a d ≡ false
covers-below a lo [] s h = refl
covers-below a lo ((base, r) ∷ d) s h = ground (arith, s.0, s.1, s.2, covers-below a r.end d s.3)

pub lookup-below : (k lo : ℕ) (d : Regions) → AreSeparate lo d → k < lo → lookup k d ≡ none
lookup-below k lo [] s h = refl
lookup-below k lo ((base, r) ∷ d) s h = ground (arith, s.0, s.1, s.2, lookup-below k r.end d s.3)
