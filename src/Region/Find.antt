-- ===== src/Region/Find.antt =====
-- What `find_free_region_for_child` finds (vmar/mod.rs).
use jinux.Base.{
  ℕ, ◌+◌, ◌≤◌, ◌<◌, ◌≡◌, ◌∙◌, sym, subst, refl, true, false, ◌&&◌, Option, none, some, [], ◌∷◌, leb,
  arith, Bool-cases, inl, inr, ok,
}
use jinux.Base.Dict.{lookup}
use jinux.Region.{Range, Regions, fits, find_free_region_for_child}
use jinux.Region.Cover.{covers, AreSeparate, covers-below}
use jinux.Region.Carve.{Within, lookup-above}
use jinux.Region.Merge.{AreApart}

-- The range of a size from an offset.
abbrev pub from_offset : ℕ → ℕ → Range
from_offset start size = record { start = start; end = start + size }

-- The offset is the one asked for.
abbrev pub IsWanted : Option ℕ → ℕ → Type 0
IsWanted none start = Unit
IsWanted (some offset) start = offset ≡ start

fits-some :
    (offset : Option ℕ) (size align base start : ℕ) (r : Range)
    → fits offset size align base r ≡ some (some start)
    → r.start ≡ base
    → Within (from_offset start size) r × IsWanted offset start
unfolding fits
fits-some (some offset) size align base start r e b = ground arith
fits-some none size align base start r e b = ground arith

module _ (offset : Option ℕ) (size align b : ℕ) (r : Range) (d : Regions) where
  find-skip :
      fits offset size align b r ≡ some none
      → find_free_region_for_child offset size align ((b, r) ∷ d)
        ≡ find_free_region_for_child offset size align d
  unfolding find_free_region_for_child
  find-skip e = rw (e, find_free_region_for_child) refl

  find-hit :
      (start : ℕ)
      → fits offset size align b r ≡ some (some start)
      → find_free_region_for_child offset size align ((b, r) ∷ d) ≡ some (ok (b, start))
  unfolding find_free_region_for_child
  find-hit start e = rw (e, find_free_region_for_child) refl

  find-panic :
      fits offset size align b r ≡ none
      → find_free_region_for_child offset size align ((b, r) ∷ d) ≡ none
  unfolding find_free_region_for_child
  find-panic e = rw (e, find_free_region_for_child) refl

Found : Option ℕ → ℕ → ℕ → ℕ → Regions → Type 0
Found offset size base start d =
    (r : Range) × (lookup base d ≡ some r)
    × Within (from_offset start size) r
    × IsWanted offset start

Found-cons :
    (offset : Option ℕ) (size lo base start b : ℕ) (r : Range) (d : Regions)
    → AreSeparate lo ((b, r) ∷ d)
    → Found offset size base start d
    → Found offset size base start ((b, r) ∷ d)
unfolding Found
Found-cons offset size lo base start b r d h f =
    (f.0, ground (arith, h.0, h.1, h.2, f.1, lookup-above base r.end f.0 d h.3 f.1), f.2, f.3)

Found-head :
    (offset : Option ℕ) (size align lo base start b s : ℕ) (r : Range) (d : Regions)
    → r.start ≡ b
    → fits offset size align b r ≡ some (some s)
    → b ≡ base
    → s ≡ start
    → Found offset size base start ((b, r) ∷ d)
unfolding Found
Found-head offset size align lo base start b s r d h f e g =
    let w = fits-some offset size align b s r f h in
    (
      r,
      ground arith,
      subst (λ x. Within (from_offset x size) r) g w.0,
      subst (IsWanted offset) g w.1,
    )

-- Where the search succeeds, the range of the child lies in the free region of the base, and starts at the offset that
-- was asked for, if one was.
pub find_free_region_for_child-Within :
    (offset : Option ℕ) (size align lo base start : ℕ) (d : Regions)
    → AreSeparate lo d
    → find_free_region_for_child offset size align d ≡ some (ok (base, start))
    → (r : Range) × (lookup base d ≡ some r)
      × Within (from_offset start size) r
      × IsWanted offset start
unfolding Found
find_free_region_for_child-Within offset size align lo base start [] h e =
    unfold find_free_region_for_child in ground arith
find_free_region_for_child-Within offset size align lo base start ((b, r) ∷ d) h e =
    go (fits offset size align b r) refl
      (λ tail. find_free_region_for_child-Within offset size align r.end base start d h.3 tail)
  where
    go :
        (f : Option (Option ℕ))
        → fits offset size align b r ≡ f
        → (find_free_region_for_child offset size align d ≡ some (ok (base, start))
            → Found offset size base start d)
        → Found offset size base start ((b, r) ∷ d)
    go none f ih = ground (arith, sym e ∙ find-panic offset size align b r d f)
    go (some none) f ih =
        Found-cons offset size lo base start b r d h
          (ih (sym (find-skip offset size align b r d f) ∙ e))
    go (some (some s)) f ih =
        let hit = sym (find-hit offset size align b r d s f) ∙ e in
        Found-head offset size align lo base start b s r d h.1 f (ground arith) (ground arith)

AreApart-tail : (b : ℕ) (r : Range) (d : Regions) → AreApart ((b, r) ∷ d) → AreApart d
AreApart-tail b r [] h = tt
AreApart-tail b r ((c, s) ∷ d) h = h.1

-- Behind a region nothing is free at its end.
covers-end :
    (b lo : ℕ) (r : Range) (d : Regions)
    → AreSeparate lo ((b, r) ∷ d)
    → AreApart ((b, r) ∷ d)
    → covers r.end d ≡ false
covers-end b lo r [] h k = refl
covers-end b lo r ((c, s) ∷ d) h k =
    covers-below r.end c ((c, s) ∷ d) (omega arith, (h.3).1, (h.3).2, (h.3).3) k.0

-- On regions that are in order and of which none starts where another ends, the search for an offset finds each range
-- that is free as a whole.
pub find_free_region_for_child_complete :
    (offset size align lo : ℕ) (d : Regions)
    → 0 < size
    → AreSeparate lo d
    → AreApart d
    → ((a : ℕ) → offset ≤ a → a < offset + size → covers a d ≡ true)
    → (base : ℕ) × (find_free_region_for_child (some offset) size align d
        ≡ some (ok (base, offset)))
unfolding find_free_region_for_child fits
find_free_region_for_child_complete offset size align lo [] l h k free = ground (arith, free offset)
find_free_region_for_child_complete offset size align lo ((b, r) ∷ d) l h k free =
    elim (Bool-cases (leb b offset && leb (offset + size) r.end)) [
      | inl fit ↦ (b, ground arith)
      | inr unfit ↦
          let behind : r.end ≤ offset = ground (
            arith,
            h.0,
            h.1,
            h.2,
            free offset,
            free r.end,
            covers-end b lo r d h k,
            covers-below offset r.end d h.3,
          ) in
          let found =
            find_free_region_for_child_complete offset size align r.end d l h.3
              (AreApart-tail b r d k) (λ a m n. ground (arith, free a m n)) in
          (found.0, ground (arith, found.1))
    ]
