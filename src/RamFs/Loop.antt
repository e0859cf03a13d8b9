-- ===== src/RamFs/Loop.antt =====
-- A visit of a directory of ramfs/fs.rs as one loop over all of its entries.
use jinux.Base.{
  ℕ, zero, suc, ◌+◌, ◌≡◌, refl, ap, false, Option, List, [], ◌∷◌, map, arith, ltb, Option-cases,
  inl, inr, Errno,
}
use jinux.SlotVec
use jinux.RamFs.{Name, dot, dotdot, DirEntry, InodeType, RamFs}
use jinux.RamFs.Visit.{Entry, skip_while, children_entries, tell, visit_children, try_visit}

-- All entries of a directory, with the two special ones
abbrev pub entries : DirEntry → List Entry
entries d = (0, (dot, d.this)) ∷ (1, (dotdot, d.parent)) ∷ children_entries d

-- Those from an index on
abbrev pub remaining : DirEntry → ℕ → List Entry
remaining d idx = skip_while idx (entries d)

skip_while-shifted :
    (xs : List Entry)
    → skip_while 2 (map (λ (p : Entry). (p.0 + 2, p.1)) xs) ≡ map (λ (p : Entry). (p.0 + 2, p.1)) xs
skip_while-shifted [] = refl
skip_while-shifted ((offset, c) ∷ rest) =
    let late : ltb (offset + 2) 2 ≡ false = ground arith in rw late refl

module _ {V : Type 0} (visit : V → Name → ℕ → InodeType → ℕ → V × Option Errno) (fs : RamFs) where
  visit_from_one :
      (d : DirEntry) (v : V)
      → try_visit visit fs d 1 v ≡ visit_children visit fs (remaining d 1) 1 v
  unfolding try_visit
  visit_from_one d v = elim (Option-cases (tell visit fs v (1, (dotdot, d.parent))).1) [
    | inl e ↦
        rw (e, visit_children)
          (ap (λ xs. visit_children visit fs xs 2 (tell visit fs v (1, (dotdot, d.parent))).0)
            (skip_while-shifted (SlotVec.idxes_and_items d.children)))
    | inr (x, e) ↦ rw (e, visit_children) refl
  ]

  -- The steps for the special entries are those of the loop.
  pub try_visit-visit_children :
      (d : DirEntry) (idx : ℕ) (v : V)
      → try_visit visit fs d idx v ≡ visit_children visit fs (remaining d idx) idx v
  unfolding try_visit
  try_visit-visit_children d (suc (suc i)) v = ground arith
  try_visit-visit_children d (suc zero) v = visit_from_one d v
  try_visit-visit_children d zero v = elim (Option-cases (tell visit fs v (0, (dot, d.this))).1) [
    | inl e ↦ rw (e, visit_children) (visit_from_one d (tell visit fs v (0, (dot, d.this))).0)
    | inr (x, e) ↦ rw (e, visit_children) refl
  ]
