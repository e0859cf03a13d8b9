-- ===== src/Vmar/Alloc.antt =====
-- The owners of an address in a region, and what `alloc_child_vmar` does to them (vmar/mod.rs).
use jinux.Base.{
  ℕ, ◌+◌, ◌≤◌, ◌<◌, ◌≡◌, refl, Bool, true, false, ◌||◌, Option, some, [], ◌∷◌, ok, ◌==◌,
  if◌then◌else◌, arith,
}
use jinux.Base.Dict.{Dict, lookup}
use jinux.Region.{Range, Regions, allocate_at, find_free_region_for_child}
use jinux.Region.Cover.{in_range, covers, AreSeparate}
use jinux.Region.Carve.{allocate_at_lem}
use jinux.Region.Find.{find_free_region_for_child-Within, from_offset}
use jinux.Mapping.{Mapping}
use jinux.Vmar.{
  Vmar, vmar, Children, no_child, child, vmar_range, keyed_range, insert_child, new_child,
  alloc_child_vmar,
}

abbrev pub count : Bool → ℕ
count b = if b then 1 else 0

abbrev pub children_at : ℕ → Children → ℕ
children_at a no_child = 0
children_at a (child key v cs) = count (in_range a (vmar_range v)) + children_at a cs

abbrev pub mappings_at : ℕ → Dict Mapping → ℕ
mappings_at a [] = 0
mappings_at a ((key, m) ∷ ms) = count (in_range a (keyed_range key m)) + mappings_at a ms

-- How many of the children, the mappings and the free space of a region have an address.
abbrev pub owners : ℕ → Vmar → ℕ
owners a (vmar d base size cs ms free) =
    count (covers a free) + (children_at a cs + mappings_at a ms)

-- Each child stands under its base, which is one of its addresses.
abbrev pub AreKeyed : Children → Type 0
AreKeyed no_child = Unit
AreKeyed (child key v cs) = (in_range key (vmar_range v) ≡ true) × AreKeyed cs

-- No address has two owners, and the free regions are in order and do not overlap.
abbrev pub IsPartition : Vmar → Type 0
IsPartition (vmar d base size cs ms free) =
    AreSeparate 0 free × AreKeyed cs × ((a : ℕ) → owners a (vmar d base size cs ms free) ≤ 1)

abbrev has_key : ℕ → Children → Bool
has_key k no_child = false
has_key k (child key v cs) = k == key || has_key k cs

children_at-has_key :
    (k : ℕ) (cs : Children) → AreKeyed cs → has_key k cs ≡ true → 1 ≤ children_at k cs
children_at-has_key k no_child h e = ground arith
children_at-has_key k (child key v cs) h e = ground (arith, h.0, children_at-has_key k cs h.1)

children_at-insert_child :
    (a k : ℕ) (v : Vmar) (cs : Children)
    → has_key k cs ≡ false
    → children_at a (insert_child k v cs) ≡ count (in_range a (vmar_range v)) + children_at a cs
children_at-insert_child a k v no_child e = refl
children_at-insert_child a k v (child key w cs) e =
    ground (arith, children_at-insert_child a k v cs)

AreKeyed-insert_child :
    (k : ℕ) (v : Vmar) (cs : Children)
    → in_range k (vmar_range v) ≡ true
    → AreKeyed cs
    → AreKeyed (insert_child k v cs)
AreKeyed-insert_child k v no_child i h = (i, tt)
AreKeyed-insert_child k v (child key w cs) i h =
    ground (arith, h.0, h.1, AreKeyed-insert_child k v cs i)

pub lookup-covers :
    (a base : ℕ) (r : Range) (d : Regions)
    → lookup base d ≡ some r
    → in_range a r ≡ true
    → covers a d ≡ true
lookup-covers a base r [] e i = ground arith
lookup-covers a base r ((b, r0) ∷ d) e i = ground (arith, lookup-covers a base r d)

module _ (offset : Option ℕ) (size align : ℕ) (d : Bool) (base total : ℕ) (cs : Children)
    (ms : Dict Mapping) (free : Regions) where
  alloc_child_vmar-ok :
      (region_base start : ℕ) (free' : Regions)
      → find_free_region_for_child offset size align free ≡ some (ok (region_base, start))
      → allocate_at region_base (λ region. from_offset start size) free ≡ some free'
      → alloc_child_vmar offset size align (vmar d base total cs ms free)
        ≡ some (vmar d base total (insert_child start (new_child start size) cs) ms free', ok start)
  unfolding alloc_child_vmar
  alloc_child_vmar-ok region_base start free' e f =
      rw (e, alloc_child_vmar) (rw (f, alloc_child_vmar) refl)

  -- Where the search for a free region finds one for a child of positive size, `alloc_child_vmar` makes the child at
  -- the offset found: it does not panic, every address of the region has as many owners as before, so none has two,
  -- and all addresses of the child were free.
  pub alloc_child_vmar_lem :
      (region_base start : ℕ)
      → 0 < size
      → IsPartition (vmar d base total cs ms free)
      → find_free_region_for_child offset size align free ≡ some (ok (region_base, start))
      → (v' : Vmar) × (alloc_child_vmar offset size align (vmar d base total cs ms free)
          ≡ some (v', ok start))
        × IsPartition v'
        × ((a : ℕ) → owners a v' ≡ owners a (vmar d base total cs ms free))
        × ((a : ℕ) → in_range a (from_offset start size) ≡ true → covers a free ≡ true)
  alloc_child_vmar_lem region_base start positive valid found =
      let within =
        find_free_region_for_child-Within offset size align 0 region_base start free valid.0
          found in
      let taken =
        allocate_at_lem region_base 0 within.0 (λ region. from_offset start size) free valid.0
          within.1 within.2 in
      let was_free : (a : ℕ) → in_range a (from_offset start size) ≡ true → covers a free ≡ true =
        λ a i.
          lookup-covers a region_base within.0 free within.1
            (ground (arith, within.2.0, within.2.1, within.2.2)) in
      let fresh : has_key start cs ≡ false = ground (
        arith,
        was_free start (ground arith),
        valid.2 start,
        children_at-has_key start cs valid.1,
      ) in
      let same : (a : ℕ)
          → owners a (vmar d base total (insert_child start (new_child start size) cs) ms taken.0)
            ≡ owners a (vmar d base total cs ms free) =
        λ a. ground (
          arith,
          taken.3 a,
          was_free a,
          children_at-insert_child a start (new_child start size) cs fresh,
        ) in
      (
        vmar d base total (insert_child start (new_child start size) cs) ms taken.0,
        alloc_child_vmar-ok region_base start taken.0 found taken.1,
        (
          taken.2,
          AreKeyed-insert_child start (new_child start size) cs (ground arith) valid.1,
          λ a. omega (arith, same a, valid.2 a),
        ),
        same,
        was_free,
      )
