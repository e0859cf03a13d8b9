-- ===== src/Region.antt =====
-- Free regions: `FreeRegion`, the functions on ranges, and what the methods of `Vmar_` do to the map
-- `free_regions` (services/libs/aster-std/src/vm/vmar/mod.rs).
-- Addresses are natural numbers, whose sums do not overflow. A panic is `none`.
pub mod Cover
pub mod Carve
pub mod Split
pub mod Merge
pub mod Find
mod Tests
use Prim.Native.Nat.{min, max}
use jinux.Base.{
  ℕ, zero, suc, ◌+◌, Bool, ◌&&◌, Option, none, some, List, [], ◌∷◌, ◌++◌, map, Result, ok, err,
  eacces, leb, ltb, if◌then◌else◌, length,
}
use jinux.Base.Dict.{Dict, lookup, insert, erase}
use jinux.AlignExt.{align_up}

-- `Range<usize>`, and `FreeRegion`, which is one.
pub record Range : Type 0 where
  pub start : ℕ
  pub end : ℕ

-- `is_intersected`
unfoldable pub is_intersected : Range → Range → Bool
is_intersected range1 range2 = ltb (max range1.start range2.start) (min range1.end range2.end)

-- `get_intersected_range`
unfoldable pub get_intersected_range : Range → Range → Range
get_intersected_range range1 range2 = record {
  start = max range1.start range2.start;
  end = min range1.end range2.end;
}

-- `FreeRegion::allocate_range`
unfoldable pub allocate_range : Range → Range → List Range
allocate_range region range =
    (if ltb region.start range.start
      then record { start = region.start; end = range.start } ∷ []
      else [])
    ++ (if ltb range.end region.end
        then record { start = range.end; end = region.end } ∷ []
        else [])

-- The map `free_regions`, by the start of a region.
abbrev pub Regions : Type 0
Regions = Dict Range

-- `into_iter().for_each(|region| free_regions.insert(region.start(), region))`
abbrev pub insert_all : List Range → Regions → Regions
insert_all [] free = free
insert_all (region ∷ regions) free = insert_all regions (insert region.start region free)

-- `free_regions.remove(&base).unwrap()` and the regions put in its place.
unfoldable pub allocate_at : ℕ → (Range → Range) → Regions → Option Regions
unfolding allocate_range
allocate_at base range free = elim (lookup base free) [
  | none ↦ none
  | some region ↦ some (insert_all (allocate_range region (range region)) (erase base free))
]

-- The test for one region in `find_free_region_for_child`; the offset of the child if it fits.
unfoldable pub fits : Option ℕ → ℕ → ℕ → ℕ → Range → Option (Option ℕ)
fits (some offset) size align base region =
    some (if leb base offset && leb (offset + size) region.end then some offset else none)
fits none size align base region = elim (align_up region.start align) [
  | none ↦ none
  | some start ↦
      some (if leb region.start start && leb (start + size) region.end then some start else none)
]

-- `find_free_region_for_child`: the base of the region and the offset of the child.
unfoldable pub find_free_region_for_child : Option ℕ → ℕ → ℕ → Regions → Option (Result (ℕ × ℕ))
unfolding fits
find_free_region_for_child offset size align [] = some (err eacces)
find_free_region_for_child offset size align ((base, region) ∷ free) =
    elim (fits offset size align base region) [
      | none ↦ none
      | some (some start) ↦ some (ok (base, start))
      | some none ↦ find_free_region_for_child offset size align free
    ]

-- The first branch of `allocate_free_region_for_vmo`: the bases of the regions that intersect.
abbrev pub split_regions : Range → Regions → List ℕ
split_regions range [] = []
split_regions range ((base, region) ∷ free) =
    if is_intersected region range
    then base ∷ split_regions range free
    else split_regions range free

-- The second loop of that branch.
unfoldable pub split_each : Range → List ℕ → Regions → Option Regions
unfolding allocate_at get_intersected_range
split_each range [] free = some free
split_each range (base ∷ bases) free =
    elim (allocate_at base (λ region. get_intersected_range region range) free) [
      | none ↦ none
      | some free' ↦ split_each range bases free'
    ]

-- `FreeRegion::merge_other_region`, with its assertions.
unfoldable pub merge_other_region : Range → Range → Option Range
merge_other_region region other =
    if leb region.end other.start && leb other.start region.end && ltb region.start other.end
    then some (record { start = region.start; end = other.end })
    else none

-- The inner loop of `merge_continuous_regions`, with the number of rounds left.
unfoldable pub merge_following : ℕ → Range → Regions → Option (Range × Regions)
unfolding merge_other_region
merge_following zero region free = some (region, free)
merge_following (suc n) region free = elim (lookup region.end free) [
  | none ↦ some (region, free)
  | some other ↦ elim (merge_other_region region other) [
    | none ↦ none
    | some merged ↦ merge_following n merged (erase region.end free)
  ]
]

-- The outer loop, over the keys; `new` are the regions that are finished.
unfoldable pub merge_keys : List ℕ → Regions → Regions → Option Regions
unfolding merge_following
merge_keys [] free new = some new
merge_keys (key ∷ keys) free new = elim (lookup key free) [
  | none ↦ merge_keys keys free new
  | some region ↦ elim (merge_following (length free) region (erase key free)) [
    | none ↦ none
    | some (merged, free') ↦ merge_keys keys free' (insert merged.start merged new)
  ]
]

-- `merge_continuous_regions`
unfoldable pub merge_continuous_regions : Regions → Option Regions
unfolding merge_keys
merge_continuous_regions free = merge_keys (map (λ e. e.0) free) free []
