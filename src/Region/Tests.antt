-- ===== src/Region/Tests.antt =====
-- Free regions of vmar/mod.rs.

use jinux.Base.{ℕ, ◌≡◌, refl, some, [], ◌∷◌, ok, err, eacces, arith}
use jinux.Base.Dict.{lookup}
use jinux.Region.{
  Range, Regions, find_free_region_for_child, split_regions, split_each, is_intersected,
  merge_continuous_regions,
}
use jinux.Region.Cover.{covers, AreSeparate}
use jinux.Region.Carve.{Within}
use jinux.Region.Merge.{
  AreApart, coalesce, merge_continuous_regions_lem, merge_continuous_regions-covers,
}
use jinux.Region.Find.{from_offset, IsWanted, find_free_region_for_child-Within}

abbrev two_regions : Regions
two_regions = (16, record { start = 16; end = 64 }) ∷ (100, record { start = 100; end = 200 }) ∷ []

-- The first two regions touch.
abbrev touching : Regions
touching =
    (16, record { start = 16; end = 64 })
    ∷ (64, record { start = 64; end = 80 })
    ∷ (100, record { start = 100; end = 200 })
    ∷ []

abbrev middle : Range
middle = record { start = 50; end = 150 }

split_middle :
    split_each middle (split_regions middle two_regions) two_regions
    ≡ some ((16, record { start = 16; end = 50 }) ∷ (150, record { start = 150; end = 200 }) ∷ [])
unfolding split_each is_intersected
split_middle = refl

merge_touching :
    merge_continuous_regions touching
    ≡ some ((16, record { start = 16; end = 80 }) ∷ (100, record { start = 100; end = 200 }) ∷ [])
unfolding merge_continuous_regions
merge_touching = refl

find_too_large : find_free_region_for_child (some 20) 60 4096 two_regions ≡ some (err eacces)
unfolding find_free_region_for_child
find_too_large = refl

find_fitting : find_free_region_for_child (some 120) 60 4096 two_regions ≡ some (ok (100, 120))
unfolding find_free_region_for_child
find_fitting = refl

merge_continuous_regions_lem_example : merge_continuous_regions touching ≡ some (coalesce touching)
merge_continuous_regions_lem_example = merge_continuous_regions_lem 0 touching (omega arith)

merge_continuous_regions-covers_example :
    (d' : Regions) × (merge_continuous_regions touching ≡ some d')
    × AreSeparate 0 d'
    × AreApart d'
    × ((a : ℕ) → covers a d' ≡ covers a touching)
merge_continuous_regions-covers_example = merge_continuous_regions-covers 0 touching (omega arith)

find_free_region_for_child-Within_example :
    (r : Range) × (lookup 100 two_regions ≡ some r)
    × Within (from_offset 120 60) r
    × IsWanted (some 120) 120
find_free_region_for_child-Within_example =
    find_free_region_for_child-Within (some 120) 60 4096 0 100 120 two_regions (omega arith)
      find_fitting
