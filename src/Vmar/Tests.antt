-- ===== src/Vmar/Tests.antt =====
-- Small regions of vmar/mod.rs.

use jinux.Base.{ℕ, ◌≡◌, refl, some, none, [], ◌∷◌, ok, err, eacces, true, false, is_some, arith}
use jinux.Base.Dict.{Dict, lookup, erase}
use jinux.Region.{Range, Regions, is_intersected, get_intersected_range, find_free_region_for_child}
use jinux.Region.Cover.{in_range, covers}
use jinux.Region.Find.{from_offset}
use jinux.Mapping.{Mapping, VmSpaceOps}
use jinux.Mapping.Pages.{page_of}
use jinux.Vmar.{Vmar, vmar, no_child, child, alloc_child_vmar, check_protected_range}
use jinux.Vmar.Alloc.{owners, IsPartition, alloc_child_vmar_lem}
use jinux.Vmar.Protect.{Answers, check_protected_range_lem}
use jinux.Vmar.Place.{trim_existing_mappings}
use jinux.Vmar.Overwrite.{trim_existing_mappings_loses_next}

abbrev set_space : VmSpaceOps (Dict (Unit {0}))
set_space = record {
  is_mapped = λ s a. is_some (lookup a s);
  unmap = λ s r. (erase r.start s, ok tt);
  protect = λ s r perm. (s, ok tt);
}

abbrev free_space : Regions
free_space = (16, record { start = 16; end = 200 }) ∷ []

-- A region of which the first addresses are unused.
abbrev small : Vmar
small = vmar false 0 200 no_child [] free_space

found_at_20 : find_free_region_for_child (some 20) 8 4096 free_space ≡ some (ok (16, 20))
unfolding find_free_region_for_child
found_at_20 = refl

-- A region with a child, all of which is free, behind a part that is not.
abbrev parent : Vmar
parent =
    vmar false 0 200
      (child 100 (vmar false 100 100 no_child [] ((100, record { start = 100; end = 200 }) ∷ []))
        no_child)
      [] ((0, record { start = 0; end = 50 }) ∷ [])

abbrev used : Range
used = record { start = 60; end = 90 }

protect_used : check_protected_range used parent ≡ some (ok tt)
unfolding check_protected_range is_intersected
protect_used = refl

protect_child : check_protected_range (record { start = 60; end = 110 }) parent ≡ some (err eacces)
unfolding check_protected_range is_intersected get_intersected_range
protect_child = refl

alloc_child_vmar_lem_example :
    (v' : Vmar) × (alloc_child_vmar (some 20) 8 4096 small ≡ some (v', ok 20))
    × IsPartition v'
    × ((a : ℕ) → owners a v' ≡ owners a small)
    × ((a : ℕ) → in_range a (from_offset 20 8) ≡ true → covers a free_space ≡ true)
alloc_child_vmar_lem_example =
    alloc_child_vmar_lem (some 20) 8 4096 false 0 200 no_child [] free_space 16 20 (omega arith)
      (omega arith, tt, λ a. ground arith) found_at_20

check_protected_range_lem_example : Answers used parent
check_protected_range_lem_example = check_protected_range_lem used parent (omega arith, omega arith)

-- Two pages at 8192, and one behind them.
abbrev two_pages : Mapping
two_pages = record {
  vmo_offset = 0;
  map_size = 8192;
  map_to_addr = 8192;
  is_destroyed = false;
  mapped_pages = [];
  page_perms = (0, 3) ∷ (1, 3) ∷ [];
}

abbrev next_page : Mapping
next_page = record {
  vmo_offset = 0;
  map_size = 4096;
  map_to_addr = 16384;
  is_destroyed = false;
  mapped_pages = [];
  page_perms = (0, 3) ∷ [];
}

abbrev last_page : Range
last_page = record { start = 12288; end = 16384 }

trim_existing_mappings_loses_next_example :
    (ms : Dict Mapping) × (s' : Dict (Unit {0})) × (another : Mapping) × (trim_existing_mappings
        set_space last_page
        ((8192, two_pages) ∷ (16384, next_page) ∷ [])
        []
      ≡ some ((ms, s'), ok tt))
    × (lookup 16384 ms ≡ some another)
    × ((a : ℕ) → page_of a another ≡ none)
trim_existing_mappings_loses_next_example =
    trim_existing_mappings_loses_next set_space [] two_pages next_page last_page
      (record {
        start_aligned = refl;
        end_aligned = refl;
        not_empty = omega arith;
        from_start = omega arith;
        to_end = omega arith;
        not_all = omega arith;
      })
      (record { offset_aligned = refl; addr_aligned = refl; sorted = omega arith }) refl
      (omega arith) (λ j. refl) refl
