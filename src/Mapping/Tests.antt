-- ===== src/Mapping/Tests.antt =====
-- A small mapping of vm_mapping.rs, over page tables that map a set of pages.
use jinux.Base.{◌≡◌, refl, some, none, [], ◌∷◌, ok, err, einval, false, is_some, arith}
use jinux.Base.Dict.{Dict, lookup, erase}
use jinux.Region.{Range}
use jinux.Mapping.{Mapping, VmSpaceOps, check_perm}
use jinux.Mapping.Change.{Trimmed, trim_left, trim_mapping}
use jinux.Mapping.Left.{trim_left_panics}
use jinux.Mapping.Trim.{IsAligned, IsPart, IsTrimmed, trim_mapping_lem}

abbrev set_space : VmSpaceOps (Dict (Unit {0}))
set_space = record {
  is_mapped = λ s a. is_some (lookup a s);
  unmap = λ s r. (erase r.start s, ok tt);
  protect = λ s r perm. (s, ok tt);
}

-- Four pages from 8192 on, of an object from its second page on.
abbrev four_pages : Mapping
four_pages = record {
  vmo_offset = 4096;
  map_size = 16384;
  map_to_addr = 8192;
  is_destroyed = false;
  mapped_pages = [];
  page_perms = (1, 3) ∷ (2, 3) ∷ (3, 1) ∷ (4, 1) ∷ [];
}

abbrev second_page : Range
second_page = record { start = 12288; end = 16384 }

-- The first page is mapped.
abbrev touched : Mapping
touched = record four_pages { mapped_pages = (1, tt) ∷ [] }

four_pages-IsAligned : IsAligned four_pages
four_pages-IsAligned = record { offset_aligned = refl; addr_aligned = refl; sorted = omega arith }

second_page-IsPart : IsPart second_page four_pages
second_page-IsPart = record {
  start_aligned = refl;
  end_aligned = refl;
  not_empty = omega arith;
  from_start = omega arith;
  to_end = omega arith;
  not_all = omega arith;
}

no_such_page : check_perm four_pages 9 1 ≡ err einval
unfolding check_perm
no_such_page = refl

trim_left-touched : trim_left set_space (touched, (8192, tt) ∷ []) 12288 ≡ none
unfolding trim_left
trim_left-touched = refl

trim_left_panics_example : trim_left set_space (touched, (8192, tt) ∷ []) 12288 ≡ none
trim_left_panics_example =
    trim_left_panics set_space touched ((8192, tt) ∷ []) 12288 1 refl refl refl

trim_mapping_lem_example :
    (t : Trimmed (Dict (Unit {0}))) × (trim_mapping set_space (four_pages, []) second_page ≡ some t)
    × IsTrimmed set_space four_pages [] second_page second_page-IsPart t
trim_mapping_lem_example =
    trim_mapping_lem set_space four_pages [] second_page second_page-IsPart four_pages-IsAligned
      (λ j h. refl)
