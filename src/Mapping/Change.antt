-- ===== src/Mapping/Change.antt =====
-- Changing mappings: `protect`, `trim_left`, `trim_right` and `trim_mapping`
-- (services/libs/aster-std/src/vm/vmar/vm_mapping.rs).
use jinux.Base.{
  ℕ, ◌+◌, ◌-◌, ◌/◌, ◌%◌, Bool, true, ◌&&◌, Option, none, some, List, [], ◌∷◌, Result, ok, err, leb,
  ◌==◌, if◌then◌else◌, is_some,
}
use jinux.Base.Dict.{Dict, lookup, insert, erase}
use jinux.Region.{Range, is_intersected}
use jinux.Mapping.{
  Mapping, VmSpaceOps, Outcome, page_size, range, page_map_addr, pages, forget_page, unmap_one_page,
  unmap,
}

-- The state that a call leaves whose result is dropped.
abbrev pub drop_result : {S : Type 0} → Outcome S (Unit {0}) → Option (Mapping × S)
drop_result none = none
drop_result (some (ms, r)) = some ms

-- `page_perms.remove`
abbrev pub forget_perm : Mapping → ℕ → Mapping
forget_perm m page_idx = record m { page_perms = erase page_idx m.page_perms }

-- The debug assertions of `trim_left` and `trim_right`.
abbrev pub can_trim_at : Mapping → ℕ → Bool
can_trim_at m vaddr =
    (leb m.map_to_addr vaddr && leb vaddr (m.map_to_addr + m.map_size)) && vaddr % page_size == 0

-- What `trim_left` assigns before its loop.
abbrev pub move_left : Mapping → ℕ → Mapping
move_left m vaddr = record m {
  map_to_addr = vaddr;
  vmo_offset = m.vmo_offset + (vaddr - m.map_to_addr);
  map_size = m.map_size - (vaddr - m.map_to_addr);
}

-- What `trim_mapping` makes of a mapping: itself, what it adds to `mappings_to_remove` and `mappings_to_append`,
-- and the page tables. A range that starts at or before a mapping and is not the fast path's ends inside it.
pub record Trimmed (S : Type 0) : Type 0 where
  pub self : Mapping
  pub to_remove : List ℕ
  pub to_append : Dict Mapping
  pub vm_space : S
  pub result : Result (Unit {0})

-- The fast path, once the pages are unmapped.
abbrev pub trim_all : {S : Type 0} → ℕ → Outcome S (Unit {0}) → Option (Trimmed S)
trim_all map_to_addr none = none
trim_all map_to_addr (some ((m, s), err e)) =
    some (record { self = m; to_remove = []; to_append = []; vm_space = s; result = err e })
trim_all map_to_addr (some ((m, s), ok u)) = some (record {
  self = m;
  to_remove = map_to_addr ∷ [];
  to_append = [];
  vm_space = s;
  result = ok tt;
})

-- The mapping overlaps from the left: it moves to another base.
abbrev pub trim_from_left : {S : Type 0} → ℕ → Option (Mapping × S) → Option (Trimmed S)
trim_from_left map_to_addr none = none
trim_from_left map_to_addr (some (m, s)) = some (record {
  self = m;
  to_remove = map_to_addr ∷ [];
  to_append = (m.map_to_addr, m) ∷ [];
  vm_space = s;
  result = ok tt;
})

-- The right part is trimmed, after `another` mapping is made for what lies behind it, if anything does.
abbrev pub trim_from_right : {S : Type 0} → Dict Mapping → Option (Mapping × S) → Option (Trimmed S)
trim_from_right another none = none
trim_from_right another (some (m, s)) =
    some (record { self = m; to_remove = []; to_append = another; vm_space = s; result = ok tt })

module _ {S : Type 0} (space : VmSpaceOps S) where
  -- The loop of `trim_left`: only a page that was mapped is unmapped.
  unfoldable pub trim_left_pages : Mapping × S → List ℕ → Option (Mapping × S)
  unfolding unmap_one_page
  trim_left_pages ms [] = some ms
  trim_left_pages (m, s) (page_idx ∷ rest) =
      elim (if is_some (lookup page_idx m.mapped_pages)
        then drop_result
            (unmap_one_page space (forget_page (forget_perm m page_idx) page_idx, s) page_idx)
        else some (forget_perm m page_idx, s)) [ none ↦ none | some ms ↦ trim_left_pages ms rest ]

  -- `trim_left` of `VmMappingInner`; it returns `map_to_addr`, and never an error.
  unfoldable pub trim_left : Mapping × S → ℕ → Option (Mapping × S)
  unfolding trim_left_pages
  trim_left (m, s) vaddr =
      if can_trim_at m vaddr
      then trim_left_pages (move_left m vaddr, s)
          (pages (m.vmo_offset / page_size) ((move_left m vaddr).vmo_offset / page_size))
      else none

  -- The loop of `trim_right`.
  unfoldable pub trim_right_pages : Mapping × S → List ℕ → Option (Mapping × S)
  unfolding unmap_one_page
  trim_right_pages ms [] = some ms
  trim_right_pages (m, s) (page_idx ∷ rest) =
      elim (drop_result (unmap_one_page space (forget_perm m page_idx, s) page_idx)) [
        | none ↦ none
        | some ms ↦ trim_right_pages ms rest
      ]

  -- `trim_right` of `VmMappingInner`
  unfoldable pub trim_right : Mapping × S → ℕ → Option (Mapping × S)
  unfolding trim_right_pages
  trim_right (m, s) vaddr =
      if can_trim_at m vaddr
      then elim (trim_right_pages (m, s)
          (pages ((vaddr - m.map_to_addr + m.vmo_offset) / page_size)
            ((m.map_size + m.vmo_offset) / page_size))) [
              | none ↦ none
              | some (m', s') ↦ some (record m' { map_size = vaddr - m'.map_to_addr }, s')
            ]
      else none

  -- One round of the loop of `protect`.
  abbrev pub protect_page : Mapping × S → ℕ → ℕ → Outcome S (Unit {0})
  protect_page (m, s) perm page_idx =
      let m' = record m { page_perms = insert page_idx perm m.page_perms } in
      elim (page_map_addr m page_idx) [
        | none ↦ none
        | some addr ↦
            if space.is_mapped s addr
            then (let (s', r) =
                  space.protect s (record { start = addr; end = addr + page_size }) perm in
                some ((m', s'), r))
            else some ((m', s), ok tt)
      ]

  unfoldable pub protect_pages : Mapping × S → ℕ → List ℕ → Outcome S (Unit {0})
  protect_pages ms perm [] = some (ms, ok tt)
  protect_pages ms perm (page_idx ∷ rest) = elim (protect_page ms perm page_idx) [
    | none ↦ none
    | some (ms', err e) ↦ some (ms', err e)
    | some (ms', ok u) ↦ protect_pages ms' perm rest
  ]

  -- `protect` of `VmMappingInner`; `perm` is `VmPerm::from(perms)`.
  unfoldable pub protect : Mapping × S → ℕ → Range → Outcome S (Unit {0})
  unfolding protect_pages
  protect (m, s) perm r =
      if (r.start % page_size == 0 && r.end % page_size == 0)
        && (leb m.map_to_addr r.start && leb m.map_to_addr r.end)
      then protect_pages (m, s) perm
          (pages ((r.start - m.map_to_addr + m.vmo_offset) / page_size)
            ((r.end - m.map_to_addr + m.vmo_offset) / page_size))
      else none

  -- `trim_mapping`. A clone of the mapping shares the object, and starts with the same pages.
  unfoldable pub trim_mapping : Mapping × S → Range → Option (Trimmed S)
  unfolding unmap trim_left trim_right
  trim_mapping (m, s) trim_range =
      if is_intersected (range m) trim_range
      then (if leb trim_range.start m.map_to_addr && leb (m.map_to_addr + m.map_size) trim_range.end
          then trim_all m.map_to_addr (unmap space (m, s) trim_range true)
          else if leb trim_range.start m.map_to_addr
          then trim_from_left m.map_to_addr (trim_left (m, s) trim_range.end)
          else if leb trim_range.end (m.map_to_addr + m.map_size)
          then elim (trim_left (m, s) trim_range.end) [
            | none ↦ none
            | some (another, s') ↦
                trim_from_right ((another.map_to_addr, another) ∷ [])
                  (trim_right (m, s') trim_range.start)
          ]
          else trim_from_right [] (trim_right (m, s) trim_range.start))
      else some (record { self = m; to_remove = []; to_append = []; vm_space = s; result = ok tt })
