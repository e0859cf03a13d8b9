-- ===== src/Mapping.antt =====
-- Mappings of virtual memory objects: `VmMapping` and `VmMappingInner`
-- (services/libs/aster-std/src/vm/vmar/vm_mapping.rs), without the contents of the object.
-- The page tables are a parameter: the state `S` of the `VmSpace` and the operations that a mapping calls. Addresses
-- are natural numbers, whose sums do not overflow; a subtraction below zero and a failed (debug) assertion panic, and
-- a panic is `none`. Sets and maps of pages are association lists in the order of their keys.
pub mod Change
pub mod Pages
pub mod Left
pub mod Right
pub mod Trim
mod Tests
use Prim.Native.Nat.{bit_and}
use jinux.Base.{
  ℕ, zero, suc, ◌+◌, ◌-◌, ◌*◌, ◌/◌, Bool, false, ◌&&◌, Option, none, some, List, [], ◌∷◌, Result,
  ok, err, einval, eacces, leb, ◌==◌, if◌then◌else◌,
}
use jinux.Base.Dict.{Dict, lookup, erase}
use jinux.AlignExt.{align_up, align_down}
use jinux.Region.{Range}

-- `PAGE_SIZE`
abbrev pub page_size : ℕ
page_size = 4096

-- What a mapping uses of `VmSpace`.
pub record VmSpaceOps (S : Type 0) : Type 0 where
  pub is_mapped : S → ℕ → Bool
  pub unmap : S → Range → S × Result (Unit {0})
  pub protect : S → Range → ℕ → S × Result (Unit {0})

-- `VmMappingInner`; the bits of a `VmPerm` are a number.
pub record Mapping : Type 0 where
  pub vmo_offset : ℕ
  pub map_size : ℕ
  pub map_to_addr : ℕ
  pub is_destroyed : Bool
  pub mapped_pages : Dict (Unit {0})
  pub page_perms : Dict ℕ

-- What a method leaves, and what it returns.
abbrev pub Outcome : Type 0 → Type 0 → Type 0
Outcome S A = Option ((Mapping × S) × Result A)

-- `range` of `VmMappingInner`
abbrev pub range : Mapping → Range
range m = record { start = m.map_to_addr; end = m.map_to_addr + m.map_size }

-- `page_map_addr`
abbrev pub page_map_addr : Mapping → ℕ → Option ℕ
page_map_addr m page_idx =
    if leb m.vmo_offset (page_idx * page_size)
    then some (page_idx * page_size - m.vmo_offset + m.map_to_addr)
    else none

-- The elements of a range of page indices.
abbrev pub pages_from : ℕ → ℕ → List ℕ
pages_from start zero = []
pages_from start (suc n) = start ∷ pages_from (suc start) n

abbrev pub pages : ℕ → ℕ → List ℕ
pages start end = pages_from start (end - start)

-- `get_page_idx_range` of services/libs/aster-std/src/vm/vmo/mod.rs
unfoldable pub get_page_idx_range : Range → Option (List ℕ)
get_page_idx_range vmo_range = elim (align_down vmo_range.start page_size) [
  | none ↦ none
  | some start ↦ elim (align_up vmo_range.end page_size) [
    | none ↦ none
    | some end ↦ some (pages (start / page_size) (end / page_size))
  ]
]

-- `check_perm`
unfoldable pub check_perm : Mapping → ℕ → ℕ → Result (Unit {0})
check_perm m page_idx perm = elim (lookup page_idx m.page_perms) [
  | none ↦ err einval
  | some page_perm ↦ if bit_and page_perm perm == perm then ok tt else err eacces
]

-- The page is taken out of `mapped_pages`.
abbrev pub forget_page : Mapping → ℕ → Mapping
forget_page m page_idx = record m { mapped_pages = erase page_idx m.mapped_pages }

-- `unmap_one_page` once the page tables are changed.
abbrev pub after_unmap : {S : Type 0} → Mapping → ℕ → S × Result (Unit {0}) → Outcome S (Unit {0})
after_unmap m page_idx (s, err e) = some ((m, s), err e)
after_unmap m page_idx (s, ok u) = some ((forget_page m page_idx, s), ok tt)

-- The end of `unmap`.
abbrev pub mark_unmapped : {S : Type 0} → Range → Bool → Outcome S (Unit {0}) → Outcome S (Unit {0})
mark_unmapped r may_destroy none = none
mark_unmapped r may_destroy (some (ms, err e)) = some (ms, err e)
mark_unmapped r may_destroy (some ((m, s), ok u)) = some (
  (
    (if may_destroy && (r.start == (range m).start && r.end == (range m).end)
        then record m { is_destroyed = false }
        else m),
    s,
  ),
  ok tt,
)

module _ {S : Type 0} (space : VmSpaceOps S) where
  -- `unmap_one_page` of `VmMappingInner`
  unfoldable pub unmap_one_page : Mapping × S → ℕ → Outcome S (Unit {0})
  unmap_one_page (m, s) page_idx = elim (page_map_addr m page_idx) [
    | none ↦ none
    | some addr ↦
        if space.is_mapped s addr
        then after_unmap m page_idx
            (space.unmap s (record { start = addr; end = addr + page_size }))
        else some ((forget_page m page_idx, s), ok tt)
  ]

  -- The loop of `unmap`, which ends at the first error.
  unfoldable pub unmap_pages : Mapping × S → List ℕ → Outcome S (Unit {0})
  unfolding unmap_one_page
  unmap_pages ms [] = some (ms, ok tt)
  unmap_pages ms (page_idx ∷ rest) = elim (unmap_one_page ms page_idx) [
    | none ↦ none
    | some (ms', err e) ↦ some (ms', err e)
    | some (ms', ok u) ↦ unmap_pages ms' rest
  ]

  -- `unmap` of `VmMappingInner`
  unfoldable pub unmap : Mapping × S → Range → Bool → Outcome S (Unit {0})
  unfolding unmap_pages get_page_idx_range
  unmap (m, s) r may_destroy =
      if leb m.map_to_addr r.start && leb m.map_to_addr r.end
      then elim (get_page_idx_range (record {
        start = r.start - m.map_to_addr + m.vmo_offset;
        end = r.end - m.map_to_addr + m.vmo_offset;
      })) [
        | none ↦ none
        | some page_idx_range ↦ mark_unmapped r may_destroy (unmap_pages (m, s) page_idx_range)
      ]
      else none
