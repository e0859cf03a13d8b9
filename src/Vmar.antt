-- ===== src/Vmar.antt =====
-- Regions of virtual memory: `Vmar_` (services/libs/aster-std/src/vm/vmar/mod.rs).
-- A region holds its children, its mappings and its free regions, each by address. The parent of a region, its lock
-- and the page tables of a region are not in the state; a panic is `none`.
pub mod Alloc
pub mod Protect
pub mod Place
pub mod Overwrite
mod Tests
use jinux.Base.{
  ℕ, ◌+◌, ◌%◌, Bool, true, false, ◌&&◌, ◌||◌, not, Option, none, some, List, [], ◌∷◌, ◌++◌, Result,
  ok, err, einval, eacces, leb, ltb, ◌==◌, if◌then◌else◌, is_none,
}
use jinux.Base.Dict.{Dict, lookup, insert, erase}
use jinux.Region.{
  Range, Regions, is_intersected, get_intersected_range, allocate_at, find_free_region_for_child,
  split_regions, split_each,
}
use jinux.Mapping.{Mapping}

-- `Vmar_` with its `VmarInner`; `Children` is the map `child_vmar_s`.
mutual
  pub data Vmar : Type 0 where
    vmar :
        (is_destroyed : Bool) (base size : ℕ) (child_vmar_s : Children) (vm_mappings : Dict Mapping)
        (free_regions : Regions)
        → Vmar

  pub data Children : Type 0 where
    no_child : Children
    child : ℕ → Vmar → Children → Children

abbrev pub lowest_addr : ℕ
lowest_addr = 1048576

abbrev pub highest_addr : ℕ
highest_addr = 17592186044416

-- `Vmar_::new_root`
unfoldable pub new_root : Vmar
new_root =
    vmar false 0 highest_addr no_child []
      ((lowest_addr, record { start = lowest_addr; end = highest_addr }) ∷ [])

-- `range` of `Vmar_`
abbrev pub vmar_range : Vmar → Range
vmar_range (vmar d base size cs ms free) = record { start = base; end = base + size }

-- `child_vmar_s.insert`
abbrev pub insert_child : ℕ → Vmar → Children → Children
insert_child key v no_child = child key v no_child
insert_child key v (child other w cs) =
    if key == other
    then child key v cs
    else if ltb key other
    then child key v (child other w cs)
    else child other w (insert_child key v cs)

-- The child made by `alloc_child_vmar`: all of it is free.
abbrev pub new_child : ℕ → ℕ → Vmar
new_child base size =
    vmar false base size no_child [] ((base, record { start = base; end = base + size }) ∷ [])

-- `alloc_child_vmar`, which leaves the region as it is when it fails; it returns the base of the child.
unfoldable pub alloc_child_vmar : Option ℕ → ℕ → ℕ → Vmar → Option (Vmar × Result ℕ)
unfolding allocate_at find_free_region_for_child
alloc_child_vmar offset size align (vmar d base total cs ms free) =
    elim (find_free_region_for_child offset size align free) [
      | none ↦ none
      | some (err e) ↦ some (vmar d base total cs ms free, err e)
      | some (ok (region_base, start)) ↦
          elim (allocate_at region_base (λ region. record { start = start; end = start + size })
            free) [
              | none ↦ none
              | some free' ↦ some (
                vmar d base total (insert_child start (new_child start size) cs) ms free',
                ok start,
              )
            ]
    ]

-- The first loop of `check_vmo_overwrite`: a child that the range meets.
abbrev pub meets_child : Range → Children → Bool
meets_child r no_child = false
meets_child r (child key v cs) = is_intersected r (vmar_range v) || meets_child r cs

-- The range of a mapping by its key in the map.
abbrev pub keyed_range : ℕ → Mapping → Range
keyed_range key m = record { start = key; end = key + m.map_size }

abbrev pub meets_mapping : Range → Dict Mapping → Bool
meets_mapping r [] = false
meets_mapping r ((key, m) ∷ ms) = is_intersected r (keyed_range key m) || meets_mapping r ms

-- `check_vmo_overwrite`
unfoldable pub check_vmo_overwrite : Range → Bool → Vmar → Result (Unit {0})
check_vmo_overwrite r can_overwrite (vmar d base size cs ms free) =
    if meets_child r cs
    then err eacces
    else if not can_overwrite && meets_mapping r ms
    then err eacces
    else ok tt

-- `get_vm_mapping`
abbrev pub find_mapping : ℕ → Dict Mapping → Option Mapping
find_mapping addr [] = none
find_mapping addr ((key, m) ∷ ms) =
    if leb key addr && ltb addr (key + m.map_size) then some m else find_mapping addr ms

unfoldable pub get_vm_mapping : ℕ → Vmar → Result Mapping
get_vm_mapping offset (vmar d base size cs ms free) = elim (find_mapping offset ms) [
  | none ↦ err eacces
  | some m ↦ ok m
]

-- `add_mapping`
unfoldable pub add_mapping : Mapping → Vmar → Vmar
add_mapping m (vmar d base size cs ms free) = vmar d base size cs (insert m.map_to_addr m ms) free

-- The base of a child is the key it is looked up by in `handle_page_fault`; its size is its own.
abbrev pub size_of : Vmar → ℕ
size_of (vmar d base size cs ms free) = size

-- `handle_page_fault`, over that of a mapping.
unfoldable mutual
  pub handle_page_fault : (Mapping → Result (Unit {0})) → ℕ → Vmar → Result (Unit {0})
  handle_page_fault handle addr (vmar d base size cs ms free) =
      if ltb addr base || leb (base + size) addr
      then err eacces
      else elim (fault_in_child handle addr cs) [
        | some r ↦ r
        | none ↦ elim (find_mapping addr ms) [ none ↦ err eacces | some m ↦ handle m ]
      ]

  pub fault_in_child : (Mapping → Result (Unit {0})) → ℕ → Children → Option (Result (Unit {0}))
  fault_in_child handle addr no_child = none
  fault_in_child handle addr (child key v cs) =
      if leb key addr && ltb addr (key + size_of v)
      then some (handle_page_fault handle addr v)
      else fault_in_child handle addr cs

-- The first loop of `check_protected_range`: a free region that the range meets.
abbrev pub meets_free : Range → Regions → Bool
meets_free r [] = false
meets_free r ((base, region) ∷ free) = is_intersected region r || meets_free r free

-- `check_protected_range`; its assertions are `none`.
unfoldable mutual
  pub check_protected_range : Range → Vmar → Option (Result (Unit {0}))
  check_protected_range r (vmar d base size cs ms free) =
      if leb base r.start && leb r.end (base + size)
      then (if meets_free r free then some (err eacces) else check_children r cs)
      else none

  pub check_children : Range → Children → Option (Result (Unit {0}))
  check_children r no_child = some (ok tt)
  check_children r (child key v cs) =
      elim (if is_intersected (vmar_range v) r
        then check_protected_range (get_intersected_range (vmar_range v) r) v
        else some (ok tt)) [
          | none ↦ none
          | some (err e) ↦ some (err e)
          | some (ok u) ↦ check_children r cs
        ]
