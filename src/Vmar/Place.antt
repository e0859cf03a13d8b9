-- ===== src/Vmar/Place.antt =====
-- Finding room for a mapping: `allocate_free_region_for_vmo` and `trim_existing_mappings`
-- (services/libs/aster-std/src/vm/vmar/mod.rs). Both leave what they have changed when they fail.
use Prim.Native.Nat.{max}
use jinux.Base.{
  ℕ, ◌+◌, Bool, Option, none, some, List, [], ◌∷◌, ◌++◌, Result, ok, err, einval, ◌==◌,
  if◌then◌else◌,
}
use jinux.Base.Dict.{Dict, insert, erase}
use jinux.Region.{
  Range, get_intersected_range, allocate_at, find_free_region_for_child, split_regions, split_each,
}
use jinux.Mapping.{Mapping, VmSpaceOps}
use jinux.Mapping.Change.{Trimmed, trim_mapping}
use jinux.Vmar.{Vmar, vmar}

-- The bases collected, taken out of a map.
abbrev pub remove_all : List ℕ → Dict Mapping → Dict Mapping
remove_all [] ms = ms
remove_all (b ∷ bs) ms = remove_all bs (erase b ms)

abbrev pub append_all : Dict Mapping → Dict Mapping → Dict Mapping
append_all [] ms = ms
append_all ((b, m) ∷ new) ms = append_all new (insert b m ms)

-- What the loop of `trim_existing_mappings` has done: the mappings that it has changed in place, and what it collected.
pub record Trims (S : Type 0) : Type 0 where
  pub mappings : Dict Mapping
  pub to_remove : List ℕ
  pub to_append : Dict Mapping
  pub vm_space : S
  pub result : Result (Unit {0})

-- One mapping's part in the loop, before the rest.
abbrev pub add_trimmed : {S : Type 0} → ℕ → Trimmed S → Trims S → Trims S
add_trimmed key t rest = record {
  mappings = (key, t.self) ∷ rest.mappings;
  to_remove = t.to_remove ++ rest.to_remove;
  to_append = append_all rest.to_append t.to_append;
  vm_space = rest.vm_space;
  result = rest.result;
}

module _ {S : Type 0} (space : VmSpaceOps S) where
  -- The first loop of `trim_existing_mappings`, which ends at the first error.
  unfoldable pub trim_each : Range → Dict Mapping → S → Option (Trims S)
  unfolding trim_mapping
  trim_each r [] s =
      some (record { mappings = []; to_remove = []; to_append = []; vm_space = s; result = ok tt })
  trim_each r ((key, m) ∷ ms) s = elim (trim_mapping space (m, s) r) [
    | none ↦ none
    | some t ↦ elim t.result [
      | err e ↦ some (record {
        mappings = (key, t.self) ∷ ms;
        to_remove = t.to_remove;
        to_append = t.to_append;
        vm_space = t.vm_space;
        result = err e;
      })
      | ok u ↦ elim (trim_each r ms t.vm_space) [
        | none ↦ none
        | some rest ↦ some (add_trimmed key t rest)
      ]
    ]
  ]

  -- `trim_existing_mappings`
  unfoldable pub trim_existing_mappings :
      Range → Dict Mapping → S → Option ((Dict Mapping × S) × Result (Unit {0}))
  unfolding trim_each
  trim_existing_mappings r ms s = elim (trim_each r ms s) [
    | none ↦ none
    | some t ↦ elim t.result [
      | err e ↦ some ((t.mappings, t.vm_space), err e)
      | ok u ↦
          some ((append_all t.to_append (remove_all t.to_remove t.mappings), t.vm_space), ok tt)
    ]
  ]

  -- `allocate_free_region_for_vmo` with `can_overwrite`; without an offset it fails.
  unfoldable pub allocate_overwriting : ℕ → Option ℕ → Vmar → S → Option ((Vmar × S) × Result ℕ)
  unfolding split_each trim_existing_mappings
  allocate_overwriting map_size none v s = some ((v, s), err einval)
  allocate_overwriting map_size (some offset) (vmar d base total cs ms free) s =
      let map_range : Range = record { start = offset; end = offset + map_size } in
      elim (split_each map_range (split_regions map_range free) free) [
        | none ↦ none
        | some free' ↦ elim (trim_existing_mappings map_range ms s) [
          | none ↦ none
          | some ((ms', s'), err e) ↦ some ((vmar d base total cs ms' free', s'), err e)
          | some ((ms', s'), ok u) ↦ some ((vmar d base total cs ms' free', s'), ok offset)
        ]
      ]

  -- The debug assertion of `get_intersected_range` fails on a range of size zero.
  unfoldable pub allocate_apart : ℕ → Option ℕ → ℕ → Vmar → S → Option ((Vmar × S) × Result ℕ)
  unfolding allocate_at find_free_region_for_child
  allocate_apart map_size offset align (vmar d base total cs ms free) s =
      elim (find_free_region_for_child offset map_size align free) [
        | none ↦ none
        | some (err e) ↦ some ((vmar d base total cs ms free, s), err e)
        | some (ok (region_base, start)) ↦
            let vmo_range : Range = record { start = start; end = start + map_size } in
            if map_size == 0
            then none
            else elim (allocate_at region_base (λ region. get_intersected_range region vmo_range)
                free) [
                  | none ↦ none
                  | some free' ↦ some ((vmar d base total cs ms free', s), ok start)
                ]
      ]

  -- `allocate_free_region_for_vmo`
  unfoldable pub allocate_free_region_for_vmo :
      ℕ → ℕ → Option ℕ → ℕ → Bool → Vmar → S → Option ((Vmar × S) × Result ℕ)
  unfolding allocate_overwriting allocate_apart
  allocate_free_region_for_vmo vmo_size size offset align can_overwrite v s =
      let map_size = max size vmo_size in
      if can_overwrite
      then allocate_overwriting map_size offset v s
      else allocate_apart map_size offset align v s
