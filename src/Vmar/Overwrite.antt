-- ===== src/Vmar/Overwrite.antt =====
-- What finding room for a mapping does to the free regions and to the mappings that are there (vmar/mod.rs).
use Prim.Native.Nat.{max}
use jinux.Base.{
  ℕ, ◌+◌, ◌<◌, ◌≡◌, ◌∙◌, ap, refl, Bool, true, false, ◌&&◌, not, Option, none, some, [], ◌∷◌, ok,
  ◌==◌, arith,
}
use jinux.Base.Dict.{Dict, lookup, insert}
use jinux.Base.DictLaws.{lookup-insert}
use jinux.Region.{
  Range, Regions, is_intersected, get_intersected_range, allocate_at, find_free_region_for_child,
}
use jinux.Region.Cover.{in_range, covers, AreSeparate}
use jinux.Region.Carve.{Within, allocate_at_lem}
use jinux.Region.Find.{find_free_region_for_child-Within, from_offset}
use jinux.Mapping.{Mapping, VmSpaceOps, range}
use jinux.Mapping.Change.{Trimmed, trim_mapping}
use jinux.Mapping.Pages.{page_of}
use jinux.Mapping.Trim.{IsAligned, IsPart, trim_mapping_tail}
use jinux.Vmar.{vmar, Children}
use jinux.Vmar.Alloc.{lookup-covers}
use jinux.Vmar.Place.{
  trim_each, trim_existing_mappings, allocate_free_region_for_vmo, allocate_apart, append_all,
  remove_all, add_trimmed, Trims,
}

Within-get_intersected_range :
    (r al : Range) → Within al r → al.start < al.end → Within (get_intersected_range r al) r
unfolding get_intersected_range
Within-get_intersected_range r al w l = ground (arith, w.0, w.1, w.2)

in_range-Within :
    (a : ℕ) (r al : Range) → Within al r → in_range a (get_intersected_range r al) ≡ in_range a al
unfolding get_intersected_range
in_range-Within a r al w = ground (arith, w.0, w.1, w.2)

lookup-insert_self : (k : ℕ) (m : Mapping) (ms : Dict Mapping) → lookup k (insert k m ms) ≡ some m
lookup-insert_self k m ms = ground (arith, lookup-insert k k m ms)

-- A mapping that starts where a range ends does not meet it.
unmet :
    (next : Mapping) (r : Range) → next.map_to_addr ≡ r.end → is_intersected (range next) r ≡ false
unfolding is_intersected
unmet next r e = ground arith

module _ {S : Type 0} (space : VmSpaceOps S) (s : S) where
  allocate_apart-step :
      (map_size align region_base start : ℕ) (offset : Option ℕ) (d : Bool) (base total : ℕ)
      (cs : Children) (ms : Dict Mapping) (free free' : Regions)
      → (map_size == 0) ≡ false
      → find_free_region_for_child offset map_size align free ≡ some (ok (region_base, start))
      → allocate_at region_base
          (λ region. get_intersected_range region (from_offset start map_size))
          free
        ≡ some free'
      → allocate_apart space map_size offset align (vmar d base total cs ms free) s
        ≡ some ((vmar d base total cs ms free', s), ok start)
  unfolding allocate_apart
  allocate_apart-step map_size align region_base start offset d base total cs ms free free' z e f =
      rw (e, allocate_apart) (rw (z, allocate_apart) (rw (f, allocate_apart) refl))

  -- Where a mapping may not overwrite others, is not empty, and a free region is found for it, room is made at the offset
  -- found: the free regions cover what they did less the larger of the sizes of mapping and object from there on, and
  -- all of that was free.
  pub allocate_free_region_for_vmo_lem :
      (vmo_size size align region_base start : ℕ) (offset : Option ℕ) (d : Bool) (base total : ℕ)
      (cs : Children) (ms : Dict Mapping) (free : Regions)
      → 0 < max size vmo_size
      → AreSeparate 0 free
      → find_free_region_for_child offset (max size vmo_size) align free
        ≡ some (ok (region_base, start))
      → (free' : Regions) × (allocate_free_region_for_vmo space vmo_size size offset align false
            (vmar d base total cs ms free)
            s
          ≡ some ((vmar d base total cs ms free', s), ok start))
        × AreSeparate 0 free'
        × ((a : ℕ)
            → covers a free'
              ≡ (covers a free && not (in_range a (from_offset start (max size vmo_size)))))
        × ((a : ℕ)
            → in_range a (from_offset start (max size vmo_size)) ≡ true
            → covers a free ≡ true)
  allocate_free_region_for_vmo_lem vmo_size size align region_base start offset d base total cs ms
        free l separate e =
      let wanted = from_offset start (max size vmo_size) in
      let (r, here, within, want) =
        find_free_region_for_child-Within offset (max size vmo_size) align 0 region_base start free
          separate e in
      let (free', taken, separate', covered) =
        allocate_at_lem region_base 0 r (λ region. get_intersected_range region wanted) free
          separate here (Within-get_intersected_range r wanted within (omega arith)) in
      (
        free',
        unfold allocate_free_region_for_vmo in
            allocate_apart-step (max size vmo_size) align region_base start offset d base total cs
              ms free free' (ground (arith, l)) e taken,
        separate',
        λ a. covered a ∙ ap (λ x. covers a free && not x) (in_range-Within a r wanted within),
        λ a i.
            lookup-covers a region_base r free here
              (ground (arith, i, within.0, within.1, within.2)),
      )

  trim_mapping-apart :
      (m : Mapping) (r : Range)
      → is_intersected (range m) r ≡ false
      → trim_mapping space (m, s) r
        ≡ some (record { self = m; to_remove = []; to_append = []; vm_space = s; result = ok tt })
  unfolding trim_mapping
  trim_mapping-apart m r e = rw (e, trim_mapping) refl

module _ {S : Type 0} (space : VmSpaceOps S) where
  trim_each-nil :
      (r : Range) (s : S)
      → trim_each space r [] s
        ≡ some
            (record { mappings = []; to_remove = []; to_append = []; vm_space = s; result = ok tt })
  unfolding trim_each
  trim_each-nil r s = refl

  trim_each-cons :
      (s : S) (key : ℕ) (m : Mapping) (ms : Dict Mapping) (r : Range) (t : Trimmed S)
      (rest : Trims S)
      → trim_mapping space (m, s) r ≡ some t
      → t.result ≡ ok tt
      → trim_each space r ms t.vm_space ≡ some rest
      → trim_each space r ((key, m) ∷ ms) s ≡ some (add_trimmed key t rest)
  unfolding trim_each
  trim_each-cons s key m ms r t rest e f g =
      rw (e, trim_each) (rw (f, trim_each) (rw (g, trim_each) refl))

  trim_existing_mappings-ok :
      (s : S) (ms : Dict Mapping) (r : Range) (u : Trims S)
      → trim_each space r ms s ≡ some u
      → u.result ≡ ok tt
      → trim_existing_mappings space r ms s
        ≡ some ((append_all u.to_append (remove_all u.to_remove u.mappings), u.vm_space), ok tt)
  unfolding trim_existing_mappings
  trim_existing_mappings-ok s ms r u e f =
      rw (e, trim_existing_mappings) (rw (f, trim_existing_mappings) refl)

  -- Where a range ends with a mapping that it is a part of and that has no mapped page, trimming it for a mapping to come
  -- takes the next mapping, which starts at that end and so does not meet the range, out of the map: in its place
  -- stands one that shows nothing.
  pub trim_existing_mappings_loses_next :
      (s : S) (m next : Mapping) (r : Range) (part : IsPart r m)
      → IsAligned m
      → r.end ≡ m.map_to_addr + m.map_size
      → m.map_to_addr < r.start
      → ((j : ℕ) → lookup j m.mapped_pages ≡ none)
      → next.map_to_addr ≡ r.end
      → (ms : Dict Mapping) × (s' : S) × (another : Mapping) × (trim_existing_mappings space r
            ((m.map_to_addr, m) ∷ (r.end, next) ∷ [])
            s
          ≡ some ((ms, s'), ok tt))
        × (lookup r.end ms ≡ some another)
        × ((a : ℕ) → page_of a another ≡ none)
  trim_existing_mappings_loses_next s m next r part aligned tail behind free at_end =
      let (t, another, trimmed, appended, removed, fine, nothing) =
        trim_mapping_tail space m s r part aligned tail behind free in
      let last : Trimmed S = record {
        self = next;
        to_remove = [];
        to_append = [];
        vm_space = t.vm_space;
        result = ok tt;
      } in
      let empty : Trims S = record {
        mappings = [];
        to_remove = [];
        to_append = [];
        vm_space = t.vm_space;
        result = ok tt;
      } in
      let u = add_trimmed m.map_to_addr t (add_trimmed r.end last empty) in
      let done = append_all u.to_append (remove_all u.to_remove u.mappings) in
      (
        done,
        u.vm_space,
        another,
        trim_existing_mappings-ok s ((m.map_to_addr, m) ∷ (r.end, next) ∷ []) r u
            (trim_each-cons s m.map_to_addr m ((r.end, next) ∷ []) r t
              (add_trimmed r.end last empty) trimmed fine
              (trim_each-cons t.vm_space r.end next [] r last empty
                (trim_mapping-apart space t.vm_space next r (unmet next r at_end)) refl
                (trim_each-nil r t.vm_space)))
            refl,
        ap (λ x. lookup r.end (append_all x (remove_all u.to_remove u.mappings))) appended
            ∙ lookup-insert_self r.end another (remove_all u.to_remove u.mappings),
        nothing,
      )
