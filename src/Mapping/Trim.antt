-- ===== src/Mapping/Trim.antt =====
-- What `trim_mapping` leaves of a mapping (vm_mapping.rs).

use jinux.Base.{
  ℕ, ◌+◌, ◌-◌, ◌%◌, ◌≤◌, ◌<◌, ◌≡◌, ◌∙◌, ap, refl, true, Option, none, some, [], ◌∷◌, leb, ltb, ◌==◌,
  if◌then◌else◌, ok, arith, Bool-cases, inl, inr,
}
use jinux.Base.Dict.{Dict, lookup, IsSorted}
use jinux.Region.{Range, is_intersected}
use jinux.Region.Cover.{in_range}
use jinux.Mapping.{Mapping, VmSpaceOps, page_size, range}
use jinux.Mapping.Change.{
  can_trim_at, trim_left, trim_right, trim_mapping, Trimmed, trim_from_left, trim_from_right,
}
use jinux.Mapping.Pages.{page_of}
use jinux.Mapping.Left.{left_pages, Trims, trim_left_lem}
use jinux.Mapping.Right.{trim_right_lem}

-- What the mappings that a trim leaves show at an address: those to append, and the mapping itself unless its base is
-- to be removed.
abbrev pub shown_by : ℕ → Dict Mapping → Option ℕ
shown_by a [] = none
shown_by a ((base, m) ∷ ms) = elim (page_of a m) [ none ↦ shown_by a ms | some o ↦ some o ]

abbrev pub kept : {S : Type 0} → Trimmed S → Dict Mapping
kept t = elim t.to_remove [ [] ↦ (t.self.map_to_addr, t.self) ∷ t.to_append | b ∷ bs ↦ t.to_append ]

-- A mapping of an aligned base and offset, with the permissions in order.
pub record IsAligned (m : Mapping) : Type 0 where
  pub offset_aligned : m.vmo_offset % page_size ≡ 0
  pub addr_aligned : m.map_to_addr % page_size ≡ 0
  pub sorted : IsSorted m.page_perms

-- An aligned range in a mapping, not empty and not all of it.
pub record IsPart (r : Range) (m : Mapping) : Type 0 where
  pub start_aligned : r.start % page_size ≡ 0
  pub end_aligned : r.end % page_size ≡ 0
  pub not_empty : r.start < r.end
  pub from_start : m.map_to_addr ≤ r.start
  pub to_end : r.end ≤ m.map_to_addr + m.map_size
  pub not_all : r.end - r.start < m.map_size

module _ {S : Type 0} (space : VmSpaceOps S) (m : Mapping) (s : S) (r : Range)
    (part : IsPart r m) where
  is_intersected-IsPart : is_intersected (range m) r ≡ true
  unfolding is_intersected
  is_intersected-IsPart = ground (arith, part.not_empty, part.from_start, part.to_end)

  can_trim_end : can_trim_at m r.end ≡ true
  can_trim_end = ground (arith, part.not_empty, part.from_start, part.to_end, part.end_aligned)

  can_trim_start : can_trim_at m r.start ≡ true
  can_trim_start = ground (arith, part.not_empty, part.from_start, part.to_end, part.start_aligned)

  -- A range at the start of the mapping.
  trim_mapping-left :
      r.start ≡ m.map_to_addr
      → trim_mapping space (m, s) r ≡ trim_from_left m.map_to_addr (trim_left space (m, s) r.end)
  unfolding trim_mapping
  trim_mapping-left e =
      rw (is_intersected-IsPart, trim_mapping)
        (ground (arith, part.not_empty, part.from_start, part.to_end, part.not_all))

  -- A range behind the start.
  trim_mapping-right :
      (another : Mapping) (s' : S)
      → m.map_to_addr < r.start
      → trim_left space (m, s) r.end ≡ some (another, s')
      → trim_mapping space (m, s) r
        ≡ trim_from_right ((another.map_to_addr, another) ∷ []) (trim_right space (m, s') r.start)
  unfolding trim_mapping
  trim_mapping-right another s' l e =
      rw (is_intersected-IsPart, trim_mapping)
        (ground (arith, part.not_empty, part.from_start, part.to_end, part.not_all, e))

  -- What the trim leaves shows at each address outside the range what the mapping showed, and nothing inside it.
  abbrev pub IsTrimmed : Trimmed S → Type 0
  IsTrimmed t =
      (t.result ≡ ok tt)
      × ((a : ℕ) → shown_by a (kept t) ≡ (if in_range a r then none else page_of a m))

  shown_left :
      (m' : Mapping) (s' : S)
      → r.start ≡ m.map_to_addr
      → ((a : ℕ) → page_of a m' ≡ (if leb r.end a then page_of a m else none))
      → IsTrimmed (record {
        self = m';
        to_remove = m.map_to_addr ∷ [];
        to_append = (m'.map_to_addr, m') ∷ [];
        vm_space = s';
        result = ok tt;
      })
  shown_left m' s' e h = (refl, λ a. ground (arith, h a, part.not_empty))

  shown_right :
      (m' another : Mapping) (s' : S)
      → ((a : ℕ) → page_of a m' ≡ (if ltb a r.start then page_of a m else none))
      → ((a : ℕ) → page_of a another ≡ (if leb r.end a then page_of a m else none))
      → IsTrimmed (record {
        self = m';
        to_remove = [];
        to_append = (another.map_to_addr, another) ∷ [];
        vm_space = s';
        result = ok tt;
      })
  shown_right m' another s' h k = (refl, λ a. ground (arith, h a, k a, part.not_empty))

  -- Where a part of an aligned mapping is trimmed and no page of the mapping before the end of the part is mapped, the
  -- trim succeeds; the mappings that it leaves show at each address outside the part the same place of the object as
  -- before, and nothing inside it.
  pub trim_mapping_lem :
      IsAligned m
      → ((j : ℕ) → left_pages m r.end j ≡ true → lookup j m.mapped_pages ≡ none)
      → (t : Trimmed S) × (trim_mapping space (m, s) r ≡ some t) × IsTrimmed t
  trim_mapping_lem aligned free =
      let left = trim_left_lem space m s r.end can_trim_end aligned.sorted free in
      let right =
        trim_right_lem space m s r.start can_trim_start aligned.offset_aligned aligned.sorted in
      elim (Bool-cases (r.start == m.map_to_addr)) [
        | inl same ↦ (
          _,
          trim_mapping-left (ground arith) ∙ ap (trim_from_left m.map_to_addr) left.1,
          shown_left left.0 s (ground arith) (Trims.shows left.3),
        )
        | inr behind ↦ (
          _,
          trim_mapping-right left.0 s (ground (arith, part.from_start)) left.1
              ∙ ap (trim_from_right ((left.0.map_to_addr, left.0) ∷ [])) right.2,
          shown_right right.0 left.0 right.1 (Trims.shows right.4) (Trims.shows left.3),
        )
      ]

  -- Where the part ends with the mapping and no page of the mapping is mapped, `trim_mapping` appends a mapping that
  -- shows nothing under the address at which the mapping ended.
  pub trim_mapping_tail :
      IsAligned m
      → r.end ≡ m.map_to_addr + m.map_size
      → m.map_to_addr < r.start
      → ((j : ℕ) → lookup j m.mapped_pages ≡ none)
      → (t : Trimmed S) × (another : Mapping) × (trim_mapping space (m, s) r ≡ some t)
        × (t.to_append ≡ (r.end, another) ∷ [])
        × (t.to_remove ≡ [])
        × (t.result ≡ ok tt)
        × ((a : ℕ) → page_of a another ≡ none)
  trim_mapping_tail aligned tail behind free =
      let left = trim_left_lem space m s r.end can_trim_end aligned.sorted (λ j h. free j) in
      let right =
        trim_right_lem space m s r.start can_trim_start aligned.offset_aligned aligned.sorted in
      (
        _,
        left.0,
        trim_mapping-right left.0 s behind left.1
            ∙ ap (trim_from_right ((left.0.map_to_addr, left.0) ∷ [])) right.2,
        ap (λ x. (x, left.0) ∷ []) left.2,
        refl,
        refl,
        λ a. ground (arith, Trims.shows left.3 a, tail),
      )
