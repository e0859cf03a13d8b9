-- ===== src/Mapping/Left.antt =====
-- Trimming a mapping from the left (vm_mapping.rs).
use jinux.Base.{
  ℕ, ◌+◌, ◌-◌, ◌/◌, ◌≡◌, ◌∙◌, refl, Bool, true, ◌&&◌, none, some, leb, ltb, if◌then◌else◌, is_some,
  arith,
}
use jinux.Base.Dict.{lookup, IsSorted}
use jinux.Mapping.{Mapping, VmSpaceOps, page_size, pages}
use jinux.Mapping.Change.{can_trim_at, move_left, trim_left_pages, trim_left}
use jinux.Mapping.Pages.{page_of, Dropped, trim_left_pages-Dropped, trim_left_pages-panic}

-- The pages that a range of offsets holds, as `trim_left` and `trim_right` count them.
abbrev pub is_page_between : ℕ → ℕ → ℕ → Bool
is_page_between start end page_idx =
    leb (start / page_size) page_idx && ltb page_idx (end / page_size)

-- A mapping after a trim: what it shows at each address, and the permissions of its pages.
pub record Trims (keeps : ℕ → Bool) (drops : ℕ → Bool) (m m' : Mapping) : Type 0 where
  pub shows : (a : ℕ) → page_of a m' ≡ (if keeps a then page_of a m else none)
  pub perms : (j : ℕ) → lookup j m'.page_perms ≡ (if drops j then none else lookup j m.page_perms)
  pub sorted : IsSorted m'.page_perms

-- The pages that `trim_left` passes over.
abbrev pub left_pages : Mapping → ℕ → ℕ → Bool
left_pages m vaddr = is_page_between m.vmo_offset (m.vmo_offset + (vaddr - m.map_to_addr))

module _ {S : Type 0} (space : VmSpaceOps S) (m : Mapping) (s : S) (vaddr : ℕ) where
  trim_left-pages :
      can_trim_at m vaddr ≡ true
      → trim_left space (m, s) vaddr
        ≡ trim_left_pages space
            (move_left m vaddr, s)
            (pages (m.vmo_offset / page_size) ((move_left m vaddr).vmo_offset / page_size))
  unfolding trim_left
  trim_left-pages can = rw (can, trim_left) refl

  trim_left-Trims :
      (m' : Mapping)
      → can_trim_at m vaddr ≡ true
      → Dropped
          (m.vmo_offset / page_size)
          ((move_left m vaddr).vmo_offset / page_size - m.vmo_offset / page_size)
          (move_left m vaddr)
          m'
      → Trims (λ a. leb vaddr a) (left_pages m vaddr) m m'
  trim_left-Trims m' can d = record {
    shows = λ a. ground (arith, d.same_offset, d.same_size, d.same_addr);
    perms = λ j. ground (arith, d.perms j);
    sorted = d.sorted;
  }

  -- Where no page left of an aligned address in the mapping is mapped, `trim_left` to that address succeeds and leaves
  -- the page tables alone; the mapping starts there, shows at each address behind it what it showed, and nothing
  -- before, and has the permissions of its other pages.
  pub trim_left_lem :
      can_trim_at m vaddr ≡ true
      → IsSorted m.page_perms
      → ((j : ℕ) → left_pages m vaddr j ≡ true → lookup j m.mapped_pages ≡ none)
      → (m' : Mapping) × (trim_left space (m, s) vaddr ≡ some (m', s))
        × (m'.map_to_addr ≡ vaddr)
        × Trims (λ a. leb vaddr a) (left_pages m vaddr) m m'
  trim_left_lem can h free =
      let first = m.vmo_offset / page_size in
      let loop =
        trim_left_pages-Dropped space first ((move_left m vaddr).vmo_offset / page_size - first)
          (move_left m vaddr) s h (λ j l k. free j (ground arith)) in
      (
        loop.0,
        trim_left-pages can ∙ loop.1,
        Dropped.same_addr loop.2,
        trim_left-Trims loop.0 can loop.2,
      )

  -- Where a page left of an aligned address in the mapping is mapped, `trim_left` to that address panics: the loop
  -- asks for the address of a page below the offset that was already moved.
  pub trim_left_panics :
      (j : ℕ)
      → can_trim_at m vaddr ≡ true
      → left_pages m vaddr j ≡ true
      → is_some (lookup j m.mapped_pages) ≡ true
      → trim_left space (m, s) vaddr ≡ none
  trim_left_panics j can left mapped =
      let first = m.vmo_offset / page_size in
      let last = (move_left m vaddr).vmo_offset / page_size in
      trim_left-pages can
      ∙ trim_left_pages-panic space first (last - first) j (move_left m vaddr) s (ground arith)
          (ground arith) (ground arith) mapped
