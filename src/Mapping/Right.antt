-- ===== src/Mapping/Right.antt =====
-- Trimming a mapping from the right (vm_mapping.rs).
use jinux.Base.{ℕ, ◌+◌, ◌-◌, ◌/◌, ◌%◌, ◌≡◌, refl, Bool, true, some, ltb, arith}
use jinux.Base.Dict.{IsSorted}
use jinux.Mapping.{Mapping, VmSpaceOps, page_size, pages}
use jinux.Mapping.Change.{can_trim_at, trim_right_pages, trim_right}
use jinux.Mapping.Pages.{Dropped, trim_right_pages-Dropped}
use jinux.Mapping.Left.{is_page_between, Trims}

-- The pages that `trim_right` passes over.
abbrev pub right_pages : Mapping → ℕ → ℕ → Bool
right_pages m vaddr =
    is_page_between (vaddr - m.map_to_addr + m.vmo_offset) (m.map_size + m.vmo_offset)

module _ {S : Type 0} (space : VmSpaceOps S) (m : Mapping) (s : S) (vaddr : ℕ) where
  trim_right-pages :
      (m' : Mapping) (s' : S)
      → can_trim_at m vaddr ≡ true
      → trim_right_pages space
          (m, s)
          (pages
            ((vaddr - m.map_to_addr + m.vmo_offset) / page_size)
            ((m.map_size + m.vmo_offset) / page_size))
        ≡ some (m', s')
      → trim_right space (m, s) vaddr ≡ some (record m' { map_size = vaddr - m'.map_to_addr }, s')
  unfolding trim_right
  trim_right-pages m' s' can e = rw (can, trim_right) (rw (e, trim_right) refl)

  trim_right-Trims :
      (m' : Mapping)
      → can_trim_at m vaddr ≡ true
      → Dropped
          ((vaddr - m.map_to_addr + m.vmo_offset) / page_size)
          ((m.map_size + m.vmo_offset) / page_size
            - (vaddr - m.map_to_addr + m.vmo_offset) / page_size)
          m
          m'
      → Trims
          (λ a. ltb a vaddr)
          (right_pages m vaddr)
          m
          (record m' { map_size = vaddr - m'.map_to_addr })
  trim_right-Trims m' can d = record {
    shows = λ a. ground (arith, d.same_offset, d.same_addr);
    perms = λ j. ground (arith, d.perms j);
    sorted = d.sorted;
  }

  -- `trim_right` to an aligned address in a mapping of an aligned offset does not panic, whatever the page tables
  -- answer; the mapping keeps its start, shows at each address before that one what it showed, and nothing behind, and
  -- has the permissions of its other pages.
  pub trim_right_lem :
      can_trim_at m vaddr ≡ true
      → m.vmo_offset % page_size ≡ 0
      → IsSorted m.page_perms
      → (m' : Mapping) × (s' : S) × (trim_right space (m, s) vaddr ≡ some (m', s'))
        × (m'.map_to_addr ≡ m.map_to_addr)
        × Trims (λ a. ltb a vaddr) (right_pages m vaddr) m m'
  trim_right_lem can aligned h =
      let first = (vaddr - m.map_to_addr + m.vmo_offset) / page_size in
      let loop =
        trim_right_pages-Dropped space first ((m.map_size + m.vmo_offset) / page_size - first) m s h
          (omega (arith, aligned)) in
      (
        record loop.0 { map_size = vaddr - (loop.0).map_to_addr },
        loop.1,
        trim_right-pages loop.0 loop.1 can loop.2,
        Dropped.same_addr loop.3,
        trim_right-Trims loop.0 can loop.3,
      )
