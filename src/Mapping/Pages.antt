-- ===== src/Mapping/Pages.antt =====
-- The page of an address, and what the loops over pages leave (vm_mapping.rs).
use jinux.Base.{
  ℕ, zero, suc, ◌+◌, ◌-◌, ◌*◌, ◌≤◌, ◌<◌, ◌≡◌, ◌∙◌, ap, refl, Bool, true, false, ◌&&◌, Option, none,
  some, List, ◌∷◌, leb, ltb, if◌then◌else◌, is_some, arith, Result, ok, err, Bool-cases, inl, inr,
  Result, ok, err, Bool-cases, inl, inr,
}
use jinux.Base.Dict.{Dict, lookup, erase, IsSorted}
use jinux.Base.DictLaws.{lookup-erase, erase-IsSorted}
use jinux.Region.Cover.{in_range}
use jinux.Mapping.{
  Mapping, VmSpaceOps, page_size, range, pages_from, forget_page, unmap_one_page, after_unmap,
}
use jinux.Mapping.Change.{forget_perm, trim_left_pages, trim_right_pages, drop_result}

-- The offset in the object that the mapping shows at an address.
abbrev pub page_of : ℕ → Mapping → Option ℕ
page_of a m = if in_range a (range m) then some (m.vmo_offset + (a - m.map_to_addr)) else none

-- What a loop that takes `n` pages from `start` out of the permissions leaves of a mapping.
pub record Dropped (start n : ℕ) (m m' : Mapping) : Type 0 where
  pub same_offset : m'.vmo_offset ≡ m.vmo_offset
  pub same_size : m'.map_size ≡ m.map_size
  pub same_addr : m'.map_to_addr ≡ m.map_to_addr
  pub sorted : IsSorted m'.page_perms
  pub perms :
      (j : ℕ)
      → lookup j m'.page_perms
        ≡ (if leb start j && ltb j (start + n) then none else lookup j m.page_perms)

Dropped-zero : (start : ℕ) (m : Mapping) → IsSorted m.page_perms → Dropped start 0 m m
Dropped-zero start m h = record {
  same_offset = refl;
  same_size = refl;
  same_addr = refl;
  sorted = h;
  perms = λ j. ground arith;
}

-- A round drops the first page, and may change the set of mapped pages.
Dropped-suc :
    (start n : ℕ) (m m1 m' : Mapping)
    → IsSorted m.page_perms
    → m1.vmo_offset ≡ m.vmo_offset
    → m1.map_size ≡ m.map_size
    → m1.map_to_addr ≡ m.map_to_addr
    → m1.page_perms ≡ erase start m.page_perms
    → Dropped (suc start) n m1 m'
    → Dropped start (suc n) m m'
Dropped-suc start n m m1 m' h e f g p d = record {
  same_offset = d.same_offset ∙ e;
  same_size = d.same_size ∙ f;
  same_addr = d.same_addr ∙ g;
  sorted = d.sorted;
  perms = λ j. ground (arith, d.perms j, p, lookup-erase j start m.page_perms h);
}

is_some-false : {A : Type 0} {x : Option A} → is_some x ≡ false → x ≡ none
is_some-false {x = none} e = refl
is_some-false {x = some x} e = ground arith

after_first :
    (start j : ℕ) (m : Mapping)
    → start ≤ j
    → is_some (lookup j m.mapped_pages) ≡ true
    → is_some (lookup start m.mapped_pages) ≡ false
    → start < j
after_first start j m l e f = ground arith

drop_result-if :
    {S : Type 0} (idx : ℕ) (m : Mapping) (s : S) (b : Bool) (r : S × Result (Unit {0}))
    → (d : Dict (Unit {0})) × (s' : S) × (drop_result
          (if b then after_unmap m idx r else some ((forget_page m idx, s), ok tt))
        ≡ some (record m { mapped_pages = d }, s'))
drop_result-if idx m s false r = (erase idx m.mapped_pages, s, refl)
drop_result-if idx m s true (s', ok u) = (erase idx m.mapped_pages, s', refl)
drop_result-if idx m s true (s', err e) = (m.mapped_pages, s', refl)

module _ {S : Type 0} (space : VmSpaceOps S) where
  trim_left_pages-unmapped :
      (start : ℕ) (rest : List ℕ) (m : Mapping) (s : S)
      → lookup start m.mapped_pages ≡ none
      → trim_left_pages space (m, s) (start ∷ rest)
        ≡ trim_left_pages space (forget_perm m start, s) rest
  unfolding trim_left_pages
  trim_left_pages-unmapped start rest m s e = rw (e, trim_left_pages) refl

  -- On pages of which none is mapped, the loop of `trim_left` drops the permissions and touches nothing else.
  pub trim_left_pages-Dropped :
      (start n : ℕ) (m : Mapping) (s : S)
      → IsSorted m.page_perms
      → ((j : ℕ) → start ≤ j → j < start + n → lookup j m.mapped_pages ≡ none)
      → (m' : Mapping) × (trim_left_pages space (m, s) (pages_from start n) ≡ some (m', s))
        × Dropped start n m m'
  unfolding trim_left_pages
  trim_left_pages-Dropped start zero m s h free = (m, refl, Dropped-zero start m h)
  trim_left_pages-Dropped start (suc n) m s h free =
      let rest =
        trim_left_pages-Dropped (suc start) n (forget_perm m start) s
          (erase-IsSorted start m.page_perms h) (λ j l k. free j (omega arith) (omega arith)) in
      (
        rest.0,
        trim_left_pages-unmapped start (pages_from (suc start) n) m s
              (free start (omega arith) (omega arith))
            ∙ rest.1,
        Dropped-suc start n m (forget_perm m start) rest.0 h refl refl refl refl rest.2,
      )

  unmap_one_page-panic :
      (idx : ℕ) (m : Mapping) (s : S)
      → idx * page_size < m.vmo_offset
      → unmap_one_page space (m, s) idx ≡ none
  unfolding unmap_one_page
  unmap_one_page-panic idx m s o = ground arith

  trim_left_pages-mapped :
      (start : ℕ) (rest : List ℕ) (m : Mapping) (s : S)
      → start * page_size < m.vmo_offset
      → is_some (lookup start m.mapped_pages) ≡ true
      → trim_left_pages space (m, s) (start ∷ rest) ≡ none
  unfolding trim_left_pages
  trim_left_pages-mapped start rest m s o e =
      rw (e, trim_left_pages)
        (rw
          (
            unmap_one_page-panic start (forget_page (forget_perm m start) start) s o,
            trim_left_pages,
          )
          refl)

  -- A page below the offset has no address: where such a page is mapped, the loop of `trim_left` panics.
  pub trim_left_pages-panic :
      (start n j : ℕ) (m : Mapping) (s : S)
      → (start + n) * page_size ≤ m.vmo_offset
      → start ≤ j
      → j < start + n
      → is_some (lookup j m.mapped_pages) ≡ true
      → trim_left_pages space (m, s) (pages_from start n) ≡ none
  unfolding trim_left_pages
  trim_left_pages-panic start zero j m s o l k e = absurd (omega arith)
  trim_left_pages-panic start (suc n) j m s o l k e =
      elim (Bool-cases (is_some (lookup start m.mapped_pages))) [
        | inl mapped ↦
            trim_left_pages-mapped start (pages_from (suc start) n) m s (omega arith) mapped
        | inr unmapped ↦
            trim_left_pages-unmapped start (pages_from (suc start) n) m s (is_some-false unmapped)
            ∙ trim_left_pages-panic (suc start) n j (forget_perm m start) s (omega arith)
                (after_first start j m l e unmapped) (omega arith) e
      ]

  -- One round of `trim_right`.
  unmap_one_page-step :
      (idx : ℕ) (m : Mapping) (s : S)
      → m.vmo_offset ≤ idx * page_size
      → (r : S × Result (Unit {0})) × (unmap_one_page space (m, s) idx ≡ (
          if space.is_mapped s (idx * page_size - m.vmo_offset + m.map_to_addr)
          then after_unmap m idx r
          else some ((forget_page m idx, s), ok tt)))
  unfolding unmap_one_page
  unmap_one_page-step idx m s o =
      let addr = idx * page_size - m.vmo_offset + m.map_to_addr in
      (space.unmap s (record { start = addr; end = addr + page_size }), ground arith)

  drop_result-unmap_one_page :
      (idx : ℕ) (m : Mapping) (s : S)
      → m.vmo_offset ≤ idx * page_size
      → (d : Dict (Unit {0})) × (s' : S) × (drop_result (unmap_one_page space (m, s) idx)
          ≡ some (record m { mapped_pages = d }, s'))
  drop_result-unmap_one_page idx m s o =
      let (r, step) = unmap_one_page-step idx m s o in
      let kept =
        drop_result-if idx m s (space.is_mapped s (idx * page_size - m.vmo_offset + m.map_to_addr))
          r in
      (kept.0, kept.1, ap drop_result step ∙ kept.2)

  -- On pages not below the offset, the loop of `trim_right` drops the permissions and does not panic.
  pub trim_right_pages-Dropped :
      (start n : ℕ) (m : Mapping) (s : S)
      → IsSorted m.page_perms
      → m.vmo_offset ≤ start * page_size
      → (m' : Mapping) × (s' : S) × (trim_right_pages space (m, s) (pages_from start n)
          ≡ some (m', s'))
        × Dropped start n m m'
  unfolding trim_right_pages
  trim_right_pages-Dropped start zero m s h o = (m, s, refl, Dropped-zero start m h)
  trim_right_pages-Dropped start (suc n) m s h o =
      let round = drop_result-unmap_one_page start (forget_perm m start) s o in
      let m1 : Mapping = record (forget_perm m start) { mapped_pages = round.0 } in
      let rest =
        trim_right_pages-Dropped (suc start) n m1 round.1 (erase-IsSorted start m.page_perms h)
          (omega arith) in
      (
        rest.0,
        rest.1,
        rw (round.2, trim_right_pages) rest.2,
        Dropped-suc start n m m1 rest.0 h refl refl refl refl rest.3,
      )
