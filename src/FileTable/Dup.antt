-- ===== src/FileTable/Dup.antt =====
-- `FileTable::dup` and its search for a free descriptor (fs/file_table.rs).
use jinux.Base.{
  ℕ, zero, suc, ◌+◌, ◌-◌, ◌^◌, ◌≤◌, ◌<◌, ◌≡◌, ◌≢◌, none, ok, err, enoent, ebadf, arith, ◌==◌,
  if◌then◌else◌, leb, Bool-cases, Option-cases, inl, inr,
}
use jinux.Base.Int.{ℤ, pos, as_i32-pos}
use jinux.SlotVec
use jinux.SlotVec.{SlotVec, slots_len}
use jinux.SlotVec.Laws as Slots
use jinux.FileTable.{
  FileTable, FileTableEntry, clone_entry, scan_free, get_min_free_fd, dup, get_entry,
}
use jinux.FileTable.Laws.{IsValid}

module _ {F : Type 0} where
  -- The lowest free index that is at least `from`.
  pub record IsLowestFree (table : SlotVec (FileTableEntry F)) (from n : ℕ) : Type 0 where
    pub free : SlotVec.get table n ≡ none
    pub above : from ≤ n
    pub lowest : (j : ℕ) → from ≤ j → j < n → SlotVec.get table j ≢ none

  get_end : (table : SlotVec (FileTableEntry F)) → SlotVec.get table (slots_len table) ≡ none
  unfolding SlotVec.get
  get_end table = ground arith

  get_beyond :
      (table : SlotVec (FileTableEntry F)) (i : ℕ)
      → slots_len table ≤ i
      → SlotVec.get table i ≡ none
  unfolding SlotVec.get
  get_beyond table i h = ground arith

  get_some-lt :
      (table : SlotVec (FileTableEntry F)) (i : ℕ)
      → SlotVec.get table i ≢ none
      → i < slots_len table
  unfolding SlotVec.get
  get_some-lt table i h = ground arith

  lowest_next :
      (table : SlotVec (FileTableEntry F)) (i n : ℕ)
      → SlotVec.get table i ≢ none
      → IsLowestFree table (i + 1) n
      → IsLowestFree table i n
  lowest_next table i n busy p = record {
    free = p.free;
    above = omega (arith, p.above);
    lowest = λ j ge lt. elim (Bool-cases (i == j)) [
      | inl e ↦ ground arith
      | inr e ↦ p.lowest j (ground arith) lt
    ];
  }

  scan_free-IsLowestFree :
      (n idx : ℕ) (table : SlotVec (FileTableEntry F))
      → idx + n ≡ slots_len table
      → IsLowestFree table idx (scan_free n idx table)
  unfolding scan_free
  scan_free-IsLowestFree zero idx table e = record {
    free = get_end table;
    above = omega arith;
    lowest = λ j ge lt. absurd (omega arith);
  }
  scan_free-IsLowestFree (suc n) idx table e = elim (Option-cases (SlotVec.get table idx)) [
    | inl free ↦
        rw free
          (record { free = free; above = omega arith; lowest = λ j ge lt. absurd (omega arith) })
    | inr (x, busy) ↦ rw busy (
        lowest_next table idx (scan_free n (idx + 1) table) (ground arith)
          (scan_free-IsLowestFree n (idx + 1) table (omega arith)))
  ]

  -- The search of `dup` ends at the lowest free index from the one asked for.
  pub get_min_free_fd-IsLowestFree :
      (table : SlotVec (FileTableEntry F)) (i : ℕ) → IsLowestFree table i (get_min_free_fd table i)
  unfolding get_min_free_fd
  get_min_free_fd-IsLowestFree table i = elim (Option-cases (SlotVec.get table i)) [
    | inl free ↦
        rw free
          (record { free = free; above = omega arith; lowest = λ j ge lt. absurd (omega arith) })
    | inr (x, busy) ↦ rw busy (
        lowest_next table i _ (ground arith) (
          scan_free-IsLowestFree (slots_len table - (i + 1)) (i + 1) table
            (omega (arith, get_some-lt table i (ground arith)))))
  ]

  get_min_free_fd-lt :
      (table : SlotVec (FileTableEntry F)) (i : ℕ)
      → i < 2 ^ 31
      → slots_len table < 2 ^ 31
      → get_min_free_fd table i < 2 ^ 31
  get_min_free_fd-lt table i h k =
      let p = get_min_free_fd-IsLowestFree table i in
      elim (Bool-cases (leb (slots_len table) i)) [
        | inl beyond ↦ ground (arith, p.lowest i (omega arith), get_beyond table i (ground arith))
        | inr within ↦ ground (arith, p.lowest (slots_len table) (ground arith), get_end table)
      ]

  -- What `dup` promises of an open descriptor: the entry `e` gets the descriptor `n` as well.
  pub record Duplicated (t : FileTable F) (e : FileTableEntry F) (from n : ℕ) (t' : FileTable F)
      : Type 0 where
    pub valid : IsValid t'
    pub above : from ≤ n
    pub was_free : get_entry t (pos n) ≡ err ebadf
    pub lowest : (j : ℕ) → from ≤ j → j < n → get_entry t (pos j) ≢ err ebadf
    pub view :
        (j : ℕ)
        → get_entry t' (pos j) ≡ (if n == j then ok (clone_entry e) else get_entry t (pos j))

  -- On a valid table with fewer than 2 ^ 31 slots, for an open descriptor and a `new_fd` that an
  -- i32 holds: `dup` makes a copy of the entry with no observers at the lowest free descriptor from
  -- `new_fd` on, returns that descriptor, touches no other, and leaves a valid table.
  pub dup_lem :
      (t : FileTable F) (fd new_fd : ℕ) (e : FileTableEntry F)
      → IsValid t
      → slots_len t.table < 2 ^ 31
      → new_fd < 2 ^ 31
      → get_entry t (pos fd) ≡ ok e
      → (n : ℕ) × (t' : FileTable F) × (dup t (pos fd) (pos new_fd) ≡ (ok (pos n), t'))
        × Duplicated t e new_fd n t'
  unfolding dup get_entry
  dup_lem t fd new_fd e v small bound opened =
      let n = get_min_free_fd t.table new_fd in
      let p = get_min_free_fd-IsLowestFree t.table new_fd in
      let out = Slots.put_at_lem t.table n (clone_entry e) v.slots in
      (
        n,
        record t { table = (SlotVec.put_at t.table n (clone_entry e)).0 },
        ground (arith, as_i32-pos n (get_min_free_fd-lt t.table new_fd bound small)),
        record {
          valid = record {
            slots = out.valid;
            subject = v.subject;
            entries = λ j x h. ground (arith, out.view j, v.entries j x);
          };
          above = p.above;
          was_free = ground (arith, p.free);
          lowest = λ j ge lt. ground (arith, p.lowest j ge lt);
          view = λ j. ground (arith, out.view j);
        },
      )

  -- Of a descriptor that is not open `dup` returns ENOENT, where the look-ups return EBADF, and
  -- leaves the table as it was.
  pub dup_unopened :
      (t : FileTable F) (fd new_fd : ℤ)
      → get_entry t fd ≡ err ebadf
      → dup t fd new_fd ≡ (err enoent, t)
  unfolding dup get_entry
  dup_unopened t fd new_fd h = ground arith
