-- ===== src/FileTable/CloseAll.antt =====
-- `FileTable::close_all` (fs/file_table.rs): every open file is closed once, in ascending order.
use jinux.Base.{
  ℕ, ◌^◌, ◌≤◌, ◌<◌, ◌≡◌, refl, sym, subst, ap, ◌∙◌, Bool, true, Option, none, some, List, [], ◌∷◌,
  ◌++◌, map, arith, is_some,
}
use jinux.Base.Int.{as_i32, as_usize, as_usize-as_i32}
use jinux.Base.Dict.{Dict, lookup, IsSorted}
use jinux.Base.DictLaws.{lookup-Above}
use jinux.SlotVec
use jinux.SlotVec.{SlotVec, slots_len}
use jinux.SlotVec.Laws as Slots
use jinux.SlotVec.Listing.{idxes_and_items_lem}
use jinux.FileTable.{
  FileTable, FileTableEntry, FdEvents, FileDescripter, Notice, notify_fd_events, close_each,
  close_all,
}
use jinux.FileTable.Laws.{IsValid}
use jinux.FileTable.Close.{notify_fd_events-Told}

module _ (is_alive : ℕ → Bool) {F : Type 0} where
  -- The listing `d` describes the open descriptors of `t` from index 0 on.
  record Lists (d : Dict (FileTableEntry F)) (t : FileTable F) : Type 0 where
    sorted : IsSorted d
    same : (j : ℕ) → lookup j d ≡ SlotVec.get t.table j

  -- Every key fits an i32.
  abbrev AllSmall : Dict (FileTableEntry F) → Type 0
  AllSmall [] = Unit
  AllSmall ((k, e) ∷ d) = (k < 2 ^ 31) × AllSmall d

  -- What `close_all` promises: no panic, the files of the listing in its order, and an empty table.
  pub record ClosedAll (d : Dict (FileTableEntry F))
      (out : Option (List Notice × List F × FileTable F)) : Type 0 where
    pub notices : List Notice
    pub after : FileTable F
    pub result : out ≡ some (notices, map (λ p. p.1.file) d, after)
    pub valid : IsValid after
    pub empty : (j : ℕ) → SlotVec.get after.table j ≡ none

  -- The table after the first round of the loop.
  abbrev after_first : ℕ → FileTable F → FileTable F
  after_first k t = record {
    table = (SlotVec.remove t.table k).0;
    subject = (notify_fd_events is_alive (FdEvents.close (as_i32 k)) t.subject).1;
  }

  listed_first :
      (k : ℕ) (e : FileTableEntry F) (d : Dict (FileTableEntry F)) (t : FileTable F)
      → Lists ((k, e) ∷ d) t
      → SlotVec.get t.table k ≡ some e
  listed_first k e d t l = ground (arith, l.same k)

  after_first-Lists :
      (k : ℕ) (e : FileTableEntry F) (d : Dict (FileTableEntry F)) (t : FileTable F)
      → IsValid t
      → Lists ((k, e) ∷ d) t
      → IsValid (after_first k t) × Lists d (after_first k t)
  after_first-Lists k e d t v l =
      let p = Slots.remove_lem t.table k v.slots in
      let told = notify_fd_events-Told is_alive (FdEvents.close (as_i32 k)) t.subject v.subject in
      (
        record {
          slots = p.valid;
          subject = told.valid;
          entries = λ j x h. ground (arith, p.view j, v.entries j x);
        },
        record {
          sorted = l.sorted.1;
          same = λ j. ground (arith, p.view j, l.same j, lookup-Above j k d);
        },
      )

  -- One round of the loop, where the descriptor is open and the rounds after it go through.
  close_each_step :
      (fd : FileDescripter) (fds : List FileDescripter) (t : FileTable F) (e : FileTableEntry F)
      (later : List Notice) (files : List F) (t' : FileTable F)
      → (SlotVec.remove t.table (as_usize fd)).1 ≡ some e
      → close_each is_alive fds (record {
        table = (SlotVec.remove t.table (as_usize fd)).0;
        subject = (notify_fd_events is_alive (FdEvents.close fd) t.subject).1;
      })
        ≡ some (later, files, t')
      → close_each is_alive (fd ∷ fds) t
        ≡ some (
          (notify_fd_events is_alive (FdEvents.close fd) t.subject).0
              ++ ((notify_fd_events is_alive (FdEvents.close fd) e.subject).0 ++ later),
          e.file ∷ files,
          t',
        )
  unfolding close_each
  close_each_step fd fds t e later files t' opened rest = ground arith

  close_each-ClosedAll :
      (d : Dict (FileTableEntry F)) (t : FileTable F)
      → IsValid t
      → AllSmall d
      → Lists d t
      → ClosedAll d (close_each is_alive (map (λ p. as_i32 p.0) d) t)
  unfolding close_each
  close_each-ClosedAll [] t v small l = record {
    notices = [];
    after = t;
    result = refl;
    valid = v;
    empty = λ j. sym (l.same j);
  }
  close_each-ClosedAll ((k, e) ∷ d) t v small l =
      let (valid, lists) = after_first-Lists k e d t v l in
      let rest = close_each-ClosedAll d (after_first k t) valid small.1 lists in
      let ev = FdEvents.close (as_i32 k) in
      let same_idx = as_usize-as_i32 k small.0 in
      let opened = (Slots.remove_lem t.table k v.slots).old ∙ listed_first k e d t l in
      record {
        notices =
            (notify_fd_events is_alive ev t.subject).0
            ++ ((notify_fd_events is_alive ev e.subject).0 ++ rest.notices);
        after = rest.after;
        result =
            close_each_step (as_i32 k) (map (λ p. as_i32 p.0) d) t e rest.notices
              (map (λ p. p.1.file) d) rest.after
              (subst (λ i. (SlotVec.remove t.table i).1 ≡ some e) (sym same_idx) opened)
              (subst
                (λ i.
                  close_each is_alive (map (λ p. as_i32 p.0) d) (record {
                    table = (SlotVec.remove t.table i).0;
                    subject = (notify_fd_events is_alive ev t.subject).1;
                  })
                  ≡ some (rest.notices, map (λ p. p.1.file) d, rest.after))
                (sym same_idx) rest.result);
        valid = rest.valid;
        empty = rest.empty;
      }

  AllSmall-Listing :
      (d : Dict (FileTableEntry F)) (n : ℕ)
      → IsSorted d
      → ((j : ℕ) → is_some (lookup j d) ≡ true → j < n)
      → n ≤ 2 ^ 31
      → AllSmall d
  AllSmall-Listing [] n s h b = tt
  AllSmall-Listing ((k, e) ∷ d) n s h b = (
    ground (arith, h k),
    AllSmall-Listing d n s.1 (λ j q. ground (arith, h j, lookup-Above j k d)) b,
  )

  get_some-lt :
      (sv : SlotVec (FileTableEntry F)) (j : ℕ)
      → is_some (SlotVec.get sv j) ≡ true
      → j < slots_len sv
  unfolding SlotVec.get
  get_some-lt sv j h = ground arith

  -- On a valid table with at most 2 ^ 31 slots `close_all` does not panic: it returns the files of
  -- the open descriptors in ascending order of the descriptors, and leaves a valid table in which
  -- none is open.
  pub close_all_lem :
      (t : FileTable F)
      → IsValid t
      → slots_len t.table ≤ 2 ^ 31
      → ClosedAll (SlotVec.idxes_and_items t.table) (close_all is_alive t)
  unfolding close_all
  close_all_lem t v small =
      let (sorted, same) = idxes_and_items_lem t.table in
      close_each-ClosedAll (SlotVec.idxes_and_items t.table) t v
        (AllSmall-Listing (SlotVec.idxes_and_items t.table) (slots_len t.table) sorted
          (λ j q. get_some-lt t.table j (ap is_some (sym (same j)) ∙ q)) small)
        (record { sorted = sorted; same = same })
