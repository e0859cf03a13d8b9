-- ===== src/FileTable.antt =====
-- The file descriptor table of a process: services/libs/aster-std/src/fs/file_table.rs.
-- `F` stands for `Arc<dyn FileLike>`; `is_alive` says which observers can still be upgraded. An
-- operation returns the notices that it sends, as pairs of an observer and an event, in order. A
-- panic of the source is `none`.
pub mod Laws
pub mod Dup
pub mod Close
pub mod CloseAll
pub mod Observers
mod Tests
use jinux.Base.{
  ℕ, zero, suc, ◌+◌, ◌-◌, Bool, true, false, Option, none, some, List, [], ◌∷◌, ◌++◌, map, Result,
  ok, err, enoent, ebadf, enotsock, if◌then◌else◌, is_none,
}
use jinux.Base.Int.{ℤ, as_usize, as_i32}
use jinux.SlotVec
use jinux.SlotVec.{SlotVec, slots_len}
use jinux.Events
use jinux.Events.{Subject}

-- `FileDescripter` is i32.
abbrev pub FileDescripter : Type 0
FileDescripter = ℤ

pub data FdEvents : Type 0 where
  close : FileDescripter → FdEvents
  drop_file_table : FdEvents

-- The filter `()` of a `Subject<FdEvents>`, whose method is always true.
abbrev pub accepts_all : Unit {0} → FdEvents → Bool
accepts_all _ _ = true

-- `FileTableEntry`
pub record FileTableEntry (F : Type 0) : Type 0 where
  pub file : F
  pub close_on_exec : Bool
  pub subject : Subject (Unit {0})

-- `FileTable`
pub record FileTable (F : Type 0) : Type 0 where
  pub table : SlotVec (FileTableEntry F)
  pub subject : Subject (Unit {0})

abbrev pub Notice : Type 0
Notice = ℕ × FdEvents

-- `FileTable::new`
unfoldable pub new : (F : Type 0) → FileTable F
unfolding SlotVec.new Events.new
new F = record { table = SlotVec.new (FileTableEntry F); subject = Events.new Unit }

-- `notify_fd_events` of a table or an entry
unfoldable pub notify_fd_events : (ℕ → Bool) → FdEvents → Subject Unit → List Notice × Subject Unit
notify_fd_events is_alive events s =
    let (told, s') = Events.notify_observers is_alive accepts_all events s in
    (map (λ observer. (observer, events)) told, s')

module _ {F : Type 0} where
  -- `FileTableEntry::new`
  abbrev pub new_entry : F → Bool → FileTableEntry F
  new_entry file close_on_exec = record {
    file = file;
    close_on_exec = close_on_exec;
    subject = record { observers = []; num_observers = 0 };
  }

  -- `<FileTableEntry as Clone>::clone`
  abbrev pub clone_entry : FileTableEntry F → FileTableEntry F
  clone_entry e = new_entry e.file e.close_on_exec

  -- The `for` loop of `get_min_free_fd` in `dup`, with the number of rounds left.
  unfoldable pub scan_free : ℕ → ℕ → SlotVec (FileTableEntry F) → ℕ
  scan_free zero idx table = slots_len table
  scan_free (suc n) idx table =
      let rest = scan_free n (idx + 1) table in
      if is_none (SlotVec.get table idx) then idx else rest

  -- `get_min_free_fd` in `dup`
  unfoldable pub get_min_free_fd : SlotVec (FileTableEntry F) → ℕ → ℕ
  unfolding scan_free
  get_min_free_fd table new_fd =
      if is_none (SlotVec.get table new_fd)
      then new_fd
      else scan_free (slots_len table - (new_fd + 1)) (new_fd + 1) table

  -- The rest of `dup` once the entry of `fd` is looked up.
  abbrev pub dup_entry :
      FileTable F → FileDescripter → Option (FileTableEntry F) → Result FileDescripter × FileTable F
  dup_entry t new_fd none = (err enoent, t)
  dup_entry t new_fd (some e) =
      let min_free_fd = get_min_free_fd t.table (as_usize new_fd) in
      (
        ok (as_i32 min_free_fd),
        record t { table = (SlotVec.put_at t.table min_free_fd (clone_entry e)).0 },
      )

  -- `FileTable::dup`
  unfoldable pub dup :
      FileTable F → FileDescripter → FileDescripter → Result FileDescripter × FileTable F
  dup t fd new_fd = dup_entry t new_fd (SlotVec.get t.table (as_usize fd))

  -- `FileTable::insert`
  unfoldable pub insert : FileTable F → F → Option (FileDescripter × FileTable F)
  insert t item = elim (SlotVec.put t.table (new_entry item false)) [
    | none ↦ none
    | some (table, idx) ↦ some (as_i32 idx, record t { table = table })
  ]

  -- `FileTable::get_entry`
  unfoldable pub get_entry : FileTable F → FileDescripter → Result (FileTableEntry F)
  get_entry t fd = elim (SlotVec.get t.table (as_usize fd)) [ none ↦ err ebadf | some e ↦ ok e ]

  -- `FileTable::get_file`
  unfoldable pub get_file : FileTable F → FileDescripter → Result F
  get_file t fd = elim (SlotVec.get t.table (as_usize fd)) [ none ↦ err ebadf | some e ↦ ok e.file ]

  -- `FileTable::get_socket`, over the method `as_socket` of `FileLike`
  unfoldable pub get_socket :
      {S : Type 0} → (F → Option S) → FileTable F → FileDescripter → Result S
  get_socket as_socket t fd = elim (get_file t fd) [
    | err e ↦ err e
    | ok file ↦ elim (as_socket file) [ none ↦ err enotsock | some s ↦ ok s ]
  ]

  -- `FileTable::fds_and_files`
  unfoldable pub fds_and_files : FileTable F → List (FileDescripter × F)
  fds_and_files t = map (λ p. (as_i32 p.0, p.1.file)) (SlotVec.idxes_and_items t.table)

  -- `<FileTable as Clone>::clone`
  unfoldable pub clone : FileTable F → FileTable F
  clone t = record {
    table = record {
      slots = map (λ o. elim o [ none ↦ none | some e ↦ some (clone_entry e) ]) t.table.slots;
      num_occupied = t.table.num_occupied;
    };
    subject = record { observers = []; num_observers = 0 };
  }

  module _ (is_alive : ℕ → Bool) where
    -- `if entry.is_some() { … }` of `close_file` and `insert_at`, and the file that they return.
    abbrev pub after_close :
        FileDescripter
        → Subject Unit × SlotVec (FileTableEntry F)
        → Option (FileTableEntry F)
        → List Notice × Option F × FileTable F
    after_close fd (s, table) none = ([], none, record { table = table; subject = s })
    after_close fd (s, table) (some e) =
        let (notices, s') = notify_fd_events is_alive (FdEvents.close fd) s in
        (
          notices ++ (notify_fd_events is_alive (FdEvents.close fd) e.subject).0,
          some e.file,
          record { table = table; subject = s' },
        )

    -- `FileTable::insert_at`
    unfoldable pub insert_at :
        FileTable F → FileDescripter → F → List Notice × Option F × FileTable F
    unfolding notify_fd_events
    insert_at t fd item =
        let (table, old) = SlotVec.put_at t.table (as_usize fd) (new_entry item false) in
        after_close fd (t.subject, table) old

    -- `FileTable::close_file`
    unfoldable pub close_file : FileTable F → FileDescripter → List Notice × Option F × FileTable F
    unfolding notify_fd_events
    close_file t fd =
        let (table, old) = SlotVec.remove t.table (as_usize fd) in
        after_close fd (t.subject, table) old

    -- The loop of `close_all`: what `close_file` does for each, with the `unwrap` of its entry.
    unfoldable pub close_each :
        List FileDescripter → FileTable F → Option (List Notice × List F × FileTable F)
    close_each [] t = some ([], [], t)
    close_each (fd ∷ fds) t =
        let (table, old) = SlotVec.remove t.table (as_usize fd) in
        elim old [
          | none ↦ none
          | some e ↦
              let (notices, s') = notify_fd_events is_alive (FdEvents.close fd) t.subject in
              elim (close_each fds (record { table = table; subject = s' })) [
                | none ↦ none
                | some (later, files, t') ↦ some (
                  notices ++ ((notify_fd_events is_alive (FdEvents.close fd) e.subject).0 ++ later),
                  e.file ∷ files,
                  t',
                )
              ]
        ]

    -- `FileTable::close_all`
    unfoldable pub close_all : FileTable F → Option (List Notice × List F × FileTable F)
    unfolding close_each
    close_all t = close_each (map (λ p. as_i32 p.0) (SlotVec.idxes_and_items t.table)) t

    -- `<FileTable as Drop>::drop`
    unfoldable pub drop : FileTable F → List Notice
    unfolding notify_fd_events
    drop t = (notify_fd_events is_alive drop_file_table t.subject).0

  -- `FileTable::new_with_stdio`, with the three files that the resolver opens.
  unfoldable pub new_with_stdio : F → F → F → Option (FileTable F)
  unfolding insert new
  new_with_stdio stdin stdout stderr = elim (insert (new F) stdin) [
    | none ↦ none
    | some (_, t) ↦ elim (insert t stdout) [
      | none ↦ none
      | some (_, t') ↦ elim (insert t' stderr) [ none ↦ none | some (_, t'') ↦ some t'' ]
    ]
  ]
