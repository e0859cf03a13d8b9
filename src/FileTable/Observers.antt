-- ===== src/FileTable/Observers.antt =====
-- The observers of a file table and of an entry (fs/file_table.rs). What the subject returns is dropped.
use jinux.Base.{ℕ, ◌≡◌, refl, true}
use jinux.Events
use jinux.FileTable.{FileTable, FileTableEntry, new_entry}

module _ {F : Type 0} where
  -- `FileTable::register_observer`
  unfoldable register_observer : ℕ → FileTable F → FileTable F
  unfolding Events.register_observer
  register_observer observer t = record t {
    subject = Events.register_observer observer tt t.subject;
  }

  -- `FileTable::unregister_observer`
  unfoldable unregister_observer : ℕ → FileTable F → FileTable F
  unfolding Events.unregister_observer
  unregister_observer observer t = record t {
    subject = (Events.unregister_observer observer t.subject).1;
  }

  -- `FileTableEntry::register_observer`
  unfoldable register_entry_observer : ℕ → FileTableEntry F → FileTableEntry F
  unfolding Events.register_observer
  register_entry_observer epoll e = record e {
    subject = Events.register_observer epoll tt e.subject;
  }

  -- `FileTableEntry::unregister_observer`
  unfoldable unregister_entry_observer : ℕ → FileTableEntry F → FileTableEntry F
  unfolding Events.unregister_observer
  unregister_entry_observer epoll e = record e {
    subject = (Events.unregister_observer epoll e.subject).1;
  }

-- An entry that is watched by one observer, which leaves.
unregister-register :
    unregister_entry_observer 7 (register_entry_observer 7 (new_entry {F = ℕ} 3 true))
    ≡ new_entry 3 true
unfolding unregister_entry_observer register_entry_observer
unregister-register = refl
