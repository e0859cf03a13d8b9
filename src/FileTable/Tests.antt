-- ===== src/FileTable/Tests.antt =====
-- A file table of file_table.rs in which the descriptors 0 and 2 are open.
use jinux.Base.{
  ℕ, zero, suc, ◌≡◌, refl, Bool, true, false, some, none, [], ◌∷◌, ok, err, ebadf, arith,
}
use jinux.Base.Int.{pos}
use jinux.SlotVec
use jinux.SlotVec.{SlotVec}
use jinux.Events
use jinux.Events.Laws as Subjects
use jinux.FileTable.{FileTable, FileTableEntry, FdEvents, get_entry, dup, close_file, close_all}
use jinux.FileTable.Laws.{IsValid}
use jinux.FileTable.Dup.{Duplicated, dup_lem}
use jinux.FileTable.Close.{Replaced, close_file_lem}
use jinux.FileTable.CloseAll.{ClosedAll, close_all_lem}

-- The file 20, with no observer, and the file 22, with the observer 7.
abbrev lone_entry : FileTableEntry ℕ
lone_entry = record {
  file = 20;
  close_on_exec = false;
  subject = record { observers = []; num_observers = 0 };
}

abbrev watched_entry : FileTableEntry ℕ
watched_entry = record {
  file = 22;
  close_on_exec = true;
  subject = record { observers = (7, tt) ∷ []; num_observers = 1 };
}

abbrev two_files : FileTable ℕ
two_files = record {
  table = record { slots = some lone_entry ∷ none ∷ some watched_entry ∷ []; num_occupied = 2 };
  subject = record { observers = (9, tt) ∷ []; num_observers = 1 };
}

abbrev everyone : ℕ → Bool
everyone k = true

entry-IsValid :
    (e e' : FileTableEntry ℕ)
    → Subjects.IsValid e.subject
    → some e ≡ some e'
    → Subjects.IsValid e'.subject
entry-IsValid e e' v h = ground (arith, v)

lone-IsValid : Subjects.IsValid lone_entry.subject
lone-IsValid = record { sorted = tt; counted = refl }

watched-IsValid : Subjects.IsValid watched_entry.subject
watched-IsValid = record { sorted = ground arith; counted = refl }

entries-IsValid :
    (j : ℕ) (e : FileTableEntry ℕ)
    → SlotVec.get two_files.table j ≡ some e
    → Subjects.IsValid e.subject
unfolding SlotVec.get
entries-IsValid zero e h = entry-IsValid lone_entry e lone-IsValid h
entries-IsValid (suc zero) e h = ground arith
entries-IsValid (suc (suc zero)) e h = entry-IsValid watched_entry e watched-IsValid h
entries-IsValid (suc (suc (suc j))) e h = ground arith

two_files-IsValid : IsValid two_files
two_files-IsValid = record {
  slots = refl;
  subject = record { sorted = ground arith; counted = refl };
  entries = entries-IsValid;
}

close_told :
    (close_file everyone two_files (pos 2)).0
    ≡ (9, FdEvents.close (pos 2)) ∷ (7, FdEvents.close (pos 2)) ∷ []
unfolding close_file SlotVec.remove Events.notify_observers
close_told = refl

watched_at : get_entry two_files (pos 2) ≡ ok watched_entry
unfolding get_entry SlotVec.get
watched_at = refl

dup_lem_example :
    (n : ℕ) × (t' : FileTable ℕ) × (dup two_files (pos 2) (pos 0) ≡ (ok (pos n), t'))
    × Duplicated two_files watched_entry 0 n t'
dup_lem_example =
    dup_lem two_files 2 0 watched_entry two_files-IsValid (omega arith) (omega arith) watched_at

close_file_lem_example :
    Replaced everyone two_files (pos 2) (err ebadf) (close_file everyone two_files (pos 2))
close_file_lem_example = close_file_lem everyone two_files (pos 2) two_files-IsValid

close_all_lem_example :
    ClosedAll everyone (SlotVec.idxes_and_items two_files.table) (close_all everyone two_files)
close_all_lem_example = close_all_lem everyone two_files two_files-IsValid (omega arith)
