-- ===== src/FileTable/Laws.antt =====
-- The table of fs/file_table.rs as a map from descriptors to files: what each operation changes.
use jinux.Base.{
  ℕ, ◌^◌, ◌<◌, ◌≡◌, ◌≢◌, refl, Bool, false, some, ok, err, ebadf, arith, ◌==◌, if◌then◌else◌,
}
use jinux.Base.Int.{pos}
use jinux.SlotVec
use jinux.SlotVec.{SlotVec, slots_len}
use jinux.SlotVec.Laws as Slots
use jinux.Events
use jinux.Events.{Subject}
use jinux.Events.Laws as Subjects
use jinux.FileTable.{FileTable, FileTableEntry, new, new_entry, insert, get_file}

module _ {F : Type 0} where
  -- The table's counter is right, its descriptors fit an i32, and the subjects are valid.
  pub record IsValid (t : FileTable F) : Type 0 where
    pub slots : Slots.IsValid t.table
    pub subject : Subjects.IsValid t.subject
    pub entries :
        (j : ℕ) (e : FileTableEntry F) → SlotVec.get t.table j ≡ some e → Subjects.IsValid e.subject

  pub new-IsValid : IsValid (new F)
  unfolding new SlotVec.new Events.new SlotVec.get
  new-IsValid = record {
    slots = refl;
    subject = record { sorted = tt; counted = refl };
    entries = λ j e h. ground arith;
  }

  pub new_entry-IsValid : (f : F) (b : Bool) → Subjects.IsValid (new_entry f b).subject
  new_entry-IsValid f b = record { sorted = tt; counted = refl }

  -- What `insert` promises.
  pub record Inserted (t : FileTable F) (f : F) (t' : FileTable F) (n : ℕ) : Type 0 where
    pub result : insert t f ≡ some (pos n, t')
    pub valid : IsValid t'
    pub was_free : get_file t (pos n) ≡ err ebadf
    pub lowest : (j : ℕ) → j < n → get_file t (pos j) ≢ err ebadf
    pub view : (j : ℕ) → get_file t' (pos j) ≡ (if n == j then ok f else get_file t (pos j))

  -- On a valid table with fewer than 2 ^ 31 slots `insert` does not panic: it gives the file the
  -- lowest free descriptor, touches no other, and leaves a valid table.
  pub insert_lem :
      (t : FileTable F) (f : F)
      → IsValid t
      → slots_len t.table < 2 ^ 31
      → (t' : FileTable F) × (n : ℕ) × Inserted t f t' n
  unfolding insert get_file
  insert_lem t f v small =
      let (table, idx, p) = Slots.put_lem t.table (new_entry f false) v.slots in
      (
        record t { table = table },
        idx,
        record {
          result = ground (arith, p.result, p.bound);
          valid = record {
            slots = p.valid;
            subject = v.subject;
            entries = λ j e h. ground (arith, p.view j, v.entries j e, new_entry-IsValid f false);
          };
          was_free = ground (arith, p.was_free);
          lowest = λ j lt. ground (arith, p.lowest j lt);
          view = λ j. ground (arith, p.view j);
        },
      )
