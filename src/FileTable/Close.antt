-- ===== src/FileTable/Close.antt =====
-- `FileTable::close_file` and `FileTable::insert_at`, and whom they tell (fs/file_table.rs).
use jinux.Base.{
  ℕ, ◌^◌, ◌<◌, ◌≡◌, refl, sym, ◌∙◌, Bool, false, ◌&&◌, ◌||◌, Option, none, some, List, [], ◌∷◌,
  ◌++◌, map, Result, ok, err, ebadf, arith, ◌==◌, if◌then◌else◌, is_some,
}
use jinux.Base.Int.{pos, as_usize}
use jinux.Base.Dict.{lookup}
use jinux.SlotVec
use jinux.SlotVec.{SlotVec, slots_len}
use jinux.SlotVec.Laws as Slots
use jinux.Events.{Subject}
use jinux.Events.Laws as Subjects
use jinux.Events.Laws.{contains, is_told}
use jinux.FileTable.{
  FileTable, FileTableEntry, FileDescripter, FdEvents, Notice, accepts_all, new_entry, get_file,
  notify_fd_events, after_close, insert_at, close_file,
}
use jinux.FileTable.Laws.{IsValid, new_entry-IsValid}

-- Some notice goes to the observer `k`.
abbrev pub hears : ℕ → List Notice → Bool
hears k [] = false
hears k ((j, ev) ∷ ns) = k == j || hears k ns

pub hears-append : (k : ℕ) (ms ns : List Notice) → hears k (ms ++ ns) ≡ (hears k ms || hears k ns)
hears-append k [] ns = refl
hears-append k ((j, ev) ∷ ms) ns = ground (arith, hears-append k ms ns)

hears-map :
    (k : ℕ) (ev : FdEvents) (told : List ℕ)
    → hears k (map (λ observer. (observer, ev)) told) ≡ contains k told
hears-map k ev [] = refl
hears-map k ev (j ∷ told) = ground (arith, hears-map k ev told)

-- Every notice carries this event.
abbrev pub AllAbout : FdEvents → List Notice → Type 0
AllAbout ev [] = Unit
AllAbout ev ((j, e) ∷ ns) = (e ≡ ev) × AllAbout ev ns

AllAbout-append :
    (ev : FdEvents) (ms ns : List Notice) → AllAbout ev ms → AllAbout ev ns → AllAbout ev (ms ++ ns)
AllAbout-append ev [] ns h k = k
AllAbout-append ev (m ∷ ms) ns h k = (h.0, AllAbout-append ev ms ns h.1 k)

AllAbout-map : (ev : FdEvents) (told : List ℕ) → AllAbout ev (map (λ observer. (observer, ev)) told)
AllAbout-map ev [] = tt
AllAbout-map ev (j ∷ told) = (refl, AllAbout-map ev told)

-- An observer is registered with a subject.
abbrev pub is_registered : ℕ → Subject (Unit {0}) → Bool
is_registered k s = is_some (lookup k s.observers)

module _ (is_alive : ℕ → Bool) where
  -- A notification tells exactly the live observers, and keeps the subject valid.
  pub record Told (ev : FdEvents) (s : Subject (Unit {0})) (out : List Notice × Subject (Unit {0}))
      : Type 0 where
    pub valid : Subjects.IsValid out.1
    pub about : AllAbout ev out.0
    pub heard : (k : ℕ) → hears k out.0 ≡ (is_alive k && is_registered k s)

  is_told-accepts_all :
      (ev : FdEvents) (alive : Bool) (o : Option (Unit {0}))
      → is_told is_alive accepts_all ev alive o ≡ (alive && is_some o)
  is_told-accepts_all ev alive none = ground arith
  is_told-accepts_all ev alive (some u) = ground arith

  pub notify_fd_events-Told :
      (ev : FdEvents) (s : Subject (Unit {0}))
      → Subjects.IsValid s
      → Told ev s (notify_fd_events is_alive ev s)
  unfolding notify_fd_events
  notify_fd_events-Told ev s v =
      let p = Subjects.notify_observers_lem is_alive accepts_all ev s v in
      record {
        valid = p.valid;
        about = AllAbout-map ev _;
        heard = λ k. hears-map k ev _ ∙ p.told k ∙ is_told-accepts_all ev (is_alive k) _;
      }

  module _ {F : Type 0} where
    -- What an operation promises that puts `now` in the place of the file at `fd`: the old file is
    -- returned and its `Close` told to the live observers of the table and of the old entry.
    pub record Replaced (t : FileTable F) (fd : FileDescripter) (now : Result F)
        (out : List Notice × Option F × FileTable F) : Type 0 where
      pub valid : IsValid out.2
      pub returned : out.1 ≡ (elim (get_file t fd) [ ok f ↦ some f | err e ↦ none ])
      pub about : AllAbout (FdEvents.close fd) out.0
      pub heard :
          (k : ℕ)
          → hears k out.0 ≡ (elim (SlotVec.get t.table (as_usize fd)) [
            | none ↦ false
            | some e ↦
                is_alive k && is_registered k t.subject || is_alive k && is_registered k e.subject
          ])
      pub view :
          (j : ℕ) → get_file out.2 (pos j) ≡ (if as_usize fd == j then now else get_file t (pos j))

    EntriesValid : SlotVec (FileTableEntry F) → Type 0
    EntriesValid table =
        (j : ℕ) (e : FileTableEntry F) → SlotVec.get table j ≡ some e → Subjects.IsValid e.subject

    -- The common end of both operations, over the slot vector after the change.
    after_close-Replaced :
        (t : FileTable F) (fd : FileDescripter) (now : Option (FileTableEntry F))
        (table : SlotVec (FileTableEntry F)) (old : Option (FileTableEntry F))
        → IsValid t
        → ((e : FileTableEntry F) → now ≡ some e → Subjects.IsValid e.subject)
        → Slots.Stored t.table (as_usize fd) now (table, old)
        → Replaced t fd
            (elim now [ none ↦ err ebadf | some e ↦ ok e.file ])
            (after_close is_alive fd (t.subject, table) old)
    unfolding get_file
    after_close-Replaced t fd now table none v w p = record {
      valid = record {
        slots = p.valid;
        subject = v.subject;
        entries = λ j e h. ground (arith, p.view j, v.entries j e, w e);
      };
      returned = ground (arith, p.old);
      about = tt;
      heard = λ k. ground (arith, p.old);
      view = λ j. ground (arith, p.view j);
    }
    after_close-Replaced t fd now table (some old) v w p =
        let ev = FdEvents.close fd in
        let told = notify_fd_events-Told ev t.subject v.subject in
        let told_old =
          notify_fd_events-Told ev old.subject (v.entries (as_usize fd) old (sym p.old)) in
        record {
          valid = record {
            slots = p.valid;
            subject = told.valid;
            entries = λ j e h. ground (arith, p.view j, v.entries j e, w e);
          };
          returned = ground (arith, p.old);
          about = AllAbout-append ev _ _ told.about told_old.about;
          heard = λ k. ground (
            arith,
            p.old,
            hears-append k (notify_fd_events is_alive ev t.subject).0
                (notify_fd_events is_alive ev old.subject).0,
            told.heard k,
            told_old.heard k,
          );
          view = λ j. ground (arith, p.view j);
        }

    -- On a valid table `close_file` frees the descriptor, returns the file if it was open, touches no
    -- other descriptor, and leaves a valid table. It tells a `Close` of the descriptor exactly to the
    -- live observers of the table and of the entry if it was open, and to nobody otherwise.
    pub close_file_lem :
        (t : FileTable F) (fd : FileDescripter)
        → IsValid t
        → Replaced t fd (err ebadf) (close_file is_alive t fd)
    unfolding close_file
    close_file_lem t fd v =
        after_close-Replaced t fd none _ _ v (λ e h. cc)
          (Slots.remove_lem t.table (as_usize fd) v.slots)

    -- On a valid table and for a descriptor that an i32 holds, `insert_at` puts the file at exactly
    -- that descriptor, returns the file that it replaces, touches no other descriptor, leaves a valid
    -- table, and tells a `Close` as `close_file` does.
    pub insert_at_lem :
        (t : FileTable F) (fd : ℕ) (item : F)
        → IsValid t
        → fd < 2 ^ 31
        → Replaced t (pos fd) (ok item) (insert_at is_alive t (pos fd) item)
    unfolding insert_at
    insert_at_lem t fd item v small =
        after_close-Replaced t (pos fd) (some (new_entry item false)) _ _ v
          (λ e h. ground (arith, new_entry-IsValid item false))
          (Slots.put_at_lem t.table fd (new_entry item false) v.slots)
