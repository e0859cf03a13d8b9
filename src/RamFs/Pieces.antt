-- ===== src/RamFs/Pieces.antt =====
-- Reading a directory of ramfs/fs.rs in pieces.
use jinux.Base.{
  ℕ, zero, suc, ◌+◌, ◌-◌, ◌≤◌, ◌<◌, ◌≡◌, refl, sym, ap, ◌∙◌, true, false, Option, none, some, List,
  [], ◌∷◌, ◌++◌, map, arith, ◌==◌, ltb, if◌then◌else◌, ◌≢◌, ok, Errno, einval, length,
}
use jinux.Base.Dict.{Above, IsSorted}
use mathlib.Core.List.{append-nil, append_assoc}
use jinux.SlotVec
use jinux.SlotVec.Listing.{idxes_and_items_lem}
use jinux.RamFs.{Name, DirEntry, InodeType, RamFs}
use jinux.RamFs.Loop.{entries, remaining, try_visit-visit_children}
use jinux.RamFs.Visit.{Entry, skip_while, visit_children, try_visit, visit_entry, visited}

-- A visitor with room for so many entries, as `getdents` has: it keeps those it is told of in their order.
abbrev pub Collector : Type 0
Collector = List Entry × ℕ

abbrev pub collect : Collector → Name → ℕ → InodeType → ℕ → Collector × Option Errno
collect (got, zero) name ino type_ offset = ((got, zero), some einval)
collect (got, suc room) name ino type_ offset = ((got ++ (offset, (name, ino)) ∷ [], room), none)

-- What a visit with the collector leaves, of the entries `xs` from an index on
record Read (xs got : List Entry) (room idx : ℕ) (r : ℕ × Collector × Option Errno) : Type 0 where
  pub more : List Entry
  pub kept : r.1.0 ≡ got ++ more
  pub split : xs ≡ more ++ skip_while r.0 xs
  pub counted : length more ≡ (if ltb room (length xs) then room else length xs)
  pub forward : idx ≤ r.0
  pub progress : r.2 ≢ none → r.0 ≡ idx → room ≡ 0

abbrev From : ℕ → List Entry → Type 0
From idx [] = Unit
From idx ((offset, c) ∷ xs) = (idx ≤ offset) × From idx xs

skip_while-From : (idx : ℕ) (xs : List Entry) → From idx xs → skip_while idx xs ≡ xs
skip_while-From idx [] h = refl
skip_while-From idx ((offset, c) ∷ xs) h = ground arith

From-Above : (idx offset : ℕ) (xs : List Entry) → idx ≤ offset + 1 → Above offset xs → From idx xs
From-Above idx offset [] h a = tt
From-Above idx offset ((o, c) ∷ xs) h a = (omega arith, From-Above idx offset xs h a.1)

From-skip_while : (idx : ℕ) (xs : List Entry) → IsSorted xs → From idx (skip_while idx xs)
From-skip_while idx [] s = tt
From-skip_while idx ((offset, c) ∷ xs) s =
    ground (arith, From-skip_while idx xs s.1, From-Above idx offset xs)

IsSorted-skip_while : (idx : ℕ) (xs : List Entry) → IsSorted xs → IsSorted (skip_while idx xs)
IsSorted-skip_while idx [] s = tt
IsSorted-skip_while idx ((offset, c) ∷ xs) s = ground (arith, IsSorted-skip_while idx xs s.1)

skip_while-skip_while :
    (i j : ℕ) (xs : List Entry) → i ≤ j → skip_while j (skip_while i xs) ≡ skip_while j xs
skip_while-skip_while i j [] h = refl
skip_while-skip_while i j ((offset, c) ∷ xs) h = ground (arith, skip_while-skip_while i j xs h)

module _ (fs : RamFs) where
  visit_children-Read :
      (xs got : List Entry) (room idx : ℕ)
      → IsSorted xs
      → From idx xs
      → Read xs got room idx (visit_children collect fs xs idx (got, room))
  visit_children-Read [] got room idx s h = record {
    more = [];
    kept = sym (append-nil got);
    split = refl;
    counted = ground arith;
    forward = omega arith;
    progress = λ e n. absurd (e refl);
  }
  visit_children-Read ((offset, c) ∷ xs) got zero idx s h = record {
    more = [];
    kept = sym (append-nil got);
    split = sym (skip_while-From idx ((offset, c) ∷ xs) h);
    counted = ground arith;
    forward = omega arith;
    progress = λ e n. refl;
  }
  visit_children-Read ((offset, c) ∷ xs) got (suc room) idx s h =
      let i =
        visit_children-Read xs (got ++ (offset, c) ∷ []) room (offset + 1) s.1
          (From-Above (offset + 1) offset xs (omega arith) s.0) in
      let low = h.0 in
      let forward = i.forward in
      let r = visit_children collect fs xs (offset + 1) (got ++ (offset, c) ∷ [], room) in
      let later : ltb offset r.0 ≡ true = ground arith in
      record {
        more = (offset, c) ∷ i.more;
        kept = i.kept ∙ append_assoc got ((offset, c) ∷ []) i.more;
        split = rw later (ap (λ ys. (offset, c) ∷ ys) i.split);
        counted = ground (arith, i.counted);
        forward = omega arith;
        progress = λ e n. omega arith;
      }

Above-shifted :
    (k : ℕ) (xs : List Entry) → Above k xs → Above (k + 2) (map (λ (p : Entry). (p.0 + 2, p.1)) xs)
Above-shifted k [] h = tt
Above-shifted k (p ∷ xs) h = (omega arith, Above-shifted k xs h.1)

IsSorted-shifted :
    (xs : List Entry) → IsSorted xs → IsSorted (map (λ (p : Entry). (p.0 + 2, p.1)) xs)
IsSorted-shifted [] h = tt
IsSorted-shifted (p ∷ xs) h = (Above-shifted p.0 xs h.0, IsSorted-shifted xs h.1)

Above-late : (k : ℕ) (xs : List Entry) → k ≤ 1 → Above k (map (λ (p : Entry). (p.0 + 2, p.1)) xs)
Above-late k [] h = tt
Above-late k (p ∷ xs) h = (omega arith, Above-late k xs h)

entries-IsSorted : (d : DirEntry) → IsSorted (entries d)
entries-IsSorted d =
    let items = SlotVec.idxes_and_items d.children in
    (
      (omega arith, Above-late 0 items (omega arith)),
      (Above-late 1 items (omega arith), IsSorted-shifted items (idxes_and_items_lem d.children).0),
    )

visited-ok :
    (fs : RamFs) (idx : ℕ) (r : ℕ × Collector × Option Errno)
    → (r.2 ≢ none → r.0 ≢ idx)
    → visited collect fs idx r ≡ (r.1, ok (r.0 - idx))
visited-ok fs idx (i, v, none) h = refl
visited-ok fs idx (i, v, some e) h =
    let moved = h (ground arith) in let other : (idx == i) ≡ false = ground arith in rw other refl

-- Reading a directory from an index on, into a buffer with room for at least one entry, does not fail. It
-- returns a number of which the index is to be moved on, and hands out as many of the remaining entries as there is
-- room for: they are the first ones, in order, and those that remain from the new index on are the rest. Reading in
-- pieces of any sizes thus hands out every entry once.
pub visit_entry_pieces :
    (fs : RamFs) (d : DirEntry) (idx room : ℕ)
    → 0 < room
    → (moved : ℕ) × (got : List Entry) × (left : ℕ) × (visit_entry collect fs d idx ([], room)
        ≡ ((got, left), ok moved))
      × (remaining d idx ≡ got ++ remaining d (idx + moved))
      × (length got
          ≡ (if ltb room (length (remaining d idx)) then room else length (remaining d idx)))
unfolding visit_entry
visit_entry_pieces fs d idx room pos =
    let xs = remaining d idx in
    let r = visit_children collect fs xs idx ([], room) in
    let i =
      visit_children-Read fs xs [] room idx
        (IsSorted-skip_while idx (entries d) (entries-IsSorted d))
        (From-skip_while idx (entries d) (entries-IsSorted d)) in
    let forward = i.forward in
    let reached : r.0 ≡ idx + (r.0 - idx) = omega arith in
    let same : try_visit collect fs d idx ([], room) ≡ r =
      try_visit-visit_children collect fs d idx ([], room) in
    (
      r.0 - idx,
      r.1.0,
      r.1.1,
      ap (visited collect fs idx) same ∙ visited-ok fs idx r (λ e n. omega (arith, i.progress e n)),
      i.split
          ∙ ap (λ ys. ys ++ skip_while r.0 xs) (sym i.kept)
          ∙ ap (λ ys. r.1.0 ++ ys) (skip_while-skip_while idx r.0 (entries d) forward)
          ∙ ap (λ j. r.1.0 ++ remaining d j) reached,
      ap length i.kept ∙ i.counted,
    )
