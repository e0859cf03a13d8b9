-- ===== src/RamFs/Visit.antt =====
-- Reading a directory of ramfs/fs.rs (`visit_entry`, `readdir_at`), its symbolic links and the size of a file.
use jinux.Base.{
  ℕ, ◌+◌, ◌-◌, Option, none, some, List, [], ◌∷◌, map, ◌==◌, ltb, if◌then◌else◌, Result, ok, err,
  Errno, enotdir, einval, length,
}
use jinux.SlotVec
use jinux.RamFs.{
  Name, dot, dotdot, DirEntry, Inner, InodeType, RamFs, dir, file, sym_link, device, socket,
  directory, regular_file, symlink_type, socket_type, as_direntry, as_symlink, put_inode,
  resize_inode,
}
use jinux.RamFs.Dir.{Outcome, fails}

-- `metadata.type_`
abbrev pub type_of : Inner → InodeType
type_of (dir d) = directory
type_of file = regular_file
type_of (sym_link target) = symlink_type
type_of (device t) = t
type_of socket = socket_type

-- An entry as a visitor is told of it: the offset, and the name and the inode
abbrev pub Entry : Type 0
Entry = ℕ × (Name × ℕ)

-- `skip_while(|(offset, _)| offset < &start_idx)`
abbrev pub skip_while : ℕ → List Entry → List Entry
skip_while start_idx [] = []
skip_while start_idx ((offset, c) ∷ rest) =
    if ltb offset start_idx then skip_while start_idx rest else (offset, c) ∷ rest

-- The children with their offsets
abbrev pub children_entries : DirEntry → List Entry
children_entries d = map (λ (p : Entry). (p.0 + 2, p.1)) (SlotVec.idxes_and_items d.children)

-- A visitor with the state `V`: what it is told of an entry gives its next state, and an error if there is one.
module _ {V : Type 0} (visit : V → Name → ℕ → InodeType → ℕ → V × Option Errno) (fs : RamFs) where
  -- Where the visit stands: the index, the visitor, and the error that stopped it
  abbrev pub Visiting : Type 0
  Visiting = ℕ × V × Option Errno

  abbrev pub tell : V → Entry → V × Option Errno
  tell v p = visit v p.1.0 p.1.1 (type_of (fs.inodes p.1.1).inner) p.0

  -- The loop over the normal child entries
  abbrev pub visit_children : List Entry → ℕ → V → Visiting
  visit_children [] idx v = (idx, v, none)
  visit_children (p ∷ rest) idx v =
      let next = visit_children rest (p.0 + 1) (tell v p).0 in
      elim (tell v p).1 [ none ↦ next | some e ↦ (idx, (tell v p).0, some e) ]

  -- One of the two special entries
  abbrev pub visit_special : Entry → ℕ → V → Visiting
  visit_special p idx v =
      if idx == p.0
      then elim (tell v p).1 [
        | none ↦ (idx + 1, (tell v p).0, none)
        | some e ↦ (idx, (tell v p).0, some e)
      ]
      else (idx, v, none)

  -- Going on where a visit stands, if no error stopped it
  abbrev pub go_on : Visiting → (ℕ → V → Visiting) → Visiting
  go_on (idx, v, none) f = f idx v
  go_on (idx, v, some e) f = (idx, v, some e)

  -- `try_visit`
  unfoldable pub try_visit : DirEntry → ℕ → V → Visiting
  try_visit d idx v = go_on (visit_special (0, (dot, d.this)) idx v) (λ i w.
      go_on (visit_special (1, (dotdot, d.parent)) i w)
        (λ j u. visit_children (skip_while j (children_entries d)) j u))

  abbrev pub visited : ℕ → Visiting → V × Result ℕ
  visited idx (i, v, none) = (v, ok (i - idx))
  visited idx (i, v, some e) = (v, if idx == i then err e else ok (i - idx))

  -- `DirEntry::visit_entry`
  unfoldable pub visit_entry : DirEntry → ℕ → V → V × Result ℕ
  visit_entry d idx v = visited idx (try_visit d idx v)

  -- `RamInode::readdir_at`
  unfoldable pub readdir_at : ℕ → ℕ → V → V × Result ℕ
  readdir_at self offset v = elim (as_direntry (fs.inodes self).inner) [
    | none ↦ (v, err enotdir)
    | some d ↦ visit_entry d offset v
  ]

-- `RamInode::read_link`
unfoldable pub read_link : RamFs → ℕ → Result Name
read_link fs self = elim (as_symlink (fs.inodes self).inner) [
  | none ↦ err einval
  | some link ↦ ok link
]

-- `RamInode::write_link`, which leaves the blocks at 0
unfoldable pub write_link : RamFs → ℕ → Name → Outcome (Unit {0})
write_link fs self target = elim (as_symlink (fs.inodes self).inner) [
  | none ↦ fails einval
  | some link ↦ some (
      ok (
        put_inode fs self
            (record (fs.inodes self) { inner = sym_link target; size = length target }),
        tt,
      ))
]

-- `RamInode::resize`
unfoldable pub resize : RamFs → ℕ → ℕ → RamFs
resize fs self new_size = put_inode fs self (resize_inode (fs.inodes self) new_size)
