-- ===== src/RamFs/Dir.antt =====
-- The entries of a directory of ramfs/fs.rs (`DirEntry`), and the operations of an inode on one directory.
use jinux.Base.{
  ℕ, ◌+◌, ◌-◌, Bool, true, false, not, ◌||◌, Option, none, some, List, [], ◌∷◌, ltb, if◌then◌else◌,
  length, Result, ok, err, Errno, eperm, enoent, eexist, enotdir, eisdir, einval, exdev, enotempty,
  enametoolong,
}
use jinux.SlotVec
use jinux.SlotVec.{SlotVec}
use jinux.RamFs.{
  Name, name_eq, cstr256, dot, dotdot, DirEntry, InodeType, Inode, RamFs, file, sym_link, device,
  socket, regular_file, symlink_type, socket_type, directory, named_pipe, char_device, block_device,
  as_direntry, is_dir, put_inode, inc_size, dec_size, inc_nlinks, dec_nlinks, put_dir,
  new_dir_inode, new_leaf_inode, alloc_id, name_max,
}

abbrev pub is_dots : Name → Bool
is_dots name = name_eq name dot || name_eq name dotdot

-- `Iterator::find` and `Iterator::any` over the children
abbrev pub find : Name → List (ℕ × (Name × ℕ)) → Option (ℕ × (Name × ℕ))
find name [] = none
find name ((idx, (child, ino)) ∷ rest) =
    if name_eq child name then some (idx, (child, ino)) else find name rest

abbrev pub any_named : Name → List (Name × ℕ) → Bool
any_named name [] = false
any_named name ((child, ino) ∷ rest) = name_eq child name || any_named name rest

-- `DirEntry::contains_entry`
unfoldable pub contains_entry : DirEntry → Name → Bool
contains_entry d name = if is_dots name then true else any_named name (SlotVec.iter d.children)

-- `DirEntry::get_entry`
unfoldable pub get_entry : DirEntry → Name → Option (ℕ × ℕ)
get_entry d name =
    if name_eq name dot
    then some (0, d.this)
    else if name_eq name dotdot
    then some (1, d.parent)
    else elim (find name (SlotVec.idxes_and_items d.children)) [
      | none ↦ none
      | some (idx, (child, ino)) ↦ some (idx + 2, ino)
    ]

-- `DirEntry::append_entry`; `none` is a panic of `put`.
unfoldable pub append_entry : DirEntry → Name → ℕ → Option DirEntry
append_entry d name ino = elim (SlotVec.put d.children (cstr256 name, ino)) [
  | none ↦ none
  | some (children, idx) ↦ some (record d { children = children })
]

-- `DirEntry::remove_entry`
unfoldable pub remove_entry : DirEntry → ℕ → Option DirEntry
remove_entry d idx =
    if ltb idx 2
    then none
    else some (record d { children = (SlotVec.remove d.children (idx - 2)).0 })

-- `DirEntry::substitute_entry`
unfoldable pub substitute_entry : DirEntry → ℕ → Name → ℕ → Option DirEntry
substitute_entry d idx name ino =
    if ltb idx 2
    then none
    else some (record d { children = (SlotVec.put_at d.children (idx - 2) (cstr256 name, ino)).0 })

-- `DirEntry::is_empty_children`
unfoldable pub is_empty_children : DirEntry → Bool
is_empty_children d = SlotVec.is_empty d.children

-- The outcome of an operation: a panic, an error, or the state after it and what it returns
abbrev pub Outcome : Type 0 → Type 0
Outcome A = Option (Result (RamFs × A))

abbrev pub fails : {A : Type 0} → Errno → Outcome A
fails e = some (err e)

abbrev pub after : {A B : Type 0} → Option A → (A → Option B) → Option B
after none f = none
after (some a) f = f a

-- What `mknod` and `create` end with: the new inode is stored and appended.
abbrev pub append_new : RamFs → ℕ → DirEntry → Inode → Name → ℕ → Inode → Outcome ℕ
append_new fs self d self_inode name ino i =
    after (append_entry d name ino) (λ d'.
      some (ok (put_inode (put_inode fs ino i) self (inc_size (put_dir self_inode d')), ino)))

-- The `match` of `create`; other types panic.
abbrev pub new_inode : InodeType → ℕ → ℕ → ℕ → Option Inode
new_inode regular_file ino mode self = some (new_leaf_inode file mode)
new_inode symlink_type ino mode self = some (new_leaf_inode (sym_link []) mode)
new_inode socket_type ino mode self = some (new_leaf_inode socket mode)
new_inode directory ino mode self = some (new_dir_inode ino mode self)
new_inode named_pipe ino mode self = none
new_inode char_device ino mode self = none
new_inode block_device ino mode self = none

abbrev pub is_directory : InodeType → Bool
is_directory directory = true
is_directory regular_file = false
is_directory symlink_type = false
is_directory socket_type = false
is_directory named_pipe = false
is_directory char_device = false
is_directory block_device = false

-- `RamInode::create`
unfoldable pub create : RamFs → ℕ → Name → InodeType → ℕ → Outcome ℕ
create fs self name type_ mode = elim (as_direntry (fs.inodes self).inner) [
  | none ↦ fails enotdir
  | some d ↦
      if ltb name_max (length name)
      then fails enametoolong
      else if contains_entry d name
      then fails eexist
      else (let (fs', ino) = alloc_id fs in
          let self_inode =
            if is_directory type_ then inc_nlinks (fs.inodes self) else fs.inodes self in
          after (new_inode type_ ino mode self) (λ i. append_new fs' self d self_inode name ino i))
]

-- `RamInode::mknod`, of a device of the given type
unfoldable pub mknod : RamFs → ℕ → Name → ℕ → InodeType → Outcome ℕ
mknod fs self name mode type_ = elim (as_direntry (fs.inodes self).inner) [
  | none ↦ fails enotdir
  | some d ↦
      if ltb name_max (length name)
      then fails enametoolong
      else if contains_entry d name
      then fails eexist
      else (let (fs', ino) = alloc_id fs in
          append_new fs' self d (fs.inodes self) name ino (new_leaf_inode (device type_) mode))
]

-- `RamInode::link`; whether `old` is of the same file system is given, since there is one here.
unfoldable pub link : RamFs → ℕ → Bool → ℕ → Name → Outcome (Unit {0})
link fs self same_fs old name = elim (as_direntry (fs.inodes self).inner) [
  | none ↦ fails enotdir
  | some d ↦
      if not same_fs
      then fails exdev
      else if is_dir fs old
      then fails eperm
      else if contains_entry d name
      then fails eexist
      else after (append_entry d name old) (λ d'.
        let fs' = put_inode fs self (inc_size (put_dir (fs.inodes self) d')) in
        some (ok (put_inode fs' old (inc_nlinks (fs'.inodes old)), tt)))
]

-- `RamInode::lookup`
unfoldable pub lookup : RamFs → ℕ → Name → Result ℕ
lookup fs self name = elim (as_direntry (fs.inodes self).inner) [
  | none ↦ err enotdir
  | some d ↦ elim (get_entry d name) [ none ↦ err enoent | some (idx, ino) ↦ ok ino ]
]

-- `RamInode::unlink`
unfoldable pub unlink : RamFs → ℕ → Name → Outcome (Unit {0})
unlink fs self name = elim (as_direntry (fs.inodes self).inner) [
  | none ↦ fails enotdir
  | some d ↦ if is_dots name then fails eisdir else elim (get_entry d name) [
    | none ↦ fails enoent
    | some (idx, target) ↦
        if is_dir fs target
        then fails eisdir
        else after (remove_entry d idx) (λ d'. after (dec_size (put_dir (fs.inodes self) d')) (λ s.
          let fs' = put_inode fs self s in
          after (dec_nlinks (fs'.inodes target)) (λ t. some (ok (put_inode fs' target t, tt)))))
  ]
]

-- `RamInode::rmdir`
unfoldable pub rmdir : RamFs → ℕ → Name → Outcome (Unit {0})
rmdir fs self name = elim (as_direntry (fs.inodes self).inner) [
  | none ↦ fails enotdir
  | some d ↦
      if name_eq name dot
      then fails einval
      else if name_eq name dotdot
      then fails enotempty
      else elim (get_entry d name) [
        | none ↦ fails enoent
        | some (idx, target) ↦ elim (as_direntry (fs.inodes target).inner) [
          | none ↦ fails enotdir
          | some target_dir ↦
              if not (is_empty_children target_dir)
              then fails enotempty
              else after (remove_entry d idx) (λ d'.
                after (dec_size (put_dir (fs.inodes self) d')) (λ s. after (dec_nlinks s) (λ s'.
                  let fs' = put_inode fs self s' in
                  after (dec_nlinks (fs'.inodes target))
                    (λ t. after (dec_nlinks t) (λ t'. some (ok (put_inode fs' target t', tt)))))))
        ]
      ]
]
