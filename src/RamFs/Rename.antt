-- ===== src/RamFs/Rename.antt =====
-- `rename` of ramfs/fs.rs, in one directory and from one to another.
use jinux.Base.{
  ℕ, Bool, true, false, not, Option, none, some, ◌==◌, if◌then◌else◌, ok, Errno, eisdir, einval,
  enoent, enotdir, enotempty, exdev,
}
use jinux.RamFs.{
  Name, DirEntry, Inode, RamFs, as_direntry, is_dir, put_inode, inc_size, dec_size, inc_nlinks,
  dec_nlinks, put_dir,
}
use jinux.RamFs.Dir.{
  Outcome, fails, after, is_dots, get_entry, append_entry, remove_entry, substitute_entry,
  is_empty_children,
}

abbrev is_nonempty_dir : RamFs → ℕ → Bool
is_nonempty_dir fs ino = elim (as_direntry (fs.inodes ino).inner) [
  | none ↦ false
  | some d ↦ not (is_empty_children d)
]

-- `check_replace_inode`: the error, if there is one
unfoldable pub check_replace_inode : RamFs → ℕ → ℕ → Option Errno
check_replace_inode fs src dst =
    if src == dst
    then none
    else if is_dir fs src
    then (if is_dir fs dst
        then (if is_nonempty_dir fs dst then some enotempty else none)
        else some enotdir)
    else if is_dir fs dst
    then some eisdir
    else none

abbrev dec_nlinks_if : Bool → Inode → Option Inode
dec_nlinks_if true i = dec_nlinks i
dec_nlinks_if false i = some i

abbrev inc_nlinks_if : Bool → Inode → Inode
inc_nlinks_if true i = inc_nlinks i
inc_nlinks_if false i = i

-- The directory `self` with the contents `d` and one entry less, of which it is told whether it is a directory's
abbrev shrunk : RamFs → ℕ → DirEntry → Bool → Option Inode
shrunk fs self d is_dir_entry =
    after (dec_size (put_dir (fs.inodes self) d)) (dec_nlinks_if is_dir_entry)

-- Rename in the same directory
unfoldable pub rename_within : RamFs → ℕ → DirEntry → Name → Name → Outcome (Unit {0})
rename_within fs self d old_name new_name = elim (get_entry d old_name) [
  | none ↦ fails enoent
  | some (src_idx, src) ↦ elim (get_entry d new_name) [
    | none ↦
        after (substitute_entry d src_idx new_name src)
          (λ d'. some (ok (put_inode fs self (put_dir (fs.inodes self) d'), tt)))
    | some (dst_idx, dst) ↦ elim (check_replace_inode fs src dst) [
      | some e ↦ fails e
      | none ↦ after (remove_entry d dst_idx) (λ d'.
          after (substitute_entry d' src_idx new_name src) (λ d''.
            after (shrunk fs self d'' (is_dir fs src)) (λ s. some (ok (put_inode fs self s, tt)))))
    ]
  ]
]

-- `set_parent` of the entry that has moved, if it is a directory
abbrev set_parent : RamFs → ℕ → ℕ → Outcome (Unit {0})
set_parent fs src target =
    if is_dir fs src
    then after (as_direntry (fs.inodes src).inner) (λ d.
      some (ok (put_inode fs src (put_dir (fs.inodes src) (record d { parent = target })), tt)))
    else some (ok (fs, tt))

-- Rename across different directories
unfoldable pub rename_across :
    RamFs → ℕ → DirEntry → Name → ℕ → DirEntry → Name → Outcome (Unit {0})
rename_across fs self d old_name target t new_name = elim (get_entry d old_name) [
  | none ↦ fails enoent
  | some (src_idx, src) ↦ if src == target then fails einval else elim (get_entry t new_name) [
    | none ↦ after (remove_entry d src_idx) (λ d'. after (append_entry t new_name src) (λ t'.
        after (shrunk fs self d' (is_dir fs src)) (λ s.
          let grown = inc_nlinks_if (is_dir fs src) (inc_size (put_dir (fs.inodes target) t')) in
          set_parent (put_inode (put_inode fs self s) target grown) src target)))
    | some (dst_idx, dst) ↦
        if self == dst then fails enotempty else elim (check_replace_inode fs src dst) [
          | some e ↦ fails e
          | none ↦ after (remove_entry d src_idx) (λ d'. after (remove_entry t dst_idx) (λ t'.
              after (append_entry t' new_name src) (λ t''.
                after (shrunk fs self d' (is_dir fs src)) (λ s.
                  set_parent
                    (put_inode (put_inode fs self s) target (put_dir (fs.inodes target) t'')) src
                    target))))
        ]
  ]
]

-- `RamInode::rename`; whether the target is of the same file system is given, since there is one here.
unfoldable pub rename : RamFs → ℕ → Name → Bool → ℕ → Name → Outcome (Unit {0})
rename fs self old_name same_fs target new_name = elim (as_direntry (fs.inodes self).inner) [
  | none ↦ fails enotdir
  | some d ↦ if not same_fs then fails exdev else elim (as_direntry (fs.inodes target).inner) [
    | none ↦ fails enotdir
    | some t ↦
        if is_dots old_name
        then fails eisdir
        else if is_dots new_name
        then fails eisdir
        else if self == target
        then rename_within fs self d old_name new_name
        else rename_across fs self d old_name target t new_name
  ]
]
