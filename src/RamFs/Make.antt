-- ===== src/RamFs/Make.antt =====
-- `create` and `unlink` of ramfs/fs.rs.
use jinux.Base.{
  ℕ, ◌+◌, ◌-◌, ◌≤◌, ◌<◌, ◌≡◌, ◌≢◌, refl, subst, ap, ◌∙◌, true, false, Option, none, some, arith,
  ◌==◌, ltb, if◌then◌else◌, is_some, length, ok, Bool-cases, inl, inr,
}
use jinux.RamFs.{
  Name, cstr256, DirEntry, InodeType, Inode, RamFs, as_direntry, is_dir, put_inode, inc_size,
  inc_nlinks, put_dir, name_max, alloc_id, blocks_for,
}
use jinux.RamFs.Dir.{is_dots, contains_entry, get_entry, create, unlink, new_inode, is_directory}
use jinux.RamFs.Find.{IsDir, contains_entry-get_entry}
use jinux.RamFs.Entries.{Changed}
use jinux.RamFs.Change.{append_entry_lem, remove_entry_lem}

-- `fs'` is `fs` after a change of the directory `self` that leaves `d'` in it, under the name `name` the entry `v`, and
-- no inode but `self` and `ino` changed.
pub record Updated (fs fs' : RamFs) (self ino : ℕ) (d d' : DirEntry) (name : Name)
    (v : Option (ℕ × ℕ)) : Type 0 where
  pub contents : as_direntry (fs'.inodes self).inner ≡ some d'
  pub changed : Changed d d' name v
  pub rest : (j : ℕ) → self ≢ j → ino ≢ j → fs'.inodes j ≡ fs.inodes j

module _ (fs : RamFs) (self : ℕ) (name : Name) (d : DirEntry)
    (h : as_direntry (fs.inodes self).inner ≡ some d) (v : IsDir d) (p : is_dots name ≡ false) where
  differ : (target : ℕ) → is_dir fs target ≡ false → (self == target) ≡ false
  differ target leaf = elim (Bool-cases (self == target)) [
    | inl e ↦
        let same : self ≡ target = ground arith in
        let both : is_dir fs target ≡ true = subst (λ j. is_dir fs j ≡ true) same (ap is_some h) in
        absurd (ground arith)
    | inr e ↦ e
  ]

  -- `create` of a file, a directory, a symbolic link or a socket in a directory with a number
  -- below the next one, under a name other than "." and "..", of at most 255 bytes, none of them
  -- null, that is not there: it does not panic, returns the next number and stores the new inode
  -- there. The directory then finds it under the name and every other name where it was, its size
  -- is one more, and so is its count of links if the new inode is a directory. No other inode
  -- changes.
  pub create_lem :
      (type_ : InodeType) (mode : ℕ) (i : Inode)
      → self < fs.inode_allocator
      → length name ≤ name_max
      → cstr256 name ≡ name
      → get_entry d name ≡ none
      → new_inode type_ fs.inode_allocator mode self ≡ some i
      → (fs' : RamFs) × (d' : DirEntry) × (idx : ℕ) × (create fs self name type_ mode
          ≡ some (ok (fs', fs.inode_allocator)))
        × Updated fs fs' self fs.inode_allocator d d' name (some (idx, fs.inode_allocator))
        × (fs'.inodes fs.inode_allocator ≡ i)
        × ((fs'.inodes self).size ≡ (fs.inodes self).size + 1)
        × ((fs'.inodes self).nlinks
            ≡ (fs.inodes self).nlinks + (if is_directory type_ then 1 else 0))
  unfolding create
  create_lem type_ mode i low short same free made =
      let ino = fs.inode_allocator in
      let (d', idx, run, c) = append_entry_lem d name v p ino same free in
      let fits : ltb name_max (length name) ≡ false = ground arith in
      let fresh : contains_entry d name ≡ false =
        contains_entry-get_entry d name v ∙ ap is_some free in
      let self_inode = if is_directory type_ then inc_nlinks (fs.inodes self) else fs.inodes self in
      let fs' : RamFs =
        put_inode (put_inode (alloc_id fs).0 ino i) self (inc_size (put_dir self_inode d')) in
      let here : (self == self) ≡ true = ground arith in
      let other : (self == ino) ≡ false = ground arith in
      (
        fs',
        d',
        idx,
        rw (h, fits, fresh, made, run, create) refl,
        record { contents = rw here refl; changed = c; rest = λ j ns ni. ground arith },
        ground arith,
        ground arith,
        ground arith,
      )

  -- `unlink` of a name other than "." and ".." under which an inode other than a directory is
  -- found, when the size of the directory and the inode's count of links are not 0: it does not
  -- panic. The directory then no longer finds the name and every other name where it was, its size
  -- is one less, and the count of links of the inode is one less. No other inode changes.
  pub unlink_lem :
      (idx target : ℕ)
      → get_entry d name ≡ some (idx, target)
      → is_dir fs target ≡ false
      → 0 < (fs.inodes self).size
      → 0 < (fs.inodes target).nlinks
      → (fs' : RamFs) × (d' : DirEntry) × (unlink fs self name ≡ some (ok (fs', tt)))
        × Updated fs fs' self target d d' name none
        × ((fs'.inodes self).size + 1 ≡ (fs.inodes self).size)
        × ((fs'.inodes target).nlinks + 1 ≡ (fs.inodes target).nlinks)
  unfolding unlink
  unlink_lem idx target found leaf sized linked =
      let (d', run, c) = remove_entry_lem d name v p idx target found in
      let apart : (self == target) ≡ false = differ target leaf in
      let back : (target == self) ≡ false = ground arith in
      let here : (self == self) ≡ true = ground arith in
      let s : Inode = record (put_dir (fs.inodes self) d') {
        size = (fs.inodes self).size - 1;
        blocks = blocks_for ((fs.inodes self).size - 1);
      } in
      let t : Inode = record (fs.inodes target) { nlinks = (fs.inodes target).nlinks - 1 } in
      let fs' : RamFs = put_inode (put_inode fs self s) target t in
      let some_size : ltb 0 (fs.inodes self).size ≡ true = ground arith in
      let some_link : ltb 0 (fs.inodes target).nlinks ≡ true = ground arith in
      (
        fs',
        d',
        rw (h, p, found, leaf, run, some_size, apart, some_link, unlink) refl,
        record { contents = rw (back, here) refl; changed = c; rest = λ j ns nt. ground arith },
        ground arith,
        ground arith,
      )
