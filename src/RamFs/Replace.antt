-- ===== src/RamFs/Replace.antt =====
-- `rename` of ramfs/fs.rs onto a name that is in use, and to a new name, in the same directory.
use jinux.Base.{
  ℕ, ◌+◌, ◌-◌, ◌<◌, ◌≡◌, ◌≢◌, refl, ◌∙◌, true, false, none, some, arith, ◌==◌, ltb, ok,
}
use jinux.RamFs.{
  Name, name_eq, cstr256, DirEntry, Inode, RamFs, as_direntry, is_dir, put_inode, put_dir,
  blocks_for,
}
use jinux.RamFs.Dir.{is_dots, get_entry}
use jinux.RamFs.Rename.{rename, rename_within, check_replace_inode}
use jinux.RamFs.Find.{IsDir}
use jinux.RamFs.Entries.{Renamed}
use jinux.RamFs.Change.{remove_entry_lem, substitute_entry_lem}

-- `d'` is `d` with the entry of `old` under `new`, whatever lay there.
pub record Moved (d d' : DirEntry) (old new : Name) (idx ino : ℕ) : Type 0 where
  pub proper : IsDir d'
  pub here : get_entry d' new ≡ some (idx, ino)
  pub lost : get_entry d' old ≡ none
  pub others :
      (n : Name) → name_eq n new ≡ false → name_eq n old ≡ false → get_entry d' n ≡ get_entry d n

module _ (fs : RamFs) (self : ℕ) (d : DirEntry) (h : as_direntry (fs.inodes self).inner ≡ some d)
    (v : IsDir d) (old new : Name) (po : is_dots old ≡ false) (pn : is_dots new ≡ false)
    (short : cstr256 new ≡ new) (src_idx src : ℕ)
    (found : get_entry d old ≡ some (src_idx, src)) where
  -- In one directory, the checks before all pass.
  rename-within : rename fs self old true self new ≡ rename_within fs self d old new
  unfolding rename
  rename-within =
      let here : (self == self) ≡ true = ground arith in rw (h, rename) (rw (h, po, pn, here) refl)

  -- `rename` in one directory from a name onto another, neither "." nor "..", the new one as short
  -- as a stored name, under which an inode other than the source and the directory itself is
  -- found, when source and target are no directories and the directory's size is not 0: it does
  -- not panic. The directory then finds the source under the new name, nothing under the old one,
  -- and every other name where it was; its size is one less. The inode that was replaced is not
  -- changed: its count of links still counts the name that it has lost.
  pub rename_keeps_links :
      (dst_idx dst : ℕ)
      → get_entry d new ≡ some (dst_idx, dst)
      → name_eq old new ≡ false
      → src ≢ dst
      → dst ≢ self
      → is_dir fs src ≡ false
      → is_dir fs dst ≡ false
      → 0 < (fs.inodes self).size
      → (fs' : RamFs) × (d' : DirEntry) × (rename fs self old true self new ≡ some (ok (fs', tt)))
        × (as_direntry (fs'.inodes self).inner ≡ some d')
        × Moved d d' old new src_idx src
        × ((fs'.inodes self).size + 1 ≡ (fs.inodes self).size)
        × (fs'.inodes dst ≡ fs.inodes dst)
  unfolding rename_within check_replace_inode
  rename_keeps_links dst_idx dst at ne apart elsewhere leaf leaf' sized =
      let (d', removed, c) = remove_entry_lem d new v pn dst_idx dst at in
      let (d'', stored, r) =
        substitute_entry_lem d' old c.proper po src_idx src new (c.others old ne ∙ found) pn short
          c.here in
      let s : Inode = record (put_dir (fs.inodes self) d'') {
        size = (fs.inodes self).size - 1;
        blocks = blocks_for ((fs.inodes self).size - 1);
      } in
      let here : (self == self) ≡ true = ground arith in
      let other : (src == dst) ≡ false = ground arith in
      let some_size : ltb 0 (fs.inodes self).size ≡ true = ground arith in
      (
        put_inode fs self s,
        d'',
        rename-within
            ∙ rw (found, at, other, leaf, leaf', removed, stored, some_size, rename_within)
                (rw leaf refl),
        rw here refl,
        record {
          proper = r.proper;
          here = r.here;
          lost = r.lost;
          others = λ n nn no'. r.others n nn no' ∙ c.others n nn;
        },
        ground arith,
        ground arith,
      )

  -- `rename` in one directory to a name that is not there: it does not panic. The directory then finds the inode
  -- under the new name, nothing under the old one, and every other name where it was; its size and every other
  -- inode are as before.
  pub rename_lem :
      get_entry d new ≡ none
      → (fs' : RamFs) × (d' : DirEntry) × (rename fs self old true self new ≡ some (ok (fs', tt)))
        × (as_direntry (fs'.inodes self).inner ≡ some d')
        × Renamed d d' old new src_idx src
        × ((fs'.inodes self).size ≡ (fs.inodes self).size)
        × ((j : ℕ) → self ≢ j → fs'.inodes j ≡ fs.inodes j)
  unfolding rename_within
  rename_lem free =
      let (d', stored, r) = substitute_entry_lem d old v po src_idx src new found pn short free in
      let here : (self == self) ≡ true = ground arith in
      (
        put_inode fs self (put_dir (fs.inodes self) d'),
        d',
        rename-within ∙ rw (found, free, stored, rename_within) refl,
        rw here refl,
        r,
        ground arith,
        λ j ns. ground arith,
      )
