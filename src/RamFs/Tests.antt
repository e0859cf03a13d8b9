-- ===== src/RamFs/Tests.antt =====
-- Runs of the file system of ramfs/fs.rs at concrete inputs.
use jinux.Base.{
  ℕ, ◌+◌, ◌≡◌, refl, sym, subst, ap, ◌∙◌, true, Option, none, some, List, [], ◌∷◌, ◌++◌, arith,
  ◌==◌, ltb, if◌then◌else◌, ok, err, eexist, eisdir, length,
}
use jinux.SlotVec
use jinux.RamFs.{
  Name, DirEntry, RamFs, dir, file, regular_file, directory, as_direntry, new_dir_inode,
  new_leaf_inode,
}
use jinux.RamFs.Dir.{get_entry, append_entry, contains_entry, create, unlink}
use jinux.RamFs.Rename.{rename}
use jinux.RamFs.Find.{IsDir}
use jinux.RamFs.Change.{append_entry_lem}
use jinux.RamFs.Make.{Updated, create_lem, unlink_lem}
use jinux.RamFs.Replace.{Moved, rename_keeps_links}
use jinux.RamFs.Visit.{visit_entry}
use jinux.RamFs.Pieces.{collect, visit_entry_pieces}
use jinux.RamFs.Loop.{remaining}

abbrev name_a : Name
name_a = 97 ∷ []

abbrev name_b : Name
name_b = 98 ∷ []

abbrev name_c : Name
name_c = 99 ∷ []

abbrev no_children : DirEntry
no_children = record { children = record { slots = []; num_occupied = 0 }; this = 1; parent = 1 }

abbrev child_a : DirEntry
child_a = record no_children {
  children = record { slots = some (name_a, 2) ∷ []; num_occupied = 1 };
}

abbrev child_a_b : DirEntry
child_a_b = record no_children {
  children = record { slots = some (name_a, 2) ∷ some (name_b, 3) ∷ []; num_occupied = 2 };
}

-- The root is inode 1, and 2 and 3 are files.
abbrev with_root : DirEntry → ℕ → RamFs
with_root d size = record {
  inodes = λ j.
      if j == 1
      then record { inner = dir d; mode = 493; size = size; blocks = 1; nlinks = 2 }
      else new_leaf_inode file 420;
  inode_allocator = 4;
  files = 3;
}

no_children-IsDir : IsDir no_children
unfolding SlotVec.get
no_children-IsDir = record {
  valid = refl;
  unique = λ j k a b ha hb e. ground (arith, ha);
  plain = λ j a h. ground (arith, h);
}

some_inj : {c d : DirEntry} → some c ≡ some d → c ≡ d
some_inj {c} e = ap (λ (o : Option DirEntry). elim o [ none ↦ c | some x ↦ x ]) e

proper_by_append :
    (d c : DirEntry) (name : Name) (ino : ℕ)
    → (IsDir d → (d' : DirEntry) × (append_entry d name ino ≡ some d') × IsDir d')
    → IsDir d
    → append_entry d name ino ≡ some c
    → IsDir c
proper_by_append d c name ino lem v run =
    let (d', made, v') = lem v in subst IsDir (some_inj (sym made ∙ run)) v'

child_a-IsDir : IsDir child_a
unfolding append_entry get_entry SlotVec.put SlotVec.idxes_and_items
child_a-IsDir =
    proper_by_append no_children child_a name_a 2
      (λ v.
        let (d', idx, made, c) = append_entry_lem no_children name_a v refl 2 refl refl in
        (d', made, c.proper))
      no_children-IsDir refl

child_a_b-IsDir : IsDir child_a_b
unfolding append_entry get_entry SlotVec.put SlotVec.idxes_and_items
child_a_b-IsDir =
    proper_by_append child_a child_a_b name_b 3
      (λ v.
        let (d', idx, made, c) = append_entry_lem child_a name_b v refl 3 refl refl in
        (d', made, c.proper))
      child_a-IsDir refl

find_a : get_entry child_a_b name_a ≡ some (2, 2)
unfolding get_entry SlotVec.idxes_and_items
find_a = refl

find_b : get_entry child_a_b name_b ≡ some (3, 3)
unfolding get_entry SlotVec.idxes_and_items
find_b = refl

no_c : get_entry child_a_b name_c ≡ none
unfolding get_entry SlotVec.idxes_and_items
no_c = refl

create_lem_example :
    (fs' : RamFs) × (d' : DirEntry) × (idx : ℕ) × (create
        (with_root child_a_b 4)
        1
        name_c
        directory
        493
      ≡ some (ok (fs', 4)))
    × Updated (with_root child_a_b 4) fs' 1 4 child_a_b d' name_c (some (idx, 4))
    × (fs'.inodes 4 ≡ new_dir_inode 4 493 1)
    × ((fs'.inodes 1).size ≡ 5)
    × ((fs'.inodes 1).nlinks ≡ 3)
create_lem_example =
    create_lem (with_root child_a_b 4) 1 name_c child_a_b refl child_a_b-IsDir refl directory 493
      (new_dir_inode 4 493 1) (omega arith) (omega arith) refl no_c refl

unlink_lem_example :
    (fs' : RamFs) × (d' : DirEntry) × (unlink (with_root child_a_b 4) 1 name_a
      ≡ some (ok (fs', tt)))
    × Updated (with_root child_a_b 4) fs' 1 2 child_a_b d' name_a none
    × ((fs'.inodes 1).size + 1 ≡ 4)
    × ((fs'.inodes 2).nlinks + 1 ≡ 1)
unlink_lem_example =
    unlink_lem (with_root child_a_b 4) 1 name_a child_a_b refl child_a_b-IsDir refl 2 2 find_a refl
      (omega arith) (omega arith)

rename_keeps_links_example :
    (fs' : RamFs) × (d' : DirEntry) × (rename (with_root child_a_b 4) 1 name_a true 1 name_b
      ≡ some (ok (fs', tt)))
    × (as_direntry (fs'.inodes 1).inner ≡ some d')
    × Moved child_a_b d' name_a name_b 2 2
    × ((fs'.inodes 1).size + 1 ≡ 4)
    × (fs'.inodes 3 ≡ new_leaf_inode file 420)
rename_keeps_links_example =
    rename_keeps_links (with_root child_a_b 4) 1 child_a_b refl child_a_b-IsDir name_a name_b refl
      refl refl 2 2 find_a 3 3 find_b refl (ground arith) (ground arith) refl refl (omega arith)

visit_entry_pieces_example :
    (moved : ℕ) × (got : List (ℕ × (Name × ℕ))) × (left : ℕ) × (visit_entry collect
        (with_root child_a_b 4)
        child_a_b
        1
        ([], 2)
      ≡ ((got, left), ok moved))
    × (remaining child_a_b 1 ≡ got ++ remaining child_a_b (1 + moved))
    × (length got
        ≡ (if ltb 2 (length (remaining child_a_b 1)) then 2 else length (remaining child_a_b 1)))
visit_entry_pieces_example = visit_entry_pieces (with_root child_a_b 4) child_a_b 1 2 (omega arith)

create_refuses : create (with_root child_a_b 4) 1 name_b regular_file 420 ≡ some (err eexist)
unfolding create contains_entry SlotVec.iter
create_refuses = refl

rename_to_dot : rename (with_root child_a 3) 1 name_a true 1 (46 ∷ []) ≡ some (err eisdir)
unfolding rename
rename_to_dot = refl
