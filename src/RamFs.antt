-- ===== src/RamFs.antt =====
-- The file system in memory: services/libs/aster-std/src/fs/ramfs/fs.rs. An inode is named by its number, which
-- `alloc_id` gives out once; the references between inodes are these numbers, and all of them can be upgraded. The type
-- in an inode's metadata is that of its contents, with which it is made. A name is its bytes. The pages of files,
-- devices, and the times and owners in the metadata are not in the model. A panic is `none`; the locks make each
-- operation one step.
pub mod Dir
pub mod Rename
pub mod Find
pub mod Entries
pub mod Slot
pub mod Change
pub mod Make
pub mod Replace
pub mod Visit
pub mod Loop
pub mod Pieces
mod Tests
use jinux.Base.{
  ℕ, zero, suc, ◌+◌, ◌-◌, ◌/◌, Bool, true, false, not, ◌&&◌, ◌||◌, Option, none, some, List, [],
  ◌∷◌, ◌==◌, ltb, if◌then◌else◌, is_some,
}
use jinux.SlotVec
use jinux.SlotVec.{SlotVec}

-- A string
abbrev pub Name : Type 0
Name = List ℕ

abbrev pub name_eq : Name → Name → Bool
name_eq [] [] = true
name_eq [] (y ∷ ys) = false
name_eq (x ∷ xs) [] = false
name_eq (x ∷ xs) (y ∷ ys) = (x == y) && name_eq xs ys

-- `CStr256::from`: up to a null byte, and at most 255 bytes
abbrev cut : ℕ → Name → Name
cut zero xs = []
cut (suc n) [] = []
cut (suc n) (x ∷ xs) = if x == 0 then [] else x ∷ cut n xs

abbrev pub cstr256 : Name → Name
cstr256 name = cut 255 name

-- "." and ".."
abbrev pub dot : Name
dot = 46 ∷ []

abbrev pub dotdot : Name
dotdot = 46 ∷ 46 ∷ []

-- `DirEntry`
pub record DirEntry : Type 0 where
  pub children : SlotVec (Name × ℕ)
  pub this : ℕ
  pub parent : ℕ

-- `InodeType`
pub data InodeType : Type 0 where
  named_pipe char_device directory block_device regular_file symlink_type socket_type : InodeType

-- `Inner`, less the pages of a file and the device
pub data Inner : Type 0 where
  dir : DirEntry → Inner
  file : Inner
  sym_link : Name → Inner
  device : InodeType → Inner
  socket : Inner

-- `Inode_` with what is used of its `Metadata`
pub record Inode : Type 0 where
  pub inner : Inner
  pub mode : ℕ
  pub size : ℕ
  pub blocks : ℕ
  pub nlinks : ℕ

-- `RamFS`, with every inode under its number; `files` is of the super block.
pub record RamFs : Type 0 where
  pub inodes : ℕ → Inode
  pub inode_allocator : ℕ
  pub files : ℕ

abbrev pub block_size : ℕ
block_size = 4096

abbrev pub name_max : ℕ
name_max = 255

-- `Inner::as_direntry`
abbrev pub as_direntry : Inner → Option DirEntry
as_direntry (dir d) = some d
as_direntry file = none
as_direntry (sym_link target) = none
as_direntry (device t) = none
as_direntry socket = none

-- `Inner::as_symlink`
abbrev pub as_symlink : Inner → Option Name
as_symlink (sym_link target) = some target
as_symlink (dir d) = none
as_symlink file = none
as_symlink (device t) = none
as_symlink socket = none

-- `metadata.type_ == InodeType::Dir`
abbrev pub is_dir : RamFs → ℕ → Bool
is_dir fs ino = is_some (as_direntry (fs.inodes ino).inner)

-- A write of one inode
abbrev pub put_inode : RamFs → ℕ → Inode → RamFs
put_inode fs ino i = record fs { inodes = λ j. if ino == j then i else fs.inodes j }

-- `blocks` for a size
abbrev pub blocks_for : ℕ → ℕ
blocks_for size = (size + block_size - 1) / block_size

-- `Inode_::inc_size`, `Inode_::dec_size`, `Inode_::resize`, `Inode_::inc_nlinks`, `Inode_::dec_nlinks`
abbrev pub inc_size : Inode → Inode
inc_size i = record i { size = i.size + 1; blocks = blocks_for (i.size + 1) }

abbrev pub dec_size : Inode → Option Inode
dec_size i =
    if ltb 0 i.size
    then some (record i { size = i.size - 1; blocks = blocks_for (i.size - 1) })
    else none

abbrev pub resize_inode : Inode → ℕ → Inode
resize_inode i new_size = record i { size = new_size; blocks = blocks_for new_size }

abbrev pub inc_nlinks : Inode → Inode
inc_nlinks i = record i { nlinks = i.nlinks + 1 }

abbrev pub dec_nlinks : Inode → Option Inode
dec_nlinks i = if ltb 0 i.nlinks then some (record i { nlinks = i.nlinks - 1 }) else none

-- The contents of an inode that is a directory
abbrev pub put_dir : Inode → DirEntry → Inode
put_dir i d = record i { inner = dir d }

-- `Inode_::new_dir` with its `Metadata::new_dir`, and `DirEntry::init`
abbrev pub new_dir_inode : ℕ → ℕ → ℕ → Inode
new_dir_inode ino mode parent = record {
  inner = dir (record { children = SlotVec.new (Name × ℕ); this = ino; parent = parent });
  mode = mode;
  size = 2;
  blocks = 1;
  nlinks = 2;
}

-- `Inode_::new_file`, `new_symlink`, `new_socket` and `new_device`
abbrev pub new_leaf_inode : Inner → ℕ → Inode
new_leaf_inode inner mode = record { inner = inner; mode = mode; size = 0; blocks = 0; nlinks = 1 }

-- `RamFS::alloc_id`
abbrev pub alloc_id : RamFs → RamFs × ℕ
alloc_id fs = (
  record fs { inode_allocator = fs.inode_allocator + 1; files = fs.files + 1 },
  fs.inode_allocator,
)
