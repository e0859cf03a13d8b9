-- ===== src/Virtqueue.antt =====
-- The ring of descriptors between a virtio driver and its device: services/comps/virtio/src/queue.rs.
-- The memory that both share is a part of the state; what the device writes, the used ring, is given from outside. A
-- panic (an index beyond the table, an address without translation, an underflow) is `none`. The frames are taken as
-- given to `new`, the transport accepts them, and the fences, the notify register and the debug output have no effect here.
pub mod Pop
pub mod Walk
pub mod Fill
pub mod Both
pub mod Add
pub mod Recycle
pub mod Take
pub mod Linked
pub mod Idle
pub mod Fresh
pub mod Cycle
mod Tests
use Prim.Native.Nat.{bit_and, bit_or}
use jinux.Base.{
  ℕ, zero, suc, ◌+◌, ◌-◌, ◌%◌, ◌^◌, Bool, true, false, not, ◌&&◌, Option, none, some, List, [], ◌∷◌,
  ◌==◌, ◌!=◌, ltb, if◌then◌else◌, length,
}
use jinux.AlignExt.{is_power_of_two}

-- `QueueError`
pub data QueueError : Type 0 where
  invalid_args buffer_too_small not_ready already_used wrong_token : QueueError

-- A `Result` of the queue
pub data Answer (A : Type 0) : Type 0 where
  granted : A → Answer A
  refused : QueueError → Answer A

-- `Descriptor`
pub record Descriptor : Type 0 where
  pub addr : ℕ
  pub len : ℕ
  pub flags : ℕ
  pub next : ℕ

-- `UsedElem`
pub record UsedElem : Type 0 where
  pub id : ℕ
  pub len : ℕ

-- `UsedRing`, which the device writes
pub record UsedRing : Type 0 where
  pub flags : ℕ
  pub idx : ℕ
  pub ring : ℕ → UsedElem

-- `AvailRing`, which the driver writes
pub record AvailRing : Type 0 where
  pub flags : ℕ
  pub idx : ℕ
  pub ring : ℕ → ℕ

-- The table of descriptors in memory
abbrev pub Table : Type 0
Table = ℕ → Descriptor

-- `VirtQueue`, with the memory that its pointers lead to
pub record VirtQueue : Type 0 where
  pub descs : Table
  pub avail : AvailRing
  pub used : UsedRing
  pub queue_idx : ℕ
  pub queue_size : ℕ
  pub num_used : ℕ
  pub free_head : ℕ
  pub avail_idx : ℕ
  pub last_used_idx : ℕ

-- `DescFlags`
abbrev pub next_flag : ℕ
next_flag = 1

abbrev pub write_flag : ℕ
write_flag = 2

-- `flags.contains(DescFlags::NEXT)` and `flags.remove(DescFlags::NEXT)`
unfoldable pub has_next : ℕ → Bool
has_next flags = bit_and flags next_flag == next_flag

unfoldable pub remove_next : ℕ → ℕ
remove_next flags = bit_and flags (2 ^ 16 - 1 - next_flag)

-- A write of memory at one index
abbrev pub write_at {ℓ} : {A : Type ℓ} → (ℕ → A) → ℕ → A → ℕ → A
write_at f i v j = if i == j then v else f j

-- `field_ptr!(desc, Descriptor, next).write(…)`
abbrev pub write_next : Table → ℕ → ℕ → Table
write_next d i n = write_at d i (record (d i) { next = n })

-- The loop of `new` that links the descriptors, from `i` on for `n` steps
abbrev pub link : ℕ → ℕ → Table → Table
link zero i d = d
link (suc n) i d = link n (i + 1) (write_next d i (i + 1))

-- `VirtQueue::new` on three frames as they come from the allocator
unfoldable pub new : ℕ → ℕ → Bool → Table → AvailRing → UsedRing → Answer VirtQueue
unfolding is_power_of_two
new idx size is_legacy d avail used =
    if not (is_power_of_two size)
    then refused invalid_args
    else if ltb (if is_legacy then 128 else 256) size
    then refused invalid_args
    else granted (record {
      descs = link (size - 1) 0 d;
      avail = record avail { flags = 0 };
      used = used;
      queue_idx = idx;
      queue_size = size;
      num_used = 0;
      free_head = 0;
      avail_idx = 0;
      last_used_idx = 0;
    })

-- A buffer: the virtual address and the length of a slice, a reader or a writer
pub record Buffer : Type 0 where
  pub va : ℕ
  pub size : ℕ

-- The two loops of `add_buf` keep the table, the head of the free list and the last descriptor taken.
pub record Filling : Type 0 where
  pub table : Table
  pub free : ℕ
  pub last : ℕ

-- `set_buf_slice`, `set_buf_reader` and `set_buf_writer`, with the flags written after
abbrev pub set_buf : Descriptor → ℕ → Buffer → ℕ → Descriptor
set_buf desc pa buf flags = record {
  addr = pa;
  len = buf.size % 2 ^ 32;
  flags = flags;
  next = desc.next;
}

-- `add_buf` and `add_vm` from the last descriptor's flags on; `total` is the number of buffers.
abbrev pub publish : VirtQueue → ℕ → Filling → VirtQueue × Answer ℕ
publish q total f =
    let desc = f.table f.last in
    (
      record q {
        descs = write_at f.table f.last (record desc { flags = remove_next desc.flags });
        free_head = f.free;
        num_used = q.num_used + total % 2 ^ 16;
        avail = record q.avail {
          ring = write_at q.avail.ring (bit_and q.avail_idx (q.queue_size - 1)) q.free_head;
          idx = (q.avail_idx + 1) % 2 ^ 16;
        };
        avail_idx = (q.avail_idx + 1) % 2 ^ 16;
      },
      granted q.free_head,
    )

-- `vaddr_to_paddr` is of the frame crate's page tables: a parameter.
module _ (vaddr_to_paddr : ℕ → Option ℕ) where
  -- The body of a loop of `add_buf` and `add_vm`; the table has `size + 1` pointers.
  abbrev pub take_desc : ℕ → ℕ → Buffer → Filling → Option Filling
  take_desc size flags buf f = if ltb size f.free then none else elim (vaddr_to_paddr buf.va) [
    | none ↦ none
    | some pa ↦ some (record {
      table = write_at f.table f.free (set_buf (f.table f.free) pa buf flags);
      free = (f.table f.free).next;
      last = f.free;
    })
  ]

  -- A loop of `add_buf` and `add_vm`
  abbrev pub take_descs : ℕ → ℕ → List Buffer → Filling → Option Filling
  take_descs size flags [] f = some f
  take_descs size flags (buf ∷ bufs) f = elim (take_desc size flags buf f) [
    | none ↦ none
    | some g ↦ take_descs size flags bufs g
  ]

  -- `VirtQueue::add_buf` and `VirtQueue::add_vm`, which differ in the type of the buffers alone
  unfoldable pub add_buf : VirtQueue → List Buffer → List Buffer → Option (VirtQueue × Answer ℕ)
  add_buf q inputs outputs =
      if length inputs == 0 && length outputs == 0
      then some (q, refused invalid_args)
      else if ltb q.queue_size (length inputs + length outputs + q.num_used)
      then some (q, refused buffer_too_small)
      else elim (take_descs q.queue_size next_flag inputs
          (record { table = q.descs; free = q.free_head; last = q.free_head })) [
            | none ↦ none
            | some f ↦ elim (take_descs q.queue_size (bit_or next_flag write_flag) outputs f) [
              | none ↦ none
              | some g ↦ some (publish q (length inputs + length outputs) g)
            ]
          ]

-- `VirtQueue::can_pop`
unfoldable pub can_pop : VirtQueue → Bool
can_pop q = q.last_used_idx != q.used.idx

-- `VirtQueue::available_desc`
unfoldable pub available_desc : VirtQueue → ℕ
available_desc q = q.queue_size - q.num_used

-- `VirtQueue::should_notify`
unfoldable pub should_notify : VirtQueue → Bool
should_notify q = bit_and q.used.flags 1 == 0
