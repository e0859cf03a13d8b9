-- ===== src/Lib.antt =====
-- Jinux: parts of the kernel's services and of its framework, modelled and proved.
--
-- The services (services/libs/aster-std) run over the framework (framework/aster-frame). The parts
-- modelled here are those that keep the kernel's own state: who a thread is (credentials), which files
-- a process has open (the file table, over the slot vectors of services/libs/aster-util and the subjects
-- of events), which signals are pending for it and how they are handled, how threads wait for each other
-- in user space (futexes), the regions of its virtual memory (vmar), which process
-- group and session it is in, the channels under pipes, the controlling terminals
-- of sessions, the file system in memory, the queues between drivers and virtio devices, and the lock over
-- which the kernel shares its data (rwlock).
--
-- Base: the shared names, with Boolean tests and lists over native numbers, dictionaries sorted by key
--   (for BTreeMap), i32 and its casts to and from usize, bits of a u64, and the error numbers
--   of services/libs/aster-std/src/error.rs.
-- Credentials: process/credentials/credentials_.rs (the paths that begin with a folder of aster-std are
--   in services/libs/aster-std/src). The record has a number for each id; `set_uid` to `set_suid` and
--   `check_uid_perm` are in Credentials.Uid, the same for groups in Credentials.Gid. The set of
--   supplementary groups is carried but no operation on it is modelled; the rights of static_cap.rs are
--   types and leave no trace.
-- SlotVec: services/libs/aster-util/src/slot_vec.rs, each operation by its name.
-- Events: events/subject.rs. A weak reference is the address that orders it; whether it can be upgraded
--   is a parameter, and a notification returns those whose `on_events` it calls.
-- FileTable: fs/file_table.rs over SlotVec and Events. A file is a value of any type. The notices that an
--   operation sends are returned with its result. What an observer does when it is told is not modelled.
-- Signal: process/signal/, with sig_num.rs and constants.rs (Signal), sig_mask.rs (Signal.Mask),
--   sig_action.rs, sig_disposition.rs and c_types.rs (Signal.Action), and sig_queues.rs with events.rs
--   (Signal.Queues). A signal is a value of any type with a number. The delivery to user space is not
--   modelled.
-- AlignExt: framework/libs/align_ext/src/lib.rs, at 64 bits.
-- RecycleAllocator: framework/aster-frame/src/util/recycle_allocator.rs, which hands out ids, for interrupts
--   among others.
-- RwLock: framework/aster-frame/src/sync/rwlock.rs. The lock is one 64-bit word; each atomic operation
--   of a method is one step, and RwLock.System interleaves the steps of any number of threads. The
--   memory orderings are not modelled: the steps are sequentially consistent. A guard that is leaked
--   is a guard that is held for ever. The bound of 2 ^ 60 threads keeps the count of readers, which
--   includes those about to give up, out of the upper bits.
-- Futex: process/posix_thread/futex.rs. A bucket is its queue, since the mutex of a bucket makes what is
--   done under it one step; the flag of each waiter is kept beside the buckets. The number of buckets,
--   which the source computes from the processors, is a parameter, and so is the word that is
--   loaded from user memory. The spinning loop of `wait` is not a definition: the flag that it reads is.
--
-- Region: the free regions of services/libs/aster-std/src/vm/vmar/mod.rs: `FreeRegion`, the functions on
--   ranges, and the loops over `free_regions` in the methods of `Vmar_`. The inner loop of
--   `merge_continuous_regions` has as many rounds as there are regions, which is enough.
-- Mapping: vm/vmar/vm_mapping.rs, with `VmMappingInner` as a record. What a mapping calls of `VmSpace` (of
--   framework/aster-frame/src/vm/space.rs) is a parameter, VmSpaceOps, on which no theorem has a
--   hypothesis. Mapping.Change has `protect` and the trims; `trim_mapping` returns what it adds to the
--   collections of its caller. Overflow checks and debug assertions are on, as in a development build.
-- Vmar: vm/vmar/mod.rs. A region is a tree: its children are regions. Vmar.Place has the search for room
--   for a mapping. The lock of a region, its parent and its rights are not in the state; each method
--   is one step. The page fault of a mapping is a parameter of `handle_page_fault`.
-- ProcessGroup: process/process/process_group.rs and session.rs, the methods of process/process/mod.rs that
--   move a process between groups, and what `reap_zombie_child` of process/wait.rs does to the
--   tables of process/process_table.rs. Processes, groups and sessions are their ids.
-- Channel: fs/utils/channel.rs, under pipes and stream sockets. The ring buffer of the library `ringbuf` is a
--   parameter with its documented laws (Ring). A call of an end is one step; in Channel.Locks
--   the calls of both overlap, and `update_pollee` is taken apart with the event lock, whose guard is dropped at once.
-- Virtqueue: services/comps/virtio/src/queue.rs. The descriptors and both rings are memory that the driver shares
--   with the device; what the device writes is given from outside. `add_vm` is `add_buf`, over another
--   type of buffers. The translation of addresses, of the framework, is a parameter. The loop of
--   `recycle_descriptors` counts the used descriptors down, so it has at most as many rounds.
-- Terminal: process/process/terminal.rs and job_control.rs, with the terminal of a session (session.rs). The methods of
--   the three call each other through closures, which are written out. Processes do not move between
--   groups here: the session of a group is given.
-- RamFs: fs/ramfs/fs.rs, over SlotVec, with `CStr256::from` of fs/utils/mod.rs. Inodes are their numbers. RamFs.Dir has the
--   entries of a directory and the operations on one, RamFs.Rename the renames, RamFs.Visit the reading of
--   a directory, of which the visitor is a parameter. The pages of files are not in the state, and a
--   name cut inside a character, on which the source panics, is kept as its bytes.
--
-- Every loop is a structural recursion over a list or over the number of its rounds; the loop of `alloc`
-- in RecycleAllocator has as many rounds at most as ids are skipped. A panic (an `unwrap`, an index out of bounds) is `none`, and allocation succeeds. usize is 64
-- bits wide; sizes are natural numbers where the source cannot overflow them.
--
-- Not modelled: hardware access, boot and drivers; frames, page tables and memory objects; destroying and copying
-- regions of virtual memory; the other file systems, dentries and the pages of files; the network,
-- which is mostly calls of a library; the birth and exit of processes, and the input of terminals; system calls; the other
-- locks of the framework.
pub mod AlignExt
pub mod Base
pub mod Credentials
pub mod SlotVec
pub mod Events
pub mod FileTable
pub mod Signal
pub mod RecycleAllocator
pub mod RwLock
pub mod Futex
pub mod Region
pub mod Mapping
pub mod Vmar
pub mod ProcessGroup
pub mod Channel
pub mod Virtqueue
pub mod RamFs
pub mod Terminal
