-- ===== src/RwLock.antt =====
-- The spinning read-write lock: framework/aster-frame/src/sync/rwlock.rs.
-- The lock is one 64-bit word that threads change by atomic operations; a thread is modelled by the
-- guard that it holds, or by where it stands between two atomic operations of one method. The
-- methods `read`, `write`, `upread` and `upgrade` repeat the `try_` methods, and so repeat their steps.
pub mod System
pub mod Word
pub mod Invariant
pub mod Moves
pub mod Exclusion
mod Tests
use Prim.Native.Nat.{bit_and, bit_or}
use jinux.Base.{ℕ, ◌+◌, ◌-◌, ◌%◌, ◌^◌, Bool, ◌==◌, if◌then◌else◌}
use jinux.Base.Bits.{not_u64}

abbrev pub reader : ℕ
reader = 1

abbrev pub writer : ℕ
writer = 2 ^ 63

abbrev pub upgradeable_reader : ℕ
upgradeable_reader = 2 ^ 62

abbrev pub being_upgraded : ℕ
being_upgraded = 2 ^ 61

abbrev pub max_reader : ℕ
max_reader = 2 ^ 60

-- `fetch_add` and `fetch_sub` wrap.
abbrev pub fetch_add : ℕ → ℕ → ℕ
fetch_add lock x = (lock + x) % 2 ^ 64

abbrev pub fetch_sub : ℕ → ℕ → ℕ
fetch_sub lock x = (lock + 2 ^ 64 - x) % 2 ^ 64

-- `InnerGuard`: what the thread disabled while it holds the lock.
pub data InnerGuard : Type 0 where
  irq_guard preempt_guard : InnerGuard

-- A thread: the guard that it holds, or the point that it has reached.
pub data Thread : Type 0 where
  idle : Thread
  read_failed : Thread
  reading : InnerGuard → Thread
  writing : InnerGuard → Thread
  upread_failed : Thread
  upreading : InnerGuard → Thread
  upgrading : InnerGuard → Thread
  upgraded : InnerGuard → Thread

-- An atomic operation of a thread: the word and the thread after it.
abbrev pub Outcome : Type 0
Outcome = ℕ × Thread

-- The tests are made on the word that the atomic operation returns, the one before it.
abbrev pub admits_reader : ℕ → Bool
admits_reader lock = bit_and lock (bit_or (bit_or writer max_reader) being_upgraded) == 0

-- `try_read`, up to the test
unfoldable pub try_read : ℕ → Outcome
try_read lock =
    (fetch_add lock reader, if admits_reader lock then reading preempt_guard else read_failed)

-- `try_read_irq_disabled`, up to the test
unfoldable pub try_read_irq_disabled : ℕ → Outcome
try_read_irq_disabled lock =
    (fetch_add lock reader, if admits_reader lock then reading irq_guard else read_failed)

-- The `else` branch of both.
unfoldable pub undo_read : ℕ → Outcome
undo_read lock = (fetch_sub lock reader, idle)

-- `try_write`
unfoldable pub try_write : ℕ → Outcome
try_write lock = if lock == 0 then (writer, writing preempt_guard) else (lock, idle)

-- `try_write_irq_disabled`
unfoldable pub try_write_irq_disabled : ℕ → Outcome
try_write_irq_disabled lock = if lock == 0 then (writer, writing irq_guard) else (lock, idle)

-- The thread after the test of `try_upread`, by the old bits of the writer and the upreader.
abbrev pub upread_outcome : InnerGuard → ℕ → Thread
upread_outcome g old =
    if old == 0 then upreading g else if old == writer then upread_failed else idle

-- `try_upread`, up to the tests
unfoldable pub try_upread : ℕ → Outcome
try_upread lock = (
  bit_or lock upgradeable_reader,
  upread_outcome preempt_guard (bit_and lock (bit_or writer upgradeable_reader)),
)

-- `try_upread_irq_disabled`, up to the tests
unfoldable pub try_upread_irq_disabled : ℕ → Outcome
try_upread_irq_disabled lock = (
  bit_or lock upgradeable_reader,
  upread_outcome irq_guard (bit_and lock (bit_or writer upgradeable_reader)),
)

-- The `else if` branch of both.
unfoldable pub undo_upread : ℕ → Outcome
undo_upread lock = (fetch_sub lock upgradeable_reader, idle)

-- `<RwLockReadGuard as Drop>::drop`
unfoldable pub drop_read : ℕ → Outcome
drop_read lock = (fetch_sub lock reader, idle)

-- `<RwLockWriteGuard as Drop>::drop`
unfoldable pub drop_write : ℕ → Outcome
drop_write lock = (bit_and lock (not_u64 writer), idle)

-- `<RwLockUpgradeableGuard as Drop>::drop`, at the end of an upread
unfoldable pub drop_upread : ℕ → Outcome
drop_upread lock = (fetch_sub lock upgradeable_reader, idle)

-- The first line of `upgrade`.
unfoldable pub upgrade : InnerGuard → ℕ → Outcome
upgrade g lock = (bit_or lock being_upgraded, upgrading g)

-- `try_upgrade`, up to the `drop(self)` of its success; `self` is the thread if it fails.
unfoldable pub try_upgrade : InnerGuard → Thread → ℕ → Outcome
try_upgrade g self lock =
    if lock == bit_or upgradeable_reader being_upgraded
    then (bit_or writer upgradeable_reader, upgraded g)
    else (lock, self)

-- `drop(self)` in `try_upgrade`, which leaves the new write guard.
unfoldable pub finish_upgrade : InnerGuard → ℕ → Outcome
finish_upgrade g lock = (fetch_sub lock upgradeable_reader, writing g)
