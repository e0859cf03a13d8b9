-- ===== src/Futex/Ops.antt =====
-- The decoding of the futex operation word (futex.rs).
use Prim.Native.Nat.{bit_and, bit_or}
use jinux.Base.{ℕ, ◌+◌, ◌≡◌, refl, Bool, true, Result, ok, err, einval, ◌==◌, if◌then◌else◌, arith}

-- `FutexOp`
pub data FutexOp : Type 0 where
  wait wake fd requeue cmp_requeue wake_op lock_pi unlock_pi trylock_pi wait_bitset wake_bitset :
      FutexOp

-- The discriminants.
abbrev pub code : FutexOp → ℕ
code wait = 0
code wake = 1
code fd = 2
code requeue = 3
code cmp_requeue = 4
code wake_op = 5
code lock_pi = 6
code unlock_pi = 7
code trylock_pi = 8
code wait_bitset = 9
code wake_bitset = 10

-- `FutexOp::from_u32`
unfoldable pub from_u32 : ℕ → Result FutexOp
from_u32 bits =
    if bits == 0
    then ok wait
    else if bits == 1
    then ok wake
    else if bits == 2
    then ok fd
    else if bits == 3
    then ok requeue
    else if bits == 4
    then ok cmp_requeue
    else if bits == 5
    then ok wake_op
    else if bits == 6
    then ok lock_pi
    else if bits == 7
    then ok unlock_pi
    else if bits == 8
    then ok trylock_pi
    else if bits == 9
    then ok wait_bitset
    else if bits == 10
    then ok wake_bitset
    else err einval

-- FUTEX_PRIVATE and FUTEX_CLOCK_REALTIME
abbrev pub private_flag : ℕ
private_flag = 128

abbrev pub clock_realtime : ℕ
clock_realtime = 256

-- `FutexFlags::from_u32`
unfoldable pub flags_from_u32 : ℕ → Result ℕ
flags_from_u32 bits =
    if bit_and bits (bit_or private_flag clock_realtime) == bits then ok bits else err einval

-- `futex_op_and_flags_from_u32`
unfoldable pub futex_op_and_flags_from_u32 : ℕ → Result (FutexOp × ℕ)
unfolding from_u32 flags_from_u32
futex_op_and_flags_from_u32 bits = elim (from_u32 (bit_and bits 0x0000_000F)) [
  | err e ↦ err e
  | ok op ↦ elim (flags_from_u32 (bit_and bits 0xFFFF_FFF0)) [
    | err e ↦ err e
    | ok flags ↦ ok (op, flags)
  ]
]

abbrev pub flag_bits : Bool → Bool → ℕ
flag_bits p r = (if p then private_flag else 0) + (if r then clock_realtime else 0)

-- Every operation with any of the two flags is decoded to that operation and those flags.
pub futex_op_and_flags_from_u32_lem :
    (op : FutexOp) (p r : Bool)
    → futex_op_and_flags_from_u32 (code op + flag_bits p r) ≡ ok (op, flag_bits p r)
unfolding futex_op_and_flags_from_u32
futex_op_and_flags_from_u32_lem wait true true = refl
futex_op_and_flags_from_u32_lem op p r = ground arith
