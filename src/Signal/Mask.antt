-- ===== src/Signal/Mask.antt =====
-- The signal mask of sig_mask.rs: one bit of a u64 for each signal.
use Prim.Native.Nat.{bit_and, bit_or}
use jinux.Base.{ℕ, ◌-◌, ◌^◌, Bool, ◌==◌, ◌!=◌}
use jinux.Base.Bits.{not_u64}
use jinux.Signal.{min_std_sig_num}

-- `SigMask`
pub record SigMask : Type 0 where
  pub bits : ℕ

-- `SigMask::num_to_idx`
abbrev pub num_to_idx : ℕ → ℕ
num_to_idx num = num - min_std_sig_num

-- `SigMask::from(u64)`
abbrev pub from_u64 : ℕ → SigMask
from_u64 bits = record { bits = bits }

-- `SigMask::from(SigNum)`
unfoldable pub from_sig_num : ℕ → SigMask
from_sig_num sig_num = record { bits = 2 ^ num_to_idx sig_num }

-- `SigMask::new_empty`
unfoldable pub new_empty : SigMask
new_empty = from_u64 0

-- `SigMask::new_full`
unfoldable pub new_full : SigMask
new_full = from_u64 (not_u64 0)

-- `SigMask::empty`
unfoldable pub empty : SigMask → Bool
empty m = m.bits == 0

-- `SigMask::full`
unfoldable pub full : SigMask → Bool
full m = m.bits == not_u64 0

-- `SigMask::block`
unfoldable pub block : SigMask → ℕ → SigMask
block m block_sets = record { bits = bit_or m.bits block_sets }

-- `SigMask::unblock`
unfoldable pub unblock : SigMask → ℕ → SigMask
unblock m unblock_sets = record { bits = bit_and m.bits (not_u64 unblock_sets) }

-- `SigMask::set`
unfoldable pub set : SigMask → ℕ → SigMask
set m new_set = record { bits = new_set }

-- `SigMask::contains`
unfoldable pub contains : SigMask → ℕ → Bool
contains m signum = bit_and m.bits (2 ^ num_to_idx signum) != 0

-- `SigMask::remove_signal`
unfoldable pub remove_signal : SigMask → ℕ → SigMask
remove_signal m signum = record { bits = bit_and m.bits (not_u64 (2 ^ num_to_idx signum)) }

-- `SigMask::add_signal`
unfoldable pub add_signal : SigMask → ℕ → SigMask
add_signal m signum = record { bits = bit_or m.bits (2 ^ num_to_idx signum) }
