-- ===== src/Signal.antt =====
-- Signals: services/libs/aster-std/src/process/signal/, with the constants of constants.rs and the
-- signal numbers of sig_num.rs. A `SigNum` is the u8 that it wraps.
pub mod Mask
pub mod MaskLaws
pub mod Action
pub mod ActionLaws
pub mod Queues
pub mod Pending
pub mod Enqueue
pub mod Search
pub mod Order
pub mod Dequeue
mod Tests
use jinux.Base.{
  ℕ, ◌≤◌, Bool, ◌&&◌, not, Option, none, some, Result, ok, err, einval, leb, ltb, if◌then◌else◌,
  ◌||◌,
}

abbrev pub min_std_sig_num : ℕ
min_std_sig_num = 1

abbrev pub max_std_sig_num : ℕ
max_std_sig_num = 31

abbrev pub min_rt_sig_num : ℕ
min_rt_sig_num = 32

abbrev pub max_rt_sig_num : ℕ
max_rt_sig_num = 64

abbrev pub count_std_sigs : ℕ
count_std_sigs = 31

abbrev pub count_rt_sigs : ℕ
count_rt_sigs = 33

abbrev pub count_all_sigs : ℕ
count_all_sigs = 64

-- `SigNum::try_from`
unfoldable pub try_from : ℕ → Result ℕ
try_from sig_num =
    if not (leb min_std_sig_num sig_num && leb sig_num max_rt_sig_num)
    then err einval
    else ok sig_num

-- `SigNum::from_u8`; a panic is `none`.
unfoldable pub from_u8 : ℕ → Option ℕ
from_u8 sig_num =
    if ltb max_rt_sig_num sig_num || ltb sig_num min_std_sig_num then none else some sig_num

-- `SigNum::is_std`
abbrev pub is_std : ℕ → Bool
is_std sig_num = leb sig_num max_std_sig_num

-- `SigNum::is_real_time`
abbrev pub is_real_time : ℕ → Bool
is_real_time sig_num = leb min_rt_sig_num sig_num

-- The numbers that `try_from` and `from_u8` let through.
pub record IsSigNum (n : ℕ) : Type 0 where
  pub least : 1 ≤ n
  pub most : n ≤ 64
