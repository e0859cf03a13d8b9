-- ===== src/Signal/Action.antt =====
-- Signal actions and dispositions: sig_action.rs, sig_disposition.rs, and the c type they come from.
use Prim.Native.Nat.{bit_and, bit_or}
use jinux.Base.{
  ℕ, zero, suc, ◌+◌, ◌-◌, ◌^◌, Bool, true, false, ◌||◌, Option, none, some, List, [], ◌∷◌, map,
  Result, ok, err, einval, ◌==◌, ◌!=◌, if◌then◌else◌, get_elem?, set, replicate,
}
use jinux.Signal.{min_std_sig_num, count_all_sigs}
use jinux.Signal.Mask.{SigMask, from_u64}

-- The bits of `SigActionFlags`, from SA_NOCLDSTOP to SA_RESTORER.
abbrev pub sa_nocldstop : ℕ
sa_nocldstop = 1

abbrev pub sa_nocldwait : ℕ
sa_nocldwait = 2

abbrev pub sa_restart : ℕ
sa_restart = 0x1000_0000

abbrev pub sa_nodefer : ℕ
sa_nodefer = 0x4000_0000

abbrev pub sa_resethand : ℕ
sa_resethand = 0x8000_0000

-- The union of all flags: the three above, SA_SIGINFO, SA_ONSTACK, SA_RESTART, SA_NODEFER and
-- SA_RESTORER.
abbrev pub all_flags : ℕ
all_flags = 0xDC00_0007

-- `sigaction_t`
pub record CSigAction : Type 0 where
  pub handler_ptr : ℕ
  pub flags : ℕ
  pub restorer_ptr : ℕ
  pub mask : ℕ

-- `SigAction`
pub data SigAction : Type 0 where
  dfl : SigAction
  ign : SigAction
  user : (handler_addr flags restorer_addr : ℕ) → SigMask → SigAction

-- `SigAction::try_from(sigaction_t)`; `from_bits_truncate` keeps the known flags.
unfoldable pub try_from : CSigAction → Result SigAction
try_from input =
    if input.handler_ptr == 0
    then ok dfl
    else if input.handler_ptr == 1
    then ok ign
    else ok (
        user input.handler_ptr (bit_and input.flags all_flags) input.restorer_ptr
          (from_u64 input.mask))

-- `SigAction::as_c_type`
unfoldable pub as_c_type : SigAction → CSigAction
as_c_type dfl = record { handler_ptr = 0; flags = 0; restorer_ptr = 0; mask = 0 }
as_c_type ign = record { handler_ptr = 1; flags = 0; restorer_ptr = 0; mask = 0 }
as_c_type (user handler_addr flags restorer_addr mask) = record {
  handler_ptr = handler_addr;
  flags = flags;
  restorer_ptr = restorer_addr;
  mask = mask.bits;
}

-- `SigActionFlags::try_from(u32)`, over `from_bits`: none if a bit is not a flag's.
unfoldable pub flags_try_from : ℕ → Result ℕ
flags_try_from bits = if bit_and bits all_flags == bits then ok bits else err einval

-- `SigActionFlags::contains_unsupported_flag`
unfoldable pub contains_unsupported_flag : ℕ → Bool
contains_unsupported_flag flags =
    bit_and flags (bit_or (bit_or sa_nocldstop sa_nocldwait) sa_resethand) != 0

pub data SigDefaultAction : Type 0 where
  term ignore core stop cont : SigDefaultAction

abbrev one_of : ℕ → List ℕ → Bool
one_of n [] = false
one_of n (m ∷ ms) = n == m || one_of n ms

-- `SigDefaultAction::from_signum`
unfoldable pub from_signum : ℕ → SigDefaultAction
from_signum num =
    if one_of num (6 ∷ 7 ∷ 8 ∷ 4 ∷ 3 ∷ 11 ∷ 31 ∷ 5 ∷ 24 ∷ 25 ∷ [])
    then core
    else if one_of num (17 ∷ 23 ∷ 28 ∷ [])
    then ignore
    else if num == 18
    then cont
    else if one_of num (19 ∷ 20 ∷ 21 ∷ 22 ∷ [])
    then stop
    else term

-- `SigDispositions`
pub record SigDispositions : Type 0 where
  pub map : List SigAction

-- `SigDispositions::new`
unfoldable pub new : SigDispositions
new = record { map = replicate count_all_sigs dfl }

-- `SigDispositions::num_to_idx`
abbrev pub num_to_idx : ℕ → ℕ
num_to_idx num = num - min_std_sig_num

-- `SigDispositions::get`; an index out of bounds, which panics, is `none`.
unfoldable pub get : SigDispositions → ℕ → Option SigAction
get d num = get_elem? d.map (num_to_idx num)

-- `SigDispositions::set`, within the bounds that `get` has.
unfoldable pub set_action : SigDispositions → ℕ → SigAction → SigDispositions
set_action d num sa = record { map = set d.map (num_to_idx num) sa }

-- `SigDispositions::set_default`
unfoldable pub set_default : SigDispositions → ℕ → SigDispositions
set_default d num = record { map = set d.map (num_to_idx num) dfl }

-- The body of the loop of `SigDispositions::inherit`.
abbrev pub reset_user : SigAction → SigAction
reset_user (user handler_addr flags restorer_addr mask) = dfl
reset_user dfl = dfl
reset_user ign = ign

-- `SigDispositions::inherit`
unfoldable pub inherit : SigDispositions → SigDispositions
inherit d = record { map = jinux.Base.map reset_user d.map }
