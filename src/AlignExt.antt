-- ===== src/AlignExt.antt =====
-- Alignment of integers to a power of two: framework/libs/align_ext/src/lib.rs, at the type u64 (and
-- usize). A failed assertion and an addition that overflows are `none`.
pub mod Laws
mod Tests
use Prim.Native.Nat.{bit_and}
use jinux.Base.{
  ℕ, ◌+◌, ◌-◌, ◌^◌, Bool, ◌&&◌, Option, none, some, ◌==◌, ◌!=◌, leb, ltb, if◌then◌else◌,
}
use jinux.Base.Bits.{not_u64}

-- `AlignExt::is_power_of_two`
unfoldable pub is_power_of_two : ℕ → Bool
is_power_of_two n = n != 0 && bit_and n (n - 1) == 0

-- `checked_add` of u64
abbrev pub checked_add : ℕ → ℕ → Option ℕ
checked_add a b = if ltb (a + b) (2 ^ 64) then some (a + b) else none

-- `AlignExt::align_up`
unfoldable pub align_up : ℕ → ℕ → Option ℕ
unfolding is_power_of_two
align_up x align =
    if is_power_of_two align && leb 2 align
    then elim (checked_add x (align - 1)) [
      | none ↦ none
      | some sum ↦ some (bit_and sum (not_u64 (align - 1)))
    ]
    else none

-- `AlignExt::align_down`
unfoldable pub align_down : ℕ → ℕ → Option ℕ
unfolding is_power_of_two
align_down x align =
    if is_power_of_two align && leb 2 align then some (bit_and x (not_u64 (align - 1))) else none
