-- ===== src/Base/Bits.antt =====
-- `&`, `|`, `!` and `1 << k` of machine words, bit by bit.
use Prim.Native.Nat.{
  ℕ, zero, suc, ◌+◌, ◌-◌, ◌*◌, ◌/◌, ◌%◌, ◌^◌, ◌≤◌, ◌<◌, min, max, bit_and, bit_or, digits,
  bit_and-bitwise, bit_or-bitwise,
}
use mathlib.Core.Path.{◌≡◌, refl, ap, ◌∙◌}
use mathlib.Core.Logic.{◌⊎◌, inl, inr}
use native.Mathlib.Nat.{pow-suc, one-le-pow}
use native.Mathlib.Omega.{arith}
use jinux.Base.Tests.{◌==◌, ◌!=◌, if◌then◌else◌}

-- Bit `k` of a number, as 0 or 1.
abbrev pub bit : ℕ → ℕ → ℕ
bit zero a = a % 2
bit (suc k) a = bit k (a / 2)

-- `!a` on u64
abbrev pub not_u64 : ℕ → ℕ
not_u64 a = 2 ^ 64 - 1 - a

abbrev and_on : ℕ → ℕ → ℕ → ℕ
and_on fuel a b = digits (λ b. zero) min fuel a b

abbrev or_on : ℕ → ℕ → ℕ → ℕ
or_on fuel a b = digits (λ b. b) max fuel a b

-- Any fuel from the first operand on gives the same digits.
and_on-enough : (n m a b : ℕ) → a ≤ n → a ≤ m → and_on n a b ≡ and_on m a b
and_on-enough zero zero a b p q = refl
and_on-enough zero (suc m) zero b p q = refl
and_on-enough zero (suc m) (suc a) b p q = absurd (omega arith)
and_on-enough (suc n) zero zero b p q = refl
and_on-enough (suc n) zero (suc a) b p q = absurd (omega arith)
and_on-enough (suc n) (suc m) zero b p q = refl
and_on-enough (suc n) (suc m) (suc a) b p q =
    omega (arith, and_on-enough n m (suc a / 2) (b / 2) (omega arith) (omega arith))

or_on-enough : (n m a b : ℕ) → a ≤ n → a ≤ m → or_on n a b ≡ or_on m a b
or_on-enough zero zero zero b p q = refl
or_on-enough zero zero (suc a) b p q = absurd (omega arith)
or_on-enough zero (suc m) zero b p q = refl
or_on-enough zero (suc m) (suc a) b p q = absurd (omega arith)
or_on-enough (suc n) zero zero b p q = refl
or_on-enough (suc n) zero (suc a) b p q = absurd (omega arith)
or_on-enough (suc n) (suc m) zero b p q = refl
or_on-enough (suc n) (suc m) (suc a) b p q =
    omega (arith, or_on-enough n m (suc a / 2) (b / 2) (omega arith) (omega arith))

pub bit_and-zero_left : (b : ℕ) → bit_and 0 b ≡ 0
bit_and-zero_left b = bit_and-bitwise 0 b

pub bit_or-zero_left : (b : ℕ) → bit_or 0 b ≡ b
bit_or-zero_left b = bit_or-bitwise 0 b

pub bit_and-halves : (a b : ℕ) → bit_and a b ≡ bit_and (a / 2) (b / 2) * 2 + min (a % 2) (b % 2)
bit_and-halves zero b = omega (arith, bit_and-zero_left b, bit_and-zero_left (b / 2))
bit_and-halves (suc a) b = omega (
  arith,
  bit_and-bitwise (suc a) b,
  bit_and-bitwise (suc a / 2) (b / 2),
  and_on-enough a (suc a / 2) (suc a / 2) (b / 2) (omega arith) (omega arith),
)

pub bit_or-halves : (a b : ℕ) → bit_or a b ≡ bit_or (a / 2) (b / 2) * 2 + max (a % 2) (b % 2)
bit_or-halves zero b = omega (arith, bit_or-zero_left b, bit_or-zero_left (b / 2))
bit_or-halves (suc a) b = omega (
  arith,
  bit_or-bitwise (suc a) b,
  bit_or-bitwise (suc a / 2) (b / 2),
  or_on-enough a (suc a / 2) (suc a / 2) (b / 2) (omega arith) (omega arith),
)

pub bit-lt : (k a : ℕ) → bit k a ≤ 1
bit-lt zero a = omega arith
bit-lt (suc k) a = bit-lt k (a / 2)

pub bit-bit_and : (k a b : ℕ) → bit k (bit_and a b) ≡ min (bit k a) (bit k b)
bit-bit_and zero a b = omega (arith, bit_and-halves a b)
bit-bit_and (suc k) a b =
    ap (bit k) (omega (arith, bit_and-halves a b)) ∙ bit-bit_and k (a / 2) (b / 2)

pub bit-bit_or : (k a b : ℕ) → bit k (bit_or a b) ≡ max (bit k a) (bit k b)
bit-bit_or zero a b = omega (arith, bit_or-halves a b)
bit-bit_or (suc k) a b =
    ap (bit k) (omega (arith, bit_or-halves a b)) ∙ bit-bit_or k (a / 2) (b / 2)

pub bit-zero : (k : ℕ) → bit k 0 ≡ 0
bit-zero zero = refl
bit-zero (suc k) = bit-zero k

-- `1 << j` has bit `j` alone.
pub bit-pow : (j k : ℕ) → bit k (2 ^ j) ≡ (if j == k then 1 else 0)
bit-pow zero zero = refl
bit-pow zero (suc k) = ground (arith, bit-zero k)
bit-pow (suc j) zero = ground (arith, pow-suc 2 j)
bit-pow (suc j) (suc k) = ap (bit k) (omega (arith, pow-suc 2 j)) ∙ bit-pow j k ∙ ground arith

-- A word with no bits is 0.
bits_zero : (w a : ℕ) → a < 2 ^ w → ((k : ℕ) → k < w → bit k a ≡ 0) → a ≡ 0
bits_zero zero a h all = omega arith
bits_zero (suc w) a h all = omega (
  arith,
  pow-suc 2 w,
  all 0 (omega arith),
  bits_zero w (a / 2) (omega (arith, pow-suc 2 w)) (λ k lt. all (suc k) (omega arith)),
)

bit-complement : (w k a : ℕ) → a < 2 ^ w → k < w → bit k (2 ^ w - 1 - a) ≡ 1 - bit k a
bit-complement zero k a h lt = elim lt [ ]
bit-complement (suc w) zero a h lt = omega (arith, pow-suc 2 w)
bit-complement (suc w) (suc k) a h lt =
    ap (bit k) (omega (arith, pow-suc 2 w))
    ∙ bit-complement w k (a / 2) (omega (arith, pow-suc 2 w)) (omega arith)

pub bit-not_u64 : (k a : ℕ) → a < 2 ^ 64 → k < 64 → bit k (not_u64 a) ≡ 1 - bit k a
bit-not_u64 k a h lt = bit-complement 64 k a h lt

bit_and-le_fuel : (n a b : ℕ) → a ≤ n → bit_and a b ≤ a
bit_and-le_fuel n zero b h = omega (arith, bit_and-zero_left b)
bit_and-le_fuel zero (suc a) b h = absurd (omega arith)
bit_and-le_fuel (suc n) (suc a) b h =
    omega (arith, bit_and-halves (suc a) b, bit_and-le_fuel n (suc a / 2) (b / 2) (omega arith))

pub bit_and-le : (a b : ℕ) → bit_and a b ≤ a
bit_and-le a b = bit_and-le_fuel a a b (omega arith)

pub bit_and-zero : (a : ℕ) → bit_and a 0 ≡ 0
bit_and-zero a = omega (arith, bit_and-zero_fuel a a (omega arith))
  where
    bit_and-zero_fuel : (n a : ℕ) → a ≤ n → bit_and a 0 ≡ 0
    bit_and-zero_fuel n zero h = bit_and-zero_left 0
    bit_and-zero_fuel zero (suc a) h = absurd (omega arith)
    bit_and-zero_fuel (suc n) (suc a) h =
        omega (arith, bit_and-halves (suc a) 0, bit_and-zero_fuel n (suc a / 2) (omega arith))

pub bit_or-lt : (w a b : ℕ) → a < 2 ^ w → b < 2 ^ w → bit_or a b < 2 ^ w
bit_or-lt zero zero b h k = omega (arith, bit_or-zero_left b)
bit_or-lt zero (suc a) b h k = absurd (omega arith)
bit_or-lt (suc w) a b h k = omega (
  arith,
  pow-suc 2 w,
  bit_or-halves a b,
  bit_or-lt w (a / 2) (b / 2) (omega (arith, pow-suc 2 w)) (omega (arith, pow-suc 2 w)),
)

pub pow-lt_pow : (j k : ℕ) → j < k → 2 ^ j < 2 ^ k
pow-lt_pow j zero h = elim h [ ]
pow-lt_pow zero (suc k) h = omega (arith, pow-suc 2 k, one-le-pow k 2)
pow-lt_pow (suc j) (suc k) h = omega (arith, pow-suc 2 k, pow-suc 2 j, pow-lt_pow j k (omega arith))

-- `a & (1 << k)` is not 0 exactly when bit `k` is set.
pub bit_and-pow : (k a : ℕ) → bit_and a (2 ^ k) ≡ bit k a * 2 ^ k
bit_and-pow zero a = omega (arith, bit_and-halves a 1, bit_and-zero (a / 2))
bit_and-pow (suc k) a = omega (
  arith,
  pow-suc 2 k,
  ap (λ (t : ℕ). bit k (a / 2) * t) (pow-suc 2 k),
  bit_and-halves a (2 ^ suc k),
  ap (bit_and (a / 2)) (half_of_pow k),
  bit_and-pow k (a / 2),
)
  where
    half_of_pow : (k : ℕ) → 2 ^ suc k / 2 ≡ 2 ^ k
    half_of_pow k = omega (arith, pow-suc 2 k)

pub bit_and-pow_test : (k a : ℕ) → (bit_and a (2 ^ k) != 0) ≡ (bit k a == 1)
bit_and-pow_test k a = elim (bit_cases (bit k a) (bit-lt k a)) [
  | inl z ↦ ground (arith, bit_and-pow k a, ap (λ (t : ℕ). t * 2 ^ k) z)
  | inr o ↦ ground (arith, bit_and-pow k a, ap (λ (t : ℕ). t * 2 ^ k) o, one-le-pow k 2)
]
  where
    bit_cases : (n : ℕ) → n ≤ 1 → (n ≡ 0) ⊎ (n ≡ 1)
    bit_cases n h = omega arith
