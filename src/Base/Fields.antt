-- ===== src/Base/Fields.antt =====
-- `&` and `|` with masks of one, two or three bits, as arithmetic.
use Prim.Native.Nat.{ℕ, zero, suc, ◌+◌, ◌-◌, ◌*◌, ◌/◌, ◌%◌, ◌^◌, ◌≤◌, ◌<◌, bit_and, bit_or}
use mathlib.Core.Path.{◌≡◌, ap, ◌∙◌}
use native.Mathlib.Nat.{pow-suc, one-le-pow, div-div-eq-div-mul}
use native.Mathlib.Omega.{arith}
use jinux.Base.Bits.{
  bit, bit_and-halves, bit_or-halves, bit_and-zero, bit_and-zero_left, bit_or-zero_left,
  bit_and-pow, not_u64,
}

pub bit-div : (k a : ℕ) → bit k a ≡ a / 2 ^ k % 2
bit-div zero a = omega arith
bit-div (suc k) a = bit-div k (a / 2) ∙ ap (λ (t : ℕ). t % 2) (two_steps k a)
  where
    two_steps : (k a : ℕ) → a / 2 / 2 ^ k ≡ a / 2 ^ suc k
    two_steps k a =
        div-div-eq-div-mul a 2 (2 ^ k) ∙ ap (λ (t : ℕ). a / t) (omega (arith, pow-suc 2 k))

pub bit_and-absorb : (a b : ℕ) → bit_and (bit_and a b) b ≡ bit_and a b
bit_and-absorb a b = go a a b (omega arith)
  where
    go : (n a b : ℕ) → a ≤ n → bit_and (bit_and a b) b ≡ bit_and a b
    go n zero b h =
        omega (arith, bit_and-zero_left b, ap (λ (t : ℕ). bit_and t b) (bit_and-zero_left b))
    go zero (suc a) b h = absurd (omega arith)
    go (suc n) (suc a) b h =
        let low = bit_and-halves (suc a) b in
        let half : bit_and (suc a) b / 2 ≡ bit_and (suc a / 2) (b / 2) = omega (arith, low) in
        omega (
          arith,
          low,
          bit_and-halves (bit_and (suc a) b) b,
          ap (λ (t : ℕ). bit_and t (b / 2)) half,
          go n (suc a / 2) (b / 2) (omega arith),
        )

-- Setting one bit.
pub bit_or-pow : (k a : ℕ) → bit_or a (2 ^ k) ≡ a + (1 - bit k a) * 2 ^ k
bit_or-pow zero a = omega (arith, bit_or-halves a 1, bit_or-zero_right (a / 2))
  where
    bit_or-zero_right : (a : ℕ) → bit_or a 0 ≡ a
    bit_or-zero_right a = go a a (omega arith)
      where
        go : (n a : ℕ) → a ≤ n → bit_or a 0 ≡ a
        go n zero h = bit_or-zero_left 0
        go zero (suc a) h = absurd (omega arith)
        go (suc n) (suc a) h =
            omega (arith, bit_or-halves (suc a) 0, go n (suc a / 2) (omega arith))
bit_or-pow (suc k) a = omega (
  arith,
  pow-suc 2 k,
  ap (λ (t : ℕ). (1 - bit k (a / 2)) * t) (pow-suc 2 k),
  bit_or-halves a (2 ^ suc k),
  ap (bit_or (a / 2)) (half_of_pow k),
  bit_or-pow k (a / 2),
)
  where
    half_of_pow : (k : ℕ) → 2 ^ suc k / 2 ≡ 2 ^ k
    half_of_pow k = omega (arith, pow-suc 2 k)

-- Masks of two and three bits, the lowest first.
pub bit_and-two :
    (j k a : ℕ) → j < k → bit_and a (2 ^ j + 2 ^ k) ≡ bit j a * 2 ^ j + bit k a * 2 ^ k
bit_and-two j zero a h = elim h [ ]
bit_and-two zero (suc k) a h = omega (
  arith,
  pow-suc 2 k,
  ap (λ (t : ℕ). bit k (a / 2) * t) (pow-suc 2 k),
  bit_and-halves a (1 + 2 ^ suc k),
  ap (bit_and (a / 2)) (half_of_mask k),
  bit_and-pow k (a / 2),
)
  where
    half_of_mask : (k : ℕ) → (1 + 2 ^ suc k) / 2 ≡ 2 ^ k
    half_of_mask k = omega (arith, pow-suc 2 k)
bit_and-two (suc j) (suc k) a h = omega (
  arith,
  pow-suc 2 k,
  pow-suc 2 j,
  ap (λ (t : ℕ). bit k (a / 2) * t) (pow-suc 2 k),
  ap (λ (t : ℕ). bit j (a / 2) * t) (pow-suc 2 j),
  bit_and-halves a (2 ^ suc j + 2 ^ suc k),
  ap (bit_and (a / 2)) (half_of_mask j k),
  bit_and-two j k (a / 2) (omega arith),
)
  where
    half_of_mask : (j k : ℕ) → (2 ^ suc j + 2 ^ suc k) / 2 ≡ 2 ^ j + 2 ^ k
    half_of_mask j k = omega (arith, pow-suc 2 k, pow-suc 2 j)

pub bit_and-three :
    (i j k a : ℕ)
    → i < j
    → j < k
    → bit_and a (2 ^ i + 2 ^ j + 2 ^ k) ≡ bit i a * 2 ^ i + bit j a * 2 ^ j + bit k a * 2 ^ k
bit_and-three i zero k a h l = elim h [ ]
bit_and-three i (suc j) zero a h l = elim l [ ]
bit_and-three zero (suc j) (suc k) a h l = omega (
  arith,
  pow-suc 2 k,
  pow-suc 2 j,
  ap (λ (t : ℕ). bit k (a / 2) * t) (pow-suc 2 k),
  ap (λ (t : ℕ). bit j (a / 2) * t) (pow-suc 2 j),
  bit_and-halves a (1 + 2 ^ suc j + 2 ^ suc k),
  ap (bit_and (a / 2)) (half_of_mask j k),
  bit_and-two j k (a / 2) (omega arith),
)
  where
    half_of_mask : (j k : ℕ) → (1 + 2 ^ suc j + 2 ^ suc k) / 2 ≡ 2 ^ j + 2 ^ k
    half_of_mask j k = omega (arith, pow-suc 2 k, pow-suc 2 j)
bit_and-three (suc i) (suc j) (suc k) a h l = omega (
  arith,
  pow-suc 2 k,
  pow-suc 2 j,
  pow-suc 2 i,
  ap (λ (t : ℕ). bit k (a / 2) * t) (pow-suc 2 k),
  ap (λ (t : ℕ). bit j (a / 2) * t) (pow-suc 2 j),
  ap (λ (t : ℕ). bit i (a / 2) * t) (pow-suc 2 i),
  bit_and-halves a (2 ^ suc i + 2 ^ suc j + 2 ^ suc k),
  ap (bit_and (a / 2)) (half_of_mask i j k),
  bit_and-three i j k (a / 2) (omega arith) (omega arith),
)
  where
    half_of_mask : (i j k : ℕ) → (2 ^ suc i + 2 ^ suc j + 2 ^ suc k) / 2 ≡ 2 ^ i + 2 ^ j + 2 ^ k
    half_of_mask i j k = omega (arith, pow-suc 2 k, pow-suc 2 j, pow-suc 2 i)

-- A mask of all `w` ones changes nothing.
bit_and-ones : (w a : ℕ) → a < 2 ^ w → bit_and a (2 ^ w - 1) ≡ a
bit_and-ones zero a h = omega (arith, bit_and-zero a)
bit_and-ones (suc w) a h = omega (
  arith,
  pow-suc 2 w,
  one-le-pow w 2,
  bit_and-halves a (2 ^ suc w - 1),
  ap (bit_and (a / 2)) (half_of_mask w),
  bit_and-ones w (a / 2) (omega (arith, pow-suc 2 w)),
)
  where
    half_of_mask : (w : ℕ) → (2 ^ suc w - 1) / 2 ≡ 2 ^ w - 1
    half_of_mask w = omega (arith, pow-suc 2 w, one-le-pow w 2)

-- Clearing the highest bit of a word.
bit_and-clear_top : (w a : ℕ) → a < 2 ^ suc w → bit_and a (2 ^ w - 1) + bit w a * 2 ^ w ≡ a
bit_and-clear_top zero a h = omega (arith, bit_and-zero a)
bit_and-clear_top (suc w) a h = omega (
  arith,
  pow-suc 2 w,
  pow-suc 2 (suc w),
  one-le-pow w 2,
  ap (λ (t : ℕ). bit w (a / 2) * t) (pow-suc 2 w),
  bit_and-halves a (2 ^ suc w - 1),
  ap (bit_and (a / 2)) (half_of_mask w),
  bit_and-clear_top w (a / 2) (omega (arith, pow-suc 2 (suc w))),
)
  where
    half_of_mask : (w : ℕ) → (2 ^ suc w - 1) / 2 ≡ 2 ^ w - 1
    half_of_mask w = omega (arith, pow-suc 2 w, one-le-pow w 2)

pub bit_and-clear_63 : (a : ℕ) → a < 2 ^ 64 → bit_and a (not_u64 (2 ^ 63)) + bit 63 a * 2 ^ 63 ≡ a
bit_and-clear_63 a h = bit_and-clear_top 63 a h
