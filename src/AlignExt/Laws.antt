-- ===== src/AlignExt/Laws.antt =====
-- The multiples of a power of two that `align_up` and `align_down` compute (align_ext/src/lib.rs).
use Prim.Native.Nat.{bit_and}
use native.Mathlib.Nat.{pow-suc, one-le-pow, div-div-eq-div-mul, div-add-mod', mod-lt}
use jinux.Base.{
  ℕ, zero, suc, ◌+◌, ◌-◌, ◌*◌, ◌/◌, ◌^◌, ◌≤◌, ◌<◌, ◌≡◌, refl, ap, ◌∙◌, ◌⊎◌, inl, inr, Bool-cases,
  ◌&&◌, leb, ltb, true, none, some, arith,
}
use jinux.Base.Bits.{not_u64, bit_and-halves, bit_and-zero}
use jinux.AlignExt.{is_power_of_two, align_up, align_down}

-- A word and all ones is the word.
bit_and-ones : (w a : ℕ) → a < 2 ^ w → bit_and a (2 ^ w - 1) ≡ a
bit_and-ones zero a h = omega (arith, bit_and-zero a)
bit_and-ones (suc w) a h =
    let half : (2 ^ suc w - 1) / 2 ≡ 2 ^ w - 1 = omega (arith, pow-suc 2 w, one-le-pow w 2) in
    omega (
      arith,
      pow-suc 2 w,
      one-le-pow w 2,
      bit_and-halves a (2 ^ suc w - 1),
      ap (bit_and (a / 2)) half,
      bit_and-ones w (a / 2) (omega (arith, pow-suc 2 w)),
    )

div-pow_suc : (k a : ℕ) → a / 2 / 2 ^ k ≡ a / 2 ^ suc k
div-pow_suc k a =
    div-div-eq-div-mul a 2 (2 ^ k) ∙ ap (λ (t : ℕ). a / t) (omega (arith, pow-suc 2 k))

-- Clearing the `k` low bits of a word of `w` bits rounds down to a multiple of `2 ^ k`.
bit_and-clear_low : (k w a : ℕ) → k ≤ w → a < 2 ^ w → bit_and a (2 ^ w - 2 ^ k) ≡ a / 2 ^ k * 2 ^ k
bit_and-clear_low zero w a le h = omega (arith, bit_and-ones w a h)
bit_and-clear_low (suc k) zero a le h = absurd (omega arith)
bit_and-clear_low (suc k) (suc w) a le h =
    let half : (2 ^ suc w - 2 ^ suc k) / 2 ≡ 2 ^ w - 2 ^ k =
      omega (arith, pow-suc 2 w, pow-suc 2 k) in
    omega (
      arith,
      pow-suc 2 w,
      pow-suc 2 k,
      bit_and-halves a (2 ^ suc w - 2 ^ suc k),
      ap (bit_and (a / 2)) half,
      bit_and-clear_low k w (a / 2) (omega arith) (omega (arith, pow-suc 2 w)),
      ap (λ (t : ℕ). t * 2 ^ k) (div-pow_suc k a),
      ap (λ (t : ℕ). a / 2 ^ suc k * t) (pow-suc 2 k),
    )

bit_and-pow_pred : (k : ℕ) → bit_and (2 ^ k) (2 ^ k - 1) ≡ 0
bit_and-pow_pred zero = bit_and-zero 1
bit_and-pow_pred (suc k) =
    let half : (2 ^ suc k - 1) / 2 ≡ 2 ^ k - 1 = omega (arith, pow-suc 2 k, one-le-pow k 2) in
    let half_pow : 2 ^ suc k / 2 ≡ 2 ^ k = omega (arith, pow-suc 2 k) in
    omega (
      arith,
      pow-suc 2 k,
      one-le-pow k 2,
      bit_and-halves (2 ^ suc k) (2 ^ suc k - 1),
      ap (bit_and (2 ^ suc k / 2)) half,
      ap (λ (t : ℕ). bit_and t (2 ^ k - 1)) half_pow,
      bit_and-pow_pred k,
    )

-- `!(align - 1)` clears the low bits.
bit_and-not_u64 :
    (k x : ℕ) → k < 64 → x < 2 ^ 64 → bit_and x (not_u64 (2 ^ k - 1)) ≡ x / 2 ^ k * 2 ^ k
bit_and-not_u64 k x lt h =
    ap (bit_and x) (omega (arith, one-le-pow k 2)) ∙ bit_and-clear_low k 64 x (omega arith) h

is_power_of_two-pow : (k : ℕ) → 1 ≤ k → (is_power_of_two (2 ^ k) && leb 2 (2 ^ k)) ≡ true
unfolding is_power_of_two
is_power_of_two-pow zero h = absurd (omega arith)
is_power_of_two-pow (suc k) h =
    ground (arith, bit_and-pow_pred (suc k), pow-suc 2 k, one-le-pow k 2)

-- The greatest multiple of `align` that is at most `x`.
pub record IsRoundedDown (x align r : ℕ) : Type 0 where
  pub multiple : (q : ℕ) × (r ≡ q * align)
  pub at_most : r ≤ x
  pub close : x < r + align

-- The least multiple of `align` that is at least `x`.
pub record IsRoundedUp (x align r : ℕ) : Type 0 where
  pub multiple : (q : ℕ) × (r ≡ q * align)
  pub at_least : x ≤ r
  pub close : r < x + align

div-IsRoundedDown : (k x : ℕ) → IsRoundedDown x (2 ^ k) (x / 2 ^ k * 2 ^ k)
div-IsRoundedDown k x = record {
  multiple = (x / 2 ^ k, refl);
  at_most = omega (arith, div-add-mod' x (2 ^ k));
  close = omega (
    arith,
    div-add-mod' x (2 ^ k),
    mod-lt x {m = 2 ^ k} (omega (arith, one-le-pow k 2)),
    one-le-pow k 2,
  );
}

-- `align_down` of a u64 to a power of two from 2 on does not panic and is the greatest multiple of it
-- that is at most the number.
pub align_down_lem :
    (k x : ℕ)
    → 1 ≤ k
    → k < 64
    → x < 2 ^ 64
    → (r : ℕ) × (align_down x (2 ^ k) ≡ some r) × IsRoundedDown x (2 ^ k) r
unfolding align_down
align_down_lem k x pos lt h = (
  x / 2 ^ k * 2 ^ k,
  ground (arith, is_power_of_two-pow k pos, bit_and-not_u64 k x lt h),
  div-IsRoundedDown k x,
)

-- `align_up` of a u64 to a power of two from 2 on panics exactly when adding the power less one
-- overflows a u64, and otherwise is the least multiple of the power that is at least the number.
pub align_up_lem :
    (k x : ℕ)
    → 1 ≤ k
    → k < 64
    → ((2 ^ 64 ≤ x + (2 ^ k - 1)) × (align_up x (2 ^ k) ≡ none))
      ⊎ ((r : ℕ) × (align_up x (2 ^ k) ≡ some r) × IsRoundedUp x (2 ^ k) r)
unfolding align_up
align_up_lem k x pos lt = elim (Bool-cases (ltb (x + (2 ^ k - 1)) (2 ^ 64))) [
  | inl fits ↦
      let sum = x + (2 ^ k - 1) in
      let p = div-IsRoundedDown k sum in
      inr (
        sum / 2 ^ k * 2 ^ k,
        ground (arith, is_power_of_two-pow k pos, fits, bit_and-not_u64 k sum lt (ground arith)),
        record {
          multiple = p.multiple;
          at_least = omega (arith, p.close, one-le-pow k 2);
          close = omega (arith, p.at_most, one-le-pow k 2);
        },
      )
  | inr over ↦ inl (ground arith, ground (arith, is_power_of_two-pow k pos, over))
]
