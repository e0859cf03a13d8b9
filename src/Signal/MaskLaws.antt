-- ===== src/Signal/MaskLaws.antt =====
-- A signal mask is a set of signals: each operation of sig_mask.rs in terms of `contains`.

use jinux.Base.{ℕ, ◌^◌, ◌<◌, ◌≡◌, true, false, not, ◌&&◌, ◌||◌, ◌==◌, arith}
use jinux.Base.Bits.{
  bit, not_u64, bit-zero, bit-lt, bit-bit_and, bit-bit_or, bit-pow, bit-not_u64, bit_and-pow_test,
  bit_or-lt, bit_and-le, pow-lt_pow,
}
use jinux.Signal.{IsSigNum}
use jinux.Signal.Mask.{
  SigMask, num_to_idx, from_u64, from_sig_num, new_empty, new_full, block, unblock, contains,
  remove_signal, add_signal,
}

-- The bits fit a u64.
abbrev pub IsWord : SigMask → Type 0
IsWord m = m.bits < 2 ^ 64

-- `contains` reads the signal's bit.
pub contains-bit : (m : SigMask) (s : ℕ) → contains m s ≡ (bit (num_to_idx s) m.bits == 1)
unfolding contains
contains-bit m s = bit_and-pow_test (num_to_idx s) m.bits

module _ (m : SigMask) (t : ℕ) (word : IsWord m) (valid : IsSigNum t) where
  -- For a mask and a set that are words and a signal number: blocking the set adds exactly its
  -- signals, unblocking it takes exactly its signals away, and both results are words again.
  pub block-unblock :
      (sets : ℕ)
      → sets < 2 ^ 64
      → (contains (block m sets) t ≡ (contains m t || contains (from_u64 sets) t))
        × (contains (unblock m sets) t ≡ (contains m t && not (contains (from_u64 sets) t)))
        × IsWord (block m sets)
        × IsWord (unblock m sets)
  unfolding block unblock
  block-unblock sets h = (
    ground (
      arith,
      contains-bit (block m sets) t,
      contains-bit m t,
      contains-bit (from_u64 sets) t,
      bit-bit_or (num_to_idx t) m.bits sets,
      bit-lt (num_to_idx t) m.bits,
      bit-lt (num_to_idx t) sets,
    ),
    ground (
      arith,
      contains-bit (unblock m sets) t,
      contains-bit m t,
      contains-bit (from_u64 sets) t,
      bit-bit_and (num_to_idx t) m.bits (not_u64 sets),
      bit-not_u64 (num_to_idx t) sets h (omega (arith, valid.least, valid.most)),
      bit-lt (num_to_idx t) m.bits,
      bit-lt (num_to_idx t) sets,
    ),
    bit_or-lt 64 m.bits sets word h,
    omega (arith, bit_and-le m.bits (not_u64 sets)),
  )

  -- For a mask that is a word and signal numbers: adding and removing one signal changes the
  -- membership of that signal alone, and both results are words again.
  pub add_signal-remove_signal :
      (s : ℕ)
      → IsSigNum s
      → (contains (add_signal m s) t ≡ (s == t || contains m t))
        × (contains (remove_signal m s) t ≡ (not (s == t) && contains m t))
        × IsWord (add_signal m s)
        × IsWord (remove_signal m s)
  unfolding add_signal remove_signal
  add_signal-remove_signal s h = (
    ground (
      arith,
      contains-bit (add_signal m s) t,
      contains-bit m t,
      bit-bit_or (num_to_idx t) m.bits (2 ^ num_to_idx s),
      bit-pow (num_to_idx s) (num_to_idx t),
      bit-lt (num_to_idx t) m.bits,
      h.least,
      valid.least,
    ),
    ground (
      arith,
      contains-bit (remove_signal m s) t,
      contains-bit m t,
      bit-bit_and (num_to_idx t) m.bits (not_u64 (2 ^ num_to_idx s)),
      bit-not_u64 (num_to_idx t) (2 ^ num_to_idx s)
          (pow-lt_pow (num_to_idx s) 64 (omega (arith, h.least, h.most)))
          (omega (arith, valid.least, valid.most)),
      bit-pow (num_to_idx s) (num_to_idx t),
      bit-lt (num_to_idx t) m.bits,
      h.least,
      valid.least,
    ),
    bit_or-lt 64 m.bits (2 ^ num_to_idx s) word
        (pow-lt_pow (num_to_idx s) 64 (omega (arith, h.least, h.most))),
    omega (arith, bit_and-le m.bits (not_u64 (2 ^ num_to_idx s))),
  )

-- For signal numbers: the mask of one signal contains that signal alone, the empty mask none and
-- the full mask all.
pub from_sig_num-empty-full :
    (s t : ℕ)
    → IsSigNum s
    → IsSigNum t
    → (contains (from_sig_num s) t ≡ (s == t))
      × (contains new_empty t ≡ false)
      × (contains new_full t ≡ true)
unfolding from_sig_num new_empty new_full
from_sig_num-empty-full s t hs ht = (
  ground (
    arith,
    contains-bit (from_sig_num s) t,
    bit-pow (num_to_idx s) (num_to_idx t),
    hs.least,
    ht.least,
  ),
  ground (arith, contains-bit new_empty t, bit-zero (num_to_idx t)),
  ground (
    arith,
    contains-bit new_full t,
    bit-not_u64 (num_to_idx t) 0 (omega arith) (omega (arith, ht.least, ht.most)),
    bit-zero (num_to_idx t),
  ),
)
