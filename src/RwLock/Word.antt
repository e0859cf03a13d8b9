-- ===== src/RwLock/Word.antt =====
-- The word of rwlock.rs as its fields: writer, upgradeable reader, being upgraded, and the count.
use Prim.Native.Nat.{bit_and, bit_or}
use jinux.Base.{ℕ, ◌+◌, ◌*◌, ◌^◌, ◌≤◌, ◌<◌, ◌≡◌, ◌==◌, arith, ◌&&◌, ◌∙◌}
use jinux.Base.Bits.{bit, not_u64}
use jinux.Base.Fields.{bit-div, bit_or-pow, bit_and-two, bit_and-three, bit_and-clear_63}
use jinux.RwLock.{writer, upgradeable_reader, being_upgraded, admits_reader}

abbrev pub word : ℕ → ℕ → ℕ → ℕ → ℕ
word w u b r = w * 2 ^ 63 + u * 2 ^ 62 + b * 2 ^ 61 + r

module _ (w u b r : ℕ) (hw : w ≤ 1) (hu : u ≤ 1) (hb : b ≤ 1) (hr : r < 2 ^ 60) where
  pub bit_63 : bit 63 (word w u b r) ≡ w
  bit_63 = bit-div 63 (word w u b r) ∙ omega arith

  pub bit_62 : bit 62 (word w u b r) ≡ u
  bit_62 = bit-div 62 (word w u b r) ∙ omega arith

  pub bit_61 : bit 61 (word w u b r) ≡ b
  bit_61 = bit-div 61 (word w u b r) ∙ omega arith

  pub bit_60 : bit 60 (word w u b r) ≡ 0
  bit_60 = bit-div 60 (word w u b r) ∙ omega arith

  -- A reader is admitted exactly when there is no writer and no upgrade.
  pub admits_reader-word : admits_reader (word w u b r) ≡ (w == 0 && b == 0)
  admits_reader-word = ground (
    arith,
    bit_and-three 60 61 63 (word w u b r) (omega arith) (omega arith),
    bit_63,
    bit_61,
    bit_60,
  )

  pub old_bits-word :
      bit_and (word w u b r) (bit_or writer upgradeable_reader) ≡ w * 2 ^ 63 + u * 2 ^ 62
  old_bits-word = omega (arith, bit_and-two 62 63 (word w u b r) (omega arith), bit_63, bit_62)

  pub set_upgradeable-word : bit_or (word w u b r) upgradeable_reader ≡ word w 1 b r
  set_upgradeable-word = omega (arith, bit_or-pow 62 (word w u b r), bit_62)

  pub set_being_upgraded-word : bit_or (word w u b r) being_upgraded ≡ word w u 1 r
  set_being_upgraded-word = omega (arith, bit_or-pow 61 (word w u b r), bit_61)

  pub clear_writer-word : bit_and (word w u b r) (not_u64 writer) ≡ word 0 u b r
  clear_writer-word = omega (arith, bit_and-clear_63 (word w u b r) (omega arith), bit_63)
