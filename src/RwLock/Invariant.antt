-- ===== src/RwLock/Invariant.antt =====
-- What the word of rwlock.rs says of the threads, and who may hold the lock together.
use jinux.Base.{
  ℕ, zero, suc, ◌+◌, ◌^◌, ◌≤◌, ◌<◌, ◌≡◌, ◌⊎◌, inl, List, [], ◌∷◌, length, replicate, arith, refl,
}
use jinux.Base.Totals.{total, total-replicate, total-le}
use jinux.RwLock.{
  Thread, idle, read_failed, reading, writing, upread_failed, upreading, upgrading, upgraded,
}
use jinux.RwLock.System.{System, init}
use jinux.RwLock.Word.{word}

-- The thread has set the writer's bit.
abbrev pub in_writer : Thread → ℕ
in_writer (writing g) = 1
in_writer (upgraded g) = 1
in_writer _ = 0

-- The thread has set the upgradeable reader's bit.
abbrev pub in_upgradeable : Thread → ℕ
in_upgradeable upread_failed = 1
in_upgradeable (upreading g) = 1
in_upgradeable (upgrading g) = 1
in_upgradeable (upgraded g) = 1
in_upgradeable _ = 0

-- The thread has set the bit of an upgrade.
abbrev pub in_upgrade : Thread → ℕ
in_upgrade (upgrading g) = 1
in_upgrade _ = 0

-- The thread is in the count of readers.
abbrev pub in_count : Thread → ℕ
in_count read_failed = 1
in_count (reading g) = 1
in_count _ = 0

-- The thread may read the data under a read guard.
abbrev pub is_reading : Thread → ℕ
is_reading (reading g) = 1
is_reading _ = 0

-- The thread may read the data under an upgradeable guard.
abbrev pub is_upreading : Thread → ℕ
is_upreading (upreading g) = 1
is_upreading (upgrading g) = 1
is_upreading _ = 0

pub record Inv (s : System) : Type 0 where
  pub few : length s.threads < 2 ^ 60
  pub fields :
      s.lock
      ≡ word
          (total in_writer s.threads)
          (total in_upgradeable s.threads)
          (total in_upgrade s.threads)
          (total in_count s.threads)
  pub one_writer : total in_writer s.threads ≤ 1
  pub one_upgradeable : total in_upgradeable s.threads ≤ 1
  pub exclusive :
      (total in_writer s.threads ≡ 0)
      ⊎ (total is_reading s.threads + total is_upreading s.threads ≡ 0)

length-init : (n : ℕ) → length (replicate n idle) ≡ n
length-init zero = refl
length-init (suc n) = omega (arith, length-init n)

pub init-Inv : (n : ℕ) → n < 2 ^ 60 → Inv (init n)
init-Inv n small =
    let w = total-replicate in_writer n idle refl in
    let u = total-replicate in_upgradeable n idle refl in
    let b = total-replicate in_upgrade n idle refl in
    let r = total-replicate in_count n idle refl in
    record {
      few = omega (arith, length-init n);
      fields = omega (arith, w, u, b, r);
      one_writer = omega (arith, w);
      one_upgradeable = omega (arith, u);
      exclusive = inl w;
    }

in_count-le : (t : Thread) → in_count t ≤ 1
in_count-le t = ground arith

-- The count of readers does not reach its 60 bits.
pub count-lt : (ts : List Thread) → length ts < 2 ^ 60 → total in_count ts < 2 ^ 60
count-lt ts few = omega (arith, total-le in_count in_count-le ts)

pub upgrade-le : (ts : List Thread) → total in_upgrade ts ≤ total is_upreading ts
upgrade-le [] = omega arith
upgrade-le (t ∷ ts) = ground (arith, upgrade-le ts)

pub upreading-le : (ts : List Thread) → total is_upreading ts ≤ total in_upgradeable ts
upreading-le [] = omega arith
upreading-le (t ∷ ts) = ground (arith, upreading-le ts)

pub reading-le : (ts : List Thread) → total is_reading ts ≤ total in_count ts
reading-le [] = omega arith
reading-le (t ∷ ts) = ground (arith, reading-le ts)
