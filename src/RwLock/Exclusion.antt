-- ===== src/RwLock/Exclusion.antt =====
-- What rwlock.rs guarantees in every state that fewer than 2 ^ 60 threads can reach.
use jinux.Base.{
  ℕ, ◌+◌, ◌^◌, ◌≤◌, ◌<◌, ◌≡◌, ◌≢◌, Bool, true, false, List, [], ◌∷◌, get_elem?, some, arith, refl,
  ap, ◌∙◌, suc,
}
use jinux.Base.Totals.{total, le-total, add-le-total}
use jinux.RwLock.{
  Thread, idle, read_failed, writing, upread_failed, upreading, upgrading, upgraded, InnerGuard,
  preempt_guard, try_write, try_upgrade, writer,
}
use jinux.RwLock.System.{System, Reach, start, later}
use jinux.RwLock.Invariant.{
  in_writer, in_upgradeable, in_upgrade, in_count, is_reading, is_upreading, Inv, init-Inv,
  count-lt, upgrade-le, upreading-le,
}
use jinux.RwLock.Moves.{Step-Inv}

-- The thread holds a guard through which it can reach the data.
abbrev pub has_access : Thread → Bool
has_access idle = false
has_access read_failed = false
has_access upread_failed = false
has_access _ = true

-- In every state that fewer than 2 ^ 60 threads can reach, the lock word is the sum of the fields
-- that the threads account for, and the threads exclude each other as `Inv` says.
pub Reach-Inv : {n : ℕ} {s : System} → n < 2 ^ 60 → Reach n s → Inv s
Reach-Inv {n} small start = init-Inv n small
Reach-Inv small (later r st) = Step-Inv st (Reach-Inv small r)

-- In every state that fewer than 2 ^ 60 threads can reach: while one thread holds the write
-- guard, no other thread has access to the data.
pub writer_excludes :
    {n : ℕ} {s : System}
    → n < 2 ^ 60
    → Reach n s
    → (i j : ℕ) (g : InnerGuard) (t : Thread) → i ≢ j
    → get_elem? s.threads i ≡ some (writing g)
    → get_elem? s.threads j ≡ some t
    → has_access t ≡ false
writer_excludes {s} small r i j g t ne at_i at_j =
    let v = Reach-Inv small r in
    ground (
      arith,
      v.one_writer,
      v.exclusive,
      le-total in_writer s.threads i (writing g) at_i,
      add-le-total in_writer s.threads i j (writing g) t ne at_i at_j,
      le-total is_reading s.threads j t at_j,
      le-total is_upreading s.threads j t at_j,
    )

-- In every state that fewer than 2 ^ 60 threads can reach: no two threads hold an upgradeable
-- guard together, upgrading or not.
pub one_upreader :
    {n : ℕ} {s : System}
    → n < 2 ^ 60
    → Reach n s
    → (i j : ℕ) (t u : Thread) → i ≢ j
    → get_elem? s.threads i ≡ some t
    → get_elem? s.threads j ≡ some u
    → is_upreading t ≡ 1
    → is_upreading u ≡ 0
one_upreader {s} small r i j t u ne at_i at_j up =
    let v = Reach-Inv small r in
    ground (
      arith,
      v.one_upgradeable,
      upreading-le s.threads,
      add-le-total is_upreading s.threads i j t u ne at_i at_j,
    )

-- In every state that fewer than 2 ^ 60 threads can reach: an upgrade that has begun succeeds at
-- its next try if no thread is in the count of readers.
pub upgrade_succeeds :
    {n : ℕ} {s : System}
    → n < 2 ^ 60
    → Reach n s
    → (i : ℕ) (g : InnerGuard) → get_elem? s.threads i ≡ some (upgrading g)
    → total in_count s.threads ≡ 0
    → (try_upgrade g (upgrading g) s.lock).1 ≡ upgraded g
unfolding try_upgrade
upgrade_succeeds {s} small r i g at no_readers =
    let v = Reach-Inv small r in
    ground (
      arith,
      v.fields,
      v.one_upgradeable,
      v.exclusive,
      le-total in_upgrade s.threads i (upgrading g) at,
      le-total is_upreading s.threads i (upgrading g) at,
      upgrade-le s.threads,
      upreading-le s.threads,
    )

-- The thread holds an upgradeable guard and has not begun to upgrade it.
abbrev is_resting : Thread → ℕ
is_resting (upreading g) = 1
is_resting _ = 0

resting-le :
    (ts : List Thread) → total in_upgrade ts + total is_resting ts ≤ total in_upgradeable ts
resting-le [] = omega arith
resting-le (t ∷ ts) = ground (arith, resting-le ts)

-- In every state that fewer than 2 ^ 60 threads can reach: called on an upgradeable guard
-- directly, without the first line of `upgrade`, `try_upgrade` fails and changes nothing. No
-- thread has then announced an upgrade, which its compare-exchange expects.
pub bare_try_upgrade_fails :
    {n : ℕ} {s : System}
    → n < 2 ^ 60
    → Reach n s
    → (i : ℕ) (g : InnerGuard) → get_elem? s.threads i ≡ some (upreading g)
    → try_upgrade g (upreading g) s.lock ≡ (s.lock, upreading g)
unfolding try_upgrade
bare_try_upgrade_fails {s} small r i g at =
    let v = Reach-Inv small r in
    ground (
      arith,
      v.fields,
      v.one_upgradeable,
      le-total is_resting s.threads i (upreading g) at,
      resting-le s.threads,
      count-lt s.threads v.few,
    )

all_idle :
    (w : Thread → ℕ) (ts : List Thread)
    → w idle ≡ 0
    → ((i : ℕ) (t : Thread) → get_elem? ts i ≡ some t → t ≡ idle)
    → total w ts ≡ 0
all_idle w [] z quiet = refl
all_idle w (t ∷ ts) z quiet =
    let here : w t ≡ 0 = ap w (quiet 0 t refl) ∙ z in
    omega (arith, here, all_idle w ts z (λ i u at. quiet (suc i) u at))

-- In every state that fewer than 2 ^ 60 threads can reach: if every thread is idle, the word is
-- zero and the next `try_write` succeeds.
pub idle_unlocked :
    {n : ℕ} {s : System}
    → n < 2 ^ 60
    → Reach n s
    → ((i : ℕ) (t : Thread) → get_elem? s.threads i ≡ some t → t ≡ idle)
    → (s.lock ≡ 0) × (try_write s.lock ≡ (writer, writing preempt_guard))
unfolding try_write
idle_unlocked {s} small r quiet =
    let v = Reach-Inv small r in
    ground (
      arith,
      v.fields,
      all_idle in_writer s.threads refl quiet,
      all_idle in_upgradeable s.threads refl quiet,
      all_idle in_upgrade s.threads refl quiet,
      all_idle in_count s.threads refl quiet,
    )
