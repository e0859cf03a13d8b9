-- ===== src/RwLock/System.antt =====
-- Any number of threads over one lock of rwlock.rs, interleaved in any order.
use jinux.Base.{ℕ, ◌≡◌, some, List, get_elem?, set, replicate}
use jinux.RwLock.{
  Thread, idle, read_failed, reading, writing, upread_failed, upreading, upgrading, upgraded,
  Outcome, InnerGuard, try_read, try_read_irq_disabled, undo_read, try_write,
  try_write_irq_disabled, try_upread, try_upread_irq_disabled, undo_upread, drop_read, drop_write,
  drop_upread, upgrade, try_upgrade, finish_upgrade,
}

-- What one thread may do next, by the method that it calls or is inside of. `read`, `write` and
-- `upread` call the method that tries in a loop, and so make its moves again and again.
pub data Move (lock : ℕ) : Thread → Outcome → Type 0 where
  read : Move lock idle (try_read lock)
  read_irq : Move lock idle (try_read_irq_disabled lock)
  unread : Move lock read_failed (undo_read lock)
  write : Move lock idle (try_write lock)
  write_irq : Move lock idle (try_write_irq_disabled lock)
  upread : Move lock idle (try_upread lock)
  upread_irq : Move lock idle (try_upread_irq_disabled lock)
  unupread : Move lock upread_failed (undo_upread lock)
  end_read : (g : InnerGuard) → Move lock (reading g) (drop_read lock)
  end_write : (g : InnerGuard) → Move lock (writing g) (drop_write lock)
  end_upread : (g : InnerGuard) → Move lock (upreading g) (drop_upread lock)
  start_upgrade : (g : InnerGuard) → Move lock (upreading g) (upgrade g lock)
  retry_upgrade : (g : InnerGuard) → Move lock (upgrading g) (try_upgrade g (upgrading g) lock)
  bare_upgrade : (g : InnerGuard) → Move lock (upreading g) (try_upgrade g (upreading g) lock)
  end_upgrade : (g : InnerGuard) → Move lock (upgraded g) (finish_upgrade g lock)

pub record System : Type 0 where
  pub lock : ℕ
  pub threads : List Thread

-- `RwLock::new`, before any of `n` threads has called it.
abbrev pub init : ℕ → System
init n = record { lock = 0; threads = replicate n idle }

pub data Step (s : System) : System → Type 0 where
  step :
      (i : ℕ) {t : Thread} {out : Outcome}
      → get_elem? s.threads i ≡ some t
      → Move s.lock t out
      → Step s (record { lock = out.0; threads = set s.threads i out.1 })

pub data Reach (n : ℕ) : System → Type 0 where
  start : Reach n (init n)
  later : {s t : System} → Reach n s → Step s t → Reach n t
