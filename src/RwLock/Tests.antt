-- ===== src/RwLock/Tests.antt =====
-- Two threads on one lock of rwlock.rs.
use jinux.Base.{ℕ, zero, suc, ◌+◌, ◌^◌, ◌<◌, ◌≡◌, refl, some, [], ◌∷◌, false, get_elem?, arith}
use jinux.RwLock.{
  Thread, idle, read_failed, writing, upreading, upgrading, preempt_guard, try_read, try_write,
  try_upread, upgrade, try_upgrade, drop_write,
}
use jinux.RwLock.System.{
  System, Reach, start, later, step, write, read, upread, start_upgrade, end_write,
}
use jinux.RwLock.Exclusion.{has_access, writer_excludes, bare_try_upgrade_fails}

abbrev writer_in : System
writer_in = record { lock = 2 ^ 63; threads = writing preempt_guard ∷ idle ∷ [] }

abbrev reader_refused : System
reader_refused = record { lock = 2 ^ 63 + 1; threads = writing preempt_guard ∷ read_failed ∷ [] }

abbrev upreader_in : System
upreader_in = record { lock = 2 ^ 62; threads = upreading preempt_guard ∷ idle ∷ [] }

abbrev upgrade_begun : System
upgrade_begun = record { lock = 2 ^ 62 + 2 ^ 61; threads = upgrading preempt_guard ∷ idle ∷ [] }

abbrev writer_gone : System
writer_gone = record { lock = 0; threads = idle ∷ idle ∷ [] }

Reach-writer_in : Reach 2 writer_in
unfolding try_write
Reach-writer_in = later start (step 0 refl write)

Reach-reader_refused : Reach 2 reader_refused
unfolding try_read
Reach-reader_refused = later Reach-writer_in (step 1 refl read)

Reach-upreader_in : Reach 2 upreader_in
unfolding try_upread
Reach-upreader_in = later start (step 0 refl upread)

Reach-upgrade_begun : Reach 2 upgrade_begun
unfolding upgrade
Reach-upgrade_begun = later Reach-upreader_in (step 0 refl (start_upgrade preempt_guard))

Reach-writer_gone : Reach 2 writer_gone
unfolding drop_write
Reach-writer_gone = later Reach-writer_in (step 0 refl (end_write preempt_guard))

all_gone : (i : ℕ) (t : Thread) → get_elem? writer_gone.threads i ≡ some t → t ≡ idle
all_gone zero t h = ground arith
all_gone (suc zero) t h = ground arith
all_gone (suc (suc i)) t h = ground arith

two_threads : 2 < 2 ^ 60
two_threads = omega arith

writer_excludes_example : has_access read_failed ≡ false
writer_excludes_example =
    writer_excludes two_threads Reach-reader_refused 0 1 preempt_guard read_failed (omega arith)
      refl refl

bare_try_upgrade_fails_example :
    try_upgrade preempt_guard (upreading preempt_guard) (2 ^ 62) ≡ (2 ^ 62, upreading preempt_guard)
bare_try_upgrade_fails_example =
    bare_try_upgrade_fails two_threads Reach-upreader_in 0 preempt_guard refl
