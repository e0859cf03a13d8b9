-- ===== src/Futex/Tests.antt =====
-- A bucket of futex.rs with three waiters, two of them on one address.
use jinux.Base.{ℕ, ◌≡◌, refl, Bool, false, some, [], ◌∷◌, arith}
use jinux.Futex.{FutexItem, FutexBucket, Futexes, bitset_match_any, dequeue_and_wake_items}
use jinux.Futex.Wake.{Woke, dequeue_and_wake_items_lem}
use jinux.Futex.Lost.{wake_before_wait, wake_before_wait_lem}

abbrev waiting : ℕ → ℕ → FutexItem
waiting key waiter = record { key = key; bitset = bitset_match_any; waiter = waiter }

abbrev three_waiters : FutexBucket
three_waiters = waiting 64 1 ∷ waiting 96 2 ∷ waiting 64 3 ∷ []

abbrev nobody : ℕ → Bool
nobody w = false

abbrev two_buckets : Futexes
two_buckets = record { vec = three_waiters ∷ [] ∷ []; is_woken = nobody }

woken_first :
    (dequeue_and_wake_items 64 1 bitset_match_any three_waiters nobody).1
    ≡ waiting 96 2 ∷ waiting 64 3 ∷ []
unfolding dequeue_and_wake_items
woken_first = refl

dequeue_and_wake_items_lem_example :
    Woke 64 1 bitset_match_any three_waiters nobody
      (dequeue_and_wake_items 64 1 bitset_match_any three_waiters nobody)
dequeue_and_wake_items_lem_example =
    dequeue_and_wake_items_lem 64 1 bitset_match_any three_waiters nobody

abbrev stored_seven : ℕ → ℕ
stored_seven address = 7

wake_before_wait_lem_example :
    (f : Futexes) × (wake_before_wait stored_seven 4 64 7 1 ((64, 5, bitset_match_any) ∷ [])
      ≡ some (1, f))
    × (f.is_woken 1 ≡ false)
wake_before_wait_lem_example =
    wake_before_wait_lem stored_seven 4 64 7 1 ((64, 5, bitset_match_any) ∷ []) (omega arith) refl
