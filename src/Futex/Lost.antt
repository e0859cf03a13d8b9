-- ===== src/Futex/Lost.antt =====
-- A wake-up that comes between the release of the bucket and the wait loop (futex.rs).
use jinux.Base.{
  ℕ, zero, suc, ◌<◌, ◌≡◌, refl, sym, ap, ◌∙◌, Bool, false, ◌||◌, Option, none, some, List, [], ◌∷◌,
  ok, ◌==◌, length, get_elem?, get_elem?-some, get_elem?-set_self, get_elem?-set_ne, length-set,
  set, replicate, arith, Bool-cases, inl, inr,
}
use jinux.Futex.{
  FutexItem, FutexBucket, Futexes, new, bucket_index, bitset_match_any, futex_wake_bitset,
  futex_wake, futex_wait_bitset, begin_wait,
}
use jinux.Futex.Wake.{
  matches, select, reject, first, beyond, has_waiter, Woken, WokeAt, bucket_index-lt,
  futex_wake_bitset_lem,
}

has_waiter-select :
    (w : ℕ) (p : FutexItem → Bool) (xs : List FutexItem)
    → has_waiter w xs ≡ (has_waiter w (select p xs) || has_waiter w (reject p xs))
has_waiter-select w p [] = refl
has_waiter-select w p (x ∷ xs) = ground (arith, has_waiter-select w p xs)

has_waiter-first :
    (w n : ℕ) (xs : List FutexItem)
    → has_waiter w xs ≡ (has_waiter w (first n xs) || has_waiter w (beyond n xs))
has_waiter-first w zero xs = refl
has_waiter-first w (suc n) [] = refl
has_waiter-first w (suc n) (x ∷ xs) = ground (arith, has_waiter-first w n xs)

-- No item of the waiter is in any bucket, though there are buckets, and its flag is down.
pub record IsForgotten (w : ℕ) (f : Futexes) : Type 0 where
  pub some_bucket : 0 < length f.vec
  pub unqueued :
      (i : ℕ) (queue : FutexBucket) → get_elem? f.vec i ≡ some queue → has_waiter w queue ≡ false
  pub unset : f.is_woken w ≡ false

-- What a wake takes out of a queue and leaves in it were in the queue.
Woken-has_waiter :
    (w key bitset room : ℕ) (queue kept woken : List FutexItem)
    → Woken key bitset room queue kept woken
    → has_waiter w queue ≡ (has_waiter w woken || has_waiter w kept)
Woken-has_waiter w key bitset room queue kept woken p = ground (
  arith,
  p.oldest,
  p.remaining,
  p.others,
  has_waiter-select w (matches key bitset) queue,
  has_waiter-select w (matches key bitset) kept,
  has_waiter-first w room (select (matches key bitset) queue),
)

WokeAt-IsForgotten :
    (w key max_count bitset : ℕ) (f : Futexes) (out : Option (ℕ × Futexes))
    → IsForgotten w f
    → (p : WokeAt key max_count bitset f out) → IsForgotten w p.after
WokeAt-IsForgotten w key max_count bitset f out v p =
    let i = bucket_index (length f.vec) key in
    let whole = Woken-has_waiter w key bitset max_count p.queue p.kept p.woke.woken p.woke.split in
    record {
      some_bucket = omega (arith, v.some_bucket, p.size);
      unqueued = λ j queue at. elim (Bool-cases (i == j)) [
        | inl same ↦ ground (arith, v.unqueued i p.queue p.found, whole, p.bucket, at)
        | inr other ↦ v.unqueued j queue (sym (p.elsewhere j (ground arith)) ∙ at)
      ];
      unset = ground (arith, p.woke.flags w, v.unset, v.unqueued i p.queue p.found, whole);
    }

-- Calls of `futex_wake_bitset` by other threads, one after the other; a panic is `none`.
unfoldable pub run_wakes : List (ℕ × ℕ × ℕ) → Futexes → Option Futexes
unfolding futex_wake_bitset
run_wakes [] f = some f
run_wakes ((key, max_count, bitset) ∷ calls) f = elim (futex_wake_bitset key max_count bitset f) [
  | none ↦ none
  | some (count, f') ↦ run_wakes calls f'
]

run_wakes-IsForgotten :
    (w : ℕ) (calls : List (ℕ × ℕ × ℕ)) (f : Futexes)
    → IsForgotten w f
    → (f' : Futexes) × (run_wakes calls f ≡ some f') × IsForgotten w f'
unfolding run_wakes
run_wakes-IsForgotten w [] f v = (f, refl, v)
run_wakes-IsForgotten w ((key, max_count, bitset) ∷ calls) f v =
    let p = futex_wake_bitset_lem key max_count bitset f v.some_bucket in
    let (f', e, v') =
      run_wakes-IsForgotten w calls p.after (WokeAt-IsForgotten w key max_count bitset f _ v p) in
    (f', ap (λ o. elim o [ none ↦ none | some (count, g) ↦ run_wakes calls g ]) p.result ∙ e, v')

-- A waiter queues itself in a table with no other waiters, a wake of its address comes before
-- `FutexWaiter::wait` has begun, and other wakes follow.
unfoldable pub wake_before_wait : (ℕ → ℕ) → ℕ → ℕ → ℕ → ℕ → List (ℕ × ℕ × ℕ) → Option (ℕ × Futexes)
unfolding new futex_wait_bitset futex_wake begin_wait run_wakes
wake_before_wait load_val size key val waiter calls =
    elim (futex_wait_bitset load_val key val bitset_match_any waiter (new size)) [
      | none ↦ none
      | some (r, f) ↦ elim (futex_wake key 1 f) [
        | none ↦ none
        | some (count, f') ↦ elim (run_wakes calls (begin_wait waiter f')) [
          | none ↦ none
          | some f'' ↦ some (count, f'')
        ]
      ]
    ]

empty_bucket :
    (n i : ℕ) (queue : FutexBucket) → get_elem? (replicate n []) i ≡ some queue → queue ≡ []
empty_bucket zero i queue h = ground arith
empty_bucket (suc n) zero queue h = ground arith
empty_bucket (suc n) (suc i) queue h = empty_bucket n i queue h

length-replicate : (n : ℕ) → length {A = FutexBucket} (replicate n []) ≡ n
length-replicate zero = refl
length-replicate (suc n) = omega (arith, length-replicate n)

-- The item of `futex_wait`.
abbrev item_of : ℕ → ℕ → FutexItem
item_of key waiter = record { key = key; bitset = bitset_match_any; waiter = waiter }

-- The table after the wait has queued its item.
abbrev queued : ℕ → ℕ → ℕ → Futexes
queued size key waiter = record {
  vec =
      set (replicate size []) (bucket_index (length {A = FutexBucket} (replicate size [])) key)
        (item_of key waiter ∷ []);
  is_woken = λ w. false;
}

wait-queued :
    (load_val : ℕ → ℕ) (size key val waiter : ℕ)
    → 0 < size
    → load_val key ≡ val
    → futex_wait_bitset load_val key val bitset_match_any waiter (new size)
      ≡ some (ok tt, queued size key waiter)
unfolding futex_wait_bitset new
wait-queued load_val size key val waiter h same =
    let i = bucket_index (length {A = FutexBucket} (replicate size [])) key in
    let (queue, found) =
      get_elem?-some {A = FutexBucket} (replicate size []) i
        (bucket_index-lt _ key (omega (arith, length-replicate size))) in
    ground (arith, found, empty_bucket size i queue found)

-- The wake takes the item out, and after `wait` has cleared the flag the waiter is forgotten.
woken-IsForgotten :
    (size key waiter : ℕ)
    → 0 < size
    → (p : WokeAt key 1 bitset_match_any
        (queued size key waiter)
        (futex_wake_bitset key 1 bitset_match_any (queued size key waiter)))
    → (p.count ≡ 1) × IsForgotten waiter (begin_wait waiter p.after)
unfolding begin_wait
woken-IsForgotten size key waiter h p = (
  ground (arith, p.woke.counted, taken),
  record {
    some_bucket = omega (arith, p.size, same_size, length-replicate size, h);
    unqueued = λ j queue at. elim (Bool-cases (i == j)) [
      | inl e ↦ ground (arith, e, same_index, p.bucket, at, left)
      | inr e ↦
          let before =
            sym (
              get_elem?-set_ne {A = FutexBucket} (replicate size []) i j (item ∷ []) (ground arith))
            ∙ sym (p.elsewhere j (ground (arith, same_index)))
            ∙ at in
          ground (arith, empty_bucket size j queue before)
    ];
    unset = ground arith;
  },
)
  where
    item : FutexItem
    item = item_of key waiter

    i : ℕ
    i = bucket_index (length {A = FutexBucket} (replicate size [])) key

    same_size : length (queued size key waiter).vec ≡ length {A = FutexBucket} (replicate size [])
    same_size = length-set {A = FutexBucket} (replicate size []) i (item ∷ [])

    same_index : bucket_index (length (queued size key waiter).vec) key ≡ i
    same_index = ap (λ n. bucket_index n key) same_size

    queue_is : p.queue ≡ item ∷ []
    queue_is = ground (
      arith,
      p.found,
      same_index,
      get_elem?-set_self {A = FutexBucket} (replicate size []) i (item ∷ [])
          (bucket_index-lt _ key (omega (arith, length-replicate size))),
    )

    taken : p.woke.woken ≡ item ∷ []
    taken =
        p.woke.split.oldest
        ∙ ap (λ q. first 1 (select (matches key bitset_match_any) q)) queue_is
        ∙ ground arith

    left : has_waiter waiter p.kept ≡ false
    left = ground (
      arith,
      ap (λ q. beyond 1 (select (matches key bitset_match_any) q)) queue_is,
      ap (λ q. reject (matches key bitset_match_any) q) queue_is,
      p.woke.split.remaining,
      p.woke.split.others,
      has_waiter-select waiter (matches key bitset_match_any) p.kept,
    )

-- In a table of at least one bucket without waiters, if the value in memory is the expected one:
-- when a wake of the address comes between the release of the bucket and the wait loop, the wake
-- reports one waiter woken, and the flag that the loop of `wait` reads after clearing it is still
-- clear after any further wakes.
pub wake_before_wait_lem :
    (load_val : ℕ → ℕ) (size key val waiter : ℕ) (calls : List (ℕ × ℕ × ℕ))
    → 0 < size
    → load_val key ≡ val
    → (f : Futexes) × (wake_before_wait load_val size key val waiter calls ≡ some (1, f))
      × (f.is_woken waiter ≡ false)
unfolding wake_before_wait futex_wake
wake_before_wait_lem load_val size key val waiter calls h same =
    let p = futex_wake_bitset_lem key 1 bitset_match_any (queued size key waiter) (
      omega (
        arith,
        length-set {A = FutexBucket} (replicate size [])
            (bucket_index (length {A = FutexBucket} (replicate size [])) key)
            (item_of key waiter ∷ []),
        length-replicate size,
      )) in
    let (one, v) = woken-IsForgotten size key waiter h p in
    let (f, e, v') = run_wakes-IsForgotten waiter calls (begin_wait waiter p.after) v in
    (f, ground (arith, wait-queued load_val size key val waiter h same, p.result, one, e), v'.unset)
