-- ===== src/Futex.antt =====
-- Futexes: services/libs/aster-std/src/process/posix_thread/futex.rs.
-- The waiter of an item is the identity of its `Arc<FutexWaiter>`; whether it `is_woken` is kept in
-- the state, since a waker and the waiting thread share it. A bucket's mutex makes what is done under
-- it one step. An index out of bounds, which panics, is `none`.
pub mod Ops
pub mod Wake
pub mod Lost
pub mod Requeue
mod Tests
use Prim.Native.Nat.{bit_and}
use jinux.Base.{
  ℕ, zero, suc, ◌+◌, ◌-◌, ◌/◌, ◌^◌, Bool, true, false, ◌||◌, Option, none, some, List, [], ◌∷◌,
  ◌++◌, Result, ok, err, einval, ◌==◌, ◌!=◌, leb, ltb, if◌then◌else◌, length, get_elem?, set,
  replicate,
}

-- FUTEX_BITSET_MATCH_ANY
abbrev pub bitset_match_any : ℕ
bitset_match_any = 0xFFFF_FFFF

-- `FutexItem`, with the `FutexKey` as its address
pub record FutexItem : Type 0 where
  pub key : ℕ
  pub bitset : ℕ
  pub waiter : ℕ

-- The queue of a `FutexBucket`.
abbrev pub FutexBucket : Type 0
FutexBucket = List FutexItem

-- `FutexBucketVec`, and the flags `is_woken` of the waiters
pub record Futexes : Type 0 where
  pub vec : List FutexBucket
  pub is_woken : ℕ → Bool

-- `FutexBucketVec::new`
unfoldable pub new : ℕ → Futexes
new size = record { vec = replicate size []; is_woken = λ w. false }

-- The index that `FutexBucketVec::get_bucket` computes; BUCKET_MASK is one less than the size.
unfoldable pub bucket_index : ℕ → ℕ → ℕ
bucket_index size key = bit_and (size - 1) (key / 2 ^ 2 / size)

-- `FutexBucket::enqueue_item`
abbrev pub enqueue_item : FutexItem → FutexBucket → FutexBucket
enqueue_item item queue = queue ++ item ∷ []

-- The first branch of the closure in `dequeue_and_wake_items`: the item stays.
abbrev pub stays : ℕ → ℕ → ℕ → ℕ → FutexItem → Bool
stays key max_count bitset count item =
    leb max_count count || (key != item.key || bit_and bitset item.bitset == 0)

-- `retain` in `dequeue_and_wake_items`: the queue, the items to wake and the count.
unfoldable pub retain_wake : ℕ → ℕ → ℕ → ℕ → FutexBucket → FutexBucket × List FutexItem × ℕ
retain_wake key max_count bitset count [] = ([], [], count)
retain_wake key max_count bitset count (item ∷ queue) =
    let stay = stays key max_count bitset count item in
    let (kept, woken, n) =
      retain_wake key max_count bitset (if stay then count else count + 1) queue in
    if stay then (item ∷ kept, woken, n) else (kept, item ∷ woken, n)

-- `FutexWaiter::wake`
abbrev pub wake : ℕ → (ℕ → Bool) → ℕ → Bool
wake waiter is_woken w = if w == waiter then true else is_woken w

-- `FutexItem::batch_wake` and `FutexWaiter::batch_wake`
abbrev pub batch_wake : List FutexItem → (ℕ → Bool) → ℕ → Bool
batch_wake [] is_woken = is_woken
batch_wake (item ∷ items) is_woken = batch_wake items (wake item.waiter is_woken)

-- `FutexBucket::dequeue_and_wake_items`: the count, the queue and the flags.
unfoldable pub dequeue_and_wake_items :
    ℕ → ℕ → ℕ → FutexBucket → (ℕ → Bool) → ℕ × FutexBucket × (ℕ → Bool)
unfolding retain_wake
dequeue_and_wake_items key max_count bitset queue is_woken =
    let (kept, woken, n) = retain_wake key max_count bitset 0 queue in
    (n, kept, batch_wake woken is_woken)

-- The loop of `update_item_keys`, with the rounds that `count == max_count` leaves; the queue after
-- the `break` is as it was.
unfoldable pub update_item_keys : ℕ → ℕ → ℕ → ℕ → FutexBucket → FutexBucket
update_item_keys key new_key max_count count [] = []
update_item_keys key new_key max_count count (item ∷ queue) =
    let hit = item.key == key in
    let rest = update_item_keys key new_key max_count (if hit then count + 1 else count) queue in
    if count == max_count
    then item ∷ queue
    else if hit
    then record item { key = new_key } ∷ rest
    else item ∷ rest

-- `retain` in `requeue_items_to_another_bucket`: the queue, and what `another` becomes.
unfoldable pub requeue_items_to_another_bucket :
    ℕ → ℕ → ℕ → ℕ → FutexBucket → FutexBucket → FutexBucket × FutexBucket
requeue_items_to_another_bucket key new_key max_nrequeues count [] another = ([], another)
requeue_items_to_another_bucket key new_key max_nrequeues count (item ∷ queue) another =
    let stay = leb max_nrequeues count || key != item.key in
    let (kept, another') =
      requeue_items_to_another_bucket key new_key max_nrequeues (if stay then count else count + 1)
        queue (if stay then another else enqueue_item (record item { key = new_key }) another) in
    if stay then (item ∷ kept, another') else (kept, another')

-- `futex_wake_bitset`, once the bucket is found.
abbrev pub wake_in : ℕ → ℕ → ℕ → ℕ → Futexes → Option FutexBucket → Option (ℕ × Futexes)
wake_in i key max_count bitset f none = none
wake_in i key max_count bitset f (some queue) =
    let (n, kept, is_woken) = dequeue_and_wake_items key max_count bitset queue f.is_woken in
    some (n, record { vec = set f.vec i kept; is_woken = is_woken })

-- `futex_wake_bitset`
unfoldable pub futex_wake_bitset : ℕ → ℕ → ℕ → Futexes → Option (ℕ × Futexes)
unfolding dequeue_and_wake_items bucket_index
futex_wake_bitset futex_addr max_count bitset f =
    let i = bucket_index (length f.vec) futex_addr in
    wake_in i futex_addr max_count bitset f (get_elem? f.vec i)

-- `futex_wake`
unfoldable pub futex_wake : ℕ → ℕ → Futexes → Option (ℕ × Futexes)
unfolding futex_wake_bitset
futex_wake futex_addr max_count f = futex_wake_bitset futex_addr max_count bitset_match_any f

-- The branch of `futex_requeue` for one bucket.
abbrev pub requeue_in_one : ℕ → ℕ → ℕ → ℕ → ℕ → Futexes → Option FutexBucket → Option (ℕ × Futexes)
requeue_in_one i key new_key max_nwakes max_nrequeues f none = none
requeue_in_one i key new_key max_nwakes max_nrequeues f (some queue) =
    let (n, kept, is_woken) =
      dequeue_and_wake_items key max_nwakes bitset_match_any queue f.is_woken in
    some (
      n,
      record {
        vec = set f.vec i (update_item_keys key new_key max_nrequeues 0 kept);
        is_woken = is_woken;
      },
    )

-- The branch of `futex_requeue` for two buckets; both are locked throughout.
abbrev pub requeue_in_two :
    ℕ → ℕ → ℕ → ℕ → ℕ → ℕ → Futexes → Option FutexBucket → Option FutexBucket → Option (ℕ × Futexes)
requeue_in_two i j key new_key max_nwakes max_nrequeues f (some queue) (some another) =
    let (n, kept, is_woken) =
      dequeue_and_wake_items key max_nwakes bitset_match_any queue f.is_woken in
    let (left, another') =
      requeue_items_to_another_bucket key new_key max_nrequeues 0 kept another in
    some (n, record { vec = set (set f.vec i left) j another'; is_woken = is_woken })
requeue_in_two i j key new_key max_nwakes max_nrequeues f _ _ = none

-- `futex_requeue`
unfoldable pub futex_requeue : ℕ → ℕ → ℕ → ℕ → Futexes → Option (ℕ × Futexes)
unfolding futex_wake dequeue_and_wake_items update_item_keys requeue_items_to_another_bucket
    bucket_index
futex_requeue futex_addr max_nwakes max_nrequeues futex_new_addr f =
    let i = bucket_index (length f.vec) futex_addr in
    let j = bucket_index (length f.vec) futex_new_addr in
    if futex_new_addr == futex_addr
    then futex_wake futex_addr max_nwakes f
    else if i == j
    then requeue_in_one i futex_addr futex_new_addr max_nwakes max_nrequeues f (get_elem? f.vec i)
    else requeue_in_two i j futex_addr futex_new_addr max_nwakes max_nrequeues f (get_elem? f.vec i)
        (get_elem? f.vec j)

-- `futex_wait_bitset` up to the release of the bucket, once the bucket is found: the value in user
-- memory is compared, and the item of a new waiter is queued.
abbrev pub wait_in :
    ℕ → FutexItem → Bool → Futexes → Option FutexBucket → Option (Result (Unit {0}) × Futexes)
wait_in i item same f none = none
wait_in i item same f (some queue) =
    if same
    then some (ok tt, record f { vec = set f.vec i (enqueue_item item queue) })
    else some (err einval, f)

-- `load_val` reads a word of user memory, a library call that is the parameter here.
unfoldable pub futex_wait_bitset :
    (ℕ → ℕ) → ℕ → ℕ → ℕ → ℕ → Futexes → Option (Result (Unit {0}) × Futexes)
unfolding bucket_index
futex_wait_bitset load_val futex_addr futex_val bitset waiter f =
    let i = bucket_index (length f.vec) futex_addr in
    wait_in i (record { key = futex_addr; bitset = bitset; waiter = waiter })
      (load_val futex_addr == futex_val) f (get_elem? f.vec i)

-- The store at the head of `FutexWaiter::wait`, which the waiting thread makes after the bucket is
-- released, before it loops until it finds the flag set.
unfoldable pub begin_wait : ℕ → Futexes → Futexes
begin_wait waiter f = record f { is_woken = λ w. if w == waiter then false else f.is_woken w }
