-- ===== src/Futex/Wake.antt =====
-- Which waiters a wake takes out of a bucket (`dequeue_and_wake_items` of futex.rs), and that the
-- bucket is always found.
use Prim.Native.Nat.{bit_and}
use jinux.Base.{
  ℕ, zero, suc, ◌+◌, ◌-◌, ◌/◌, ◌^◌, ◌<◌, ◌≡◌, refl, Bool, false, ◌||◌, ◌&&◌, not, Option, some,
  List, [], ◌∷◌, ◌==◌, ◌!=◌, if◌then◌else◌, length, get_elem?, get_elem?-some, get_elem?-set_self,
  get_elem?-set_ne, length-set, ap, ◌≢◌, arith, set,
}
use jinux.Base.Bits.{bit_and-le}
use jinux.Futex.{
  FutexItem, FutexBucket, Futexes, retain_wake, wake, batch_wake, bucket_index,
  dequeue_and_wake_items, futex_wake_bitset, wake_in,
}

-- The item waits at the key with one of the bits.
abbrev pub matches : ℕ → ℕ → FutexItem → Bool
matches key bitset item = item.key == key && bit_and bitset item.bitset != 0

-- The items of a queue that pass the test, and those that do not.
abbrev pub select : (FutexItem → Bool) → FutexBucket → List FutexItem
select p [] = []
select p (x ∷ xs) = if p x then x ∷ select p xs else select p xs

abbrev pub reject : (FutexItem → Bool) → FutexBucket → List FutexItem
reject p xs = select (λ x. not (p x)) xs

abbrev pub first : ℕ → List FutexItem → List FutexItem
first zero xs = []
first (suc n) [] = []
first (suc n) (x ∷ xs) = x ∷ first n xs

abbrev pub beyond : ℕ → List FutexItem → List FutexItem
beyond zero xs = xs
beyond (suc n) [] = []
beyond (suc n) (x ∷ xs) = beyond n xs

-- What a wake of at most `room` items leaves of a queue and takes from it, in terms of the matching
-- and the other items.
pub record Woken (key bitset room : ℕ) (queue kept woken : List FutexItem) : Type 0 where
  pub oldest : woken ≡ first room (select (matches key bitset) queue)
  pub remaining : select (matches key bitset) kept ≡ beyond room (select (matches key bitset) queue)
  pub others : reject (matches key bitset) kept ≡ reject (matches key bitset) queue

retain_wake-Woken :
    (key max_count bitset count room : ℕ) (queue : FutexBucket)
    → count + room ≡ max_count
    → Woken key bitset room queue
        (retain_wake key max_count bitset count queue).0
        (retain_wake key max_count bitset count queue).1
unfolding retain_wake
retain_wake-Woken key max_count bitset count zero [] h = record {
  oldest = refl;
  remaining = refl;
  others = refl;
}
retain_wake-Woken key max_count bitset count (suc room) [] h = record {
  oldest = refl;
  remaining = refl;
  others = refl;
}
retain_wake-Woken key max_count bitset count zero (item ∷ queue) h =
    let p = retain_wake-Woken key max_count bitset count zero queue h in
    record {
      oldest = ground (arith, p.oldest);
      remaining = ground (arith, p.remaining);
      others = ground (arith, p.others);
    }
retain_wake-Woken key max_count bitset count (suc room) (item ∷ queue) h =
    let p = retain_wake-Woken key max_count bitset count (suc room) queue h in
    let r = retain_wake-Woken key max_count bitset (count + 1) room queue (omega arith) in
    record {
      oldest = ground (arith, p.oldest, r.oldest);
      remaining = ground (arith, p.remaining, r.remaining);
      others = ground (arith, p.others, r.others);
    }

retain_wake-count :
    (key max_count bitset count : ℕ) (queue : FutexBucket)
    → (retain_wake key max_count bitset count queue).2
      ≡ count + length (retain_wake key max_count bitset count queue).1
unfolding retain_wake
retain_wake-count key max_count bitset count [] = omega arith
retain_wake-count key max_count bitset count (item ∷ queue) = ground (
  arith,
  retain_wake-count key max_count bitset count queue,
  retain_wake-count key max_count bitset (count + 1) queue,
)

-- Some item of the list is the waiter's.
abbrev pub has_waiter : ℕ → List FutexItem → Bool
has_waiter w [] = false
has_waiter w (item ∷ items) = w == item.waiter || has_waiter w items

batch_wake-has_waiter :
    (items : List FutexItem) (is_woken : ℕ → Bool) (w : ℕ)
    → batch_wake items is_woken w ≡ (has_waiter w items || is_woken w)
batch_wake-has_waiter [] is_woken w = refl
batch_wake-has_waiter (item ∷ items) is_woken w =
    ground (arith, batch_wake-has_waiter items (wake item.waiter is_woken) w)

-- What a wake promises, with the items that it takes out.
pub record Woke (key max_count bitset : ℕ) (queue : FutexBucket) (is_woken : ℕ → Bool)
    (out : ℕ × FutexBucket × (ℕ → Bool)) : Type 0 where
  pub woken : List FutexItem
  pub split : Woken key bitset max_count queue out.1 woken
  pub counted : out.0 ≡ length woken
  pub flags : (w : ℕ) → out.2 w ≡ (has_waiter w woken || is_woken w)

-- `dequeue_and_wake_items` takes the oldest matching items out of the queue, at most `max_count` of
-- them and fewer only if there are no more, sets the flags of exactly their waiters, and returns how
-- many they are. The matching items that remain are the others, and neither these nor the items that
-- do not match change their order.
pub dequeue_and_wake_items_lem :
    (key max_count bitset : ℕ) (queue : FutexBucket) (is_woken : ℕ → Bool)
    → Woke key max_count bitset queue is_woken
        (dequeue_and_wake_items key max_count bitset queue is_woken)
unfolding dequeue_and_wake_items
dequeue_and_wake_items_lem key max_count bitset queue is_woken = record {
  woken = (retain_wake key max_count bitset 0 queue).1;
  split = retain_wake-Woken key max_count bitset 0 max_count queue (omega arith);
  counted = omega (arith, retain_wake-count key max_count bitset 0 queue);
  flags = λ w. batch_wake-has_waiter (retain_wake key max_count bitset 0 queue).1 is_woken w;
}

pub bucket_index-lt : (size key : ℕ) → 0 < size → bucket_index size key < size
unfolding bucket_index
bucket_index-lt size key h = omega (arith, bit_and-le (size - 1) (key / 2 ^ 2 / size))

-- What a wake of an address promises: its bucket is there, and it alone is changed, as
-- `dequeue_and_wake_items` does.
pub record WokeAt (key max_count bitset : ℕ) (f : Futexes) (out : Option (ℕ × Futexes))
    : Type 0 where
  pub queue : FutexBucket
  pub count : ℕ
  pub after : Futexes
  pub found : get_elem? f.vec (bucket_index (length f.vec) key) ≡ some queue
  pub result : out ≡ some (count, after)
  pub kept : FutexBucket
  pub bucket : get_elem? after.vec (bucket_index (length f.vec) key) ≡ some kept
  pub woke : Woke key max_count bitset queue f.is_woken (count, kept, after.is_woken)
  pub size : length after.vec ≡ length f.vec
  pub elsewhere :
      (j : ℕ) → bucket_index (length f.vec) key ≢ j → get_elem? after.vec j ≡ get_elem? f.vec j

-- `futex_wake_bitset` does not panic on a table of at least one bucket: the bucket of the address is
-- found, the oldest matching waiters of that bucket are woken, and no other bucket changes.
pub futex_wake_bitset_lem :
    (key max_count bitset : ℕ) (f : Futexes)
    → 0 < length f.vec
    → WokeAt key max_count bitset f (futex_wake_bitset key max_count bitset f)
unfolding futex_wake_bitset
futex_wake_bitset_lem key max_count bitset f h =
    let i = bucket_index (length f.vec) key in
    let within = bucket_index-lt (length f.vec) key h in
    let (queue, found) = get_elem?-some f.vec i within in
    let out = dequeue_and_wake_items key max_count bitset queue f.is_woken in
    record {
      queue = queue;
      count = out.0;
      after = record { vec = set f.vec i out.1; is_woken = out.2 };
      found = found;
      result = ap (wake_in i key max_count bitset f) found;
      kept = out.1;
      bucket = get_elem?-set_self f.vec i out.1 within;
      woke = dequeue_and_wake_items_lem key max_count bitset queue f.is_woken;
      size = length-set f.vec i out.1;
      elsewhere = λ j ne. get_elem?-set_ne f.vec i j out.1 ne;
    }
