-- ===== src/Futex/Requeue.antt =====
-- Which items a requeue moves (`update_item_keys` and `requeue_items_to_another_bucket` of futex.rs).
use jinux.Base.{
  ℕ, zero, suc, ◌+◌, ◌≤◌, ◌≡◌, refl, ap, ◌⊎◌, inl, inr, Bool, List, [], ◌∷◌, ◌++◌, map, ◌==◌,
  if◌then◌else◌, length, arith, Bool-cases,
}
use jinux.Futex.{FutexItem, FutexBucket, update_item_keys, requeue_items_to_another_bucket}
use jinux.Futex.Wake.{select, reject, first, beyond}

abbrev pub has_key : ℕ → FutexItem → Bool
has_key key item = item.key == key

abbrev pub rekey : ℕ → FutexItem → FutexItem
rekey new_key item = record item { key = new_key }

-- The item with the new key if it has the old one.
abbrev pub rekey_if : ℕ → ℕ → FutexItem → FutexItem
rekey_if key new_key item = if has_key key item then rekey new_key item else item

-- What a requeue of at most `room` items promises of the two queues.
pub record Moved (key new_key room : ℕ) (queue another : FutexBucket)
    (out : FutexBucket × FutexBucket) : Type 0 where
  pub arrived : out.1 ≡ another ++ map (rekey new_key) (first room (select (has_key key) queue))
  pub remaining : select (has_key key) out.0 ≡ beyond room (select (has_key key) queue)
  pub others : reject (has_key key) out.0 ≡ reject (has_key key) queue

append-nil : (xs : List FutexItem) → xs ++ [] ≡ xs
append-nil [] = refl
append-nil (x ∷ xs) = ap (λ ys. x ∷ ys) (append-nil xs)

append-snoc : (xs ys : List FutexItem) (x : FutexItem) → (xs ++ x ∷ []) ++ ys ≡ xs ++ x ∷ ys
append-snoc [] ys x = refl
append-snoc (z ∷ xs) ys x = ap (λ zs. z ∷ zs) (append-snoc xs ys x)

requeue-Moved :
    (key new_key max_nrequeues count room : ℕ) (queue another : FutexBucket)
    → count + room ≡ max_nrequeues
    → Moved key new_key room queue another
        (requeue_items_to_another_bucket key new_key max_nrequeues count queue another)
unfolding requeue_items_to_another_bucket
requeue-Moved key new_key max_nrequeues count zero [] another h = record {
  arrived = ground (arith, append-nil another);
  remaining = refl;
  others = refl;
}
requeue-Moved key new_key max_nrequeues count (suc room) [] another h = record {
  arrived = ground (arith, append-nil another);
  remaining = refl;
  others = refl;
}
requeue-Moved key new_key max_nrequeues count zero (item ∷ queue) another h =
    let p = requeue-Moved key new_key max_nrequeues count zero queue another h in
    record {
      arrived = ground (arith, p.arrived);
      remaining = ground (arith, p.remaining);
      others = ground (arith, p.others);
    }
requeue-Moved key new_key max_nrequeues count (suc room) (item ∷ queue) another h =
    let p = requeue-Moved key new_key max_nrequeues count (suc room) queue another h in
    let r =
      requeue-Moved key new_key max_nrequeues (count + 1) room queue
        (another ++ rekey new_key item ∷ []) (omega arith) in
    record {
      arrived = ground (
        arith,
        p.arrived,
        r.arrived,
        append-snoc another (map (rekey new_key) (first room (select (has_key key) queue)))
            (rekey new_key item),
      );
      remaining = ground (arith, p.remaining, r.remaining);
      others = ground (arith, p.others, r.others);
    }

-- `requeue_items_to_another_bucket` moves the oldest items with the key, at most `max_nrequeues` of
-- them, to the end of the other queue in their order and with the new key. The items with the key
-- that remain are the others, and neither these nor the other items change their order.
pub requeue_items_to_another_bucket_lem :
    (key new_key max_nrequeues : ℕ) (queue another : FutexBucket)
    → Moved key new_key max_nrequeues queue another
        (requeue_items_to_another_bucket key new_key max_nrequeues 0 queue another)
requeue_items_to_another_bucket_lem key new_key max_nrequeues queue another =
    requeue-Moved key new_key max_nrequeues 0 max_nrequeues queue another (omega arith)

-- What giving at most `room` items a new key promises: a first part of the queue has its items with
-- the key rekeyed, `room` of them if anything follows, and the rest is as it was.
pub record Rekeyed (key new_key room : ℕ) (queue out : FutexBucket) : Type 0 where
  pub before : FutexBucket
  pub after : FutexBucket
  pub split : queue ≡ before ++ after
  pub result : out ≡ map (rekey_if key new_key) before ++ after
  pub bound : length (select (has_key key) before) ≤ room
  pub enough : (after ≡ []) ⊎ (length (select (has_key key) before) ≡ room)

update-Rekeyed :
    (key new_key max_count count room : ℕ) (queue : FutexBucket)
    → count + room ≡ max_count
    → Rekeyed key new_key room queue (update_item_keys key new_key max_count count queue)
unfolding update_item_keys
update-Rekeyed key new_key max_count count room [] h = record {
  before = [];
  after = [];
  split = refl;
  result = refl;
  bound = omega arith;
  enough = inl refl;
}
update-Rekeyed key new_key max_count count zero (item ∷ queue) h = record {
  before = [];
  after = item ∷ queue;
  split = refl;
  result = ground arith;
  bound = omega arith;
  enough = inr refl;
}
update-Rekeyed key new_key max_count count (suc room) (item ∷ queue) h =
    elim (Bool-cases (item.key == key)) [
      | inl hit ↦
          let p = update-Rekeyed key new_key max_count (count + 1) room queue (omega arith) in
          record {
            before = item ∷ p.before;
            after = p.after;
            split = ap (λ q. item ∷ q) p.split;
            result = ground (arith, p.result);
            bound = ground (arith, p.bound);
            enough = ground (arith, p.enough);
          }
      | inr miss ↦
          let p = update-Rekeyed key new_key max_count count (suc room) queue h in
          record {
            before = item ∷ p.before;
            after = p.after;
            split = ap (λ q. item ∷ q) p.split;
            result = ground (arith, p.result);
            bound = ground (arith, p.bound);
            enough = ground (arith, p.enough);
          }
    ]

-- `update_item_keys` keeps every item in its place and gives the new key to the first `max_count`
-- items with the old key, or to all of them if they are fewer.
pub update_item_keys_lem :
    (key new_key max_count : ℕ) (queue : FutexBucket)
    → Rekeyed key new_key max_count queue (update_item_keys key new_key max_count 0 queue)
update_item_keys_lem key new_key max_count queue =
    update-Rekeyed key new_key max_count 0 max_count queue (omega arith)
