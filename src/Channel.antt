-- ===== src/Channel.antt =====
-- Channels between two ends, under pipes and sockets: services/libs/aster-std/src/fs/utils/channel.rs.
-- The ring buffer is a library's: it is a parameter, with what its documentation says of it as laws. A call of an end is
-- one step here and in Stream and Race; in Locks the calls of the two ends overlap, and `update_pollee` is taken apart
-- into its atomic operations, with the event lock. Waiting in `read` and `write`, the status flags and the observers of a pollee are not in the model.
pub mod Stream
pub mod Race
pub mod Locks
mod Tests
use jinux.Base.{
  ℕ, zero, suc, ◌<◌, ◌≡◌, Bool, true, false, ◌||◌, List, [], ◌∷◌, ◌++◌, Result, ok, err, epipe,
  eagain, if◌then◌else◌, length, ltb,
}

abbrev pub is_nil : {T : Type 0} → List T → Bool
is_nil [] = true
is_nil (x ∷ xs) = false

-- The ring buffer: pushing takes a prefix of what is given, popping takes a prefix of what is in it.
pub record Ring (T B : Type 0) : Type 0 where
  pub items : B → List T
  pub push_slice : B → List T → B × ℕ
  pub pop_slice : B → ℕ → B × List T
  pub is_empty : B → Bool
  pub is_full : B → Bool
  pub is_empty_law : (b : B) → is_empty b ≡ is_nil (items b)
  pub push_law :
      (b : B) (xs : List T)
      → (pushed rest : List T) × (xs ≡ pushed ++ rest)
        × (items (push_slice b xs).0 ≡ items b ++ pushed)
        × ((push_slice b xs).1 ≡ length pushed)
  pub push_full_law : (b : B) (xs : List T) → is_full b ≡ true → is_full (push_slice b xs).0 ≡ true
  pub pop_law : (b : B) (n : ℕ) → items b ≡ (pop_slice b n).1 ++ items (pop_slice b n).0

-- The events of a `Pollee` that an end sets.
pub record Events : Type 0 where
  pub has_in : Bool
  pub has_out : Bool
  pub has_hup : Bool
  pub has_err : Bool

-- `Common`, with the events and the flag of each `EndPointInner`.
pub record Channel (B : Type 0) : Type 0 where
  pub rb : B
  pub producer_events : Events
  pub consumer_events : Events
  pub producer_is_shutdown : Bool
  pub consumer_is_shutdown : Bool

-- `Common::with_capacity_and_flags`, on a new ring buffer
abbrev pub new : {B : Type 0} → B → Channel B
new rb = record {
  rb = rb;
  producer_events = record { has_in = false; has_out = true; has_hup = false; has_err = false };
  consumer_events = record { has_in = false; has_out = false; has_hup = false; has_err = false };
  producer_is_shutdown = false;
  consumer_is_shutdown = false;
}

-- `drop` of a producer and of a consumer
abbrev pub drop_producer : {B : Type 0} → Channel B → Channel B
drop_producer c = record c {
  producer_is_shutdown = true;
  consumer_events = record c.consumer_events { has_hup = true };
}

abbrev pub drop_consumer : {B : Type 0} → Channel B → Channel B
drop_consumer c = record c {
  consumer_is_shutdown = true;
  producer_events = record c.producer_events { has_err = true };
}

module _ {T B : Type 0} (ring : Ring T B) where
  -- The end of `update_pollee` of a producer, after `is_full` was tested.
  abbrev pub after_full_test : Bool → Channel B → Channel B
  after_full_test full c = record c {
    producer_events =
        if full then record c.producer_events { has_out = false } else c.producer_events;
    consumer_events =
        if ring.is_empty c.rb
        then c.consumer_events
        else record c.consumer_events { has_in = true };
  }

  -- `update_pollee` of a producer
  abbrev pub update_producer : Channel B → Channel B
  update_producer c = after_full_test (ring.is_full c.rb) c

  -- `update_pollee` of a consumer
  abbrev pub update_consumer : Channel B → Channel B
  update_consumer c = record c {
    consumer_events =
        if ring.is_empty c.rb
        then record c.consumer_events { has_in = false }
        else c.consumer_events;
    producer_events =
        if ring.is_full c.rb
        then c.producer_events
        else record c.producer_events { has_out = true };
  }

  -- `try_write`
  unfoldable pub try_write : List T → Channel B → Channel B × Result ℕ
  try_write buf c =
      if c.producer_is_shutdown || c.consumer_is_shutdown
      then (c, err epipe)
      else if is_nil buf
      then (c, ok 0)
      else (let (rb, written_len) = ring.push_slice c.rb buf in
          (
            update_producer (record c { rb = rb }),
            if ltb 0 written_len then ok written_len else err eagain,
          ))

  -- `try_read` into a buffer of length `len`, with the items read.
  unfoldable pub try_read : ℕ → Channel B → Channel B × Result (List T)
  try_read len c = if c.consumer_is_shutdown then (c, err epipe) else elim len [
    | zero ↦ (c, ok [])
    | suc n ↦
        let (rb, items) = ring.pop_slice c.rb (suc n) in
        let c' = update_consumer (record c { rb = rb }) in
        if c.producer_is_shutdown
        then (c', ok items)
        else (c', if is_nil items then err eagain else ok items)
  ]
