-- ===== src/Channel/Locks.antt =====
-- The two ends of a channel at once, an atomic operation at a time (fs/utils/channel.rs): `update_pollee` of both with
-- the event lock of `Common`. `lock_event` returns a guard that no variable keeps, so it is dropped, and the lock
-- freed, before the next statement. Each end has its own mutex around its half of the ring buffer, which does not keep
-- the other end out: it is not in the model.
use jinux.Base.{ℕ, suc, ◌≡◌, ◌∙◌, sym, refl, Bool, true, false, ◌||◌, List, arith, if◌then◌else◌}
use jinux.Channel.{Ring, Channel, is_nil, update_producer, update_consumer}
use jinux.Channel.Race.{Wakes, false-true}

-- Where an end stands, with the test that it has made.
pub data Pc : Type 0 where
  idle : Pc
  updating : Pc  -- start of `update_pollee`
  guarded : Pc  -- `lock_event` has returned
  unguarded : Pc  -- the next statement
  tested_this : Bool → Pc
  settled : Pc  -- after the first `if`
  tested_peer : Bool → Pc

-- The channel with its `event_lock`, and its two ends.
pub record Ends (B : Type 0) : Type 0 where
  pub channel : Channel B
  pub event_lock : Bool
  pub producer : Pc
  pub consumer : Pc

or_right : (a b : Bool) → (a || b) ≡ false → b ≡ false
or_right a b e = ground (arith, e)

module _ {T B : Type 0} (ring : Ring T B) where
  -- `update_pollee` of a producer
  pub data ProducerMove (c : Channel B) (lock : Bool) : Pc → Channel B → Bool → Pc → Type 0 where
    lock_event : lock ≡ false → ProducerMove c lock updating c true guarded
    drop_guard : ProducerMove c lock guarded c false unguarded
    test_full : ProducerMove c lock unguarded c lock (tested_this (ring.is_full c.rb))
    del_out :
        (full : Bool)
        → ProducerMove c lock
            (tested_this full)
            (record c {
              producer_events =
                  if full then record c.producer_events { has_out = false } else c.producer_events;
            })
            lock
            settled
    test_empty : ProducerMove c lock settled c lock (tested_peer (ring.is_empty c.rb))
    add_in :
        (empty : Bool)
        → ProducerMove c lock
            (tested_peer empty)
            (record c {
              consumer_events =
                  if empty then c.consumer_events else record c.consumer_events { has_in = true };
            })
            lock
            idle

  -- `update_pollee` of a consumer
  pub data ConsumerMove (c : Channel B) (lock : Bool) : Pc → Channel B → Bool → Pc → Type 0 where
    lock_event : lock ≡ false → ConsumerMove c lock updating c true guarded
    drop_guard : ConsumerMove c lock guarded c false unguarded
    test_empty : ConsumerMove c lock unguarded c lock (tested_this (ring.is_empty c.rb))
    del_in :
        (empty : Bool)
        → ConsumerMove c lock
            (tested_this empty)
            (record c {
              consumer_events =
                  if empty then record c.consumer_events { has_in = false } else c.consumer_events;
            })
            lock
            settled
    test_full : ConsumerMove c lock settled c lock (tested_peer (ring.is_full c.rb))
    add_out :
        (full : Bool)
        → ConsumerMove c lock
            (tested_peer full)
            (record c {
              producer_events =
                  if full then c.producer_events else record c.producer_events { has_out = true };
            })
            lock
            idle

  -- Either end changes the buffer in `try_write` or `try_read`, which then call `update_pollee`, or goes on in that.
  pub data Step (s : Ends B) : Ends B → Type 0 where
    write :
        (buf : List T)
        → s.producer ≡ idle
        → (s.channel.producer_is_shutdown || s.channel.consumer_is_shutdown) ≡ false
        → is_nil buf ≡ false
        → Step s (record s {
          channel = record s.channel { rb = (ring.push_slice s.channel.rb buf).0 };
          producer = updating;
        })
    read :
        (n : ℕ)
        → s.consumer ≡ idle
        → s.channel.consumer_is_shutdown ≡ false
        → Step s (record s {
          channel = record s.channel { rb = (ring.pop_slice s.channel.rb (suc n)).0 };
          consumer = updating;
        })
    produce :
        {c : Channel B} {lock : Bool} {pc : Pc}
        → ProducerMove s.channel s.event_lock s.producer c lock pc
        → Step s (record s { channel = c; event_lock = lock; producer = pc })
    consume :
        {c : Channel B} {lock : Bool} {pc : Pc}
        → ConsumerMove s.channel s.event_lock s.consumer c lock pc
        → Step s (record s { channel = c; event_lock = lock; consumer = pc })

  pub data Reach (s : Ends B) : Ends B → Type 0 where
    start : Reach s s
    ◌▹◌ : {t u : Ends B} → Reach s t → Step t u → Reach s u

  infixl 5 ◌▹◌
  -- Both ends are outside of any call, and nobody holds the event lock.
  abbrev pub at_rest : Channel B → Ends B
  at_rest c = record { channel = c; event_lock = false; producer = idle; consumer = idle }

  -- The moves of a producer that no other end interrupts make up its `update_pollee`.
  producer_alone :
      (c : Channel B) (k : Pc)
      → Reach
          (record { channel = c; event_lock = false; producer = updating; consumer = k })
          (record {
            channel = update_producer ring c;
            event_lock = false;
            producer = idle;
            consumer = k;
          })
  producer_alone c k =
      start
      ▹ produce (lock_event refl)
      ▹ produce drop_guard
      ▹ produce test_full
      ▹ produce (del_out _)
      ▹ produce test_empty
      ▹ produce (add_in _)

  -- So do those of a consumer.
  consumer_alone :
      (c : Channel B) (k : Pc)
      → Reach
          (record { channel = c; event_lock = false; producer = k; consumer = updating })
          (record {
            channel = update_consumer ring c;
            event_lock = false;
            producer = k;
            consumer = idle;
          })
  consumer_alone c k =
      start
      ▹ consume (lock_event refl)
      ▹ consume drop_guard
      ▹ consume test_empty
      ▹ consume (del_in _)
      ▹ consume test_full
      ▹ consume (add_out _)

  -- On an open channel with both ends at rest, where a write leaves the buffer full and a read of what is then in it
  -- makes room, the two calls can interleave so that, both done and the event lock free, there is room but the event for
  -- writing is off, so the events no longer show the room.
  pub overlapping_calls_lose_wake :
      (buf : List T) (n : ℕ) (c : Channel B)
      → (c.producer_is_shutdown || c.consumer_is_shutdown) ≡ false
      → is_nil buf ≡ false
      → ring.is_full (ring.push_slice c.rb buf).0 ≡ true
      → ring.is_full (ring.pop_slice (ring.push_slice c.rb buf).0 (suc n)).0 ≡ false
      → (d : Channel B) × Reach (at_rest c) (at_rest d)
        × (d.rb ≡ (ring.pop_slice (ring.push_slice c.rb buf).0 (suc n)).0)
        × (d.producer_events.has_out ≡ false)
        × ¬ Wakes ring d
  overlapping_calls_lose_wake buf n c opened some_items full room = (
    _,
    start
        ▹ write buf refl opened some_items
        ▹ produce (lock_event refl)
        ▹ produce drop_guard
        ▹ produce test_full
        ▹ read n refl (or_right c.producer_is_shutdown c.consumer_is_shutdown opened)
        ▹ consume (lock_event refl)
        ▹ consume drop_guard
        ▹ consume test_empty
        ▹ consume (del_in _)
        ▹ consume test_full
        ▹ consume (add_out _)
        ▹ produce (del_out _)
        ▹ produce test_empty
        ▹ produce (add_in _),
    refl,
    rw full refl,
    λ w. absurd (false-true (sym (rw full refl) ∙ w.writer room)),
  )
