-- ===== src/Channel/Race.antt =====
-- The events of a channel as long as the calls of its ends do not overlap (fs/utils/channel.rs).
use jinux.Base.{
  ℕ, zero, suc, ◌≡◌, ◌∙◌, sym, ap, subst, refl, true, false, ◌||◌, List, [], ◌∷◌, ◌++◌, arith,
  Bool-cases, inl, inr,
}
use jinux.Channel.{Ring, Channel, is_nil, try_write, try_read, update_producer, update_consumer}
use jinux.Channel.Stream.{Op, write, read, close_producer, close_consumer, step, run}

is_nil-append : {T : Type 0} (xs ys : List T) → is_nil ys ≡ false → is_nil (xs ++ ys) ≡ false
is_nil-append [] ys e = e
is_nil-append (x ∷ xs) ys e = refl

pub false-true : ¬ (false ≡ true)
false-true e = cc

module _ {T B : Type 0} (ring : Ring T B) where
  -- A reader sees that there is something to read, and a writer that there is room.
  pub record Wakes (c : Channel B) : Type 0 where
    pub reader : ring.is_empty c.rb ≡ false → c.consumer_events.has_in ≡ true
    pub writer : ring.is_full c.rb ≡ false → c.producer_events.has_out ≡ true

  still_room :
      (xs : List T) (b : B) → ring.is_full (ring.push_slice b xs).0 ≡ false → ring.is_full b ≡ false
  still_room xs b e = ground (arith, ring.push_full_law b xs)

  still_items :
      (n : ℕ) (b : B) → ring.is_empty (ring.pop_slice b n).0 ≡ false → ring.is_empty b ≡ false
  still_items n b e =
      ring.is_empty_law b
      ∙ ap is_nil (ring.pop_law b n)
      ∙ is_nil-append (ring.pop_slice b n).1 (ring.items (ring.pop_slice b n).0)
          (sym (ring.is_empty_law (ring.pop_slice b n).0) ∙ e)

  Wakes-push :
      (buf : List T) (c : Channel B)
      → Wakes c
      → Wakes (update_producer ring (record c { rb = (ring.push_slice c.rb buf).0 }))
  Wakes-push buf c w = record {
    reader = λ e. rw e refl;
    writer = λ e. rw e (w.writer (still_room buf c.rb e));
  }

  Wakes-pop :
      (n : ℕ) (c : Channel B)
      → Wakes c
      → Wakes (update_consumer ring (record c { rb = (ring.pop_slice c.rb n).0 }))
  Wakes-pop n c w = record {
    reader = λ e. rw e (w.reader (still_items n c.rb e));
    writer = λ e. rw e refl;
  }

  try_write-Wakes : (buf : List T) (c : Channel B) → Wakes c → Wakes (try_write ring buf c).0
  unfolding try_write
  try_write-Wakes buf c w = elim (Bool-cases (c.producer_is_shutdown || c.consumer_is_shutdown)) [
    | inl closed ↦ rw (closed, try_write) w
    | inr opened ↦ elim (Bool-cases (is_nil buf)) [
      | inl nil ↦ rw (opened, try_write) (rw (nil, try_write) w)
      | inr full ↦ rw (opened, try_write) (rw (full, try_write) (Wakes-push buf c w))
    ]
  ]

  try_read-closed :
      (len : ℕ) (c : Channel B) → c.consumer_is_shutdown ≡ true → (try_read ring len c).0 ≡ c
  unfolding try_read
  try_read-closed zero c closed = rw (closed, try_read) refl
  try_read-closed (suc n) c closed = rw (closed, try_read) refl

  try_read-none : (c : Channel B) → (try_read ring 0 c).0 ≡ c
  unfolding try_read
  try_read-none c = elim (Bool-cases c.consumer_is_shutdown) [
    | inl closed ↦ rw (closed, try_read) refl
    | inr opened ↦ rw (opened, try_read) refl
  ]

  try_read-some :
      (n : ℕ) (c : Channel B)
      → c.consumer_is_shutdown ≡ false
      → (try_read ring (suc n) c).0
        ≡ update_consumer ring (record c { rb = (ring.pop_slice c.rb (suc n)).0 })
  unfolding try_read
  try_read-some n c opened = elim (Bool-cases c.producer_is_shutdown) [
    | inl hung ↦ rw (opened, try_read) (rw (hung, try_read) refl)
    | inr live ↦ rw (opened, try_read) (rw (live, try_read) refl)
  ]

  try_read-Wakes : (len : ℕ) (c : Channel B) → Wakes c → Wakes (try_read ring len c).0
  try_read-Wakes zero c w = subst Wakes (sym (try_read-none c)) w
  try_read-Wakes (suc n) c w = elim (Bool-cases c.consumer_is_shutdown) [
    | inl closed ↦ subst Wakes (sym (try_read-closed (suc n) c closed)) w
    | inr opened ↦ subst Wakes (sym (try_read-some n c opened)) (Wakes-pop (suc n) c w)
  ]

  step-Wakes : (op : Op T) (c : Channel B) → Wakes c → Wakes (step ring op c).0
  step-Wakes (write buf) c w = try_write-Wakes buf c w
  step-Wakes (read len) c w = try_read-Wakes len c w
  step-Wakes close_producer c w = record { reader = w.reader; writer = w.writer }
  step-Wakes close_consumer c w = record { reader = w.reader; writer = w.writer }

  -- As long as the calls of the two ends do not overlap, no wake-up is lost: after any sequence of calls on a channel
  -- whose events show its contents and its room, they do so again.
  pub run-Wakes : (ops : List (Op T)) (c : Channel B) → Wakes c → Wakes (run ring ops c).0
  run-Wakes [] c w = w
  run-Wakes (op ∷ ops) c w = run-Wakes ops (step ring op c).0 (step-Wakes op c w)
