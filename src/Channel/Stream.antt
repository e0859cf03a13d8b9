-- ===== src/Channel/Stream.antt =====
-- A channel delivers what is written, in order (fs/utils/channel.rs).
use mathlib.Core.List.{append_assoc}
use jinux.Base.{
  ℕ, zero, suc, ◌≡◌, ◌∙◌, sym, ap, subst, refl, true, ◌||◌, List, [], ◌∷◌, ◌++◌, Result, ok, err,
  eagain, if◌then◌else◌, length, ltb, arith, Bool-cases, inl, inr,
}
use jinux.Channel.{Ring, Channel, is_nil, try_write, try_read, drop_producer, drop_consumer}

-- A call of one of the ends.
pub data Op (T : Type 0) : Type 0 where
  write : List T → Op T
  read : ℕ → Op T
  close_producer : Op T
  close_consumer : Op T

abbrev pub take : {T : Type 0} → ℕ → List T → List T
take zero xs = []
take (suc n) [] = []
take (suc n) (x ∷ xs) = x ∷ take n xs

take-length : {T : Type 0} (xs ys : List T) → take (length xs) (xs ++ ys) ≡ xs
take-length [] ys = refl
take-length (x ∷ xs) ys = ap (λ l. x ∷ l) (take-length xs ys)

append_nil : {T : Type 0} (xs : List T) → xs ++ [] ≡ xs
append_nil [] = refl
append_nil (x ∷ xs) = ap (λ l. x ∷ l) (append_nil xs)

-- What a write has sent by its result, and what a read has received.
abbrev pub sent : {T : Type 0} → List T → Result ℕ → List T
sent buf (ok n) = take n buf
sent buf (err e) = []

abbrev pub received : {T : Type 0} → Result (List T) → List T
received (ok items) = items
received (err e) = []

positive : (n : ℕ) → ltb 0 (suc n) ≡ true
positive n = ground arith

written :
    {T : Type 0} (buf : List T) (n : ℕ) (pushed rest : List T)
    → buf ≡ pushed ++ rest
    → n ≡ length pushed
    → sent buf (if ltb 0 n then ok n else err eagain) ≡ pushed
written buf n [] rest e f = ground (arith, f)
written buf n (x ∷ pushed) rest e f =
    subst (λ k. sent buf (if ltb 0 k then ok k else err eagain) ≡ x ∷ pushed) (sym f)
      (rw (positive (length pushed))
        (ap (take (length (x ∷ pushed))) e ∙ take-length (x ∷ pushed) rest))

received-again :
    {T : Type 0} (items : List T) → received (if is_nil items then err eagain else ok items) ≡ items
received-again [] = refl
received-again (x ∷ items) = refl

module _ {T B : Type 0} (ring : Ring T B) where
  -- A call, with what it sends and receives.
  abbrev pub step : Op T → Channel B → Channel B × List T × List T
  step (write buf) c = let (c', r) = try_write ring buf c in (c', sent buf r, [])
  step (read len) c = let (c', r) = try_read ring len c in (c', [], received r)
  step close_producer c = (drop_producer c, [], [])
  step close_consumer c = (drop_consumer c, [], [])

  abbrev pub run : List (Op T) → Channel B → Channel B × List T × List T
  run [] c = (c, [], [])
  run (op ∷ ops) c =
      let (c1, s, r) = step op c in let (c2, ss, rs) = run ops c1 in (c2, s ++ ss, r ++ rs)

  try_write-items :
      (buf : List T) (c : Channel B)
      → ring.items c.rb ++ sent buf (try_write ring buf c).1
        ≡ ring.items (try_write ring buf c).0.rb
  unfolding try_write
  try_write-items buf c = elim (Bool-cases (c.producer_is_shutdown || c.consumer_is_shutdown)) [
    | inl closed ↦ rw (closed, try_write) (append_nil (ring.items c.rb))
    | inr opened ↦ elim (Bool-cases (is_nil buf)) [
      | inl nil ↦ rw (opened, try_write) (rw (nil, try_write) (append_nil (ring.items c.rb)))
      | inr full ↦
          let (pushed, rest, e, f, n) = ring.push_law c.rb buf in
          rw (opened, try_write)
            (rw (full, try_write)
              (ap (λ x. ring.items c.rb ++ x)
                  (written buf (ring.push_slice c.rb buf).1 pushed rest e n)
                ∙ sym f))
    ]
  ]

  try_read-items :
      (len : ℕ) (c : Channel B)
      → ring.items c.rb ≡ received (try_read ring len c).1 ++ ring.items (try_read ring len c).0.rb
  unfolding try_read
  try_read-items zero c = elim (Bool-cases c.consumer_is_shutdown) [
    | inl closed ↦ rw (closed, try_read) refl
    | inr opened ↦ rw (opened, try_read) refl
  ]
  try_read-items (suc n) c = elim (Bool-cases c.consumer_is_shutdown) [
    | inl closed ↦ rw (closed, try_read) refl
    | inr opened ↦ elim (Bool-cases c.producer_is_shutdown) [
      | inl hung ↦ rw (opened, try_read) (rw (hung, try_read) (ring.pop_law c.rb (suc n)))
      | inr live ↦
          rw (opened, try_read)
            (rw (live, try_read)
              (ring.pop_law c.rb (suc n)
                ∙ ap (λ x. x ++ ring.items (ring.pop_slice c.rb (suc n)).0)
                    (sym (received-again (ring.pop_slice c.rb (suc n)).1))))
    ]
  ]

  step-items :
      (op : Op T) (c : Channel B)
      → ring.items c.rb ++ (step op c).1 ≡ (step op c).2 ++ ring.items (step op c).0.rb
  step-items (write buf) c = try_write-items buf c
  step-items (read len) c = append_nil (ring.items c.rb) ∙ try_read-items len c
  step-items close_producer c = append_nil (ring.items c.rb)
  step-items close_consumer c = append_nil (ring.items c.rb)

  -- Over any sequence of calls of the two ends, closings included, the items that were in the channel and those that were
  -- written are the items that were read and those that are still in it, in the same order.
  pub run-items :
      (ops : List (Op T)) (c : Channel B)
      → ring.items c.rb ++ (run ops c).1 ≡ (run ops c).2 ++ ring.items (run ops c).0.rb
  run-items [] c = append_nil (ring.items c.rb)
  run-items (op ∷ ops) c =
      let c1 = (step op c).0 in
      sym (append_assoc (ring.items c.rb) (step op c).1 (run ops c1).1)
      ∙ ap (λ x. x ++ (run ops c1).1) (step-items op c)
      ∙ append_assoc (step op c).2 (ring.items c1.rb) (run ops c1).1
      ∙ ap (λ x. (step op c).2 ++ x) (run-items ops c1)
      ∙ sym (append_assoc (step op c).2 (run ops c1).2 (ring.items (run ops c1).0.rb))
