-- ===== src/Channel/Tests.antt =====
-- A channel over a buffer of two items (fs/utils/channel.rs).
use jinux.Base.{
  ℕ, zero, suc, ◌-◌, ◌≡◌, ap, refl, true, false, List, [], ◌∷◌, ◌++◌, ok, err, eagain, length,
  length-append, leb, arith,
}
use jinux.Channel.{Ring, Channel, is_nil, new, try_write, try_read}
use jinux.Channel.Stream.{Op, write, read, close_producer, take, run, run-items}
use jinux.Channel.Race.{Wakes, run-Wakes}
use jinux.Channel.Locks.{Reach, at_rest, overlapping_calls_lose_wake}

abbrev drop : ℕ → List ℕ → List ℕ
drop zero xs = xs
drop (suc n) [] = []
drop (suc n) (x ∷ xs) = drop n xs

take-drop : (n : ℕ) (xs : List ℕ) → xs ≡ take n xs ++ drop n xs
take-drop zero xs = refl
take-drop (suc n) [] = refl
take-drop (suc n) (x ∷ xs) = ap (λ l. x ∷ l) (take-drop n xs)

abbrev two_slots_push : List ℕ → List ℕ → List ℕ
two_slots_push b xs = b ++ take (2 - length b) xs

full_stays : (b xs : List ℕ) → leb 2 (length b) ≡ true → leb 2 (length (two_slots_push b xs)) ≡ true
full_stays b xs e = ground (arith, e, length-append b (take (2 - length b) xs))

abbrev two_slots : Ring ℕ (List ℕ)
two_slots = record {
  items = λ b. b;
  push_slice = λ b xs. (two_slots_push b xs, length (take (2 - length b) xs));
  pop_slice = λ b n. (drop n b, take n b);
  is_empty = λ b. is_nil b;
  is_full = λ b. leb 2 (length b);
  is_empty_law = λ b. refl;
  push_law = λ b xs.
      (take (2 - length b) xs, drop (2 - length b) xs, take-drop (2 - length b) xs, refl, refl);
  push_full_law = full_stays;
  pop_law = λ b n. take-drop n b;
}

write_three : (try_write two_slots (1 ∷ 2 ∷ 3 ∷ []) (new [])).1 ≡ ok 2
unfolding try_write
write_three = refl

read_nothing : (try_read two_slots 3 (new [])).1 ≡ err eagain
unfolding try_read
read_nothing = refl

abbrev calls : List (Op ℕ)
calls = write (1 ∷ 2 ∷ 3 ∷ []) ∷ read 1 ∷ write (4 ∷ []) ∷ close_producer ∷ read 5 ∷ []

abbrev full_channel : Channel (List ℕ)
full_channel = record (new []) { rb = 1 ∷ 2 ∷ [] }

run-items_example :
    (run two_slots calls (new [])).1
    ≡ (run two_slots calls (new [])).2 ++ (run two_slots calls (new [])).0.rb
run-items_example = run-items two_slots calls (new [])

run-Wakes_example : Wakes two_slots (run two_slots calls (new [])).0
run-Wakes_example =
    run-Wakes two_slots calls (new [])
      (record { reader = λ e. ground (arith, e); writer = λ e. refl })

-- The producer finds no room for 3, while the consumer takes 1.
overlapping_calls_lose_wake_example :
    (d : Channel (List ℕ)) × Reach two_slots (at_rest two_slots full_channel) (at_rest two_slots d)
    × (d.rb ≡ 2 ∷ [])
    × (d.producer_events.has_out ≡ false)
    × ¬ Wakes two_slots d
overlapping_calls_lose_wake_example =
    overlapping_calls_lose_wake two_slots (3 ∷ []) 0 full_channel refl refl refl refl
