-- ===== src/Virtqueue/Tests.antt =====
-- Runs of the queue of queue.rs at concrete inputs.
use jinux.Base.{ℕ, ◌+◌, ◌≡◌, refl, true, false, Option, none, some, List, [], ◌∷◌, ◌++◌, arith}
use jinux.AlignExt.{is_power_of_two}
use jinux.Virtqueue.{
  VirtQueue, Table, AvailRing, UsedRing, Buffer, granted, refused, invalid_args, buffer_too_small,
  not_ready, wrong_token, new, link, add_buf, available_desc, can_pop, has_next, remove_next,
}
use jinux.Virtqueue.Pop.{recycle_descriptors, pop_used, pop_used_with_token}
use jinux.Virtqueue.Add.{free_list, IsFree, Added, add_buf_lem}
use jinux.Virtqueue.Recycle.{IsTaken, SparesBefore}
use jinux.Virtqueue.Take.{Popped, pop_used_lem}
use jinux.Virtqueue.Idle.{IsIdle, add_buf-pop_used}
use jinux.Virtqueue.Fresh.{new-IsIdle}
use jinux.Virtqueue.Cycle.{recycle_descriptors_cycles}

abbrev blank : Table
blank i = record { addr = 0; len = 0; flags = 0; next = 0 }

abbrev empty_avail : AvailRing
empty_avail = record { flags = 0; idx = 0; ring = λ i. 0 }

abbrev empty_used : UsedRing
empty_used = record { flags = 0; idx = 0; ring = λ i. record { id = 0; len = 0 } }

abbrev used_one : UsedRing
used_one = record { flags = 0; idx = 1; ring = λ i. record { id = 0; len = 7 } }

abbrev four_descs : VirtQueue
four_descs = record {
  descs = link 3 0 blank;
  avail = empty_avail;
  used = empty_used;
  queue_idx = 0;
  queue_size = 4;
  num_used = 0;
  free_head = 0;
  avail_idx = 0;
  last_used_idx = 0;
}

abbrev phys : ℕ → ℕ
phys va = va + 4096

abbrev phys? : ℕ → Option ℕ
phys? va = some (phys va)

abbrev command : List Buffer
command = record { va = 16; size = 5 } ∷ []

abbrev answer : List Buffer
answer = record { va = 32; size = 9 } ∷ []

four_descs-IsFree : IsFree four_descs
unfolding available_desc
four_descs-IsFree = record {
  distinct = (refl, (refl, (refl, (refl, tt))));
  below = (omega arith, (omega arith, (omega arith, (omega arith, tt))));
  bound = omega arith;
  used_bound = omega arith;
}

add_buf_lem_example :
    (q' : VirtQueue) × (nodes : List ℕ) × Added phys? phys four_descs command answer q' nodes
add_buf_lem_example =
    add_buf_lem phys? phys four_descs command answer four_descs-IsFree (omega arith) (omega arith)
      (refl, tt) (refl, tt)

four_descs-IsIdle : IsIdle four_descs
unfolding available_desc
four_descs-IsIdle = record {
  free = four_descs-IsFree;
  unused = refl;
  start = refl;
  end_last = refl;
}

add_buf-pop_used_example :
    (q' q'' : VirtQueue) × (add_buf phys? four_descs command answer ≡ some (q', granted 0))
    × (pop_used (record q' { used = used_one }) ≡ some (q'', granted (0, 7)))
    × (free_list q'' ≡ free_list four_descs)
    × IsIdle q''
add_buf-pop_used_example =
    add_buf-pop_used phys? phys four_descs command answer used_one four_descs-IsIdle (omega arith)
      (omega arith) (refl, tt) (refl, tt) (record { news = ground arith; token = refl })

-- One request of one descriptor is under way and completed.
abbrev one_used : VirtQueue
one_used = record four_descs { used = used_one; num_used = 1; free_head = 1 }

one_used-IsFree : IsFree one_used
unfolding available_desc
one_used-IsFree = record {
  distinct = (refl, (refl, (refl, tt)));
  below = (omega arith, (omega arith, (omega arith, tt)));
  bound = omega arith;
  used_bound = omega arith;
}

one_used-IsTaken : IsTaken one_used 0 0
unfolding available_desc has_next
one_used-IsTaken = record {
  linked = refl;
  below = (omega arith, tt);
  apart = (refl, (refl, (refl, (refl, tt))));
  counted = omega arith;
}

one_used-SparesBefore : SparesBefore one_used 0 0
unfolding available_desc
one_used-SparesBefore = record { chain = refl; free = refl }

one_used-can_pop : can_pop one_used ≡ true
unfolding can_pop
one_used-can_pop = refl

pop_used_lem_example : (q' : VirtQueue) × Popped one_used 0 (0 ∷ []) q'
pop_used_lem_example =
    pop_used_lem one_used 0 0 one_used-can_pop refl one_used-IsFree one_used-IsTaken
      one_used-SparesBefore

-- The first of two requests is taken back: descriptor 0 is free, and 1 is in use.
abbrev one_back : VirtQueue
one_back = record four_descs { num_used = 1; free_head = 0 }

one_back-single : has_next (one_back.descs 1).flags ≡ false
unfolding has_next
one_back-single = refl

recycle_descriptors_cycles_example :
    (q' : VirtQueue) × (recycle_descriptors one_back 1 ≡ some q')
    × (q'.free_head ≡ 1)
    × ((q'.descs 1).next ≡ 0)
    × ((q'.descs 0).next ≡ 1)
recycle_descriptors_cycles_example =
    recycle_descriptors_cycles one_back 1 0 (omega arith) (omega arith) refl refl one_back-single

eight-is_power_of_two : is_power_of_two 8 ≡ true
unfolding is_power_of_two
eight-is_power_of_two = refl

new-IsIdle_example :
    (q : VirtQueue) × (new 3 8 true blank empty_avail empty_used ≡ granted q)
    × IsIdle q
    × (free_list q ≡ 0 ∷ 1 ∷ 2 ∷ 3 ∷ 4 ∷ 5 ∷ 6 ∷ 7 ∷ [])
new-IsIdle_example =
    new-IsIdle 3 8 true blank empty_avail empty_used eight-is_power_of_two (omega arith)

-- What `then` is told of a run
abbrev after {ℓ} : {A B : Type ℓ} → Option A → (A → Option B) → Option B
after none f = none
after (some a) f = f a

-- Two requests of one descriptor each, completed in the order in which they were made: of the four
-- descriptors, the free list then leads through two only, again and again.
abbrev two_in_order : Option (List ℕ)
two_in_order = after (add_buf phys? four_descs command []) (λ a.
    after (add_buf phys? a.0 command []) (λ b.
      after (recycle_descriptors b.0 0)
        (λ c. after (recycle_descriptors c 1) (λ d. some (free_list d)))))

two_in_order_test : two_in_order ≡ some (1 ∷ 0 ∷ 1 ∷ 0 ∷ [])
unfolding add_buf recycle_descriptors has_next remove_next available_desc
two_in_order_test = refl

add_buf_refuses_nothing : add_buf phys? four_descs [] [] ≡ some (four_descs, refused invalid_args)
unfolding add_buf
add_buf_refuses_nothing = refl

add_buf_refuses_too_many :
    add_buf phys? one_used (command ++ command) (answer ++ answer)
    ≡ some (one_used, refused buffer_too_small)
unfolding add_buf
add_buf_refuses_too_many = refl

pop_used_refuses : pop_used four_descs ≡ some (four_descs, refused not_ready)
unfolding pop_used can_pop
pop_used_refuses = refl

pop_used_with_token_refuses : pop_used_with_token one_used 2 ≡ some (one_used, refused wrong_token)
unfolding pop_used_with_token can_pop
pop_used_with_token_refuses = refl
