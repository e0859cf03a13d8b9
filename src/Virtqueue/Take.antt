-- ===== src/Virtqueue/Take.antt =====
-- What `pop_used` of queue.rs does when the device has completed a chain.

use jinux.Base.{
  ℕ, suc, ◌+◌, ◌%◌, ◌^◌, ◌≡◌, refl, true, false, some, List, ◌++◌, arith, ◌!=◌, length,
}
use jinux.Virtqueue.{VirtQueue, granted, can_pop, available_desc}
use jinux.Virtqueue.Pop.{recycle_descriptors, pop_used, pop_used_with_token, finish_pop, next_used}
use jinux.Virtqueue.Walk.{walk}
use jinux.Virtqueue.Add.{free_list, IsFree}
use jinux.Virtqueue.Recycle.{IsTaken, SparesBefore, recycle_descriptors_lem}

-- What `pop_used` and `pop_used_with_token` promise of the chain `nodes` from `head`
pub record Popped (q : VirtQueue) (head : ℕ) (nodes : List ℕ) (q' : VirtQueue) : Type 0 where
  pub result : pop_used q ≡ some (q', granted (head, (next_used q).len))
  pub by_token : pop_used_with_token q head ≡ some (q', granted (next_used q).len)
  pub free : free_list q' ≡ nodes ++ free_list q
  pub counted : q'.num_used + length nodes ≡ q.num_used
  pub at_head : q'.free_head ≡ head
  pub sized : q'.queue_size ≡ q.queue_size
  pub index : q'.last_used_idx ≡ (q.last_used_idx + 1) % 2 ^ 16

finish_pop-some {ℓ} :
    {A : Type ℓ} (q r : VirtQueue) (head : ℕ) (a : A)
    → recycle_descriptors q head ≡ some r
    → finish_pop q head a ≡ some (record r { last_used_idx = (q.last_used_idx + 1) % 2 ^ 16 }, a)
finish_pop-some q r head a e = rw (e, finish_pop) refl

-- When there is a used element, its id is that of a chain in use, and the descriptor before the chain's head in the
-- table is neither in the chain nor in the free list but for the last of each: `pop_used` and
-- `pop_used_with_token` with that id do not panic and return it with the length that the device wrote. The chain
-- is put in front of the free list in its order, its descriptors are no longer counted as used, and the index of the
-- used ring is one more, in 16 bits.
pub pop_used_lem :
    (q : VirtQueue) (head n : ℕ)
    → can_pop q ≡ true
    → (next_used q).id % 2 ^ 16 ≡ head
    → IsFree q
    → IsTaken q head n
    → SparesBefore q head n
    → (q' : VirtQueue) × Popped q head (walk q.descs head (suc n)) q'
unfolding pop_used pop_used_with_token available_desc
pop_used_lem q head n ready at v t s =
    let (r, i) = recycle_descriptors_lem q head n v t s in
    let same : (head != head) ≡ false = ground arith in
    (
      record r { last_used_idx = (q.last_used_idx + 1) % 2 ^ 16 },
      record {
        result = rw (ready, at) (finish_pop-some q r head _ i.result);
        by_token = rw (ready, at, same) (finish_pop-some q r head _ i.result);
        free = i.free;
        counted = i.counted;
        at_head = i.at_head;
        sized = i.sized;
        index = refl;
      },
    )
