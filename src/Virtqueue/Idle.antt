-- ===== src/Virtqueue/Idle.antt =====
-- One request at a time through the queue of queue.rs: `new`, `add_buf` and `pop_used` together.
use Prim.Native.Nat.{bit_and}
use jinux.Base.{
  ℕ, suc, ◌+◌, ◌-◌, ◌%◌, ◌^◌, ◌≤◌, ◌<◌, ◌≡◌, ◌≢◌, sym, subst, ap, ◌∙◌, true, false, Option, some,
  List, ◌++◌, arith, length,
}
use jinux.Virtqueue.{
  VirtQueue, Buffer, UsedRing, UsedElem, granted, available_desc, can_pop, add_buf,
}
use jinux.Virtqueue.Pop.{pop_used, next_used}
use jinux.Virtqueue.Walk.{walk, has, init, has-init_left, has-init_right, Distinct, Below}
use jinux.Virtqueue.Fill.{Mapped}
use jinux.Virtqueue.Add.{free_list, IsFree, Added, add_buf_lem, Added-IsFree}
use jinux.Virtqueue.Take.{pop_used_lem}
use jinux.Virtqueue.Linked.{IsTaken-Added}
use jinux.Virtqueue.Recycle.{IsTaken, SparesBefore, length-walk}

-- A queue with no request under way, as after `new`: the free list begins with the first descriptor of the table
-- and has the last one, if at all, at its end.
pub record IsIdle (q : VirtQueue) : Type 0 where
  pub free : IsFree q
  pub unused : q.num_used ≡ 0
  pub start : q.free_head ≡ 0
  pub end_last : has (q.queue_size - 1) (init (free_list q)) ≡ false

-- The device completes the request: it puts another index in its ring, and at the driver's place the token 0.
pub record Completes (q : VirtQueue) (u : UsedRing) : Type 0 where
  pub news : q.last_used_idx ≢ u.idx
  pub token : (u.ring (bit_and q.last_used_idx (q.queue_size - 1))).id ≡ 0

-- Replacing the ring that the device writes changes nothing of the driver's side.
module _ (q : VirtQueue) (u : UsedRing) where
  IsFree-used : IsFree q → IsFree (record q { used = u })
  unfolding available_desc
  IsFree-used v = record {
    distinct = v.distinct;
    below = v.below;
    bound = v.bound;
    used_bound = v.used_bound;
  }

  IsTaken-used : (head n : ℕ) → IsTaken q head n → IsTaken (record q { used = u }) head n
  unfolding available_desc
  IsTaken-used head n t = record {
    linked = t.linked;
    below = t.below;
    apart = t.apart;
    counted = t.counted;
  }

  SparesBefore-used :
      (head n : ℕ) → SparesBefore q head n → SparesBefore (record q { used = u }) head n
  unfolding available_desc
  SparesBefore-used head n s = record { chain = s.chain; free = s.free }

IsIdle-again :
    (q q' : VirtQueue)
    → IsIdle q
    → free_list q' ≡ free_list q
    → q'.queue_size ≡ q.queue_size
    → q'.num_used ≡ 0
    → q'.free_head ≡ 0
    → IsIdle q'
IsIdle-again q q' i same size unused start =
    let bound = i.free.bound in
    record {
      free = record {
        distinct = subst Distinct (sym same) i.free.distinct;
        below =
            subst (λ n. Below n (free_list q')) (sym size)
              (subst (Below q.queue_size) (sym same) i.free.below);
        bound = omega (arith, size);
        used_bound = omega (arith, unused);
      };
      unused = unused;
      start = start;
      end_last =
          subst (λ n. has (n - 1) (init (free_list q')) ≡ false) (sym size)
            (subst (λ xs. has (q.queue_size - 1) (init xs) ≡ false) (sym same) i.end_last);
    }

module _ (paddr : ℕ → Option ℕ) (pa : ℕ → ℕ) (q : VirtQueue) (inputs outputs : List Buffer) where
  SparesBefore-Added :
      (q' : VirtQueue) (m : ℕ) (nodes : List ℕ)
      → IsIdle q
      → length inputs + length outputs ≡ suc m
      → Added paddr pa q inputs outputs q' nodes
      → SparesBefore q' 0 m
  SparesBefore-Added q' m nodes i e a =
      let chain : walk q'.descs 0 (suc m) ≡ nodes =
        ap (λ p. walk q'.descs p (suc m)) (sym i.start)
        ∙ ap (walk q'.descs q.free_head) (sym e)
        ∙ a.chain in
      let end_last : has (q'.queue_size - 1) (init (nodes ++ free_list q')) ≡ false =
        subst (λ size. has (size - 1) (init (nodes ++ free_list q')) ≡ false) (sym a.sized)
          (subst (λ xs. has (q.queue_size - 1) (init xs) ≡ false) a.split i.end_last) in
      record {
        chain =
            subst (λ xs. has (q'.queue_size - 1) (init xs) ≡ false) (sym chain)
              (has-init_left (q'.queue_size - 1) nodes (free_list q') end_last);
        free = has-init_right (q'.queue_size - 1) nodes (free_list q') end_last;
      }

  -- One request on an idle queue, of at least one buffer and at most as many as the queue has
  -- descriptors, whose addresses have a translation: `add_buf` returns the token 0, and when the device has
  -- completed it, `pop_used` returns the token and the length that the device wrote. The free list is then again what it
  -- was, descriptor by descriptor, and the queue is idle for the next request.
  pub add_buf-pop_used :
      (u : UsedRing)
      → IsIdle q
      → 0 < length inputs + length outputs
      → length inputs + length outputs ≤ q.queue_size
      → Mapped paddr pa inputs
      → Mapped paddr pa outputs
      → Completes q u
      → (q' q'' : VirtQueue) × (add_buf paddr q inputs outputs ≡ some (q', granted 0))
        × (pop_used (record q' { used = u })
            ≡ some (q'', granted (0, (u.ring (bit_and q.last_used_idx (q.queue_size - 1))).len)))
        × (free_list q'' ≡ free_list q)
        × IsIdle q''
  unfolding can_pop available_desc
  add_buf-pop_used u i pos room mi mo c =
      let unused = i.unused in
      let (q', nodes, a) = add_buf_lem paddr pa q inputs outputs i.free pos (omega arith) mi mo in
      let m = length inputs + length outputs - 1 in
      let e : length inputs + length outputs ≡ suc m = omega arith in
      let p : VirtQueue = record q' { used = u } in
      let slot : next_used p ≡ u.ring (bit_and q.last_used_idx (q.queue_size - 1)) =
        ap (λ i. u.ring (bit_and i (q'.queue_size - 1))) a.received.1
        ∙ ap (λ size. u.ring (bit_and q.last_used_idx (size - 1))) a.sized in
      let token : (next_used p).id % 2 ^ 16 ≡ 0 =
        ap (λ (x : UsedElem). x.id % 2 ^ 16) slot ∙ ap (λ n. n % 2 ^ 16) c.token in
      let news = c.news in
      let ready : can_pop p ≡ true = ground (arith, a.received.1) in
      let taken = IsTaken-Added paddr pa q inputs outputs q' m nodes i.free e a in
      let v = Added-IsFree paddr pa q inputs outputs q' nodes i.free (omega arith) a in
      let (q'', r) =
        pop_used_lem p 0 m ready token (IsFree-used q' u v)
          (IsTaken-used q' u 0 m (subst (λ h. IsTaken q' h m) i.start taken))
          (SparesBefore-used q' u 0 m (SparesBefore-Added q' m nodes i e a)) in
      let chain : walk q'.descs 0 (suc m) ≡ nodes =
        ap (λ p. walk q'.descs p (suc m)) (sym i.start)
        ∙ ap (walk q'.descs q.free_head) (sym e)
        ∙ a.chain in
      let same : free_list q'' ≡ free_list q =
        r.free ∙ ap (λ xs. xs ++ free_list q') chain ∙ sym a.split in
      let size : q''.queue_size ≡ q.queue_size = r.sized ∙ a.sized in
      let unused' : q''.num_used ≡ 0 =
        omega (arith, r.counted, a.counted, length-walk q'.descs 0 (suc m)) in
      (
        q',
        q'',
        a.result ∙ ap (λ h. some (q', granted h)) i.start,
        r.result ∙ ap (λ (x : UsedElem). some (q'', granted (0, x.len))) slot,
        same,
        IsIdle-again q q'' i same size unused' r.at_head,
      )
