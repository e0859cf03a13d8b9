-- ===== src/Virtqueue/Add.antt =====
-- What `add_buf` and `add_vm` of queue.rs do to the free list, and what they show the device.
use Prim.Native.Nat.{bit_and}
use jinux.Base.{
  ℕ, ◌+◌, ◌-◌, ◌%◌, ◌^◌, ◌≤◌, ◌<◌, ◌≡◌, refl, sym, subst, ap, ◌∙◌, false, ◌&&◌, Option, some, List,
  ◌++◌, map, arith, ◌==◌, ltb, length,
}
use jinux.Virtqueue.{VirtQueue, Buffer, Filling, granted, add_buf, available_desc, publish}
use jinux.Virtqueue.Walk.{
  walk, walk_end, walk-add, has, Distinct, Below, SameNext, walk-SameNext, Distinct-append_left,
  Distinct-append_right, Below-append_left, Below-append_right,
}
use jinux.Virtqueue.Fill.{request, Mapped}
use jinux.Virtqueue.Both.{
  unlinked, unlink_last, map-unlinked-walk, has-last_of-walk, SameNext-unlinked, linked_requests,
  FilledBoth, take_both_lem,
}

-- The free list of a queue
abbrev pub free_list : VirtQueue → List ℕ
free_list q = walk q.descs q.free_head (available_desc q)

-- The free list is a list of different descriptors of the table.
pub record IsFree (q : VirtQueue) : Type 0 where
  pub distinct : Distinct (free_list q)
  pub below : Below q.queue_size (free_list q)
  pub bound : q.queue_size ≤ 256
  pub used_bound : q.num_used ≤ q.queue_size

module _ (paddr : ℕ → Option ℕ) (pa : ℕ → ℕ) (q : VirtQueue) (inputs outputs : List Buffer) where
  -- What `add_buf` promises, with `nodes` the descriptors of the new chain
  pub record Added (q' : VirtQueue) (nodes : List ℕ) : Type 0 where
    pub result : add_buf paddr q inputs outputs ≡ some (q', granted q.free_head)
    pub chain : walk q'.descs q.free_head (length inputs + length outputs) ≡ nodes
    pub split : free_list q ≡ nodes ++ free_list q'
    pub content :
        map (request q'.descs) nodes
        ≡ unlink_last (linked_requests paddr pa q.queue_size inputs outputs)
    pub outside : (i : ℕ) → has i nodes ≡ false → q'.descs i ≡ q.descs i
    pub same : SameNext q.descs q'.descs
    pub counted : q'.num_used ≡ q.num_used + (length inputs + length outputs)
    pub sized : q'.queue_size ≡ q.queue_size
    pub received : (q'.used ≡ q.used) × (q'.last_used_idx ≡ q.last_used_idx)
    pub offered : q'.avail.ring (bit_and q.avail_idx (q.queue_size - 1)) ≡ q.free_head
    pub index : q'.avail.idx ≡ (q.avail_idx + 1) % 2 ^ 16

  Added-of_both :
      (h : Filling)
      → IsFree q
      → 0 < length inputs + length outputs
      → length inputs + length outputs + q.num_used ≤ q.queue_size
      → Distinct (walk q.descs q.free_head (length inputs + length outputs))
      → FilledBoth paddr pa q.queue_size inputs outputs
          (record { table = q.descs; free = q.free_head; last = q.free_head })
          h
          (walk q.descs q.free_head (length inputs + length outputs))
      → Added
          (publish q (length inputs + length outputs) h).0
          (walk q.descs q.free_head (length inputs + length outputs))
  unfolding add_buf available_desc
  Added-of_both h v pos room apart b =
      let n = length inputs + length outputs in
      let nodes = walk q.descs q.free_head n in
      let q' = (publish q n h).0 in
      let same : SameNext q.descs q'.descs = λ i. SameNext-unlinked h.table h.last i ∙ b.same i in
      let nonempty : (length inputs == 0 && length outputs == 0) ≡ false = ground arith in
      let enough : ltb q.queue_size (n + q.num_used) ≡ false = ground arith in
      let rest : available_desc q ≡ n + available_desc q' = omega (arith, v.bound, v.used_bound) in
      record {
        result = rw (nonempty, enough, b.result_inputs, b.result_outputs) refl;
        chain = walk-SameNext q.descs q'.descs same q.free_head n;
        split =
            ap (walk q.descs q.free_head) rest
            ∙ walk-add q.descs q.free_head n (available_desc q')
            ∙ ap (λ t. nodes ++ t)
                (ap (λ p. walk q.descs p (available_desc q')) (sym b.free)
                  ∙ sym (walk-SameNext q.descs q'.descs same h.free (available_desc q')));
        content =
            ap (λ l. map (request (unlinked h.table l)) nodes) b.last
            ∙ map-unlinked-walk h.table q.descs q.free_head n apart
            ∙ ap unlink_last b.content;
        outside = λ i o.
            let other : (h.last == i) ≡ false =
              ground (arith, b.last, has-last_of-walk h.table q.descs q.free_head n pos) in
            rw other (b.outside i o);
        same = same;
        counted = omega (arith, v.bound);
        sized = refl;
        received = (refl, refl);
        offered = ground arith;
        index = refl;
      }

  -- `add_buf` of at least one buffer and no more than there are free descriptors, of which all addresses
  -- have a translation, on a queue with a proper free list: it does not panic, and returns the head of the free list. The
  -- descriptors before the new free list are the old one's first; they are linked in that order, hold the addresses, the
  -- lengths and the flags of the inputs and then of the outputs, and the last of them is not marked to have a
  -- successor. No other descriptor changes, the number of used descriptors grows by theirs, the slot of the
  -- available ring at the old index holds the token, and the index is one more, in 16 bits.
  pub add_buf_lem :
      IsFree q
      → 0 < length inputs + length outputs
      → length inputs + length outputs + q.num_used ≤ q.queue_size
      → Mapped paddr pa inputs
      → Mapped paddr pa outputs
      → (q' : VirtQueue) × (nodes : List ℕ) × Added q' nodes
  unfolding available_desc
  add_buf_lem v pos room m o =
      let n = length inputs + length outputs in
      let nodes = walk q.descs q.free_head n in
      let rest = walk q.descs (walk_end q.descs q.free_head n) (q.queue_size - q.num_used - n) in
      let used_bound = v.used_bound in
      let e : available_desc q ≡ n + (q.queue_size - q.num_used - n) = omega arith in
      let split : free_list q ≡ nodes ++ rest =
        ap (walk q.descs q.free_head) e ∙ walk-add q.descs q.free_head n _ in
      let apart = Distinct-append_left nodes rest (subst Distinct split v.distinct) in
      let within =
        Below-append_left q.queue_size nodes rest (subst (Below q.queue_size) split v.below) in
      let (h, b) = take_both_lem paddr pa q.queue_size inputs outputs _ m o apart within in
      ((publish q n h).0, nodes, Added-of_both h v pos room apart b)

  -- The free list of the new queue is proper again.
  pub Added-IsFree :
      (q' : VirtQueue) (nodes : List ℕ)
      → IsFree q
      → length inputs + length outputs + q.num_used ≤ q.queue_size
      → Added q' nodes
      → IsFree q'
  Added-IsFree q' nodes v room a =
      let bound = v.bound in
      record {
        distinct = Distinct-append_right nodes (free_list q') (subst Distinct a.split v.distinct);
        below =
            subst (λ s. Below s (free_list q')) (sym a.sized)
              (Below-append_right q.queue_size nodes (free_list q')
                (subst (Below q.queue_size) a.split v.below));
        bound = omega (arith, a.sized);
        used_bound = omega (arith, a.sized, a.counted);
      }
