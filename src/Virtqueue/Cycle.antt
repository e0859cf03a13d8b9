-- ===== src/Virtqueue/Cycle.antt =====
-- What `recycle_descriptors` of queue.rs writes into the descriptor before the one that it takes back.
use jinux.Base.{ℕ, suc, ◌-◌, ◌<◌, ◌≡◌, refl, ap, ◌∙◌, false, some, arith, ◌==◌, ltb}
use jinux.Virtqueue.{VirtQueue, has_next, write_next}
use jinux.Virtqueue.Pop.{recycle_chain, recycle_descriptors, last_free_head}

-- Taking back the single descriptor `head` when the descriptor before it in the table is the head of the free
-- list, as when two requests of one descriptor each are completed in the order in which they were made: the free
-- list becomes a cycle of the two, and every other free descriptor is lost from it.
pub recycle_descriptors_cycles :
    (q : VirtQueue) (head u : ℕ)
    → 0 < head
    → head < q.queue_size
    → q.free_head ≡ head - 1
    → q.num_used ≡ suc u
    → has_next (q.descs head).flags ≡ false
    → (q' : VirtQueue) × (recycle_descriptors q head ≡ some q')
      × (q'.free_head ≡ head)
      × ((q'.descs head).next ≡ q.free_head)
      × ((q'.descs q.free_head).next ≡ head)
unfolding recycle_descriptors has_next
recycle_descriptors_cycles q head u pos within before used single =
    let at_zero : (head == 0) ≡ false = ground arith in
    let low : ltb q.queue_size head ≡ false = ground arith in
    let other : (head - 1 == head) ≡ false = ground arith in
    let d = write_next q.descs (head - 1) head in
    let q' : VirtQueue = record q {
      descs = write_next d head q.free_head;
      num_used = u;
      free_head = head;
    } in
    let place : last_free_head q.queue_size head ≡ head - 1 = rw at_zero refl in
    let low_before : ltb q.queue_size (last_free_head q.queue_size head) ≡ false =
      rw at_zero (ground arith) in
    let run : recycle_chain q.queue_size q.free_head
          (write_next q.descs (last_free_head q.queue_size head) head) head q.num_used
        ≡ some (q'.descs, u) =
      ap (λ b. recycle_chain q.queue_size q.free_head (write_next q.descs b head) head q.num_used)
        place
      ∙ ap (recycle_chain q.queue_size q.free_head d head) used
      ∙ rw (other, low, single) refl in
    (q', rw (low_before, run) refl, refl, ground arith, ground arith)
