-- ===== src/Virtqueue/Pop.antt =====
-- The half of queue.rs that takes back what the device has used.
use Prim.Native.Nat.{bit_and}
use jinux.Base.{
  ℕ, zero, suc, ◌+◌, ◌-◌, ◌%◌, ◌^◌, Option, none, some, ◌==◌, ◌!=◌, ltb, if◌then◌else◌,
}
use jinux.Virtqueue.{
  VirtQueue, Table, UsedElem, Answer, granted, refused, not_ready, wrong_token, has_next,
  write_next, can_pop,
}

-- The loop of `recycle_descriptors`, which counts `num_used` down: the table and the count that it leaves
abbrev pub recycle_chain : ℕ → ℕ → Table → ℕ → ℕ → Option (Table × ℕ)
recycle_chain size origin_free_head d head zero = none
recycle_chain size origin_free_head d head (suc num_used) =
    let rest = recycle_chain size origin_free_head d (d head).next num_used in
    if ltb size head
    then none
    else if has_next (d head).flags
    then rest
    else some (write_next d head origin_free_head, num_used)

-- `last_free_head`
abbrev pub last_free_head : ℕ → ℕ → ℕ
last_free_head size head = if head == 0 then size - 1 else head - 1

-- `VirtQueue::recycle_descriptors`
unfoldable pub recycle_descriptors : VirtQueue → ℕ → Option VirtQueue
unfolding has_next
recycle_descriptors q head =
    let before = last_free_head q.queue_size head in
    if ltb q.queue_size before
    then none
    else elim (recycle_chain q.queue_size q.free_head (write_next q.descs before head) head
        q.num_used) [
          | none ↦ none
          | some (d, n) ↦ some (record q { descs = d; num_used = n; free_head = head })
        ]

-- The used element that is next for the driver
abbrev pub next_used : VirtQueue → UsedElem
next_used q = q.used.ring (bit_and q.last_used_idx (q.queue_size - 1))

-- What both ways to pop end with
abbrev pub finish_pop {ℓ} : {A : Type ℓ} → VirtQueue → ℕ → A → Option (VirtQueue × A)
finish_pop q index a = elim (recycle_descriptors q index) [
  | none ↦ none
  | some r ↦ some (record r { last_used_idx = (q.last_used_idx + 1) % 2 ^ 16 }, a)
]

-- `VirtQueue::pop_used`; the id of an element is cut to 16 bits.
unfoldable pub pop_used : VirtQueue → Option (VirtQueue × Answer (ℕ × ℕ))
pop_used q =
    if can_pop q
    then (let index = (next_used q).id % 2 ^ 16 in
        finish_pop q index (granted (index, (next_used q).len)))
    else some (q, refused not_ready)

-- `VirtQueue::pop_used_with_token`
unfoldable pub pop_used_with_token : VirtQueue → ℕ → Option (VirtQueue × Answer ℕ)
pop_used_with_token q token =
    if can_pop q
    then (let index = (next_used q).id % 2 ^ 16 in
        if index != token
        then some (q, refused wrong_token)
        else finish_pop q index (granted (next_used q).len))
    else some (q, refused not_ready)
