-- ===== src/Virtqueue/Recycle.antt =====
-- What `recycle_descriptors` and `pop_used` of queue.rs do to the free list.

use jinux.Base.{
  ℕ, zero, suc, ◌+◌, ◌-◌, ◌≤◌, ◌≡◌, refl, sym, subst, ap, ◌∙◌, Bool, true, false, some, List, [],
  ◌∷◌, ◌++◌, map, arith, ◌==◌, ltb, if◌then◌else◌, length,
}
use jinux.Virtqueue.{VirtQueue, Table, available_desc, has_next, write_next}
use jinux.Virtqueue.Pop.{recycle_chain, recycle_descriptors, last_free_head}
use jinux.Virtqueue.Walk.{
  walk, walk_end, walk-add, walk_end-suc, has, init, has-init_le, has-walk_end, has-init-walk_end,
  Distinct, Distinct-append_left, Distinct-append_apart, Below, walk-write_next,
  walk_end-write_next,
}
use jinux.Virtqueue.Fill.{Request, request}
use jinux.Virtqueue.Add.{free_list, IsFree}

-- A chain as the device reads it: all requests but the last are marked to have a successor.
abbrev pub IsLinked : List Request → Type 0
IsLinked [] = false ≡ true
IsLinked (r ∷ []) = has_next r.2 ≡ false
IsLinked (r ∷ s ∷ rs) = (has_next r.2 ≡ true) × IsLinked (s ∷ rs)

recycle_chain_lem :
    (size origin : ℕ) (d : Table) (p n k : ℕ)
    → IsLinked (map (request d) (walk d p (suc n)))
    → Below size (walk d p (suc n))
    → recycle_chain size origin d p (suc n + k) ≡ some (write_next d (walk_end d p n) origin, k)
recycle_chain_lem size origin d p zero k l b =
    let e : suc zero + k ≡ suc k = omega arith in
    let within : ltb size p ≡ false = ground arith in rw (e, within, l) refl
recycle_chain_lem size origin d p (suc n) k l b =
    let e : suc (suc n) + k ≡ suc (suc n + k) = omega arith in
    let within : ltb size p ≡ false = ground arith in
    rw (e, within, l.0) (recycle_chain_lem size origin d (d p).next n k l.1 b.1)

pub request-write_next :
    (d : Table) (a v : ℕ) (xs : List ℕ) → map (request (write_next d a v)) xs ≡ map (request d) xs
request-write_next d a v [] = refl
request-write_next d a v (x ∷ xs) =
    let head : request (write_next d a v) x ≡ request d x = ground arith in
    rw (head, request-write_next d a v xs) refl

-- What taking back the chain `nodes` from `head` promises
pub record Recycled (q : VirtQueue) (head : ℕ) (nodes : List ℕ) (q' : VirtQueue) : Type 0 where
  pub result : recycle_descriptors q head ≡ some q'
  pub free : free_list q' ≡ nodes ++ free_list q
  pub counted : q'.num_used + length nodes ≡ q.num_used
  pub requests : (xs : List ℕ) → map (request q'.descs) xs ≡ map (request q.descs) xs
  pub at_head : q'.free_head ≡ head
  pub sized : q'.queue_size ≡ q.queue_size

-- A chain of `suc n` descriptors from `head` that is apart from the free list and counted as used
pub record IsTaken (q : VirtQueue) (head n : ℕ) : Type 0 where
  pub linked : IsLinked (map (request q.descs) (walk q.descs head (suc n)))
  pub below : Below q.queue_size (walk q.descs head (suc n))
  pub apart : Distinct (walk q.descs head (suc n) ++ free_list q)
  pub counted : suc n ≤ q.num_used

-- The descriptor before `head` in the table, of which `recycle_descriptors` changes the `next` field, is
-- neither in the chain nor in the free list but for the last of each.
pub record SparesBefore (q : VirtQueue) (head n : ℕ) : Type 0 where
  pub chain : has (last_free_head q.queue_size head) (init (walk q.descs head (suc n))) ≡ false
  pub free : has (last_free_head q.queue_size head) (init (free_list q)) ≡ false

module _ (d : Table) (before head origin n k : ℕ) where
  -- The table after both writes of `recycle_descriptors`
  abbrev relinked : Table
  relinked = write_next (write_next d before head) (walk_end d head n) origin

  walk-relinked :
      Distinct (walk d head (suc n) ++ walk d origin k)
      → has before (init (walk d head (suc n))) ≡ false
      → has before (init (walk d origin k)) ≡ false
      → walk relinked head (suc n + k) ≡ walk d head (suc n) ++ walk d origin k
  walk-relinked apart chain free =
      let e = write_next d before head in
      let last = walk_end d head n in
      let same_chain : walk e head (suc n) ≡ walk d head (suc n) =
        walk-write_next d before head head (suc n) chain in
      let same_end : walk_end e head n ≡ last = walk_end-write_next d before head head n chain in
      let same_free : walk e origin k ≡ walk d origin k =
        walk-write_next d before head origin k free in
      let apart_chain = Distinct-append_left (walk d head (suc n)) (walk d origin k) apart in
      let last_once : has last (init (walk e head (suc n))) ≡ false =
        subst (λ xs. has last (init xs) ≡ false) (sym same_chain)
          (has-init-walk_end d head n apart_chain) in
      let last_apart : has last (init (walk e origin k)) ≡ false =
        subst (λ xs. has last (init xs) ≡ false) (sym same_free)
          (has-init_le last (walk d origin k) (
            Distinct-append_apart (walk d head (suc n)) (walk d origin k) last apart
              (has-walk_end d head n))) in
      let here : (last == last) ≡ true = ground arith in
      let joined : walk_end relinked head (suc n) ≡ origin =
        walk_end-suc relinked head n
        ∙ ap (λ i. (relinked i).next)
            (walk_end-write_next e last origin head n last_once ∙ same_end)
        ∙ ap (λ (t : Bool). (if t then record (e last) { next = origin } else e last).next) here in
      walk-add relinked head (suc n) k
      ∙ ap (λ t. t ++ walk relinked (walk_end relinked head (suc n)) k)
          (walk-write_next e last origin head (suc n) last_once ∙ same_chain)
      ∙ ap (λ p. walk d head (suc n) ++ walk relinked p k) joined
      ∙ ap (λ t. walk d head (suc n) ++ t)
          (walk-write_next e last origin origin k last_apart ∙ same_free)

pub length-walk : (d : Table) (p n : ℕ) → length (walk d p n) ≡ n
length-walk d p zero = refl
length-walk d p (suc n) = ap suc (length-walk d (d p).next n)

module _ (q : VirtQueue) (head n : ℕ) where
  pub recycle_descriptors_lem :
      IsFree q
      → IsTaken q head n
      → SparesBefore q head n
      → (q' : VirtQueue) × Recycled q head (walk q.descs head (suc n)) q'
  unfolding recycle_descriptors available_desc has_next
  recycle_descriptors_lem v t s =
      let before = last_free_head q.queue_size head in
      let d = write_next q.descs before head in
      let nodes = walk q.descs head (suc n) in
      let k = q.num_used - suc n in
      let counted = t.counted in
      let used_bound = v.used_bound in
      let first = t.below.0 in
      let in_table : ltb q.queue_size before ≡ false = ground arith in
      let same_nodes : walk d head (suc n) ≡ nodes =
        walk-write_next q.descs before head head (suc n) s.chain in
      let chained =
        recycle_chain_lem q.queue_size q.free_head d head n k
          (subst (λ xs. IsLinked (map (request d) xs)) (sym same_nodes)
            (subst IsLinked (sym (request-write_next q.descs before head nodes)) t.linked))
          (subst (Below q.queue_size) (sym same_nodes) t.below) in
      let used : q.num_used ≡ suc n + k = omega arith in
      let q' : VirtQueue = record q {
        descs = relinked q.descs before head q.free_head n (available_desc q);
        num_used = k;
        free_head = head;
      } in
      let run : recycle_chain q.queue_size q.free_head d head q.num_used ≡ some (q'.descs, k) =
        ap (recycle_chain q.queue_size q.free_head d head) used
        ∙ chained
        ∙ ap (λ l. some (write_next d l q.free_head, k))
            (walk_end-write_next q.descs before head head n s.chain) in
      let longer : available_desc q' ≡ suc n + available_desc q = omega arith in
      (
        q',
        record {
          result = rw (in_table, run) refl;
          free =
              ap (walk q'.descs head) longer
              ∙ walk-relinked q.descs before head q.free_head n (available_desc q) t.apart s.chain
                  s.free;
          counted = omega (arith, length-walk q.descs head (suc n));
          requests = λ xs. request-write_next d _ _ xs ∙ request-write_next q.descs _ _ xs;
          at_head = refl;
          sized = refl;
        },
      )
