-- ===== src/Virtqueue/Linked.antt =====
-- The chain that `add_buf` of queue.rs makes is one that `recycle_descriptors` can take back.
use Prim.Native.Nat.{bit_or}
use jinux.Base.{
  ℕ, suc, ◌+◌, ◌<◌, ◌≡◌, refl, sym, subst, ap, ◌∙◌, true, false, Option, List, [], ◌∷◌, ◌++◌, map,
  arith, length,
}
use mathlib.Core.List.{append-nil}
use jinux.Virtqueue.{VirtQueue, Buffer, has_next, remove_next, next_flag, write_flag}
use jinux.Virtqueue.Walk.{walk, Distinct, Below, Below-append_left}
use jinux.Virtqueue.Fill.{Request, request, posted}
use jinux.Virtqueue.Both.{unlink_last, linked_requests}
use jinux.Virtqueue.Add.{free_list, IsFree, Added}
use jinux.Virtqueue.Recycle.{IsLinked, IsTaken}

-- All requests are marked to have a successor, and are not when the mark is removed.
abbrev Marked : List Request → Type 0
Marked [] = Unit
Marked (r ∷ rs) = (has_next r.2 ≡ true) × (has_next (remove_next r.2) ≡ false) × Marked rs

IsLinked-unlink_last : (rs : List Request) → 0 < length rs → Marked rs → IsLinked (unlink_last rs)
IsLinked-unlink_last [] h m = elim h [ ]
IsLinked-unlink_last (r ∷ []) h m = m.1
IsLinked-unlink_last (r ∷ s ∷ []) h m = (m.0, m.2.1)
IsLinked-unlink_last (r ∷ s ∷ t ∷ rs) h m =
    (m.0, IsLinked-unlink_last (s ∷ t ∷ rs) (omega arith) m.2)

module _ (pa : ℕ → ℕ) (flags : ℕ) (rest : List Request) where
  Marked-posted :
      (bufs : List Buffer)
      → has_next flags ≡ true
      → has_next (remove_next flags) ≡ false
      → Marked rest
      → Marked (map (posted pa flags) bufs ++ rest)
  Marked-posted [] h k m = m
  Marked-posted (buf ∷ bufs) h k m = (h, k, Marked-posted bufs h k m)

  length-posted :
      (bufs : List Buffer) → length (map (posted pa flags) bufs ++ rest) ≡ length bufs + length rest
  length-posted [] = omega arith
  length-posted (buf ∷ bufs) = omega (arith, length-posted bufs)

module _ (paddr : ℕ → Option ℕ) (pa : ℕ → ℕ) (size : ℕ) (inputs outputs : List Buffer) where
  outputs_alone :
      map (posted pa (bit_or next_flag write_flag)) outputs ++ []
      ≡ map (posted pa (bit_or next_flag write_flag)) outputs
  outputs_alone = append-nil _

  Marked-linked_requests : Marked (linked_requests paddr pa size inputs outputs)
  unfolding has_next remove_next
  Marked-linked_requests = Marked-posted pa next_flag _ inputs refl refl (
      subst Marked outputs_alone
        (Marked-posted pa (bit_or next_flag write_flag) [] outputs refl refl tt))

  length-linked_requests :
      length (linked_requests paddr pa size inputs outputs) ≡ length inputs + length outputs
  length-linked_requests =
      length-posted pa next_flag _ inputs
      ∙ ap (λ n. length inputs + n)
          (ap length (sym outputs_alone)
            ∙ length-posted pa (bit_or next_flag write_flag) [] outputs
            ∙ omega arith)

module _ (paddr : ℕ → Option ℕ) (pa : ℕ → ℕ) (q : VirtQueue) (inputs outputs : List Buffer)
    (q' : VirtQueue) where
  pub IsTaken-Added :
      (m : ℕ) (nodes : List ℕ)
      → IsFree q
      → length inputs + length outputs ≡ suc m
      → Added paddr pa q inputs outputs q' nodes
      → IsTaken q' q.free_head m
  IsTaken-Added m nodes v e a =
      let chain : walk q'.descs q.free_head (suc m) ≡ nodes =
        ap (walk q'.descs q.free_head) (sym e) ∙ a.chain in
      record {
        linked =
            subst (λ xs. IsLinked (map (request q'.descs) xs)) (sym chain)
              (subst IsLinked (sym a.content) (
                IsLinked-unlink_last (linked_requests paddr pa q.queue_size inputs outputs)
                  (omega (arith, e, length-linked_requests paddr pa q.queue_size inputs outputs))
                  (Marked-linked_requests paddr pa q.queue_size inputs outputs)));
        below = subst (Below q'.queue_size) (sym chain) (
            subst (λ size. Below size nodes) (sym a.sized)
              (Below-append_left q.queue_size nodes (free_list q')
                (subst (Below q.queue_size) a.split v.below)));
        apart =
            subst (λ xs. Distinct (xs ++ free_list q')) (sym chain)
              (subst Distinct a.split v.distinct);
        counted = omega (arith, a.counted, e);
      }
