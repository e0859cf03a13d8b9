-- ===== src/Signal/Dequeue.antt =====
-- `SigQueues::dequeue` (sig_queues.rs): the first signal in the order of delivery that is not blocked.
use jinux.Base.{
  ℕ, ◌-◌, ◌≤◌, ◌≡◌, refl, sym, ap, ◌∙◌, ◌⊎◌, inl, inr, true, false, Option, none, some, List, [],
  ◌∷◌, ◌++◌, arith, length, Option-cases, Bool-cases, subst,
}
use mathlib.Core.List.{append_assoc}
use jinux.Base.Totals.{le-total}
use jinux.Signal.{IsSigNum}
use jinux.Signal.Mask.{SigMask, contains}
use jinux.Signal.Queues.{
  SigQueues, get_std_queue, get_rt_queue, put_std, put_rt, take_std, take_rt, then_rt, dequeue,
  ordered_std_sigs, rt_sigs, is_empty,
}
use jinux.Signal.Pending.{pending, held, slot_weight, IsValid, std_some, rt_some}
use jinux.Signal.Order.{delivery_order, AllOf-every, AllOf-member, delivery_order_complete}
use jinux.Signal.Search.{
  AllOf, IsIdle, Delivered, Searched, Searched-cons, take_std_here, take_rt_here,
}

module _ {S : Type 0} (num : S → ℕ) (blocked : SigMask) where
  take_std_skip :
      (n : ℕ) (ns : List ℕ) (q : SigQueues S)
      → (contains blocked n ≡ true) ⊎ (get_std_queue q n ≡ some none)
      → take_std blocked (n ∷ ns) q ≡ take_std blocked ns q
  unfolding take_std
  take_std_skip n ns q h = ground arith

  take_rt_skip :
      (n : ℕ) (ns : List ℕ) (q : SigQueues S)
      → (contains blocked n ≡ true) ⊎ (get_rt_queue q n ≡ some [])
      → take_rt blocked (n ∷ ns) q ≡ take_rt blocked ns q
  unfolding take_rt
  take_rt_skip n ns q h = ground arith

  take_std_hit :
      (n : ℕ) (ns : List ℕ) (q : SigQueues S) (s : S)
      → contains blocked n ≡ false
      → get_std_queue q n ≡ some (some s)
      → take_std blocked (n ∷ ns) q ≡ some (some s, put_std q n none (q.count - 1))
  unfolding take_std
  take_std_hit n ns q s free e = ground arith

  take_rt_hit :
      (n : ℕ) (ns : List ℕ) (q : SigQueues S) (s : S) (rest : List S)
      → contains blocked n ≡ false
      → get_rt_queue q n ≡ some (s ∷ rest)
      → take_rt blocked (n ∷ ns) q ≡ some (some s, put_rt q n rest (q.count - 1))
  unfolding take_rt
  take_rt_hit n ns q s rest free e = ground arith

  take_std-Searched :
      (ns : List ℕ) (q : SigQueues S)
      → IsValid num q
      → AllOf (λ n. (1 ≤ n) × (n ≤ 31)) ns
      → Searched num blocked q ns (take_std blocked ns q)
  unfolding take_std
  take_std-Searched [] q v h = inl (refl, tt)
  take_std-Searched (n ∷ ns) q v h =
      at_slot (std_some q n v.std_length h.0.0 h.0.1) (Bool-cases (contains blocked n))
        (take_std-Searched ns q v h.1)
    where
      at_slot :
          (slot : Option S) × (get_std_queue q n ≡ some slot)
          → (contains blocked n ≡ true) ⊎ (contains blocked n ≡ false)
          → Searched num blocked q ns (take_std blocked ns q)
          → Searched num blocked q (n ∷ ns) (take_std blocked (n ∷ ns) q)
      at_slot found (inl b) later =
          subst (Searched num blocked q (n ∷ ns)) (sym (take_std_skip n ns q (inl b)))
            (Searched-cons num blocked q n ns _ (inl b) later)
      at_slot (none, e) (inr free) later =
          subst (Searched num blocked q (n ∷ ns)) (sym (take_std_skip n ns q (inr e)))
            (Searched-cons num blocked q n ns _ (inr (ground arith)) later)
      at_slot (some s, e) (inr free) later = inr (
        s,
        _,
        take_std_hit n ns q s free e,
        take_std_here num blocked q n ns s v h.0.0 h.0.1 free e,
      )

  take_rt-Searched :
      (ns : List ℕ) (q : SigQueues S)
      → IsValid num q
      → AllOf (λ n. (32 ≤ n) × (n ≤ 64)) ns
      → Searched num blocked q ns (take_rt blocked ns q)
  unfolding take_rt
  take_rt-Searched [] q v h = inl (refl, tt)
  take_rt-Searched (n ∷ ns) q v h =
      at_queue (rt_some q n v.rt_length h.0.0 h.0.1) (Bool-cases (contains blocked n))
        (take_rt-Searched ns q v h.1)
    where
      at_queue :
          (queue : List S) × (get_rt_queue q n ≡ some queue)
          → (contains blocked n ≡ true) ⊎ (contains blocked n ≡ false)
          → Searched num blocked q ns (take_rt blocked ns q)
          → Searched num blocked q (n ∷ ns) (take_rt blocked (n ∷ ns) q)
      at_queue found (inl b) later =
          subst (Searched num blocked q (n ∷ ns)) (sym (take_rt_skip n ns q (inl b)))
            (Searched-cons num blocked q n ns _ (inl b) later)
      at_queue ([], e) (inr free) later =
          subst (Searched num blocked q (n ∷ ns)) (sym (take_rt_skip n ns q (inr e)))
            (Searched-cons num blocked q n ns _ (inr (ground arith)) later)
      at_queue (s ∷ rest, e) (inr free) later = inr (
        s,
        _,
        take_rt_hit n ns q s rest free e,
        take_rt_here num blocked q n ns s rest v h.0.0 h.0.1 free e,
      )

  -- A search through `ms` that fails goes on through `ns`.
  Searched-then :
      (q : SigQueues S) (ms ns : List ℕ) (out : Option (Option S × SigQueues S))
      → AllOf (IsIdle num blocked q) ms
      → Searched num blocked q ns out
      → Searched num blocked q (ms ++ ns) out
  Searched-then q [] ns out idle later = later
  Searched-then q (m ∷ ms) ns out idle later =
      Searched-cons num blocked q m (ms ++ ns) out idle.0 (Searched-then q ms ns out idle.1 later)

  -- A search that succeeds does not look further.
  Delivered-append :
      (q : SigQueues S) (ms ns : List ℕ) (s : S) (q' : SigQueues S)
      → Delivered num blocked q ms s q'
      → Delivered num blocked q (ms ++ ns) s q'
  Delivered-append q ms ns s q' d = record {
    n = d.n;
    before = d.before;
    after = d.after ++ ns;
    rest = d.rest;
    split = ap (λ xs. xs ++ ns) d.split ∙ append_assoc d.before (d.n ∷ d.after) ns;
    passed = d.passed;
    unblocked = d.unblocked;
    numbered = d.numbered;
    front = d.front;
    view = d.view;
    counted = d.counted;
    valid = d.valid;
  }

  then_rt-Searched :
      (q : SigQueues S) (out : Option (Option S × SigQueues S))
      → IsValid num q
      → Searched num blocked q ordered_std_sigs out
      → Searched num blocked q delivery_order (then_rt blocked out)
  then_rt-Searched q out v (inl (e, idle)) =
      subst (λ o. Searched num blocked q delivery_order (then_rt blocked o)) (sym e)
        (Searched-then q ordered_std_sigs rt_sigs _ idle
          (take_rt-Searched rt_sigs q v (omega arith)))
  then_rt-Searched q out v (inr (s, q', e, d)) =
      subst (λ o. Searched num blocked q delivery_order (then_rt blocked o)) (sym e)
        (inr (s, q', refl, Delivered-append q ordered_std_sigs rt_sigs s q' d))

  -- With nothing held, nothing is pending.
  pending-eq_nil : (q : SigQueues S) → held q ≡ 0 → (n : ℕ) → pending q n ≡ []
  pending-eq_nil q h n = elim (Option-cases (get_std_queue q n)) [
    | inl e ↦ at_rt (Option-cases (get_rt_queue q n)) (inl e)
    | inr (none, e) ↦ at_rt (Option-cases (get_rt_queue q n)) (inr e)
    | inr (some s, e) ↦ absurd (omega (arith, le-total slot_weight q.std_queues (n - 1) (some s) e))
  ]
    where
      at_rt :
          (get_rt_queue q n ≡ none) ⊎ ((queue : List S) × (get_rt_queue q n ≡ some queue))
          → (get_std_queue q n ≡ none) ⊎ (get_std_queue q n ≡ some none)
          → pending q n ≡ []
      at_rt (inl k) e = ground arith
      at_rt (inr ([], k)) e = ground arith
      at_rt (inr (s ∷ queue, k)) e =
          absurd (omega (arith, le-total length q.rt_queues (n - 32) (s ∷ queue) k))

  -- On valid queues `dequeue` refines a search through all signals in the order of delivery: of the
  -- first number that is pending and not blocked it takes out the oldest signal, whose number that
  -- is, leaves the other queues alone, counts one less and leaves valid queues; if there is none it
  -- returns none and changes nothing. It never panics.
  pub dequeue_lem :
      (q : SigQueues S) → IsValid num q → Searched num blocked q delivery_order (dequeue blocked q)
  unfolding dequeue
  dequeue_lem q v = elim (Bool-cases (is_empty q)) [
    | inl e ↦ subst (Searched num blocked q delivery_order) (dequeue_empty q e) (
        inl (
          refl,
          AllOf-every (IsIdle num blocked q)
              (λ n. inr (pending-eq_nil q (ground (arith, v.counted)) n)) delivery_order,
        ))
    | inr e ↦ subst (Searched num blocked q delivery_order) (dequeue_full q e) (
        then_rt-Searched q (take_std blocked ordered_std_sigs q) v
          (take_std-Searched ordered_std_sigs q v (omega arith)))
  ]
    where
      dequeue_empty : (q : SigQueues S) → is_empty q ≡ true → some (none, q) ≡ dequeue blocked q
      dequeue_empty q e = rw e

      dequeue_full :
          (q : SigQueues S)
          → is_empty q ≡ false
          → then_rt blocked (take_std blocked ordered_std_sigs q) ≡ dequeue blocked q
      dequeue_full q e = rw e

  -- On valid queues, when `dequeue` returns no signal, each signal number is blocked or has nothing
  -- pending.
  pub dequeue-none :
      (q q' : SigQueues S) (n : ℕ)
      → IsValid num q
      → IsSigNum n
      → dequeue blocked q ≡ some (none, q')
      → (contains blocked n ≡ true) ⊎ (pending q n ≡ [])
  dequeue-none q q' n v h e = from_search (dequeue_lem q v)
    where
      from_search :
          Searched num blocked q delivery_order (dequeue blocked q)
          → (contains blocked n ≡ true) ⊎ (pending q n ≡ [])
      from_search (inl (_, idle)) =
          AllOf-member (IsIdle num blocked q) delivery_order n idle (delivery_order_complete n h)
      from_search (inr (s, q'', found, d)) = cc
