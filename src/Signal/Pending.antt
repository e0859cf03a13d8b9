-- ===== src/Signal/Pending.antt =====
-- The pending signals of sig_queues.rs as a list for each signal number, and what `enqueue` does.
use jinux.Base.{
  ℕ, ◌+◌, ◌-◌, ◌≤◌, ◌≡◌, Option, none, some, List, [], ◌∷◌, ◌==◌, arith, if◌then◌else◌, length,
  get_elem?-set_self, get_elem?-set_ne, get_elem?-some,
}
use jinux.Base.Totals.{total}
use jinux.Events.Laws as Subjects
use jinux.Signal.{is_std, IsSigNum}
use jinux.Signal.Queues.{SigQueues, get_std_queue, get_rt_queue, put_std, put_rt}

-- The signals in a slot.
abbrev pub of_slot : {S : Type 0} → Option (Option S) → List S
of_slot none = []
of_slot (some none) = []
of_slot (some (some s)) = s ∷ []

abbrev pub of_queue : {S : Type 0} → Option (List S) → List S
of_queue none = []
of_queue (some queue) = queue

abbrev pub slot_weight : {S : Type 0} → Option S → ℕ
slot_weight none = 0
slot_weight (some s) = 1

module _ {S : Type 0} where
  -- The signals with number `n` that are pending, the oldest first.
  abbrev pub pending : SigQueues S → ℕ → List S
  pending q n = if is_std n then of_slot (get_std_queue q n) else of_queue (get_rt_queue q n)

  -- How many signals the queues hold.
  abbrev pub held : SigQueues S → ℕ
  held q = total slot_weight q.std_queues + total length q.rt_queues

  module _ (num : S → ℕ) where
    abbrev pub AllNumbered : ℕ → List S → Type 0
    AllNumbered n [] = Unit
    AllNumbered n (s ∷ ss) = (num s ≡ n) × AllNumbered n ss

    -- There is a queue for each signal, the counter counts what they hold, and a signal lies in the
    -- queue of its number.
    pub record IsValid (q : SigQueues S) : Type 0 where
      pub std_length : length q.std_queues ≡ 31
      pub rt_length : length q.rt_queues ≡ 33
      pub counted : q.count ≡ held q
      pub subject : Subjects.IsValid q.subject
      pub placed : (n : ℕ) → IsSigNum n → AllNumbered n (pending q n)

  pub std_some :
      (q : SigQueues S) (n : ℕ)
      → length q.std_queues ≡ 31
      → 1 ≤ n
      → n ≤ 31
      → (slot : Option S) × (get_std_queue q n ≡ some slot)
  std_some q n len lo hi = get_elem?-some q.std_queues (n - 1) (omega arith)

  pub rt_some :
      (q : SigQueues S) (n : ℕ)
      → length q.rt_queues ≡ 33
      → 32 ≤ n
      → n ≤ 64
      → (queue : List S) × (get_rt_queue q n ≡ some queue)
  rt_some q n len lo hi = get_elem?-some q.rt_queues (n - 32) (omega arith)

  -- A write to a slot changes what is pending for that number alone.
  pub pending-put_std :
      (q : SigQueues S) (n m c : ℕ) (slot : Option S)
      → length q.std_queues ≡ 31
      → 1 ≤ n
      → n ≤ 31
      → 1 ≤ m
      → pending (put_std q n slot c) m ≡ (if n == m then of_slot (some slot) else pending q m)
  pending-put_std q n m c slot len lo hi least = ground (
    arith,
    get_elem?-set_self q.std_queues (n - 1) slot (omega arith),
    get_elem?-set_ne q.std_queues (n - 1) (m - 1) slot,
  )

  pub pending-put_rt :
      (q : SigQueues S) (n m c : ℕ) (queue : List S)
      → length q.rt_queues ≡ 33
      → 32 ≤ n
      → n ≤ 64
      → pending (put_rt q n queue c) m ≡ (if n == m then queue else pending q m)
  pending-put_rt q n m c queue len lo hi = ground (
    arith,
    get_elem?-set_self q.rt_queues (n - 32) queue (omega arith),
    get_elem?-set_ne q.rt_queues (n - 32) (m - 32) queue,
  )
