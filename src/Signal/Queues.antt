-- ===== src/Signal/Queues.antt =====
-- The pending signals of a thread: sig_queues.rs.
-- `S` stands for `Box<dyn Signal>` and `num` for its method; observers are those of `Events`. An
-- index out of bounds, which panics, is `none`.
use jinux.Base.{
  ℕ, zero, suc, ◌+◌, ◌-◌, Bool, not, Option, none, some, List, [], ◌∷◌, ◌++◌, ◌==◌, if◌then◌else◌,
  get_elem?, set, replicate,
}
use jinux.Events
use jinux.Events.{Subject}
use jinux.Signal.{is_std, min_std_sig_num, min_rt_sig_num, count_std_sigs, count_rt_sigs}
use jinux.Signal.Mask.{SigMask, contains}

-- `SigEvents`, and the filter that accepts an event outside its mask.
pub record SigEvents : Type 0 where
  pub sig_num : ℕ

-- `SigEventsFilter::filter`
unfoldable pub filter : SigMask → SigEvents → Bool
filter mask event = not (contains mask event.sig_num)

-- `SigQueues`
pub record SigQueues (S : Type 0) : Type 0 where
  pub count : ℕ
  pub std_queues : List (Option S)
  pub rt_queues : List (List S)
  pub subject : Subject SigMask

-- `SigQueues::new`
unfoldable pub new : (S : Type 0) → SigQueues S
unfolding Events.new
new S = record {
  count = 0;
  std_queues = replicate count_std_sigs none;
  rt_queues = replicate count_rt_sigs [];
  subject = Events.new SigMask;
}

-- ORDERED_STD_SIGS of `dequeue`
abbrev pub ordered_std_sigs : List ℕ
ordered_std_sigs =
    9 ∷ 15 ∷ 19 ∷ 11 ∷ 4 ∷ 1 ∷ 18 ∷ 2 ∷ 3 ∷ 5 ∷ 6 ∷ 7 ∷ 8 ∷ 10 ∷ 12 ∷ 13 ∷ 14 ∷ 16 ∷ 17 ∷ 20 ∷ 21
    ∷ 22 ∷ 23 ∷ 24 ∷ 25 ∷ 26 ∷ 27 ∷ 28 ∷ 29 ∷ 30 ∷ 31 ∷ []

-- `first..=first + n - 1`
abbrev pub range_from : ℕ → ℕ → List ℕ
range_from first zero = []
range_from first (suc n) = first ∷ range_from (suc first) n

-- `MIN_RT_SIG_NUM..=MAX_RT_SIG_NUM`
abbrev pub rt_sigs : List ℕ
rt_sigs = range_from 32 33

module _ {S : Type 0} where
  -- `SigQueues::is_empty`
  abbrev pub is_empty : SigQueues S → Bool
  is_empty q = q.count == 0

  -- `get_std_queue_mut`, as the slot read through it
  abbrev pub get_std_queue : SigQueues S → ℕ → Option (Option S)
  get_std_queue q signum = get_elem? q.std_queues (signum - min_std_sig_num)

  -- `get_rt_queue_mut`, as the queue read through it
  abbrev pub get_rt_queue : SigQueues S → ℕ → Option (List S)
  get_rt_queue q signum = get_elem? q.rt_queues (signum - min_rt_sig_num)

  -- A write through `get_std_queue_mut`, with the counter after it.
  abbrev pub put_std : SigQueues S → ℕ → Option S → ℕ → SigQueues S
  put_std q signum slot count = record q {
    std_queues = set q.std_queues (signum - min_std_sig_num) slot;
    count = count;
  }

  -- A write through `get_rt_queue_mut`, with the counter after it.
  abbrev pub put_rt : SigQueues S → ℕ → List S → ℕ → SigQueues S
  put_rt q signum queue count = record q {
    rt_queues = set q.rt_queues (signum - min_rt_sig_num) queue;
    count = count;
  }

  module _ (num : S → ℕ) (is_alive : ℕ → Bool) where
    -- `self.subject.notify_observers(&SigEvents::new(signum))`, with those who are told.
    abbrev pub notify : ℕ → SigQueues S → List ℕ × SigQueues S
    notify signum q =
        let (told, s) =
          Events.notify_observers is_alive filter (record { sig_num = signum }) q.subject in
        (told, record q { subject = s })

    -- The first branch of `enqueue`, with the slot that it reads.
    abbrev pub enqueue_std : SigQueues S → S → Option (Option S) → Option (List ℕ × SigQueues S)
    enqueue_std q signal none = none
    enqueue_std q signal (some (some pending)) = some ([], q)
    enqueue_std q signal (some none) =
        some (notify (num signal) (put_std q (num signal) (some signal) (q.count + 1)))

    -- The second branch of `enqueue`, with the queue that it reads.
    abbrev pub enqueue_rt : SigQueues S → S → Option (List S) → Option (List ℕ × SigQueues S)
    enqueue_rt q signal none = none
    enqueue_rt q signal (some queue) =
        some (notify (num signal) (put_rt q (num signal) (queue ++ signal ∷ []) (q.count + 1)))

    -- `SigQueues::enqueue`, with the observers that are told.
    unfoldable pub enqueue : SigQueues S → S → Option (List ℕ × SigQueues S)
    unfolding Events.notify_observers filter
    enqueue q signal =
        if is_std (num signal)
        then enqueue_std q signal (get_std_queue q (num signal))
        else enqueue_rt q signal (get_rt_queue q (num signal))

  -- The loop of `dequeue` over the standard signals.
  unfoldable pub take_std : SigMask → List ℕ → SigQueues S → Option (Option S × SigQueues S)
  take_std blocked [] q = some (none, q)
  take_std blocked (signum ∷ rest) q =
      let next = take_std blocked rest q in
      if contains blocked signum then next else elim (get_std_queue q signum) [
        | none ↦ none
        | some none ↦ next
        | some (some signal) ↦ some (some signal, put_std q signum none (q.count - 1))
      ]

  -- The loop of `dequeue` over the real-time signals.
  unfoldable pub take_rt : SigMask → List ℕ → SigQueues S → Option (Option S × SigQueues S)
  take_rt blocked [] q = some (none, q)
  take_rt blocked (signum ∷ rest) q =
      let next = take_rt blocked rest q in
      if contains blocked signum then next else elim (get_rt_queue q signum) [
        | none ↦ none
        | some [] ↦ next
        | some (signal ∷ queue) ↦ some (some signal, put_rt q signum queue (q.count - 1))
      ]

  -- `dequeue` after its fast path, with the result of the first loop.
  abbrev pub then_rt : SigMask → Option (Option S × SigQueues S) → Option (Option S × SigQueues S)
  then_rt blocked none = none
  then_rt blocked (some (some signal, q)) = some (some signal, q)
  then_rt blocked (some (none, q)) = take_rt blocked rt_sigs q

  -- `SigQueues::dequeue`
  unfoldable pub dequeue : SigMask → SigQueues S → Option (Option S × SigQueues S)
  unfolding take_std take_rt
  dequeue blocked q =
      if is_empty q then some (none, q) else then_rt blocked (take_std blocked ordered_std_sigs q)

  -- `SigQueues::register_observer`
  abbrev pub register_observer : ℕ → SigMask → SigQueues S → SigQueues S
  register_observer observer filter q = record q {
    subject = Events.register_observer observer filter q.subject;
  }

  -- `SigQueues::unregister_observer`
  abbrev pub unregister_observer : ℕ → SigQueues S → SigQueues S
  unregister_observer observer q = record q {
    subject = (Events.unregister_observer observer q.subject).1;
  }
