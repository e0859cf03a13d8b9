-- ===== src/Signal/Enqueue.antt =====
-- `SigQueues::new` and `SigQueues::enqueue` (sig_queues.rs).
use jinux.Base.{
  ℕ, zero, suc, ◌+◌, ◌-◌, ◌≤◌, ◌<◌, ◌≡◌, ◌≢◌, refl, ap, ◌∙◌, ◌⊎◌, inl, inr, Bool, Option, none,
  some, List, [], ◌∷◌, ◌++◌, ◌==◌, arith, if◌then◌else◌, get_elem?, length, length-set, Bool-cases,
  replicate, length-append,
}
use jinux.Base.Totals.{total-set}
use jinux.Base.Dict.{lookup}
use jinux.Events
use jinux.Events.{Subject}
use jinux.Events.Laws as Subjects
use jinux.Signal.{is_std, IsSigNum}
use jinux.Signal.Mask.{SigMask}
use jinux.Signal.Queues.{
  SigQueues, filter, new, get_std_queue, get_rt_queue, put_std, put_rt, notify, enqueue,
}
use jinux.Signal.Pending.{
  pending, slot_weight, of_slot, of_queue, AllNumbered, IsValid, std_some, rt_some, pending-put_std,
  pending-put_rt,
}

module _ {S : Type 0} (num : S → ℕ) where
  AllNumbered-push :
      (n : ℕ) (ss : List S) (s : S)
      → AllNumbered num n ss
      → num s ≡ n
      → AllNumbered num n (ss ++ s ∷ [])
  AllNumbered-push n [] s h e = (e, tt)
  AllNumbered-push n (x ∷ ss) s h e = (h.0, AllNumbered-push n ss s h.1 e)

  empty_slots : (k i : ℕ) → of_slot {S = S} (get_elem? (replicate k none) i) ≡ []
  empty_slots zero i = refl
  empty_slots (suc k) zero = refl
  empty_slots (suc k) (suc i) = empty_slots k i

  empty_queues : (k i : ℕ) → of_queue {S = S} (get_elem? (replicate k []) i) ≡ []
  empty_queues zero i = refl
  empty_queues (suc k) zero = refl
  empty_queues (suc k) (suc i) = empty_queues k i

  pub new-IsValid : IsValid num (new S)
  unfolding new Events.new
  new-IsValid = record {
    std_length = refl;
    rt_length = refl;
    counted = refl;
    subject = record { sorted = tt; counted = refl };
    placed = λ n h. ground (arith, empty_slots 31 (n - 1), empty_queues 33 (n - 32));
  }

  -- The queue after the signal `s` was taken in for its number.
  abbrev pub arrived : List S → S → ℕ → List S
  arrived before s n = if num s == n then before ++ s ∷ [] else before

  put_std-IsValid :
      (q : SigQueues S) (s : S)
      → IsValid num q
      → IsSigNum (num s)
      → num s ≤ 31
      → get_std_queue q (num s) ≡ some none
      → IsValid num (put_std q (num s) (some s) (q.count + 1))
  put_std-IsValid q s v h std free = record {
    std_length = length-set q.std_queues (num s - 1) (some s) ∙ v.std_length;
    rt_length = v.rt_length;
    counted =
        omega (arith, v.counted, total-set slot_weight q.std_queues (num s - 1) none (some s) free);
    subject = v.subject;
    placed = λ n hn. ground (
      arith,
      pending-put_std q (num s) n (q.count + 1) (some s) v.std_length h.least std hn.least,
      v.placed n hn,
    );
  }

  put_rt-IsValid :
      (q : SigQueues S) (s : S) (queue : List S)
      → IsValid num q
      → IsSigNum (num s)
      → 32 ≤ num s
      → get_rt_queue q (num s) ≡ some queue
      → IsValid num (put_rt q (num s) (queue ++ s ∷ []) (q.count + 1))
  put_rt-IsValid q s queue v h rt found = record {
    std_length = v.std_length;
    rt_length = length-set q.rt_queues (num s - 32) (queue ++ s ∷ []) ∙ v.rt_length;
    counted = omega (
      arith,
      v.counted,
      length-append queue (s ∷ []),
      total-set length q.rt_queues (num s - 32) queue (queue ++ s ∷ []) found,
    );
    subject = v.subject;
    placed = λ n hn. ground (
      arith,
      pending-put_rt q (num s) n (q.count + 1) (queue ++ s ∷ []) v.rt_length rt h.most,
      v.placed n hn,
      AllNumbered-push n queue s,
    );
  }

  module _ (is_alive : ℕ → Bool) where
    -- What an `enqueue` promises that takes the signal in.
    pub record Accepted (q : SigQueues S) (s : S) (told : List ℕ) (q' : SigQueues S) : Type 0 where
      pub valid : IsValid num q'
      pub counted : q'.count ≡ q.count + 1
      pub view : (n : ℕ) → IsSigNum n → pending q' n ≡ arrived (pending q n) s n
      pub heard :
          (j : ℕ)
          → Subjects.contains j told
            ≡ Subjects.is_told is_alive filter
                (record { sig_num = num s })
                (is_alive j)
                (lookup j q.subject.observers)

    -- Telling the observers changes nothing else.
    notify-Accepted :
        (q q' : SigQueues S) (s : S)
        → IsValid num q'
        → q'.subject ≡ q.subject
        → q'.count ≡ q.count + 1
        → ((n : ℕ) → IsSigNum n → pending q' n ≡ arrived (pending q n) s n)
        → Accepted q s (notify num is_alive (num s) q').0 (notify num is_alive (num s) q').1
    notify-Accepted q q' s v same c view =
        let p =
          Subjects.notify_observers_lem is_alive filter (record { sig_num = num s }) q'.subject
            v.subject in
        record {
          valid = record {
            std_length = v.std_length;
            rt_length = v.rt_length;
            counted = v.counted;
            subject = p.valid;
            placed = v.placed;
          };
          counted = c;
          view = view;
          heard = λ j.
              p.told j
              ∙ ap
                  (λ (x : Subject SigMask).
                    Subjects.is_told is_alive filter (record { sig_num = num s }) (is_alive j)
                      (lookup j x.observers))
                  same;
        }

    -- The two outcomes of `enqueue`: the signal is dropped, or it is taken in.
    abbrev pub Dropped : SigQueues S → S → Type 0
    Dropped q s =
        (num s ≤ 31) × (pending q (num s) ≢ []) × (enqueue num is_alive q s ≡ some ([], q))

    abbrev pub Taken : SigQueues S → S → Type 0
    Taken q s =
        (told : List ℕ) × (q' : SigQueues S) × ((31 < num s) ⊎ (pending q (num s) ≡ []))
        × (enqueue num is_alive q s ≡ some (told, q'))
        × Accepted q s told q'

    enqueue_std_slot :
        (q : SigQueues S) (s : S) (slot : Option S)
        → IsValid num q
        → IsSigNum (num s)
        → num s ≤ 31
        → get_std_queue q (num s) ≡ some slot
        → Dropped q s ⊎ Taken q s
    unfolding enqueue
    enqueue_std_slot q s (some x) v h std e = inl (std, ground arith, ground arith)
    enqueue_std_slot q s none v h std e = inr (
      _,
      _,
      inr (ground arith),
      ground arith,
      notify-Accepted q (put_std q (num s) (some s) (q.count + 1)) s (put_std-IsValid q s v h std e)
          refl refl
          (λ n hn. ground (
            arith,
            pending-put_std q (num s) n (q.count + 1) (some s) v.std_length h.least std hn.least,
          )),
    )

    enqueue_rt_queue :
        (q : SigQueues S) (s : S) (queue : List S)
        → IsValid num q
        → IsSigNum (num s)
        → 32 ≤ num s
        → get_rt_queue q (num s) ≡ some queue
        → Taken q s
    unfolding enqueue
    enqueue_rt_queue q s queue v h rt e = (
      (notify num is_alive (num s) (put_rt q (num s) (queue ++ s ∷ []) (q.count + 1))).0,
      (notify num is_alive (num s) (put_rt q (num s) (queue ++ s ∷ []) (q.count + 1))).1,
      inl (omega arith),
      ground arith,
      notify-Accepted q (put_rt q (num s) (queue ++ s ∷ []) (q.count + 1)) s
          (put_rt-IsValid q s queue v h rt e) refl refl
          (λ n hn. ground (
            arith,
            pending-put_rt q (num s) n (q.count + 1) (queue ++ s ∷ []) v.rt_length rt h.most,
          )),
    )

    -- On valid queues and for a signal with a signal number `enqueue` never panics. A standard signal
    -- of which one is pending already is dropped: nothing changes and nobody is told. Any other
    -- signal goes to the end of the queue of its number, the other queues stay as they are, the
    -- counter goes up by one, the queues stay valid, and exactly the live observers whose filter
    -- accepts the signal are told.
    pub enqueue_lem :
        (q : SigQueues S) (s : S) → IsValid num q → IsSigNum (num s) → Dropped q s ⊎ Taken q s
    enqueue_lem q s v h = elim (Bool-cases (is_std (num s))) [
      | inl std ↦
          let (slot, e) = std_some q (num s) v.std_length h.least (ground arith) in
          enqueue_std_slot q s slot v h (ground arith) e
      | inr rt ↦
          let (queue, e) = rt_some q (num s) v.rt_length (ground arith) h.most in
          inr (enqueue_rt_queue q s queue v h (ground arith) e)
    ]
