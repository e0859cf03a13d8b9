-- ===== src/Signal/Search.antt =====
-- What a search of `SigQueues::dequeue` (sig_queues.rs) through a list of signal numbers finds.
use jinux.Base.{
  ℕ, ◌+◌, ◌-◌, ◌≤◌, ◌≡◌, refl, ap, ◌∙◌, ◌⊎◌, inl, inr, true, false, Option, none, some, List, [],
  ◌∷◌, ◌++◌, ◌==◌, arith, if◌then◌else◌, length, length-set,
}
use jinux.Base.Totals.{total-set, le-total}
use jinux.Signal.{IsSigNum}
use jinux.Signal.Mask.{SigMask, contains}
use jinux.Signal.Queues.{SigQueues, get_std_queue, get_rt_queue, put_std, put_rt}
use jinux.Signal.Pending.{
  pending, slot_weight, AllNumbered, IsValid, pending-put_std, pending-put_rt,
}

-- Every number of the list satisfies the predicate.
abbrev pub AllOf : (ℕ → Type 0) → List ℕ → Type 0
AllOf P [] = Unit
AllOf P (n ∷ ns) = P n × AllOf P ns

pub AllOf-append : (P : ℕ → Type 0) (ms ns : List ℕ) → AllOf P ms → AllOf P ns → AllOf P (ms ++ ns)
AllOf-append P [] ns h k = k
AllOf-append P (m ∷ ms) ns h k = (h.0, AllOf-append P ms ns h.1 k)

module _ {S : Type 0} (num : S → ℕ) (blocked : SigMask) where
  -- No signal with this number can be delivered.
  abbrev pub IsIdle : SigQueues S → ℕ → Type 0
  IsIdle q n = (contains blocked n ≡ true) ⊎ (pending q n ≡ [])

  -- Of the numbers `ns`, `n` is the first that is not idle, and `q'` is `q` without the oldest
  -- signal `s` of that number.
  pub record Delivered (q : SigQueues S) (ns : List ℕ) (s : S) (q' : SigQueues S) : Type 0 where
    pub n : ℕ
    pub before : List ℕ
    pub after : List ℕ
    pub rest : List S
    pub split : ns ≡ before ++ n ∷ after
    pub passed : AllOf (IsIdle q) before
    pub unblocked : contains blocked n ≡ false
    pub numbered : num s ≡ n
    pub front : pending q n ≡ s ∷ rest
    pub view : (m : ℕ) → IsSigNum m → pending q' m ≡ (if n == m then rest else pending q m)
    pub counted : q'.count + 1 ≡ q.count
    pub valid : IsValid num q'

  -- The two outcomes of a search through `ns`.
  abbrev pub Searched : SigQueues S → List ℕ → Option (Option S × SigQueues S) → Type 0
  Searched q ns out =
      ((out ≡ some (none, q)) × AllOf (IsIdle q) ns)
      ⊎ ((s : S) × (q' : SigQueues S) × (out ≡ some (some s, q')) × Delivered q ns s q')

  -- An idle number in front changes nothing.
  pub Searched-cons :
      (q : SigQueues S) (n : ℕ) (ns : List ℕ) (out : Option (Option S × SigQueues S))
      → IsIdle q n
      → Searched q ns out
      → Searched q (n ∷ ns) out
  Searched-cons q n ns out idle (inl (e, all)) = inl (e, (idle, all))
  Searched-cons q n ns out idle (inr (s, q', e, d)) = inr (
    s,
    q',
    e,
    record {
      n = d.n;
      before = n ∷ d.before;
      after = d.after;
      rest = d.rest;
      split = ap (λ xs. n ∷ xs) d.split;
      passed = (idle, d.passed);
      unblocked = d.unblocked;
      numbered = d.numbered;
      front = d.front;
      view = d.view;
      counted = d.counted;
      valid = d.valid;
    },
  )

  pub take_std_here :
      (q : SigQueues S) (n : ℕ) (ns : List ℕ) (s : S)
      → IsValid num q
      → 1 ≤ n
      → n ≤ 31
      → contains blocked n ≡ false
      → get_std_queue q n ≡ some (some s)
      → Delivered q (n ∷ ns) s (put_std q n none (q.count - 1))
  take_std_here q n ns s v lo hi free e =
      let total_after = total-set slot_weight q.std_queues (n - 1) (some s) none e in
      record {
        n = n;
        before = [];
        after = ns;
        rest = [];
        split = refl;
        passed = tt;
        unblocked = free;
        numbered = ground (arith, v.placed n (record { least = lo; most = omega arith }));
        front = ground arith;
        view = λ m hm. pending-put_std q n m (q.count - 1) none v.std_length lo hi hm.least;
        counted = omega (arith, v.counted, le-total slot_weight q.std_queues (n - 1) (some s) e);
        valid = record {
          std_length = length-set q.std_queues (n - 1) none ∙ v.std_length;
          rt_length = v.rt_length;
          counted =
              omega (
                arith,
                v.counted,
                total_after,
                le-total slot_weight q.std_queues (n - 1) (some s) e,
              );
          subject = v.subject;
          placed = λ m hm. ground (
            arith,
            pending-put_std q n m (q.count - 1) none v.std_length lo hi hm.least,
            v.placed m hm,
          );
        };
      }

  pub take_rt_here :
      (q : SigQueues S) (n : ℕ) (ns : List ℕ) (s : S) (rest : List S)
      → IsValid num q
      → 32 ≤ n
      → n ≤ 64
      → contains blocked n ≡ false
      → get_rt_queue q n ≡ some (s ∷ rest)
      → Delivered q (n ∷ ns) s (put_rt q n rest (q.count - 1))
  take_rt_here q n ns s rest v lo hi free e =
      let total_after = total-set length q.rt_queues (n - 32) (s ∷ rest) rest e in
      let placed : AllNumbered num n (s ∷ rest) =
        ground (arith, v.placed n (record { least = omega arith; most = hi })) in
      record {
        n = n;
        before = [];
        after = ns;
        rest = rest;
        split = refl;
        passed = tt;
        unblocked = free;
        numbered = placed.0;
        front = ground arith;
        view = λ m hm. pending-put_rt q n m (q.count - 1) rest v.rt_length lo hi;
        counted = omega (arith, v.counted, le-total length q.rt_queues (n - 32) (s ∷ rest) e);
        valid = record {
          std_length = v.std_length;
          rt_length = length-set q.rt_queues (n - 32) rest ∙ v.rt_length;
          counted =
              omega
                (arith, v.counted, total_after, le-total length q.rt_queues (n - 32) (s ∷ rest) e);
          subject = v.subject;
          placed = λ m hm. ground (
            arith,
            pending-put_rt q n m (q.count - 1) rest v.rt_length lo hi,
            v.placed m hm,
            placed,
          );
        };
      }
