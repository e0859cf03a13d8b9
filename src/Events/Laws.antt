-- ===== src/Events/Laws.antt =====
-- The counter of a subject is the size of its table, and who is told of an event (events/subject.rs).
use jinux.Base.{
  ℕ, suc, ◌+◌, ◌-◌, ◌≡◌, refl, ap, inl, inr, Bool-cases, Bool, false, Option, none, some, List, [],
  ◌∷◌, ◌&&◌, ◌||◌, ◌==◌, if◌then◌else◌, is_some, arith, length,
}
use jinux.Base.Dict.{Dict, lookup, Above, IsSorted}
use jinux.Base.DictLaws.{
  insert-IsSorted, erase-IsSorted, lookup-insert, lookup-erase, length-insert, length-erase,
  lookup-Above,
}
use jinux.Events.{Subject, new, register_observer, unregister_observer, retain, notify_observers}

-- The table is ordered by key, and the counter that the fast path reads is its size.
pub record IsValid {F : Type 0} (s : Subject F) : Type 0 where
  pub sorted : IsSorted s.observers
  pub counted : s.num_observers ≡ length s.observers

abbrev pub contains : ℕ → List ℕ → Bool
contains j [] = false
contains j (k ∷ ks) = j == k || contains j ks

pub new-IsValid : (F : Type 0) → IsValid (new F)
unfolding new
new-IsValid F = record { sorted = tt; counted = refl }

module _ {F : Type 0} where
  -- On a valid subject, registering keeps the counter right, sets the filter of the observer and
  -- touches no other observer.
  pub register_observer_lem :
      (k : ℕ) (f : F) (s : Subject F)
      → IsValid s
      → IsValid (register_observer k f s)
        × ((j : ℕ)
            → lookup j (register_observer k f s).observers
              ≡ (if k == j then some f else lookup j s.observers))
  unfolding register_observer
  register_observer_lem k f s v = (
    record {
      sorted = insert-IsSorted k f s.observers v.sorted;
      counted = ground (arith, v.counted, length-insert k f s.observers v.sorted);
    },
    λ j. lookup-insert j k f s.observers,
  )

  -- On a valid subject, unregistering keeps the counter right, removes exactly the observer named,
  -- and returns it if and only if it was registered.
  pub unregister_observer_lem :
      (k : ℕ) (s : Subject F)
      → IsValid s
      → IsValid (unregister_observer k s).1
        × ((unregister_observer k s).0 ≡ (if is_some (lookup k s.observers) then some k else none))
        × ((j : ℕ)
            → lookup j (unregister_observer k s).1.observers
              ≡ (if k == j then none else lookup j s.observers))
  unfolding unregister_observer
  unregister_observer_lem k s v = (
    record {
      sorted = erase-IsSorted k s.observers v.sorted;
      counted = ground (arith, v.counted, length-erase k s.observers);
    },
    refl,
    λ j. lookup-erase j k s.observers v.sorted,
  )

  module _ {E : Type 0} (is_alive : ℕ → Bool) (accepts : F → E → Bool) where
    -- Whether an entry of the table, found under an observer, means that it is told.
    abbrev pub is_told : E → Bool → Option F → Bool
    is_told events alive none = false
    is_told events alive (some f) = alive && accepts f events

    retain-Above :
        (e : E) (j : ℕ) (d : Dict F) (n : ℕ) → Above j d → Above j (retain is_alive accepts e d n).1
    unfolding retain
    retain-Above e j [] n h = tt
    retain-Above e j ((k, f) ∷ d) n h =
        ground (arith, retain-Above e j d (if is_alive k then n else n - 1) h.1)

    retain-IsSorted :
        (e : E) (d : Dict F) (n : ℕ) → IsSorted d → IsSorted (retain is_alive accepts e d n).1
    unfolding retain
    retain-IsSorted e [] n h = tt
    retain-IsSorted e ((k, f) ∷ d) n h =
        let m = if is_alive k then n else n - 1 in
        ground (arith, retain-IsSorted e d m h.1, retain-Above e k d m h.0)

    -- The counter goes down by one for each entry that is dropped.
    retain-counted :
        (e : E) (d : Dict F) (n m : ℕ)
        → n ≡ length d + m
        → (retain is_alive accepts e d n).2 ≡ length (retain is_alive accepts e d n).1 + m
    unfolding retain
    retain-counted e [] n m h = omega arith
    retain-counted e ((k, f) ∷ d) n m h =
        ground (arith, retain-counted e d n (suc m), retain-counted e d (n - 1) m)

    retain-told :
        (e : E) (j : ℕ) (d : Dict F) (n : ℕ)
        → IsSorted d
        → contains j (retain is_alive accepts e d n).0 ≡ is_told e (is_alive j) (lookup j d)
    unfolding retain
    retain-told e j [] n h = refl
    retain-told e j ((k, f) ∷ d) n h =
        ground (arith, retain-told e j d (if is_alive k then n else n - 1) h.1, lookup-Above j k d)

    retain-kept :
        (e : E) (j : ℕ) (d : Dict F) (n : ℕ)
        → IsSorted d
        → lookup j (retain is_alive accepts e d n).1 ≡ (if is_alive j then lookup j d else none)
    unfolding retain
    retain-kept e j [] n h = ground arith
    retain-kept e j ((k, f) ∷ d) n h =
        ground (arith, retain-kept e j d (if is_alive k then n else n - 1) h.1, lookup-Above j k d)

    -- The table of a subject whose counter is zero is empty, so the fast path tells whom the slow
    -- path would.
    empty_of_counter : (s : Subject F) → IsValid s → s.num_observers ≡ 0 → s.observers ≡ []
    empty_of_counter s v h = go s.observers (omega (arith, v.counted))
      where
        go : (d : Dict F) → length d ≡ 0 → d ≡ []
        go [] e = refl
        go (x ∷ d) e = absurd (omega arith)

    -- What a notification does: the subject stays valid, an observer is told exactly when it is
    -- registered, alive and its filter accepts the event, and exactly the dead ones are dropped.
    pub record Notified (e : E) (s : Subject F) (out : List ℕ × Subject F) : Type 0 where
      pub valid : IsValid out.1
      pub told : (j : ℕ) → contains j out.0 ≡ is_told e (is_alive j) (lookup j s.observers)
      pub kept :
          (j : ℕ) → lookup j out.1.observers ≡ (if is_alive j then lookup j s.observers else none)

    -- On a valid subject `notify_observers`, on the fast path and on the slow one, leaves a valid
    -- subject, tells an observer exactly when it is registered, alive and its filter accepts the
    -- event, and drops exactly the dead ones.
    pub notify_observers_lem :
        (e : E) (s : Subject F) → IsValid s → Notified e s (notify_observers is_alive accepts e s)
    unfolding notify_observers
    notify_observers_lem e s v = elim (Bool-cases (s.num_observers == 0)) [
      | inl none_left ↦
          let empty = empty_of_counter s v (ground arith) in
          rw none_left (record {
            valid = v;
            told = λ j. rw empty;
            kept = λ j. ground (arith, ap (lookup j) empty);
          })
      | inr some_left ↦ rw some_left (record {
        valid = record {
          sorted = retain-IsSorted e s.observers s.num_observers v.sorted;
          counted = omega (
            arith,
            v.counted,
            retain-counted e s.observers s.num_observers 0 (omega (arith, v.counted)),
          );
        };
        told = λ j. retain-told e j s.observers s.num_observers v.sorted;
        kept = λ j. retain-kept e j s.observers s.num_observers v.sorted;
      })
    ]
