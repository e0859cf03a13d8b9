-- ===== src/Events.antt =====
-- Subjects and observers: services/libs/aster-std/src/events/subject.rs.
-- An observer is the address that keys it. Whether its weak reference can still be upgraded is the
-- parameter `is_alive`, and `accepts` is the filter's method; a notification returns the observers
-- whose `on_events` it calls, in that order.
pub mod Laws
mod Tests
use jinux.Base.{
  ℕ, ◌+◌, ◌-◌, Bool, Option, none, some, List, [], ◌∷◌, ◌&&◌, ◌==◌, if◌then◌else◌, is_some,
}
use jinux.Base.Dict.{Dict, lookup, insert, erase}

-- `Subject`
pub record Subject (F : Type 0) : Type 0 where
  pub observers : Dict F
  pub num_observers : ℕ

-- `Subject::new`
unfoldable pub new : (F : Type 0) → Subject F
new F = record { observers = []; num_observers = 0 }

module _ {F : Type 0} where
  -- `Subject::register_observer`
  unfoldable pub register_observer : ℕ → F → Subject F → Subject F
  register_observer observer filter s = record {
    observers = insert observer filter s.observers;
    num_observers =
        if is_some (lookup observer s.observers) then s.num_observers else s.num_observers + 1;
  }

  -- `Subject::unregister_observer`, which returns the observer that it removed
  unfoldable pub unregister_observer : ℕ → Subject F → Option ℕ × Subject F
  unregister_observer observer s =
      let found = is_some (lookup observer s.observers) in
      (
        if found then some observer else none,
        record {
          observers = erase observer s.observers;
          num_observers = if found then s.num_observers - 1 else s.num_observers;
        },
      )

  module _ {E : Type 0} (is_alive : ℕ → Bool) (accepts : F → E → Bool) where
    -- The closure of `retain` over the map: who is called, what is kept, and the counter.
    unfoldable pub retain : E → Dict F → ℕ → List ℕ × Dict F × ℕ
    retain events [] n = ([], [], n)
    retain events ((observer, filter) ∷ d) n =
        let (called, kept, n') = retain events d (if is_alive observer then n else n - 1) in
        if is_alive observer
        then (
          if accepts filter events then observer ∷ called else called,
          (observer, filter) ∷ kept,
          n',
        )
        else (called, kept, n')

    -- The slow path of `notify_observers`.
    abbrev broadcast : E → Subject F → List ℕ × Subject F
    broadcast events s =
        let (called, kept, n) = retain events s.observers s.num_observers in
        (called, record { observers = kept; num_observers = n })

    -- `Subject::notify_observers`
    unfoldable pub notify_observers : E → Subject F → List ℕ × Subject F
    unfolding retain
    notify_observers events s = if s.num_observers == 0 then ([], s) else broadcast events s
