-- ===== src/Events/Tests.antt =====
-- A subject of events/subject.rs with a live and a dead observer.
use jinux.Base.{ℕ, ◌≡◌, refl, Bool, [], ◌∷◌, leb, arith}
use jinux.Events.{Subject, notify_observers}
use jinux.Events.Laws.{IsValid}

-- Observers 3, 5 and 8; the filter of each is the least event that it accepts.
abbrev three_observers : Subject ℕ
three_observers = record { observers = (3, 0) ∷ (5, 7) ∷ (8, 0) ∷ []; num_observers = 3 }

abbrev below_eight : ℕ → Bool
below_eight k = leb k 7

three_observers-IsValid : IsValid three_observers
three_observers-IsValid = record { sorted = ground arith; counted = refl }

told_example : (notify_observers below_eight leb 4 three_observers).0 ≡ 3 ∷ []
unfolding notify_observers
told_example = refl
