-- ===== src/Terminal/Tests.antt =====
-- Terminals at concrete inputs (terminal.rs, job_control.rs).
use jinux.Base.{ℕ, ◌≡◌, refl, true, none, some, arith, ◌==◌, if◌then◌else◌, ok, err, eperm}
use jinux.Terminal.{
  World, Current, set_current_session, release_current_session, set_foreground, set_job_foreground,
}
use jinux.Terminal.Steps.{
  Steps, done, then_step, acquires, puts_foreground, IsConsistent, Steps-IsConsistent,
}
use jinux.Terminal.Kept.{released_terminal_is_taken}

-- Session 5 with the terminal 1 and its group 7 in front
abbrev owned : World
owned = record {
  control = λ t.
      if t == 1
      then record { foreground = some 7; session = some 5 }
      else record { foreground = none; session = none };
  terminal = λ s. if s == 5 then some 1 else none;
  session_alive = λ s. true;
  group_alive = λ g. true;
}

abbrev leader : Current
leader = record { group = 7; session = 5; is_session_leader = true }

abbrev other_leader : Current
other_leader = record { group = 8; session = 6; is_session_leader = true }

-- Group `g` is of session `g - 2`.
abbrev session_of : ℕ → ℕ
session_of g = if g == 7 then 5 else if g == 8 then 6 else 0

owned-IsConsistent : IsConsistent session_of owned
owned-IsConsistent = record { own = λ s t a h. ground arith; front = λ t g h. ground arith }

abbrev some_calls : World
some_calls =
    (set_foreground session_of (set_current_session owned other_leader 2).0 other_leader 2
      (some 7)).0

some_calls-Steps : Steps session_of owned some_calls
some_calls-Steps =
    then_step (then_step done (acquires other_leader 2 refl))
      (puts_foreground other_leader 2 (some 7))

Steps-IsConsistent_example : IsConsistent session_of some_calls
Steps-IsConsistent_example =
    Steps-IsConsistent session_of owned some_calls owned-IsConsistent some_calls-Steps

released_terminal_is_taken_example :
    (w' : World) × (release_current_session owned leader 1 ≡ (w', ok tt))
    × (w'.terminal 5 ≡ none)
    × ((c' : Current) → set_current_session w' c' 1 ≡ (w', err eperm))
released_terminal_is_taken_example = released_terminal_is_taken owned leader 1 refl refl refl

-- A group of another session cannot come to the front.
foreign_group : (set_foreground session_of owned leader 1 (some 8)).1 ≡ err eperm
unfolding set_foreground set_job_foreground
foreign_group = refl
