-- ===== src/Terminal.antt =====
-- Controlling terminals: services/libs/aster-std/src/process/process/terminal.rs and job_control.rs, with the terminal of
-- a session (session.rs). Terminals, sessions and process groups are numbers, and a weak reference can be upgraded while
-- its number is alive. Waiting for the foreground, and the notices to those who wait, are not in the model. The locks make
-- each method one step.
pub mod Steps
pub mod Kept
mod Tests
use jinux.Base.{
  ℕ, Bool, true, false, not, Option, none, some, List, [], ◌∷◌, ◌==◌, if◌then◌else◌, Result, ok,
  err, eperm, enotty, is_some,
}

-- `JobControl`
pub record JobControl : Type 0 where
  pub foreground : Option ℕ
  pub session : Option ℕ

-- What the methods read and write: the job control of each terminal, the terminal of each session, and which sessions and
-- groups are alive
pub record World : Type 0 where
  pub control : ℕ → JobControl
  pub terminal : ℕ → Option ℕ
  pub session_alive : ℕ → Bool
  pub group_alive : ℕ → Bool

-- `current!()`, with its process group and session
pub record Current : Type 0 where
  pub group : ℕ
  pub session : ℕ
  pub is_session_leader : Bool

-- `Weak::upgrade`
abbrev pub upgrade : (ℕ → Bool) → Option ℕ → Option ℕ
upgrade alive none = none
upgrade alive (some x) = if alive x then some x else none

-- `JobControl::session` and `JobControl::foreground`
abbrev pub session : World → ℕ → Option ℕ
session w t = upgrade w.session_alive (w.control t).session

abbrev pub foreground : World → ℕ → Option ℕ
foreground w t = upgrade w.group_alive (w.control t).foreground

abbrev pub put_control : World → ℕ → JobControl → World
put_control w t c = record w { control = λ u. if t == u then c else w.control u }

abbrev pub put_terminal : World → ℕ → Option ℕ → World
put_terminal w s t = record w { terminal = λ r. if s == r then t else w.terminal r }

-- The outcome of a method: the state after it and its result
abbrev pub Outcome : Type 0
Outcome = World × Result (Unit {0})

-- `JobControl::set_current_session` of the terminal `t`
unfoldable pub claim : World → Current → ℕ → Outcome
claim w c t =
    if is_some (session w t)
    then (w, err eperm)
    else (put_control w t (record { foreground = some c.group; session = some c.session }), ok tt)

-- `JobControl::release_current_session`: the groups to which SIGHUP and SIGCONT are sent; the state is kept.
unfoldable pub release : World → ℕ → List ℕ × Result (Unit {0})
release w t = elim (session w t) [
  | none ↦ ([], err enotty)
  | some s ↦ (elim (foreground w t) [ none ↦ [] | some g ↦ g ∷ [] ], ok tt)
]

-- `Terminal::is_controlling_terminal`
abbrev pub is_controlling_terminal : World → Current → ℕ → Bool
is_controlling_terminal w c t = elim (w.terminal c.session) [ none ↦ false | some u ↦ u == t ]

-- `JobControl::set_foreground`, where the session of a group is given
module _ (session_of : ℕ → ℕ) where
  unfoldable pub set_job_foreground : World → ℕ → Option ℕ → Outcome
  set_job_foreground w t none =
      (put_control w t (record (w.control t) { foreground = none }), ok tt)
  set_job_foreground w t (some g) = elim (session w t) [
    | none ↦ (w, err eperm)
    | some s ↦
        if s == session_of g
        then (put_control w t (record (w.control t) { foreground = some g }), ok tt)
        else (w, err eperm)
  ]

  -- `Terminal::set_foreground`, of the group that the table has for the id
  unfoldable pub set_foreground : World → Current → ℕ → Option ℕ → Outcome
  set_foreground w c t g =
      if is_controlling_terminal w c t then set_job_foreground w t g else (w, err enotty)

-- `Session::set_terminal`, with the closure of `Terminal::set_current_session`
unfoldable pub set_terminal : World → Current → ℕ → Outcome
set_terminal w c t =
    if is_some (w.terminal c.session)
    then (w, err eperm)
    else (let (w', outcome) = claim w c t in
        elim outcome [ err e ↦ (w', err e) | ok u ↦ (put_terminal w' c.session (some t), ok tt) ])

-- `Terminal::set_current_session`
unfoldable pub set_current_session : World → Current → ℕ → Outcome
set_current_session w c t = if c.is_session_leader then set_terminal w c t else (w, err eperm)

-- `Session::release_terminal`, with the closure of `Terminal::release_current_session`
unfoldable pub release_terminal : World → Current → Outcome
release_terminal w c = elim (w.terminal c.session) [
  | none ↦ (w, err enotty)
  | some t ↦ elim (release w t).1 [
    | err e ↦ (w, err e)
    | ok u ↦ (put_terminal w c.session none, ok tt)
  ]
]

-- `Terminal::release_current_session`
unfoldable pub release_current_session : World → Current → ℕ → Outcome
release_current_session w c t =
    if is_controlling_terminal w c t
    then (if c.is_session_leader then release_terminal w c else (w, ok tt))
    else (w, err enotty)

-- `JobControl::current_belongs_to_foreground`, where the processes of a group are given
unfoldable pub belongs_to_foreground : (ℕ → ℕ → Bool) → World → ℕ → ℕ → Bool
belongs_to_foreground contains w t pid = elim (foreground w t) [
  | none ↦ true
  | some g ↦ contains g pid
]
