-- ===== src/Terminal/Kept.antt =====
-- What `release_current_session` of terminal.rs and job_control.rs leaves in the terminal.
use jinux.Base.{ℕ, ◌≡◌, refl, true, none, some, arith, ◌==◌, ok, err, eperm, inl, inr}
use jinux.Terminal.Steps.{set_current_session-cases}
use jinux.Terminal.{
  World, Current, session, put_terminal, set_current_session, release_current_session,
  release_terminal, release, is_controlling_terminal,
}

-- When the leader of a live session, whose terminal has that session, releases the terminal: it
-- does not fail, and the session has no terminal any more; but in the state after it no process
-- can make the terminal its own, neither of another session nor of the same: `set_current_session`
-- fails with EPERM.
pub released_terminal_is_taken :
    (w : World) (c : Current) (t : ℕ)
    → c.is_session_leader ≡ true
    → w.terminal c.session ≡ some t
    → session w t ≡ some c.session
    → (w' : World) × (release_current_session w c t ≡ (w', ok tt))
      × (w'.terminal c.session ≡ none)
      × ((c' : Current) → set_current_session w' c' t ≡ (w', err eperm))
unfolding release_current_session release_terminal release
released_terminal_is_taken w c t leader own back =
    let w' = put_terminal w c.session none in
    let same : (t == t) ≡ true = ground arith in
    let controlling : is_controlling_terminal w c t ≡ true =
      rw (own, same, is_controlling_terminal) refl in
    let here : (c.session == c.session) ≡ true = ground arith in
    (
      w',
      rw (controlling, leader, release_current_session)
          (rw (own, release_terminal) (rw (back, release) refl)),
      rw here refl,
      λ c'. elim (set_current_session-cases w' c' t) [
        | inl refused ↦ refused
        | inr (r, free, unowned) ↦
            let still : session w' t ≡ some c.session = back in absurd (ground arith)
      ],
    )
