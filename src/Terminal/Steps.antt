-- ===== src/Terminal/Steps.antt =====
-- Terminals and sessions belong together, whatever the processes do (terminal.rs, job_control.rs, session.rs).
use jinux.Base.{
  ℕ, ◌≡◌, refl, sym, subst, ap, ◌∙◌, ◌⊎◌, Bool, true, false, Option, none, some, arith, ◌==◌,
  if◌then◌else◌, ok, err, Bool-cases, Option-cases, inl, inr, eperm,
}
use jinux.Terminal.{
  World, Current, upgrade, session, put_control, put_terminal, set_current_session, set_terminal,
  claim, release_current_session, release_terminal, release, set_foreground, set_job_foreground,
  is_controlling_terminal,
}

-- The state after a terminal has been acquired
abbrev pub acquired : World → Current → ℕ → World
acquired w c t =
    put_terminal (put_control w t (record { foreground = some c.group; session = some c.session }))
      c.session (some t)

-- `set_current_session` refuses, or finds neither a session nor a terminal and sets both.
pub set_current_session-cases :
    (w : World) (c : Current) (t : ℕ)
    → (set_current_session w c t ≡ (w, err eperm))
      ⊎ ((set_current_session w c t ≡ (acquired w c t, ok tt))
          × (session w t ≡ none)
          × (w.terminal c.session ≡ none))
unfolding set_current_session set_terminal claim
set_current_session-cases w c t = elim (Bool-cases c.is_session_leader) [
  | inr e ↦ inl (rw (e, set_current_session) refl)
  | inl e ↦ elim (Option-cases (w.terminal c.session)) [
    | inr (u, f) ↦ inl (rw (e, f, set_current_session) refl)
    | inl f ↦ elim (Option-cases (session w t)) [
      | inr (r, g) ↦ inl (rw (e, f, g, set_current_session) (rw (g, claim) refl))
      | inl g ↦ inr (rw (e, f, g, set_current_session) (rw (g, claim) refl), g, f)
    ]
  ]
]

some_of_upgrade : (alive : ℕ → Bool) (o : Option ℕ) (s : ℕ) → upgrade alive o ≡ some s → o ≡ some s
some_of_upgrade alive none s h = h
some_of_upgrade alive (some x) s h = ground (arith, h)

release_terminal-cases :
    (w : World) (c : Current)
    → ((release_terminal w c).0 ≡ w) ⊎ ((release_terminal w c).0 ≡ put_terminal w c.session none)
unfolding release_terminal release
release_terminal-cases w c = elim (Option-cases (w.terminal c.session)) [
  | inl e ↦ inl (rw (e, release_terminal) refl)
  | inr (t, e) ↦ elim (Option-cases (session w t)) [
    | inl f ↦ inl (rw (e, f, release_terminal, release) refl)
    | inr (s, f) ↦ inr (rw (e, f, release_terminal, release) refl)
  ]
]

-- `release_current_session` changes at most the terminal of the session, to none.
release_current_session-cases :
    (w : World) (c : Current) (t : ℕ)
    → ((release_current_session w c t).0 ≡ w)
      ⊎ ((release_current_session w c t).0 ≡ put_terminal w c.session none)
unfolding release_current_session release_terminal
release_current_session-cases w c t = elim (Bool-cases (is_controlling_terminal w c t)) [
  | inr e ↦ inl (rw (e, release_current_session) refl)
  | inl e ↦ elim (Bool-cases c.is_session_leader) [
    | inr f ↦ inl (rw (e, f, release_current_session) refl)
    | inl f ↦ elim (release_terminal-cases w c) [
      | inl r ↦ inl (rw (e, f, release_current_session) r)
      | inr r ↦ inr (rw (e, f, release_current_session) r)
    ]
  ]
]

module _ (session_of : ℕ → ℕ) where
  -- A step: a method called by a process whose session is that of its group, or the end of
  -- a session or a group
  pub data Step : World → World → Type 0 where
    acquires :
        {w : World} (c : Current) (t : ℕ)
        → session_of c.group ≡ c.session
        → Step w (set_current_session w c t).0
    releases : {w : World} (c : Current) (t : ℕ) → Step w (release_current_session w c t).0
    puts_foreground :
        {w : World} (c : Current) (t : ℕ) (g : Option ℕ)
        → Step w (set_foreground session_of w c t g).0
    session_ends :
        {w : World} (s : ℕ)
        → Step w (record w { session_alive = λ r. if s == r then false else w.session_alive r })
    group_ends :
        {w : World} (g : ℕ)
        → Step w (record w { group_alive = λ r. if g == r then false else w.group_alive r })

  pub data Steps : World → World → Type 0 where
    done : {w : World} → Steps w w
    then_step : {w w' w'' : World} → Steps w w' → Step w' w'' → Steps w w''

  -- A live session is the session of its terminal, and the foreground group of a terminal is of the terminal's session.
  pub record IsConsistent (w : World) : Type 0 where
    pub own :
        (s t : ℕ)
        → w.session_alive s ≡ true
        → w.terminal s ≡ some t
        → (w.control t).session ≡ some s
    pub front :
        (t g : ℕ) → (w.control t).foreground ≡ some g → (w.control t).session ≡ some (session_of g)

  acquired-IsConsistent :
      (w : World) (c : Current) (t : ℕ)
      → session_of c.group ≡ c.session
      → session w t ≡ none
      → IsConsistent w
      → IsConsistent (acquired w c t)
  acquired-IsConsistent w c t e free i = record {
    own = λ s u a h. ground (arith, i.own s u a);
    front = λ u g h. ground (arith, i.front u g);
  }

  acquires-IsConsistent :
      (w : World) (c : Current) (t : ℕ)
      → session_of c.group ≡ c.session
      → IsConsistent w
      → IsConsistent (set_current_session w c t).0
  acquires-IsConsistent w c t e i = elim (set_current_session-cases w c t) [
    | inl r ↦ subst (λ o. IsConsistent o.0) (sym r) i
    | inr (r, free, none_yet) ↦
        subst (λ o. IsConsistent o.0) (sym r) (acquired-IsConsistent w c t e free i)
  ]

  -- Releasing changes at most the terminal of a session, to none.
  released-IsConsistent :
      (w : World) (s : ℕ) → IsConsistent w → IsConsistent (put_terminal w s none)
  released-IsConsistent w s i = record {
    own = λ r u a h. ground (arith, i.own r u a);
    front = i.front;
  }

  releases-IsConsistent :
      (w : World) (c : Current) (t : ℕ)
      → IsConsistent w
      → IsConsistent (release_current_session w c t).0
  releases-IsConsistent w c t i = elim (release_current_session-cases w c t) [
    | inl r ↦ subst IsConsistent (sym r) i
    | inr r ↦ subst IsConsistent (sym r) (released-IsConsistent w c.session i)
  ]

  put_foreground-IsConsistent :
      (w : World) (t : ℕ) (g : Option ℕ)
      → ((k : ℕ) → g ≡ some k → (w.control t).session ≡ some (session_of k))
      → IsConsistent w
      → IsConsistent (put_control w t (record (w.control t) { foreground = g }))
  put_foreground-IsConsistent w t g ok_group i = record {
    own = λ s u a h. ground (arith, i.own s u a h);
    front = λ u k h. ground (arith, i.front u k, ok_group k);
  }

  set_job_foreground-IsConsistent :
      (w : World) (t : ℕ) (g : Option ℕ)
      → IsConsistent w
      → IsConsistent (set_job_foreground session_of w t g).0
  unfolding set_job_foreground
  set_job_foreground-IsConsistent w t none i =
      put_foreground-IsConsistent w t none (λ k e. ground arith) i
  set_job_foreground-IsConsistent w t (some g) i = elim (Option-cases (session w t)) [
    | inl e ↦ rw (e, set_job_foreground) i
    | inr (s, e) ↦ elim (Bool-cases (s == session_of g)) [
      | inr q ↦ rw (e, q, set_job_foreground) i
      | inl q ↦
          let own : (w.control t).session ≡ some s =
            some_of_upgrade w.session_alive (w.control t).session s e in
          let same : s ≡ session_of g = ground arith in
          rw (e, q, set_job_foreground)
            (put_foreground-IsConsistent w t (some g)
              (λ k h. own ∙ ap some same ∙ ground (arith, h)) i)
    ]
  ]

  puts-IsConsistent :
      (w : World) (c : Current) (t : ℕ) (g : Option ℕ)
      → IsConsistent w
      → IsConsistent (set_foreground session_of w c t g).0
  unfolding set_foreground
  puts-IsConsistent w c t g i = elim (Bool-cases (is_controlling_terminal w c t)) [
    | inl e ↦ rw e (set_job_foreground-IsConsistent w t g i)
    | inr e ↦ rw e i
  ]

  Step-IsConsistent : (w w' : World) → IsConsistent w → Step w w' → IsConsistent w'
  Step-IsConsistent w _ i (acquires c t e) = acquires-IsConsistent w c t e i
  Step-IsConsistent w _ i (releases c t) = releases-IsConsistent w c t i
  Step-IsConsistent w _ i (puts_foreground c t g) = puts-IsConsistent w c t g i
  Step-IsConsistent w _ i (session_ends s) = record {
    own = λ r u a h. ground (arith, i.own r u);
    front = i.front;
  }
  Step-IsConsistent w _ i (group_ends g) = record { own = i.own; front = i.front }

  -- From a consistent state, after any sequence of calls and of ends of sessions and groups, the terminal of
  -- every live session has that session, and the group in the foreground of every terminal is one of the
  -- terminal's session.
  pub Steps-IsConsistent : (w w' : World) → IsConsistent w → Steps w w' → IsConsistent w'
  Steps-IsConsistent w _ i done = i
  Steps-IsConsistent w w' i (then_step {w' = v} ss s) =
      Step-IsConsistent v w' (Steps-IsConsistent w v i ss) s
