-- ===== src/ProcessGroup/Other.antt =====
-- Moving a process to the group that a caller names, `to_other_group` (process/process/mod.rs).
use jinux.Base.{
  ℕ, ◌≡◌, ◌∙◌, sym, ap, refl, subst, true, false, Option, none, some, Result, ok, err, eperm, ◌==◌,
  if◌then◌else◌, is_some, arith, Bool-cases, inl, inr,
}
use jinux.Base.Dict.{lookup}
use jinux.ProcessGroup.{
  Tables, Session, Group, is_just, is_empty, remove_process, pgid_of, session, to_specified_group,
  to_new_group, to_other_group,
}
use jinux.ProcessGroup.Links.{refers, IsLinked}
use jinux.ProcessGroup.Moves.{to_new_group_lem}
use jinux.ProcessGroup.Stale.{to_specified_group_lem}

module _ (pid pgid sid : ℕ) (s : Session) (t : Tables)
    (in_session : session pid t ≡ some (sid, s)) where
  other-same : (pgid_of pid t == pgid) ≡ true → to_other_group pid pgid t ≡ some (t, ok tt)
  unfolding to_other_group
  other-same n = rw (n, to_other_group) refl

  other-leader :
      (pgid_of pid t == pgid) ≡ false
      → is_just s.leader pid ≡ true
      → to_other_group pid pgid t ≡ some (t, err eperm)
  unfolding to_other_group
  other-leader n l =
      rw (n, to_other_group) (rw (in_session, to_other_group) (rw (l, to_other_group) refl))

  other-found :
      (h : Group)
      → (pgid_of pid t == pgid) ≡ false
      → is_just s.leader pid ≡ false
      → lookup pgid t.groups ≡ some h
      → to_other_group pid pgid t ≡ (
          if is_some (lookup pgid s.process_groups)
          then some (to_specified_group pid pgid t, ok tt)
          else some (t, err eperm))
  unfolding to_other_group
  other-found h n l e =
      rw (n, to_other_group)
        (rw (in_session, to_other_group) (rw (l, to_other_group) (rw (e, to_other_group) refl)))

  other-absent :
      (pgid_of pid t == pgid) ≡ false
      → is_just s.leader pid ≡ false
      → lookup pgid t.groups ≡ none
      → to_other_group pid pgid t
        ≡ (if pgid == pid then some (to_new_group pid sid t, ok tt) else some (t, err eperm))
  unfolding to_other_group
  other-absent n l e =
      rw (n, to_other_group)
        (rw (in_session, to_other_group) (rw (l, to_other_group) (rw (e, to_other_group) refl)))

-- The tables after a call, by its result.
abbrev pub Moved : ℕ → ℕ → Tables → Tables → Result (Unit {0}) → Type 0
Moved pid pgid t t' (ok u) = refers pid pgid t' ≡ true
Moved pid pgid t t' (err e) = (e ≡ eperm) × (t' ≡ t)

abbrev pub Answers : ℕ → ℕ → Tables → Type 0
Answers pid pgid t =
    (t' : Tables) × (r : Result (Unit {0})) × (to_other_group pid pgid t ≡ some (t', r))
    × IsLinked t'
    × Moved pid pgid t t' r

module _ (pid pgid old sid : ℕ) (g : Group) (s : Session) (t : Tables) (linked : IsLinked t)
    (in_group : lookup pid t.group_of ≡ some old) (group_there : lookup old t.groups ≡ some g)
    (of_session : g.session ≡ some sid) (session_there : lookup sid t.sessions ≡ some s) where
  in_its_session : session pid t ≡ some (sid, s)
  in_its_session = ground (arith, in_group, group_there, of_session, session_there)

  pgid_of-old : pgid_of pid t ≡ old
  pgid_of-old = ground (arith, in_group, group_there)

  fails : to_other_group pid pgid t ≡ some (t, err eperm) → Answers pid pgid t
  fails e = (t, err eperm, e, linked, (refl, refl))

  Answers-found :
      (h : Group)
      → is_empty (remove_process pid g).processes ≡ false
      → (old == pgid) ≡ false
      → is_just s.leader pid ≡ false
      → lookup pgid t.groups ≡ some h
      → Answers pid pgid t
  Answers-found h stays n l e =
      let outcome =
        other-found pid pgid sid s t in_its_session h (ap (λ x. x == pgid) pgid_of-old ∙ n) l e in
      elim (Bool-cases (is_some (lookup pgid s.process_groups))) [
        | inl listed ↦
            let moved =
              to_specified_group_lem pid old pgid g h t linked in_group group_there e n stays in
            (to_specified_group pid pgid t, ok tt, outcome ∙ rw listed refl, moved.0, moved.1)
        | inr unlisted ↦ fails (outcome ∙ rw unlisted refl)
      ]

  Answers-absent :
      (old == pgid) ≡ false
      → is_just s.leader pid ≡ false
      → lookup pgid t.groups ≡ none
      → Answers pid pgid t
  Answers-absent n l e =
      let outcome =
        other-absent pid pgid sid s t in_its_session (ap (λ x. x == pgid) pgid_of-old ∙ n) l e in
      elim (Bool-cases (pgid == pid)) [
        | inl own ↦
            let same : pgid ≡ pid = ground (arith, own) in
            let moved =
              to_new_group_lem pid old sid g s t linked in_group group_there of_session
                session_there (subst (λ x. lookup x t.groups ≡ none) same e) in
            (
              to_new_group pid sid t,
              ok tt,
              outcome ∙ rw own refl,
              moved.0,
              subst (λ x. refers pid x (to_new_group pid sid t) ≡ true) (sym same)
                  (sym (IsLinked.members moved.0 pid pid) ∙ moved.1),
            )
        | inr other ↦ fails (outcome ∙ rw other refl)
      ]

  by_group :
      is_empty (remove_process pid g).processes ≡ false
      → (old == pgid) ≡ false
      → is_just s.leader pid ≡ false
      → (x : Option Group) → lookup pgid t.groups ≡ x
      → Answers pid pgid t
  by_group stays n l none e = Answers-absent n l e
  by_group stays n l (some h) e = Answers-found h stays n l e

  -- A process of a linked state, in a group of a session and not the last of its group, asks for a group: the call does
  -- not panic and leaves a linked state; if it succeeds the process refers to that group, and if it fails it fails
  -- with EPERM and changes nothing.
  pub to_other_group_lem : is_empty (remove_process pid g).processes ≡ false → Answers pid pgid t
  to_other_group_lem stays = elim (Bool-cases (old == pgid)) [
    | inl same ↦ (
      t,
      ok tt,
      other-same pid pgid sid s t in_its_session (ap (λ x. x == pgid) pgid_of-old ∙ same),
      linked,
      ap (λ x. is_just x pgid) in_group ∙ same,
    )
    | inr n ↦ elim (Bool-cases (is_just s.leader pid)) [
      | inl leads ↦
          fails (
            other-leader pid pgid sid s t in_its_session (ap (λ x. x == pgid) pgid_of-old ∙ n)
              leads)
      | inr l ↦ by_group stays n l (lookup pgid t.groups) refl
    ]
  ]
