-- ===== src/ProcessGroup/Begin.antt =====
-- Moving a process to a new session, `to_new_session` (process/process/mod.rs).
use jinux.Base.{ℕ, ◌≡◌, ◌∙◌, ap, refl, true, false, Option, none, some, ok, arith}
use jinux.Base.Dict.{lookup}
use jinux.Base.DictLaws.{lookup-insert}
use jinux.ProcessGroup.{
  is_just, Group, Session, Tables, leave, with_session, new_group, new_session, settle,
  remove_leader, begin_session, to_new_session, is_group_leader,
}
use jinux.ProcessGroup.Links.{is_member, refers, belongs, IsLinked}
use jinux.ProcessGroup.Settle.{
  remove_leader-IsLinked, settle-groups, settle-group_of, settle-fresh, left_and_settled,
}

begin_session-IsLinked :
    (pid : ℕ) (t : Tables)
    → IsLinked t
    → lookup pid t.groups ≡ none
    → lookup pid t.sessions ≡ none
    → ((pgid : ℕ) → refers pid pgid t ≡ false)
    → IsLinked (begin_session pid t)
begin_session-IsLinked pid t linked fresh none_there alone = record {
  members = λ q pgid. ground (
    arith,
    fresh,
    alone pgid,
    linked.members q pgid,
    lookup-insert pgid pid (new_group pid pid) t.groups,
    lookup-insert q pid pid t.group_of,
  );
  listed = λ sid pgid. ground (
    arith,
    fresh,
    none_there,
    linked.listed sid pgid,
    lookup-insert pgid pid (new_group pid pid) t.groups,
    lookup-insert sid pid (new_session pid) t.sessions,
  );
}

begin_session-enters :
    (pid sid : ℕ) (t : Tables)
    → (is_member pid pid (with_session sid (remove_leader pid) (begin_session pid t)) ≡ true)
      × (belongs pid pid (with_session sid (remove_leader pid) (begin_session pid t)) ≡ true)
begin_session-enters pid sid t = (
  ground (arith, lookup-insert pid pid (new_group pid pid) t.groups),
  ground (arith, lookup-insert pid pid (new_group pid pid) t.groups),
)

module _ (pid old sid : ℕ) (g : Group) (s : Session) (t : Tables) where
  to_new_session-leave :
      (t' : Tables) (emptied : Option ℕ)
      → lookup pid t.group_of ≡ some old
      → lookup old t.groups ≡ some g
      → g.session ≡ some sid
      → lookup sid t.sessions ≡ some s
      → is_just s.leader pid ≡ false
      → is_group_leader pid t ≡ false
      → lookup pid t.sessions ≡ none
      → lookup pid t.groups ≡ none
      → leave pid t ≡ (t', emptied)
      → to_new_session pid t
        ≡ some (
          with_session sid (remove_leader pid) (begin_session pid (settle sid (t', emptied))),
          ok pid,
        )
  unfolding to_new_session
  to_new_session-leave t' emptied e f h k l m n o left =
      rw (e, to_new_session)
        (rw (f, to_new_session)
          (rw (h, to_new_session)
            (rw (k, to_new_session) (rw l (rw m (rw n (rw o (rw left refl))))))))

  -- A process of a linked state that leads neither its session nor its group, and whose id is that of no session and no
  -- group, can be moved to a new session: the call returns its id and does not panic, the state is linked again, the
  -- process is in the group of its own id, and that group belongs to the session of that id.
  pub to_new_session_lem :
      IsLinked t
      → lookup pid t.group_of ≡ some old
      → lookup old t.groups ≡ some g
      → g.session ≡ some sid
      → lookup sid t.sessions ≡ some s
      → is_just s.leader pid ≡ false
      → is_group_leader pid t ≡ false
      → lookup pid t.sessions ≡ none
      → lookup pid t.groups ≡ none
      → (t' : Tables) × (to_new_session pid t ≡ some (t', ok pid))
        × IsLinked t'
        × (is_member pid pid t' ≡ true)
        × (belongs pid pid t' ≡ true)
  to_new_session_lem linked e f h k l m n o =
      let (t1, emptied, left, linked1, leaves) =
        left_and_settled pid old sid g s t linked e f h k in
      let t2 = settle sid (t1, emptied) in
      let begun =
        begin_session-IsLinked pid t2 linked1
          (ap (lookup pid) (settle-groups sid t1 emptied) ∙ leaves.ids pid o)
          (settle-fresh pid sid t1 emptied (ap (lookup pid) leaves.same_sessions ∙ n))
          (λ pgid.
            ap (λ x. is_just (lookup pid x) pgid) (settle-group_of sid t1 emptied)
            ∙ ground (arith, leaves.left pid pgid)) in
      (
        with_session sid (remove_leader pid) (begin_session pid t2),
        to_new_session-leave t1 emptied e f h k l m n o left,
        remove_leader-IsLinked pid sid (begin_session pid t2) begun,
        (begin_session-enters pid sid t2).0,
        (begin_session-enters pid sid t2).1,
      )
