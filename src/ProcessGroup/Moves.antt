-- ===== src/ProcessGroup/Moves.antt =====
-- Moving a process to a new group keeps the tables linked (process/process/mod.rs).
use jinux.Base.{ℕ, ◌≡◌, ◌∙◌, sym, ap, refl, subst, true, false, Option, none, some, arith}
use jinux.Base.Dict.{lookup, insert}
use jinux.Base.DictLaws.{lookup-insert}
use jinux.ProcessGroup.{
  is_just, Group, Session, Tables, leave, with_session, unlist, remove_process_group, enter_new,
  new_group, to_new_group,
}
use jinux.ProcessGroup.Links.{lookup-remove, is_member, refers, lists, IsLinked, Leaves, leave_lem}

-- The session of the group that a process left no longer lists it if it is gone.
pub unlist-IsLinked :
    (pid old sid : ℕ) (g : Group) (s : Session) (t t' : Tables) (emptied : Option ℕ)
    → IsLinked t
    → Leaves pid t t' emptied
    → ((pgid : ℕ) → is_just emptied pgid ≡ true → pgid ≡ old)
    → lookup old t.groups ≡ some g
    → g.session ≡ some sid
    → lookup sid t.sessions ≡ some s
    → IsLinked (unlist sid (t', emptied))
unlist-IsLinked pid old sid g s t t' none linked l only f h k = record {
  members = l.members;
  listed =
      λ sid' pgid. ground (arith, linked.listed sid' pgid, l.belonging pgid sid', l.same_sessions);
}
unlist-IsLinked pid old sid g s t t' (some b) linked l only f h k = record {
  members = λ q pgid. ground (arith, l.members q pgid, l.same_sessions, k);
  listed = λ sid' pgid. ground (
    arith,
    f,
    h,
    k,
    only pgid,
    linked.listed sid' pgid,
    l.belonging pgid sid',
    l.same_sessions,
    lookup-insert sid' sid (remove_process_group b s) t.sessions,
    lookup-remove pgid b s.process_groups,
  );
}

-- Taking a group out of a session leaves groups, processes and the other fields alone.
pub unlist-groups :
    (sid : ℕ) (t : Tables) (emptied : Option ℕ) → (unlist sid (t, emptied)).groups ≡ t.groups
unlist-groups sid t none = refl
unlist-groups sid t (some b) = ground arith

pub unlist-group_of :
    (sid : ℕ) (t : Tables) (emptied : Option ℕ) → (unlist sid (t, emptied)).group_of ≡ t.group_of
unlist-group_of sid t none = refl
unlist-group_of sid t (some b) = ground arith

pub unlist-session :
    (sid : ℕ) (s : Session) (t : Tables) (emptied : Option ℕ)
    → lookup sid t.sessions ≡ some s
    → (s' : Session) × (lookup sid (unlist sid (t, emptied)).sessions ≡ some s')
unlist-session sid s t none k = (s, k)
unlist-session sid s t (some b) k = (
  remove_process_group b s,
  ground (arith, k, lookup-insert sid sid (remove_process_group b s) t.sessions),
)

-- A new group of a session, of a process that is in no group, under an id that no group has.
enter_new-IsLinked :
    (pid sid : ℕ) (s : Session) (t : Tables)
    → IsLinked t
    → lookup pid t.groups ≡ none
    → ((pgid : ℕ) → refers pid pgid t ≡ false)
    → lookup sid t.sessions ≡ some s
    → IsLinked (
        with_session sid
          (λ x. record x { process_groups = insert pid tt x.process_groups })
          (enter_new pid sid t))
enter_new-IsLinked pid sid s t linked fresh alone k = record {
  members = λ q pgid. ground (
    arith,
    k,
    fresh,
    alone pgid,
    linked.members q pgid,
    lookup-insert pgid pid (new_group pid sid) t.groups,
    lookup-insert q pid pid t.group_of,
  );
  listed = λ sid' pgid. ground (
    arith,
    k,
    fresh,
    linked.listed sid' pgid,
    lookup-insert pgid pid (new_group pid sid) t.groups,
    lookup-insert sid' sid (record s { process_groups = insert pid tt s.process_groups })
        t.sessions,
    lookup-insert pgid pid tt s.process_groups,
  );
}

enter_new-is_member :
    (pid sid : ℕ) (s : Session) (t : Tables)
    → lookup sid t.sessions ≡ some s
    → is_member pid pid (
        with_session sid
          (λ x. record x { process_groups = insert pid tt x.process_groups })
          (enter_new pid sid t))
      ≡ true
enter_new-is_member pid sid s t k =
    ground (arith, k, lookup-insert pid pid (new_group pid sid) t.groups)

enter_new-lists :
    (pid sid : ℕ) (s : Session) (t : Tables)
    → lookup sid t.sessions ≡ some s
    → lists sid pid (
        with_session sid
          (λ x. record x { process_groups = insert pid tt x.process_groups })
          (enter_new pid sid t))
      ≡ true
enter_new-lists pid sid s t k = ground (
  arith,
  k,
  lookup-insert sid sid (record s { process_groups = insert pid tt s.process_groups }) t.sessions,
  lookup-insert pid pid tt s.process_groups,
)

to_new_group-leave :
    (pid sid : ℕ) (t t' : Tables) (emptied : Option ℕ)
    → leave pid t ≡ (t', emptied)
    → to_new_group pid sid t
      ≡ with_session sid
          (λ x. record x { process_groups = insert pid tt x.process_groups })
          (enter_new pid sid (unlist sid (t', emptied)))
unfolding to_new_group
to_new_group-leave pid sid t t' emptied e = rw (e, to_new_group) refl

-- A process of a linked state that is in a group of a session, and whose id no group has, can be moved to a new group of
-- that session: groups, processes and sessions are linked again, the process is in the group of its own id, and that
-- group is one of the session.
pub to_new_group_lem :
    (pid old sid : ℕ) (g : Group) (s : Session) (t : Tables)
    → IsLinked t
    → lookup pid t.group_of ≡ some old
    → lookup old t.groups ≡ some g
    → g.session ≡ some sid
    → lookup sid t.sessions ≡ some s
    → lookup pid t.groups ≡ none
    → IsLinked (to_new_group pid sid t)
      × (is_member pid pid (to_new_group pid sid t) ≡ true)
      × (lists sid pid (to_new_group pid sid t) ≡ true)
to_new_group_lem pid old sid g s t linked e f h k fresh =
    let (t', emptied, left, leaves, only) = leave_lem pid old g t linked e f in
    let t2 = unlist sid (t', emptied) in
    let linked2 : IsLinked t2 =
      unlist-IsLinked pid old sid g s t t' emptied linked leaves only f h k in
    let (s2, k2) =
      unlist-session sid s t' emptied
        (subst (λ x. lookup sid x ≡ some s) (sym leaves.same_sessions) k) in
    let fresh2 : lookup pid t2.groups ≡ none =
      ap (lookup pid) (unlist-groups sid t' emptied) ∙ leaves.ids pid fresh in
    let alone : (pgid : ℕ) → refers pid pgid t2 ≡ false = λ pgid.
      ap (λ x. is_just (lookup pid x) pgid) (unlist-group_of sid t' emptied)
      ∙ ground (arith, leaves.left pid pgid) in
    rw (to_new_group-leave pid sid t t' emptied left) (
      enter_new-IsLinked pid sid s2 t2 linked2 fresh2 alone k2,
      enter_new-is_member pid sid s2 t2 k2,
      enter_new-lists pid sid s2 t2 k2,
    )
