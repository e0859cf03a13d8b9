-- ===== src/ProcessGroup/Reap.antt =====
-- Reaping a process, `reap_zombie_child` (process/wait.rs).
use jinux.Base.{ℕ, ◌≡◌, ◌∙◌, ap, false, Option, some, arith}
use jinux.Base.Dict.{lookup}
use jinux.Base.DictLaws.{lookup-insert}
use jinux.ProcessGroup.{
  is_just, Group, Session, Tables, leave, with_session, settle, remove_leader, reap,
}
use jinux.ProcessGroup.Links.{is_member, refers, IsLinked}
use jinux.ProcessGroup.Settle.{remove_leader-IsLinked, settle-group_of, left_and_settled}

with_session-groups :
    (sid : ℕ) (f : Session → Session) (t : Tables) → (with_session sid f t).groups ≡ t.groups
with_session-groups sid f t = ground arith

with_session-group_of :
    (sid : ℕ) (f : Session → Session) (t : Tables) → (with_session sid f t).group_of ≡ t.group_of
with_session-group_of sid f t = ground arith

with_session_self :
    (sid : ℕ) (s : Session) (f : Session → Session) (t : Tables)
    → lookup sid t.sessions ≡ some s
    → lookup sid (with_session sid f t).sessions ≡ some (f s)
with_session_self sid s f t k = ground (arith, k, lookup-insert sid sid (f s) t.sessions)

module _ (pid old sid : ℕ) (g : Group) (s : Session) (t : Tables) where
  reap-leave :
      (t' : Tables) (emptied : Option ℕ)
      → lookup pid t.group_of ≡ some old
      → lookup old t.groups ≡ some g
      → g.session ≡ some sid
      → lookup sid t.sessions ≡ some s
      → leave pid (with_session sid (remove_leader pid) t) ≡ (t', emptied)
      → reap pid t ≡ some (settle sid (t', emptied))
  unfolding reap
  reap-leave t' emptied e f h k left =
      rw (e, reap) (rw (f, reap) (rw (h, reap) (rw (k, reap) (ap (λ x. some (settle sid x)) left))))

  -- Reaping a process of a linked state, in a group of a session, does not panic: the state is linked again, and the
  -- process refers to no group and is in none.
  pub reap_lem :
      IsLinked t
      → lookup pid t.group_of ≡ some old
      → lookup old t.groups ≡ some g
      → g.session ≡ some sid
      → lookup sid t.sessions ≡ some s
      → (t' : Tables) × (reap pid t ≡ some t')
        × IsLinked t'
        × ((pgid : ℕ) → refers pid pgid t' ≡ false)
        × ((pgid : ℕ) → is_member pid pgid t' ≡ false)
  reap_lem linked e f h k =
      let t0 = with_session sid (remove_leader pid) t in
      let (t1, emptied, left, linked1, leaves) =
        left_and_settled pid old sid g (remove_leader pid s) t0
          (remove_leader-IsLinked pid sid t linked)
          (ap (lookup pid) (with_session-group_of sid (remove_leader pid) t) ∙ e)
          (ap (lookup old) (with_session-groups sid (remove_leader pid) t) ∙ f) h
          (with_session_self sid s (remove_leader pid) t k) in
      let alone : (pgid : ℕ) → refers pid pgid (settle sid (t1, emptied)) ≡ false = λ pgid.
        ap (λ x. is_just (lookup pid x) pgid) (settle-group_of sid t1 emptied)
        ∙ leaves.left pid pgid
        ∙ ground arith in
      (
        settle sid (t1, emptied),
        reap-leave t1 emptied e f h k left,
        linked1,
        alone,
        λ pgid. IsLinked.members linked1 pid pgid ∙ alone pgid,
      )
