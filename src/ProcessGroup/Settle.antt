-- ===== src/ProcessGroup/Settle.antt =====
-- A session after a process left its group (process/process/mod.rs, process/wait.rs).
use jinux.Base.{ℕ, ◌≡◌, refl, true, false, Option, none, some, [], ◌∷◌, is_some, arith}
use jinux.Base.Dict.{Dict, lookup}
use jinux.Base.DictLaws.{lookup-insert}
use jinux.ProcessGroup.{
  is_empty, Group, Session, Tables, leave, with_session, unlist, settle, drop_if_empty,
  remove_leader,
}
use jinux.ProcessGroup.Links.{lookup-remove, lists, IsLinked, Leaves, leave_lem}
use jinux.ProcessGroup.Moves.{unlist-IsLinked, unlist-groups, unlist-group_of}

-- A change of the tables of sessions that keeps what the sessions list.
same_lists :
    (t t' : Tables)
    → IsLinked t
    → t'.groups ≡ t.groups
    → t'.group_of ≡ t.group_of
    → ((sid pgid : ℕ) → lists sid pgid t' ≡ lists sid pgid t)
    → IsLinked t'
same_lists t t' linked e f h = record {
  members = λ q pgid. ground (arith, linked.members q pgid, e, f);
  listed = λ sid pgid. ground (arith, linked.listed sid pgid, e, f, h sid pgid);
}

lists-remove_leader :
    (pid sid sid' pgid : ℕ) (t : Tables)
    → lists sid' pgid (with_session sid (remove_leader pid) t) ≡ lists sid' pgid t
lists-remove_leader pid sid sid' pgid t = go (lookup sid t.sessions) refl
  where
    go :
        (x : Option Session)
        → lookup sid t.sessions ≡ x
        → lists sid' pgid (with_session sid (remove_leader pid) t) ≡ lists sid' pgid t
    go none e = ground (arith, e)
    go (some s) e = ground (arith, e, lookup-insert sid' sid (remove_leader pid s) t.sessions)

pub remove_leader-IsLinked :
    (pid sid : ℕ) (t : Tables) → IsLinked t → IsLinked (with_session sid (remove_leader pid) t)
remove_leader-IsLinked pid sid t linked =
    same_lists t (with_session sid (remove_leader pid) t) linked (ground arith) (ground arith)
      (λ sid' pgid. lists-remove_leader pid sid sid' pgid t)

is_empty-lookup : (j : ℕ) (d : Dict (Unit {0})) → is_empty d ≡ true → is_some (lookup j d) ≡ false
is_empty-lookup j [] e = refl
is_empty-lookup j ((i, v) ∷ d) e = ground arith

lists-drop_if_empty :
    (sid sid' pgid : ℕ) (t : Tables) → lists sid' pgid (drop_if_empty sid t) ≡ lists sid' pgid t
lists-drop_if_empty sid sid' pgid t = go (lookup sid t.sessions) refl
  where
    go :
        (x : Option Session)
        → lookup sid t.sessions ≡ x
        → lists sid' pgid (drop_if_empty sid t) ≡ lists sid' pgid t
    go none e = ground (arith, e)
    go (some s) e =
        ground (arith, e, lookup-remove sid' sid t.sessions, is_empty-lookup pgid s.process_groups)

drop_if_empty-IsLinked : (sid : ℕ) (t : Tables) → IsLinked t → IsLinked (drop_if_empty sid t)
drop_if_empty-IsLinked sid t linked =
    same_lists t (drop_if_empty sid t) linked (ground arith) (ground arith)
      (λ sid' pgid. lists-drop_if_empty sid sid' pgid t)

settle-IsLinked :
    (sid : ℕ) (t : Tables) (x : Option ℕ)
    → IsLinked (unlist sid (t, x))
    → IsLinked (settle sid (t, x))
settle-IsLinked sid t none linked = linked
settle-IsLinked sid t (some b) linked = drop_if_empty-IsLinked sid (unlist sid (t, some b)) linked

pub settle-groups : (sid : ℕ) (t : Tables) (x : Option ℕ) → (settle sid (t, x)).groups ≡ t.groups
settle-groups sid t none = refl
settle-groups sid t (some b) = ground (arith, unlist-groups sid t (some b))

pub settle-group_of :
    (sid : ℕ) (t : Tables) (x : Option ℕ) → (settle sid (t, x)).group_of ≡ t.group_of
settle-group_of sid t none = refl
settle-group_of sid t (some b) = ground (arith, unlist-group_of sid t (some b))

-- No session comes to be by a change of one or by its removal.
with_session-fresh :
    (j sid : ℕ) (f : Session → Session) (t : Tables)
    → lookup j t.sessions ≡ none
    → lookup j (with_session sid f t).sessions ≡ none
with_session-fresh j sid f t e = go (lookup sid t.sessions) refl
  where
    go :
        (x : Option Session)
        → lookup sid t.sessions ≡ x
        → lookup j (with_session sid f t).sessions ≡ none
    go none k = ground (arith, e, k)
    go (some s) k = ground (arith, e, k, lookup-insert j sid (f s) t.sessions)

drop_if_empty-fresh :
    (j sid : ℕ) (t : Tables)
    → lookup j t.sessions ≡ none
    → lookup j (drop_if_empty sid t).sessions ≡ none
drop_if_empty-fresh j sid t e = ground (arith, e, lookup-remove j sid t.sessions)

pub settle-fresh :
    (j sid : ℕ) (t : Tables) (x : Option ℕ)
    → lookup j t.sessions ≡ none
    → lookup j (settle sid (t, x)).sessions ≡ none
settle-fresh j sid t none e = e
settle-fresh j sid t (some b) e =
    drop_if_empty-fresh j sid (unlist sid (t, some b)) (with_session-fresh j sid _ t e)

module _ (pid old sid : ℕ) (g : Group) (s : Session) (t : Tables) where
  -- The process leaves its group, and the session is settled.
  pub left_and_settled :
      IsLinked t
      → lookup pid t.group_of ≡ some old
      → lookup old t.groups ≡ some g
      → g.session ≡ some sid
      → lookup sid t.sessions ≡ some s
      → (t' : Tables) × (emptied : Option ℕ) × (leave pid t ≡ (t', emptied))
        × IsLinked (settle sid (t', emptied))
        × Leaves pid t t' emptied
  left_and_settled linked e f h k =
      let (t', emptied, left, leaves, only) = leave_lem pid old g t linked e f in
      (
        t',
        emptied,
        left,
        settle-IsLinked sid t' emptied
            (unlist-IsLinked pid old sid g s t t' emptied linked leaves only f h k),
        leaves,
      )
