-- ===== src/ProcessGroup.antt =====
-- Process groups and sessions: services/libs/aster-std/src/process/process/process_group.rs and session.rs, and the
-- methods of process/process/mod.rs that move a process between groups, over the tables of process/process_table.rs.
-- A process, a group and a session are named by their ids; a weak reference to a group or a session is its id, and can
-- be upgraded while the table has it. A method runs as one step, under the locks that it takes, and returns the tables
-- with its result; a panic is `none`. Not in the model: the controlling terminal of a session, and the debug assertions
-- that a session lists the group that a process leaves.
pub mod Links
pub mod Moves
pub mod Stale
pub mod Settle
pub mod Begin
pub mod Reap
pub mod Other
mod Tests
use jinux.Base.{
  ℕ, Bool, true, false, ◌&&◌, Option, none, some, List, [], ◌∷◌, Result, ok, err, eperm, ◌==◌,
  if◌then◌else◌, is_some,
}
use jinux.Base.Dict.{Dict, lookup, insert}

-- `BTreeMap::remove`; the keys of a map are distinct.
abbrev pub remove : {V : Type 0} → ℕ → Dict V → Dict V
remove key [] = []
remove key ((other, value) ∷ rest) =
    let rest' = remove key rest in if key == other then rest' else (other, value) ∷ rest'

abbrev pub is_empty : {V : Type 0} → Dict V → Bool
is_empty [] = true
is_empty (entry ∷ rest) = false

abbrev pub is_just : Option ℕ → ℕ → Bool
is_just none id = false
is_just (some other) id = other == id

-- `ProcessGroup` with its `Inner`
pub record Group : Type 0 where
  pub processes : Dict (Unit {0})
  pub leader : Option ℕ
  pub session : Option ℕ

-- `Session` with its `Inner`
pub record Session : Type 0 where
  pub process_groups : Dict (Unit {0})
  pub leader : Option ℕ

-- The tables of groups and sessions, and the group of each process.
pub record Tables : Type 0 where
  pub groups : Dict Group
  pub sessions : Dict Session
  pub group_of : Dict ℕ

-- `ProcessGroup::new`, and the session that its callers set.
abbrev pub new_group : ℕ → ℕ → Group
new_group pid sid = record { processes = (pid, tt) ∷ []; leader = some pid; session = some sid }

-- `Session::new`, and the leader that its caller sets.
abbrev pub new_session : ℕ → Session
new_session pid = record { process_groups = (pid, tt) ∷ []; leader = some pid }

-- `remove_process` of a group
abbrev pub remove_process : ℕ → Group → Group
remove_process pid g =
    if is_some (lookup pid g.processes)
    then record {
      processes = remove pid g.processes;
      leader = if is_just g.leader pid then none else g.leader;
      session = g.session;
    }
    else g

-- `process_group`, with the group
abbrev pub group_at : Tables → Option ℕ → Option (ℕ × Group)
group_at t none = none
group_at t (some pgid) = elim (lookup pgid t.groups) [ none ↦ none | some g ↦ some (pgid, g) ]

abbrev pub process_group : ℕ → Tables → Option (ℕ × Group)
process_group pid t = group_at t (lookup pid t.group_of)

abbrev pub session_at : Tables → Option ℕ → Option (ℕ × Session)
session_at t none = none
session_at t (some sid) = elim (lookup sid t.sessions) [ none ↦ none | some s ↦ some (sid, s) ]

-- `session`
abbrev pub session : ℕ → Tables → Option (ℕ × Session)
session pid t = elim (process_group pid t) [ none ↦ none | some (pgid, g) ↦ session_at t g.session ]

-- `pgid`
abbrev pub pgid_of : ℕ → Tables → ℕ
pgid_of pid t = elim (process_group pid t) [ none ↦ 0 | some (pgid, g) ↦ pgid ]

-- `is_group_leader`
abbrev pub is_group_leader : ℕ → Tables → Bool
is_group_leader pid t = elim (process_group pid t) [
  | none ↦ false
  | some (pgid, g) ↦ is_just g.leader pid
]

-- The process leaves its group, which goes when it is empty; the id of a group that goes is returned.
unfoldable pub leave : ℕ → Tables → Tables × Option ℕ
leave pid t = elim (process_group pid t) [
  | none ↦ (t, none)
  | some (pgid, g) ↦
      if is_empty (remove_process pid g).processes
      then (record t { groups = remove pgid t.groups; group_of = remove pid t.group_of }, some pgid)
      else (
        record t {
          groups = insert pgid (remove_process pid g) t.groups;
          group_of = remove pid t.group_of;
        },
        none,
      )
]

-- A change of the groups of a session.
abbrev pub with_session : ℕ → (Session → Session) → Tables → Tables
with_session sid f t = elim (lookup sid t.sessions) [
  | none ↦ t
  | some s ↦ record t { sessions = insert sid (f s) t.sessions }
]

-- `remove_process_group`
abbrev pub remove_process_group : ℕ → Session → Session
remove_process_group pgid s = record s { process_groups = remove pgid s.process_groups }

-- The group that is gone is taken out of the session.
abbrev pub unlist : ℕ → Tables × Option ℕ → Tables
unlist sid (t, none) = t
unlist sid (t, some pgid) = with_session sid (remove_process_group pgid) t

-- A process enters a new group of a session.
abbrev pub enter_new : ℕ → ℕ → Tables → Tables
enter_new pid sid t = record t {
  groups = insert pid (new_group pid sid) t.groups;
  group_of = insert pid pid t.group_of;
}

-- `to_new_group`, for a process of the session
unfoldable pub to_new_group : ℕ → ℕ → Tables → Tables
unfolding leave
to_new_group pid sid t =
    with_session sid (λ s. record s { process_groups = insert pid tt s.process_groups })
      (enter_new pid sid (unlist sid (leave pid t)))

-- The process enters a group that is there.
abbrev pub enter : ℕ → ℕ → Tables → Tables
enter pid pgid t = elim (lookup pgid t.groups) [
  | none ↦ t
  | some g ↦ record t {
    groups = insert pgid (record g { processes = insert pid tt g.processes }) t.groups;
    group_of = insert pid pgid t.group_of;
  }
]

-- `to_specified_group`
unfoldable pub to_specified_group : ℕ → ℕ → Tables → Tables
unfolding leave
to_specified_group pid pgid t = elim (process_group pid t) [
  | none ↦ enter pid pgid t
  | some (old, g) ↦ if old == pgid then t else enter pid pgid (leave pid t).0
]

-- `to_other_group`: the `unwrap` of a missing session panics.
unfoldable pub to_other_group : ℕ → ℕ → Tables → Option (Tables × Result (Unit {0}))
unfolding to_specified_group to_new_group
to_other_group pid pgid t =
    if pgid_of pid t == pgid then some (t, ok tt) else elim (session pid t) [
      | none ↦ none
      | some (sid, s) ↦
          if is_just s.leader pid then some (t, err eperm) else elim (lookup pgid t.groups) [
            | some g ↦
                if is_some (lookup pgid s.process_groups)
                then some (to_specified_group pid pgid t, ok tt)
                else some (t, err eperm)
            | none ↦
                if pgid == pid then some (to_new_group pid sid t, ok tt) else some (t, err eperm)
          ]
    ]

-- `remove_process` of a session
abbrev pub remove_leader : ℕ → Session → Session
remove_leader pid s = record s { leader = if is_just s.leader pid then none else s.leader }

-- A session without groups goes.
abbrev pub drop_if_empty : ℕ → Tables → Tables
drop_if_empty sid t = elim (lookup sid t.sessions) [
  | none ↦ t
  | some s ↦ if is_empty s.process_groups then record t { sessions = remove sid t.sessions } else t
]

-- The group that is gone is taken out of the session, which then may go too.
abbrev pub settle : ℕ → Tables × Option ℕ → Tables
settle sid (t, none) = t
settle sid (t, some pgid) = drop_if_empty sid (with_session sid (remove_process_group pgid) t)

-- The new group and the new session of a process.
abbrev pub begin_session : ℕ → Tables → Tables
begin_session pid t = record (enter_new pid pid t) {
  sessions = insert pid (new_session pid) t.sessions;
}

-- `to_new_session`, which returns the id of the session.
unfoldable pub to_new_session : ℕ → Tables → Option (Tables × Result ℕ)
unfolding leave
to_new_session pid t = elim (session pid t) [
  | none ↦ none
  | some (sid, s) ↦
      if is_just s.leader pid
      then some (t, ok sid)
      else if is_group_leader pid t
      then some (t, err eperm)
      else if is_some (lookup pid t.sessions)
      then some (t, err eperm)
      else if is_some (lookup pid t.groups)
      then some (t, err eperm)
      else some (
        with_session sid (remove_leader pid) (begin_session pid (settle sid (leave pid t))),
        ok pid,
      )
]

-- What `reap_zombie_child` (process/wait.rs) does to the tables.
unfoldable pub reap : ℕ → Tables → Option Tables
unfolding leave
reap pid t = elim (session pid t) [
  | none ↦ none
  | some (sid, s) ↦ some (settle sid (leave pid (with_session sid (remove_leader pid) t)))
]
