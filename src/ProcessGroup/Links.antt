-- ===== src/ProcessGroup/Links.antt =====
-- How the tables of processes, groups and sessions agree (process/process/mod.rs).
use jinux.Base.{
  ℕ, ◌≡◌, refl, Bool, true, false, ◌&&◌, not, Option, none, some, [], ◌∷◌, ◌==◌, if◌then◌else◌,
  is_some, arith, Bool-cases, inl, inr,
}
use jinux.Base.Dict.{Dict, lookup, insert}
use jinux.Base.DictLaws.{lookup-insert}
use jinux.ProcessGroup.{remove, is_empty, is_just, Group, Tables, remove_process, leave}

pub lookup-remove :
    {V : Type 0} (j k : ℕ) (d : Dict V)
    → lookup j (remove k d) ≡ (if k == j then none else lookup j d)
lookup-remove j k [] = ground arith
lookup-remove j k ((i, v) ∷ d) = ground (arith, lookup-remove j k d)

-- The process is one of the group's.
abbrev pub is_member : ℕ → ℕ → Tables → Bool
is_member pid pgid t = elim (lookup pgid t.groups) [
  | none ↦ false
  | some g ↦ is_some (lookup pid g.processes)
]

-- The process refers to the group.
abbrev pub refers : ℕ → ℕ → Tables → Bool
refers pid pgid t = is_just (lookup pid t.group_of) pgid

-- The group is in the table, and refers to the session.
abbrev pub belongs : ℕ → ℕ → Tables → Bool
belongs pgid sid t = elim (lookup pgid t.groups) [ none ↦ false | some g ↦ is_just g.session sid ]

-- The session is in the table, and lists the group.
abbrev pub lists : ℕ → ℕ → Tables → Bool
lists sid pgid t = elim (lookup sid t.sessions) [
  | none ↦ false
  | some s ↦ is_some (lookup pgid s.process_groups)
]

-- Processes and groups refer to each other, and so do groups and sessions.
pub record IsLinked (t : Tables) : Type 0 where
  pub members : (pid pgid : ℕ) → is_member pid pgid t ≡ refers pid pgid t
  pub listed : (sid pgid : ℕ) → lists sid pgid t ≡ belongs pgid sid t

is_empty-lookup : {V : Type 0} (j : ℕ) (d : Dict V) → is_empty d ≡ true → lookup j d ≡ none
is_empty-lookup j [] e = refl
is_empty-lookup j ((i, v) ∷ d) e = ground arith

remove_process-processes :
    (q pid : ℕ) (g : Group)
    → is_some (lookup q (remove_process pid g).processes)
      ≡ (is_some (lookup q g.processes) && not (pid == q))
remove_process-processes q pid g = ground (arith, lookup-remove q pid g.processes)

remove_process-session : (pid : ℕ) (g : Group) → (remove_process pid g).session ≡ g.session
remove_process-session pid g = ground arith

-- What a process that leaves its group changes; `emptied` is the group that goes.
pub record Leaves (pid : ℕ) (t t' : Tables) (emptied : Option ℕ) : Type 0 where
  pub members : (q pgid : ℕ) → is_member q pgid t' ≡ refers q pgid t'
  pub left : (q pgid : ℕ) → refers q pgid t' ≡ (refers q pgid t && not (pid == q))
  pub belonging :
      (pgid sid : ℕ) → belongs pgid sid t' ≡ (belongs pgid sid t && not (is_just emptied pgid))
  pub same_sessions : t'.sessions ≡ t.sessions
  pub ids : (pgid : ℕ) → lookup pgid t.groups ≡ none → lookup pgid t'.groups ≡ none

module _ (pid old : ℕ) (g : Group) (t : Tables) where
  pub leave-gone :
      lookup pid t.group_of ≡ some old
      → lookup old t.groups ≡ some g
      → is_empty (remove_process pid g).processes ≡ true
      → leave pid t
        ≡ (record t { groups = remove old t.groups; group_of = remove pid t.group_of }, some old)
  unfolding leave
  leave-gone e f h = rw (e, leave) (rw (f, leave) (rw (h, leave) refl))

  pub leave-stays :
      lookup pid t.group_of ≡ some old
      → lookup old t.groups ≡ some g
      → is_empty (remove_process pid g).processes ≡ false
      → leave pid t ≡ (
        record t {
          groups = insert old (remove_process pid g) t.groups;
          group_of = remove pid t.group_of;
        },
        none,
      )
  unfolding leave
  leave-stays e f h = rw (e, leave) (rw (f, leave) (rw (h, leave) refl))

  pub Leaves-gone :
      IsLinked t
      → lookup pid t.group_of ≡ some old
      → lookup old t.groups ≡ some g
      → is_empty (remove_process pid g).processes ≡ true
      → Leaves pid t
          (record t { groups = remove old t.groups; group_of = remove pid t.group_of })
          (some old)
  Leaves-gone linked e f h = record {
    members = λ q pgid. ground (
      arith,
      e,
      f,
      lookup-remove pgid old t.groups,
      lookup-remove q pid t.group_of,
      linked.members q pgid,
      is_empty-lookup q (remove_process pid g).processes h,
      remove_process-processes q pid g,
    );
    left = λ q pgid. ground (arith, lookup-remove q pid t.group_of);
    belonging = λ pgid sid. ground (arith, lookup-remove pgid old t.groups);
    same_sessions = refl;
    ids = λ pgid k. ground (arith, k, lookup-remove pgid old t.groups);
  }

  pub Leaves-stays :
      IsLinked t
      → lookup pid t.group_of ≡ some old
      → lookup old t.groups ≡ some g
      → Leaves pid t
          (record t {
            groups = insert old (remove_process pid g) t.groups;
            group_of = remove pid t.group_of;
          })
          none
  Leaves-stays linked e f = record {
    members = λ q pgid. ground (
      arith,
      e,
      f,
      lookup-insert pgid old (remove_process pid g) t.groups,
      lookup-remove q pid t.group_of,
      linked.members q pgid,
      remove_process-processes q pid g,
    );
    left = λ q pgid. ground (arith, lookup-remove q pid t.group_of);
    belonging = λ pgid sid. ground (
      arith,
      f,
      lookup-insert pgid old (remove_process pid g) t.groups,
      remove_process-session pid g,
    );
    same_sessions = refl;
    ids = λ pgid k. ground (arith, k, f, lookup-insert pgid old (remove_process pid g) t.groups);
  }

  -- A process that refers to a group leaves it, and no group but that one goes.
  pub leave_lem :
      IsLinked t
      → lookup pid t.group_of ≡ some old
      → lookup old t.groups ≡ some g
      → (t' : Tables) × (emptied : Option ℕ) × (leave pid t ≡ (t', emptied))
        × Leaves pid t t' emptied
        × ((pgid : ℕ) → is_just emptied pgid ≡ true → pgid ≡ old)
  leave_lem linked e f = elim (Bool-cases (is_empty (remove_process pid g).processes)) [
    | inl h ↦ (_, _, leave-gone e f h, Leaves-gone linked e f h, λ pgid k. ground arith)
    | inr h ↦ (_, _, leave-stays e f h, Leaves-stays linked e f, λ pgid k. ground arith)
  ]
