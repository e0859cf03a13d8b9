-- ===== src/ProcessGroup/Tests.antt =====
-- A session of two groups (process/process/mod.rs).
use jinux.Base.{ℕ, ◌≡◌, refl, true, false, none, some, [], ◌∷◌, ok, err, eperm, arith}
use jinux.Base.Dict.{lookup}
use jinux.ProcessGroup.{
  Tables, Group, Session, to_other_group, to_specified_group, to_new_session, reap,
}
use jinux.ProcessGroup.Links.{IsLinked, is_member, refers, belongs, lists}
use jinux.ProcessGroup.Stale.{to_specified_group_stale}
use jinux.ProcessGroup.Begin.{to_new_session_lem}
use jinux.ProcessGroup.Reap.{reap_lem}
use jinux.ProcessGroup.Other.{Answers, to_other_group_lem}

abbrev shell_group : Group
shell_group = record { processes = (1, tt) ∷ (2, tt) ∷ []; leader = some 1; session = some 1 }

abbrev job_group : Group
job_group = record { processes = (3, tt) ∷ []; leader = some 3; session = some 1 }

abbrev shell_session : Session
shell_session = record { process_groups = (1, tt) ∷ (3, tt) ∷ []; leader = some 1 }

-- Processes 1 and 2 in the group of the shell, process 3 in a job of its own.
abbrev shell : Tables
shell = record {
  groups = (1, shell_group) ∷ (3, job_group) ∷ [];
  sessions = (1, shell_session) ∷ [];
  group_of = (1, 1) ∷ (2, 1) ∷ (3, 3) ∷ [];
}

shell-IsLinked : IsLinked shell
shell-IsLinked = record { members = λ pid pgid. ground arith; listed = λ sid pgid. ground arith }

leader_stays : to_other_group 1 3 shell ≡ some (shell, err eperm)
unfolding to_other_group
leader_stays = refl

to_other_group_lem_example : Answers 2 3 shell
to_other_group_lem_example =
    to_other_group_lem 2 3 1 1 shell_group shell_session shell shell-IsLinked refl refl refl refl
      refl

to_new_session_lem_example :
    (t' : Tables) × (to_new_session 2 shell ≡ some (t', ok 2))
    × IsLinked t'
    × (is_member 2 2 t' ≡ true)
    × (belongs 2 2 t' ≡ true)
to_new_session_lem_example =
    to_new_session_lem 2 1 1 shell_group shell_session shell shell-IsLinked refl refl refl refl refl
      refl refl refl

reap_lem_example :
    (t' : Tables) × (reap 3 shell ≡ some t')
    × IsLinked t'
    × ((pgid : ℕ) → refers 3 pgid t' ≡ false)
    × ((pgid : ℕ) → is_member 3 pgid t' ≡ false)
reap_lem_example = reap_lem 3 3 1 job_group shell_session shell shell-IsLinked refl refl refl refl

to_specified_group_stale_example :
    (lookup 3 (to_specified_group 3 1 shell).groups ≡ none)
    × (lists 1 3 (to_specified_group 3 1 shell) ≡ true)
to_specified_group_stale_example =
    to_specified_group_stale 3 3 1 job_group shell_group shell 1 shell-IsLinked refl refl refl refl
      refl refl
