-- ===== src/Credentials/Uid.antt =====
-- The user id setters of `Credentials_`.
use jinux.Base.{
  ℕ, Bool, true, false, not, ◌&&◌, ◌||◌, Option, none, some, Result, ok, err, eperm, ◌!=◌,
  if◌then◌else◌, is_some,
}
use jinux.Credentials.{Credentials, is_privileged}

-- `if let Some(id) = id && …`, and `Option::is_some_and`
abbrev pub is_some_and : Option ℕ → (ℕ → Bool) → Bool
is_some_and none p = false
is_some_and (some id) p = p id

-- `check_uid_perm`
unfoldable pub check_uid_perm :
    Option ℕ → Option ℕ → Option ℕ → Bool → Credentials → Result (Unit {0})
check_uid_perm ruid euid suid ruid_may_be_old_suid c =
    if is_privileged c
    then ok tt
    else if is_some_and ruid
        (λ id. id != c.ruid && (id != c.euid && (not ruid_may_be_old_suid || id != c.suid)))
    then err eperm
    else if is_some_and euid (λ id. id != c.ruid && (id != c.euid && id != c.suid))
    then err eperm
    else if is_some_and suid (λ id. id != c.ruid && (id != c.euid && id != c.suid))
    then err eperm
    else ok tt

-- One `if let Some(id) = id { cell.set(id) }`.
abbrev pub set_if_given : Option ℕ → ℕ → ℕ
set_if_given none old = old
set_if_given (some id) old = id

-- `set_resuid_unchecked`
unfoldable pub set_resuid_unchecked : Option ℕ → Option ℕ → Option ℕ → Credentials → Credentials
set_resuid_unchecked ruid euid suid c = record c {
  ruid = set_if_given ruid c.ruid;
  euid = set_if_given euid c.euid;
  suid = set_if_given suid c.suid;
}

-- `set_uid`: no check is made of an unprivileged caller.
unfoldable pub set_uid : ℕ → Credentials → Credentials
set_uid id c =
    if is_privileged c then record c { ruid = id; euid = id; suid = id } else record c { euid = id }

-- `set_reuid`
unfoldable pub set_reuid : Option ℕ → Option ℕ → Credentials → Result (Unit {0}) × Credentials
unfolding check_uid_perm set_resuid_unchecked
set_reuid ruid euid c = elim (check_uid_perm ruid euid none false c) [
  | err e ↦ (err e, c)
  | ok _ ↦
      let should_set_suid = is_some ruid || is_some_and euid (λ id. id != c.ruid) in
      let c' = set_resuid_unchecked ruid euid none c in
      let c'' = if should_set_suid then record c' { suid = c'.euid } else c' in
      (ok tt, record c'' { fsuid = c''.euid })
]

-- `set_resuid`
unfoldable pub set_resuid :
    Option ℕ → Option ℕ → Option ℕ → Credentials → Result (Unit {0}) × Credentials
unfolding check_uid_perm set_resuid_unchecked
set_resuid ruid euid suid c = elim (check_uid_perm ruid euid suid true c) [
  | err e ↦ (err e, c)
  | ok _ ↦ let c' = set_resuid_unchecked ruid euid suid c in (ok tt, record c' { fsuid = c'.euid })
]

-- `set_fsuid`, after the early return on `None`.
abbrev pub set_given_fsuid : ℕ → Credentials → Result ℕ × Credentials
set_given_fsuid id c =
    if is_privileged c
    then (ok c.fsuid, record c { fsuid = id })
    else if id != c.ruid && (id != c.euid && id != c.suid)
    then (err eperm, c)
    else (ok c.fsuid, record c { fsuid = id })

-- `set_fsuid`: the result is the old id.
unfoldable pub set_fsuid : Option ℕ → Credentials → Result ℕ × Credentials
set_fsuid none c = (ok c.fsuid, c)
set_fsuid (some id) c = set_given_fsuid id c

-- `set_euid`
unfoldable pub set_euid : ℕ → Credentials → Credentials
set_euid id c = record c { euid = id }

-- `set_suid`
unfoldable pub set_suid : ℕ → Credentials → Credentials
set_suid id c = record c { suid = id }
