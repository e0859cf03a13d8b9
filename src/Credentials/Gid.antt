-- ===== src/Credentials/Gid.antt =====
-- The group id setters of `Credentials_`.
use jinux.Base.{
  ℕ, Bool, true, false, not, ◌&&◌, ◌||◌, Option, none, some, Result, ok, err, eperm, ◌!=◌,
  if◌then◌else◌, is_some,
}
use jinux.Credentials.{Credentials, is_privileged}
use jinux.Credentials.Uid.{is_some_and, set_if_given}

-- `check_gid_perm`
unfoldable pub check_gid_perm :
    Option ℕ → Option ℕ → Option ℕ → Bool → Credentials → Result (Unit {0})
check_gid_perm rgid egid sgid rgid_may_be_old_sgid c =
    if is_privileged c
    then ok tt
    else if is_some_and rgid
        (λ id. id != c.rgid && (id != c.egid && (not rgid_may_be_old_sgid || id != c.sgid)))
    then err eperm
    else if is_some_and egid (λ id. id != c.rgid && (id != c.egid && id != c.sgid))
    then err eperm
    else if is_some_and sgid (λ id. id != c.rgid && (id != c.egid && id != c.sgid))
    then err eperm
    else ok tt

-- `set_resgid_unchecked`
unfoldable pub set_resgid_unchecked : Option ℕ → Option ℕ → Option ℕ → Credentials → Credentials
set_resgid_unchecked rgid egid sgid c = record c {
  rgid = set_if_given rgid c.rgid;
  egid = set_if_given egid c.egid;
  sgid = set_if_given sgid c.sgid;
}

-- `set_gid`: no check is made of an unprivileged caller.
unfoldable pub set_gid : ℕ → Credentials → Credentials
set_gid id c =
    if is_privileged c then record c { rgid = id; egid = id; sgid = id } else record c { egid = id }

-- `set_regid`
unfoldable pub set_regid : Option ℕ → Option ℕ → Credentials → Result (Unit {0}) × Credentials
unfolding check_gid_perm set_resgid_unchecked
set_regid rgid egid c = elim (check_gid_perm rgid egid none false c) [
  | err e ↦ (err e, c)
  | ok _ ↦
      let should_set_sgid = is_some rgid || is_some_and egid (λ id. id != c.rgid) in
      let c' = set_resgid_unchecked rgid egid none c in
      let c'' = if should_set_sgid then record c' { sgid = c'.egid } else c' in
      (ok tt, record c'' { fsgid = c''.egid })
]

-- `set_resgid`
unfoldable pub set_resgid :
    Option ℕ → Option ℕ → Option ℕ → Credentials → Result (Unit {0}) × Credentials
unfolding check_gid_perm set_resgid_unchecked
set_resgid rgid egid sgid c = elim (check_gid_perm rgid egid sgid true c) [
  | err e ↦ (err e, c)
  | ok _ ↦ let c' = set_resgid_unchecked rgid egid sgid c in (ok tt, record c' { fsgid = c'.egid })
]

-- `set_fsgid`, after the early return on `None`.
abbrev pub set_given_fsgid : ℕ → Credentials → Result ℕ × Credentials
set_given_fsgid id c =
    if is_privileged c
    then (ok c.fsgid, record c { fsgid = id })
    else if id != c.rgid && (id != c.egid && id != c.sgid)
    then (err eperm, c)
    else (ok c.fsgid, record c { fsgid = id })

-- `set_fsgid`: the result is the old id.
unfoldable pub set_fsgid : Option ℕ → Credentials → Result ℕ × Credentials
set_fsgid none c = (ok c.fsgid, c)
set_fsgid (some id) c = set_given_fsgid id c

-- `set_egid`
unfoldable pub set_egid : ℕ → Credentials → Credentials
set_egid id c = record c { egid = id }

-- `set_sgid`
unfoldable pub set_sgid : ℕ → Credentials → Credentials
set_sgid id c = record c { sgid = id }
