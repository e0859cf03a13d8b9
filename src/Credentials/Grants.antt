-- ===== src/Credentials/Grants.antt =====
-- When `setresuid`, `setreuid` and the like succeed, and what they then leave behind
-- (`check_uid_perm` and its callers in process/credentials/credentials_.rs).
use jinux.Base.{ℕ, ◌≡◌, ◌≢◌, ◌⊎◌, Option, none, some, ok, err, eperm, arith}
use jinux.Credentials.{Credentials}
use jinux.Credentials.Uid
use jinux.Credentials.Uid.{set_if_given}
use jinux.Credentials.Gid

-- An id that is not given asks for nothing.
abbrev pub AllGiven : (ℕ → Type 0) → Option ℕ → Type 0
AllGiven P none = Unit
AllGiven P (some id) = P id

-- The three user ids that an unprivileged caller may choose from.
abbrev pub IsOwnUid : Credentials → ℕ → Type 0
IsOwnUid c id = (id ≡ c.ruid) ⊎ ((id ≡ c.euid) ⊎ (id ≡ c.suid))

abbrev pub IsOwnGid : Credentials → ℕ → Type 0
IsOwnGid c id = (id ≡ c.rgid) ⊎ ((id ≡ c.egid) ⊎ (id ≡ c.sgid))

-- `setreuid` may not take the real id from the saved one.
abbrev pub IsRealOrEffectiveUid : Credentials → ℕ → Type 0
IsRealOrEffectiveUid c id = (id ≡ c.ruid) ⊎ (id ≡ c.euid)

-- The request of a `setresuid` is allowed.
abbrev pub MaySetResuid : Option ℕ → Option ℕ → Option ℕ → Credentials → Type 0
MaySetResuid r e s c =
    (c.euid ≡ 0) ⊎ (AllGiven (IsOwnUid c) r × AllGiven (IsOwnUid c) e × AllGiven (IsOwnUid c) s)

abbrev pub MaySetResgid : Option ℕ → Option ℕ → Option ℕ → Credentials → Type 0
MaySetResgid r e s c =
    (c.euid ≡ 0) ⊎ (AllGiven (IsOwnGid c) r × AllGiven (IsOwnGid c) e × AllGiven (IsOwnGid c) s)

abbrev pub MaySetReuid : Option ℕ → Option ℕ → Credentials → Type 0
MaySetReuid r e c = (c.euid ≡ 0) ⊎ (AllGiven (IsRealOrEffectiveUid c) r × AllGiven (IsOwnUid c) e)

-- The credentials after a `setresuid` that was allowed.
abbrev pub after_resuid : Option ℕ → Option ℕ → Option ℕ → Credentials → Credentials
after_resuid r e s c = record c {
  ruid = set_if_given r c.ruid;
  euid = set_if_given e c.euid;
  suid = set_if_given s c.suid;
  fsuid = set_if_given e c.euid;
}

abbrev pub after_resgid : Option ℕ → Option ℕ → Option ℕ → Credentials → Credentials
after_resgid r e s c = record c {
  rgid = set_if_given r c.rgid;
  egid = set_if_given e c.egid;
  sgid = set_if_given s c.sgid;
  fsgid = set_if_given e c.egid;
}

-- `setresuid` succeeds exactly when the caller is privileged or asks only for its own ids; it then
-- sets the ids asked for and makes the file system id the effective one. Otherwise it returns EPERM
-- and leaves the credentials as they were.
pub set_resuid_outcome :
    (r e s : Option ℕ) (c : Credentials)
    → (MaySetResuid r e s c × (Uid.set_resuid r e s c ≡ (ok tt, after_resuid r e s c)))
      ⊎ ((¬ MaySetResuid r e s c) × (Uid.set_resuid r e s c ≡ (err eperm, c)))
unfolding Uid.set_resuid
set_resuid_outcome none none none c = ground arith
set_resuid_outcome r e s c = ground arith

-- `setresgid` succeeds exactly when the caller's effective user is root or it asks only for its own
-- group ids; it then sets the ids asked for and makes the file system group the effective one.
-- Otherwise it returns EPERM and leaves the credentials as they were.
pub set_resgid_outcome :
    (r e s : Option ℕ) (c : Credentials)
    → (MaySetResgid r e s c × (Gid.set_resgid r e s c ≡ (ok tt, after_resgid r e s c)))
      ⊎ ((¬ MaySetResgid r e s c) × (Gid.set_resgid r e s c ≡ (err eperm, c)))
unfolding Gid.set_resgid
set_resgid_outcome none none none c = ground arith
set_resgid_outcome r e s c = ground arith

-- The saved id after a `setreuid`: the new effective id when the real id was given or the effective
-- id was set to something other than the old real id, and otherwise what it was.
abbrev pub TakesSavedUid : Option ℕ → Option ℕ → Credentials → Type 0
TakesSavedUid (some r) e c = Unit
TakesSavedUid none none c = ⊥
TakesSavedUid none (some e) c = e ≢ c.ruid

-- The credentials after a `setreuid` that was allowed, with the saved id `s`.
abbrev pub after_reuid : Option ℕ → Option ℕ → ℕ → Credentials → Credentials
after_reuid r e s c = record c {
  ruid = set_if_given r c.ruid;
  euid = set_if_given e c.euid;
  suid = s;
  fsuid = set_if_given e c.euid;
}

-- `setreuid` has three outcomes. It is allowed and takes the new effective id as the saved id too; it
-- is allowed and leaves the saved id; or it is not allowed, returns EPERM and changes nothing. It is
-- allowed when the caller is privileged, or takes the real id from its real and effective ids and
-- the effective id from all three.
pub set_reuid_outcome :
    (r e : Option ℕ) (c : Credentials)
    → (MaySetReuid r e c
        × TakesSavedUid r e c
        × (Uid.set_reuid r e c ≡ (ok tt, after_reuid r e (set_if_given e c.euid) c)))
      ⊎ ((MaySetReuid r e c
            × (¬ TakesSavedUid r e c)
            × (Uid.set_reuid r e c ≡ (ok tt, after_reuid r e c.suid c)))
          ⊎ ((¬ MaySetReuid r e c) × (Uid.set_reuid r e c ≡ (err eperm, c))))
unfolding Uid.set_reuid
set_reuid_outcome none none c = ground arith
set_reuid_outcome r e c = ground arith

-- A group id set by `setregid` or `setresgid` is never out of reach for root: for a caller whose
-- effective user is root both succeed, whatever is asked for.
pub root_sets_gids :
    (r e s : Option ℕ) (c : Credentials)
    → c.euid ≡ 0
    → ((Gid.set_regid r e c).0 ≡ ok tt) × ((Gid.set_resgid r e s c).0 ≡ ok tt)
unfolding Gid.set_regid Gid.set_resgid
root_sets_gids r e s c root = ground arith
