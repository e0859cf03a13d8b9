-- ===== src/Credentials.antt =====
-- The credentials of a thread: services/libs/aster-std/src/process/credentials/credentials_.rs,
-- with `Uid`, `Gid` and their atomic cells (user.rs, group.rs). A thread changes only its own
-- credentials, so a setter is a function from the credentials before to those after.
pub mod Uid
pub mod Gid
pub mod Grants
pub mod Confined
mod Tests
use jinux.Base.{ℕ, List, [], ◌∷◌, Bool, ◌==◌}

-- `Credentials_`; a `Uid` or `Gid` is the u32 that it wraps, the set of groups a sorted list.
pub record Credentials : Type 0 where
  pub ruid : ℕ
  pub euid : ℕ
  pub suid : ℕ
  pub fsuid : ℕ
  pub rgid : ℕ
  pub egid : ℕ
  pub sgid : ℕ
  pub fsgid : ℕ
  pub supplementary_gids : List ℕ

-- `Uid::is_root`
abbrev pub is_root : ℕ → Bool
is_root uid = uid == 0

-- `Credentials_::new`
unfoldable pub new : ℕ → ℕ → Credentials
new uid gid = record {
  ruid = uid;
  euid = uid;
  suid = uid;
  fsuid = uid;
  rgid = gid;
  egid = gid;
  sgid = gid;
  fsgid = gid;
  supplementary_gids = gid ∷ [];
}

-- `Credentials_::is_privileged`
abbrev pub is_privileged : Credentials → Bool
is_privileged c = is_root c.euid
