-- ===== src/Credentials/Tests.antt =====
-- A thread of credentials_.rs with three different user ids.
use jinux.Base.{◌≡◌, refl, some, none, [], ◌∷◌, ok, err, eperm, arith}
use jinux.Credentials.{Credentials}
use jinux.Credentials.Uid
use jinux.Credentials.Uid.{set_if_given}
use jinux.Credentials.Confined.{
  set_resuid, set_reuid, run, IsConfined, IsRootless, run-IsConfined, set_uid_escalates,
}

abbrev unprivileged : Credentials
unprivileged = record {
  ruid = 1000;
  euid = 1001;
  suid = 1002;
  fsuid = 1001;
  rgid = 100;
  egid = 101;
  sgid = 102;
  fsgid = 101;
  supplementary_gids = 100 ∷ [];
}

unprivileged-IsRootless : IsRootless unprivileged
unprivileged-IsRootless = record {
  real = omega arith;
  effective = omega arith;
  saved = omega arith;
}

refused : (Uid.set_resuid (some 0) none none unprivileged).0 ≡ err eperm
unfolding Uid.set_resuid
refused = refl

run-IsConfined_example :
    IsConfined unprivileged
      (run (set_resuid none (some 1002) none ∷ set_reuid (some 1002) none ∷ []) unprivileged)
run-IsConfined_example =
    run-IsConfined (set_resuid none (some 1002) none ∷ set_reuid (some 1002) none ∷ []) unprivileged
      unprivileged-IsRootless

set_uid_escalates_example :
    (Uid.set_resuid (some 0) none (some 0) unprivileged ≡ (err eperm, unprivileged))
    × (Uid.set_resuid (some 0) none (some 0) (Uid.set_uid 0 unprivileged)
        ≡ (ok tt, record unprivileged { ruid = 0; euid = 0; suid = 0; fsuid = 0 }))
set_uid_escalates_example =
    set_uid_escalates 0 none (some 0) unprivileged (omega arith) (omega arith) (omega arith)
      (omega arith)
