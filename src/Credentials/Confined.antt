-- ===== src/Credentials/Confined.antt =====
-- Sequences of the checked setters of process/credentials/credentials_.rs, and what `set_uid`, which
-- makes no check, allows on top of them.
use jinux.Base.{ℕ, ◌≡◌, ◌≢◌, ◌⊎◌, Option, none, some, List, [], ◌∷◌, ok, err, eperm, arith}
use jinux.Credentials.{Credentials}
use jinux.Credentials.Uid
use jinux.Credentials.Uid.{set_if_given}
use jinux.Credentials.Gid
use jinux.Credentials.Grants.{IsOwnUid}

-- The setters that check the caller's permission, and those of the group ids, which never touch a
-- user id.
pub data Op : Type 0 where
  set_reuid : Option ℕ → Option ℕ → Op
  set_resuid : Option ℕ → Option ℕ → Option ℕ → Op
  set_fsuid : Option ℕ → Op
  set_gid : ℕ → Op
  set_regid : Option ℕ → Option ℕ → Op
  set_resgid : Option ℕ → Option ℕ → Option ℕ → Op
  set_fsgid : Option ℕ → Op

-- One call, with its result left out.
unfoldable pub apply : Op → Credentials → Credentials
apply (set_reuid r e) c = (Uid.set_reuid r e c).1
apply (set_resuid r e s) c = (Uid.set_resuid r e s c).1
apply (set_fsuid f) c = (Uid.set_fsuid f c).1
apply (set_gid g) c = Gid.set_gid g c
apply (set_regid r e) c = (Gid.set_regid r e c).1
apply (set_resgid r e s) c = (Gid.set_resgid r e s c).1
apply (set_fsgid f) c = (Gid.set_fsgid f c).1

unfoldable pub run : List Op → Credentials → Credentials
unfolding apply
run [] c = c
run (op ∷ ops) c = run ops (apply op c)

-- Every user id that `c` may act under is one that `start` had.
pub record IsConfined (start c : Credentials) : Type 0 where
  pub real : IsOwnUid start c.ruid
  pub effective : IsOwnUid start c.euid
  pub saved : IsOwnUid start c.suid
  pub file_system : (c.fsuid ≡ start.fsuid) ⊎ IsOwnUid start c.fsuid

-- No user id is root's.
pub record IsRootless (c : Credentials) : Type 0 where
  pub real : c.ruid ≢ 0
  pub effective : c.euid ≢ 0
  pub saved : c.suid ≢ 0

IsConfined-refl : (c : Credentials) → IsConfined c c
IsConfined-refl c = ground arith

IsConfined-trans : (a b c : Credentials) → IsConfined a b → IsConfined b c → IsConfined a c
IsConfined-trans a b c h k = record {
  real = ground (arith, h.real, h.effective, h.saved, k.real);
  effective = ground (arith, h.real, h.effective, h.saved, k.effective);
  saved = ground (arith, h.real, h.effective, h.saved, k.saved);
  file_system = ground (arith, h.real, h.effective, h.saved, h.file_system, k.file_system);
}

-- The operations on group ids leave the user ids alone.
record SameUids (c c' : Credentials) : Type 0 where
  real : c'.ruid ≡ c.ruid
  effective : c'.euid ≡ c.euid
  saved : c'.suid ≡ c.suid
  file_system : c'.fsuid ≡ c.fsuid

SameUids-IsConfined : (c c' : Credentials) → SameUids c c' → IsConfined c c'
SameUids-IsConfined c c' h = ground arith

set_reuid-IsConfined :
    (r e : Option ℕ) (c : Credentials) → c.euid ≢ 0 → IsConfined c (Uid.set_reuid r e c).1
unfolding Uid.set_reuid
set_reuid-IsConfined none none c h = ground arith
set_reuid-IsConfined r e c h = ground arith

set_resuid-IsConfined :
    (r e s : Option ℕ) (c : Credentials) → c.euid ≢ 0 → IsConfined c (Uid.set_resuid r e s c).1
unfolding Uid.set_resuid
set_resuid-IsConfined none none none c h = ground arith
set_resuid-IsConfined r e s c h = ground arith

-- Called by an unprivileged thread, one checked setter leaves it only user ids that it had.
apply-IsConfined : (op : Op) (c : Credentials) → c.euid ≢ 0 → IsConfined c (apply op c)
unfolding apply
apply-IsConfined (set_reuid r e) c h = set_reuid-IsConfined r e c h
apply-IsConfined (set_resuid r e s) c h = set_resuid-IsConfined r e s c h
apply-IsConfined (set_fsuid f) c h = unfold Uid.set_fsuid in ground arith
apply-IsConfined (set_gid g) c h = SameUids-IsConfined c _ (unfold Gid.set_gid in ground arith)
apply-IsConfined (set_regid r e) c h =
    SameUids-IsConfined c _ (unfold Gid.set_regid in ground arith)
apply-IsConfined (set_resgid r e s) c h =
    SameUids-IsConfined c _ (unfold Gid.set_resgid in ground arith)
apply-IsConfined (set_fsgid f) c h = SameUids-IsConfined c _ (unfold Gid.set_fsgid in ground arith)

run_from-IsConfined :
    (ops : List Op) (start c : Credentials)
    → IsRootless start
    → IsConfined start c
    → IsConfined start (run ops c)
unfolding run
run_from-IsConfined [] start c h k = k
run_from-IsConfined (op ∷ ops) start c h k =
    run_from-IsConfined ops start (apply op c) h (
      IsConfined-trans start c (apply op c) k (apply-IsConfined op c (ground (arith, k.effective))))

-- Whatever sequence of checked setters a thread calls of which no real, effective or saved user
-- id is root's, every user id that it ends up with is one that it began with.
pub run-IsConfined : (ops : List Op) (c : Credentials) → IsRootless c → IsConfined c (run ops c)
run-IsConfined ops c h = run_from-IsConfined ops c c h (IsConfined-refl c)

-- Such a thread does not become privileged.
pub run_unprivileged : (ops : List Op) (c : Credentials) → IsRootless c → (run ops c).euid ≢ 0
run_unprivileged ops c h = ground (arith, run-IsConfined ops c h)

-- `set_uid` makes no check. An unprivileged thread that asks `setresuid` for a real id which is none of its own is
-- refused and keeps the ids it had; after `set_uid 0` the same call succeeds, whatever effective and saved ids it asks
-- for beside the real one, and the thread has just those ids, with the effective one for the file system; nothing else
-- changes.
pub set_uid_escalates :
    (r : ℕ) (e s : Option ℕ) (c : Credentials)
    → c.euid ≢ 0
    → r ≢ c.ruid
    → r ≢ c.euid
    → r ≢ c.suid
    → (Uid.set_resuid (some r) e s c ≡ (err eperm, c))
      × (Uid.set_resuid (some r) e s (Uid.set_uid 0 c) ≡ (
        ok tt,
        record c {
          ruid = r;
          euid = set_if_given e 0;
          suid = set_if_given s c.suid;
          fsuid = set_if_given e 0;
        },
      ))
unfolding Uid.set_resuid Uid.set_uid
set_uid_escalates r e s c hp hr he hs = (ground arith, ground arith)
