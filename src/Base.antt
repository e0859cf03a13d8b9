-- ===== src/Base.antt =====
-- The names that the other modules share: the libraries', passed on, and those of the children.
mod Tests
mod Lists
mod Errors
pub mod Dict
pub mod Int
pub mod Bits
pub mod Fields
pub mod Totals
pub mod DictLaws
pub use Tests.*
pub use Lists.*
pub use Errors.{Errno, code, Result, ok, err}
pub use Errors.{
  eperm, enoent, ebadf, einval, enotsock, eacces, epipe, eagain, enotty, echild, efault, eexist,
  enotdir, eisdir, exdev, enotempty, enametoolong,
}
pub use Prim.Native.Nat.{ℕ, zero, suc, ◌+◌, ◌-◌, ◌*◌, ◌/◌, ◌%◌, ◌^◌, ◌≤◌, ◌<◌}
pub use mathlib.Core.Path.{◌≡◌, refl, sym, subst, ap, ◌∙◌}
pub use mathlib.Core.Logic.{◌≢◌, ◌↔◌, ◌⊎◌, inl, inr}
pub use mathlib.Core.Bool.{Bool, true, false, not, ◌&&◌, ◌||◌}
pub use mathlib.Core.Option.{Option, none, some}
pub use mathlib.Core.List.{List, [], ◌∷◌, ◌++◌, map}
pub use native.Mathlib.Omega.{arith}
