-- ===== src/Prelude/UserPtr.antt =====
-- api/src/ptr.rs: `UserPtr<T>` and `UserConstPtr<T>`, as the callers see them: whether the pointer is
-- null, and what `get_as_mut` or `get_as_ref` gives, the value there or the error of the access check.
use freeos.Prelude.Errors.{LinuxResult, ok, err}
use mathlib.Core.Bool.{Bool, true, false}
use mathlib.Core.Option.{Option, none, some}

pub record UserPtr (A : Type 0) : Type 0 where
  pub is_null : Bool
  pub get_as_ref : LinuxResult A

abbrev pub some_of : {A : Type 0} → LinuxResult A → LinuxResult (Option A)
some_of (ok a) = ok (some a)
some_of (err e) = err e

abbrev pub unless_null : {A : Type 0} → Bool → LinuxResult A → LinuxResult (Option A)
unless_null true r = ok none
unless_null false r = some_of r

-- The macro `nullable!`.
abbrev pub nullable : {A : Type 0} → UserPtr A → LinuxResult (Option A)
nullable p = unless_null p.is_null p.get_as_ref
