-- ===== src/Prelude/Errors.antt =====
-- The error codes of the axerrno crate that the code names, and fallible results.
use mathlib.Core.Option.{Option, none, some}

-- `LinuxError`
pub data LinuxError : Type 0 where
  eperm enoent esrch eintr ebadf echild eagain enomem eacces efault eexist enotdir eisdir :
      LinuxError
  einval emfile epipe espipe enosys eidrm eopnotsupp eafnosupport : LinuxError

-- `AxError`
pub data AxError : Type 0 where
  no_memory already_exists not_found invalid_input invalid_data is_a_directory : AxError

pub data Result {ℓ} (E : Type 0) (A : Type ℓ) : Type ℓ where
  ok : A → Result E A
  err : E → Result E A

abbrev pub LinuxResult {ℓ} : Type ℓ → Type ℓ
LinuxResult A = Result LinuxError A

infixl 5 ◌>>=◌ ◌>>◌
abbrev pub ◌>>=◌ {ℓ κ} :
    {E : Type 0} {A : Type ℓ} {B : Type κ} → Result E A → (A → Result E B) → Result E B
ok a >>= f = f a
err e >>= f = err e

abbrev pub ◌>>◌ {ℓ} : {E : Type 0} {B : Type ℓ} → Result E (Unit {0}) → Result E B → Result E B
m >> k = m >>= λ _. k

-- `o.ok_or(e)`
abbrev pub ok_or {ℓ} : {E : Type 0} {A : Type ℓ} → Option A → E → Result E A
ok_or none e = err e
ok_or (some a) e = ok a

-- `.map_err(f)`, and the conversion of the error that `?` makes.
abbrev pub map_err {ℓ} : {E F : Type 0} {A : Type ℓ} → (E → F) → Result E A → Result F A
map_err f (ok a) = ok a
map_err f (err e) = err (f e)
