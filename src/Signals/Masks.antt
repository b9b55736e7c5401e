-- ===== src/Signals/Masks.antt =====
-- api/src/imp/signal.rs: the calls on the caller's own mask, actions and stack, and the waits. The
-- places in user memory are cells at addresses (0 is the null pointer), with the results of the checks
-- for reading and for writing.
pub mod Masking
use freeos.Prelude.{
  ℕ, ◌+◌, ◌≡◌, Bool, true, false, not, ◌&&◌, ◌||◌, List, [], ◌∷◌, Option, none, some, ◌==◌, leb,
  if◌then◌else◌,
}
use freeos.Prelude.Errors.{LinuxResult, ok, err, ok_or, ◌>>=◌, einval, enomem, eagain}
use freeos.Signals.{SignalApi, check_sigset_size, parse_signo}
use freeos.Tasks.{Processes}

pub record Cells (A : Type 0) : Type 0 where
  pub get_as_ref : ℕ → LinuxResult A
  pub get_as_mut : ℕ → LinuxResult (Unit {0})

module _ {A : Type 0} where
  abbrev pub store : ℕ → A → Cells A → Cells A
  store q v c = record c { get_as_ref = λ r. if q == r then ok v else c.get_as_ref r }

  abbrev stored : ℕ → A → LinuxResult (Unit {0}) → Cells A → LinuxResult (Unit {0}) × Cells A
  stored q v (err e) c = (err e, c)
  stored q v (ok u) c = (ok tt, store q v c)

  -- `if let Some(old) = nullable!(old.get_as_mut())? { *old = v; }`
  abbrev pub give_old : ℕ → A → Cells A → LinuxResult (Unit {0}) × Cells A
  give_old q v c = if q == 0 then (ok tt, c) else stored q v (c.get_as_mut q) c

  abbrev read_cell : LinuxResult A → LinuxResult (Option A)
  read_cell (err e) = err e
  read_cell (ok v) = ok (some v)

  -- `nullable!(new.get_as_ref())?`
  abbrev pub take_new : ℕ → Cells A → LinuxResult (Option A)
  take_new q c = if q == 0 then ok none else read_cell (c.get_as_ref q)

-- `SignalSet` of axsignal.
pub record SetApi : Type 1 where
  pub SignalSet : Type 0
  pub has : SignalSet → ℕ → Bool
  pub union : SignalSet → SignalSet → SignalSet
  pub minus : SignalSet → SignalSet → SignalSet

pub record IsSetApi (x : SetApi) : Type 0 where
  pub has-union : (s t : x.SignalSet) (n : ℕ) → x.has (x.union s t) n ≡ (x.has s n || x.has t n)
  pub has-minus :
      (s t : x.SignalSet) (n : ℕ) → x.has (x.minus s t) n ≡ (x.has s n && not (x.has t n))

abbrev pub sig_block : ℕ
sig_block = 0

abbrev pub sig_unblock : ℕ
sig_unblock = 1

abbrev pub sig_setmask : ℕ
sig_setmask = 2

module _ (x : SetApi) where
  open x use {SignalSet, has, union, minus}

  -- The result, the mask, and the user's memory.
  pub record Masked : Type 0 where
    pub result : LinuxResult ℕ
    pub blocked : SignalSet
    pub cells : Cells SignalSet

  abbrev pub new_mask : ℕ → SignalSet → SignalSet → LinuxResult SignalSet
  new_mask how set blocked =
      if how == sig_block
      then ok (union blocked set)
      else if how == sig_unblock
      then ok (minus blocked set)
      else if how == sig_setmask
      then ok set
      else err einval

  abbrev pub masked : SignalSet → Cells SignalSet → LinuxResult SignalSet → Masked
  masked blocked c (err e) = record { result = err e; blocked = blocked; cells = c }
  masked blocked c (ok set) = record { result = ok 0; blocked = set; cells = c }

  abbrev pub mask_with : ℕ → SignalSet → Cells SignalSet → LinuxResult (Option SignalSet) → Masked
  mask_with how blocked c (err e) = record { result = err e; blocked = blocked; cells = c }
  mask_with how blocked c (ok none) = record { result = ok 0; blocked = blocked; cells = c }
  mask_with how blocked c (ok (some set)) = masked blocked c (new_mask how set blocked)

  abbrev pub after_old : ℕ → ℕ → SignalSet → LinuxResult (Unit {0}) × Cells SignalSet → Masked
  after_old how set blocked (err e, c) = record { result = err e; blocked = blocked; cells = c }
  after_old how set blocked (ok u, c) = mask_with how blocked c (take_new set c)

  abbrev sized : LinuxResult (Unit {0}) → SignalSet → Cells SignalSet → Masked → Masked
  sized (err e) blocked c m = record { result = err e; blocked = blocked; cells = c }
  sized (ok u) blocked c m = m

  pub sys_rt_sigprocmask : ℕ → ℕ → ℕ → ℕ → SignalSet → Cells SignalSet → Masked
  sys_rt_sigprocmask how set oldset size blocked c =
      sized (check_sigset_size size) blocked c
        (after_old how set blocked (give_old oldset blocked c))

  abbrev put_pending :
      SignalSet → ℕ → Cells SignalSet → LinuxResult (Unit {0}) → LinuxResult ℕ × Cells SignalSet
  put_pending pending set c (err e) = (err e, c)
  put_pending pending set c (ok u) = (ok 0, store set pending c)

  unfoldable sys_rt_sigpending :
      SignalSet → ℕ → ℕ → Cells SignalSet → LinuxResult ℕ × Cells SignalSet
  sys_rt_sigpending pending set size c =
      put_pending pending set c (check_sigset_size size >>= λ u. c.get_as_mut set)

-- `SignalStack`
pub record SignalStack : Type 0 where
  pub sp : ℕ
  pub flags : ℕ
  pub size : ℕ

abbrev minsigstksz : ℕ
minsigstksz = 2048

-- The result, the stack, and the user's memory. `access` is the check of the new stack's own memory.
pub record Stacked : Type 0 where
  pub result : LinuxResult ℕ
  pub stack : SignalStack
  pub cells : Cells SignalStack

abbrev set_stack :
    (ℕ → ℕ → LinuxResult (Unit {0}))
    → SignalStack
    → Cells SignalStack
    → LinuxResult (Option SignalStack)
    → Stacked
set_stack access stack c (err e) = record { result = err e; stack = stack; cells = c }
set_stack access stack c (ok none) = record { result = ok 0; stack = stack; cells = c }
set_stack access stack c (ok (some ss)) =
    if leb ss.size minsigstksz
    then record { result = err enomem; stack = stack; cells = c }
    else elim (access ss.sp ss.size) [
      | err e ↦ record { result = err e; stack = stack; cells = c }
      | ok u ↦ record { result = ok 0; stack = ss; cells = c }
    ]

abbrev after_old_stack :
    (ℕ → ℕ → LinuxResult (Unit {0}))
    → ℕ
    → SignalStack
    → LinuxResult (Unit {0}) × Cells SignalStack
    → Stacked
after_old_stack access ss stack (err e, c) = record { result = err e; stack = stack; cells = c }
after_old_stack access ss stack (ok u, c) = set_stack access stack c (take_new ss c)

unfoldable sys_sigaltstack :
    (ℕ → ℕ → LinuxResult (Unit {0})) → ℕ → ℕ → SignalStack → Cells SignalStack → Stacked
sys_sigaltstack access ss old_ss stack c = after_old_stack access ss stack (give_old old_ss stack c)
