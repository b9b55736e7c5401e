-- ===== src/Signals/Actions.antt =====
-- api/src/imp/signal.rs and api/src/signal.rs: `sys_rt_sigaction`, and the waits for a signal. The
-- actions and their C form, and what is pending at a look, are those of crate axsignal.
pub mod Restoring
mod Tests
use freeos.Prelude.{
  ℕ, ◌+◌, Bool, true, false, ◌||◌, ◌⊎◌, inl, inr, List, [], ◌∷◌, Option, none, some, ◌==◌,
  if◌then◌else◌,
}
use freeos.Prelude.Errors.{LinuxResult, ok, err, ◌>>=◌, einval, eagain}
use freeos.Tasks.{Processes}
use freeos.Signals.{SignalApi, check_sigset_size, parse_signo}
use freeos.Signals.Masks.{Cells, give_old, take_new, store}

pub record ActionApi (a : SignalApi) : Type 1 where
  pub Action : Type 0
  pub CAction : Type 0
  pub Actions : Type 0
  pub get : a.Signo → Actions → Action
  pub set : a.Signo → Action → Actions → Actions
  pub to_ctype : Action → CAction
  pub try_from : CAction → LinuxResult Action
  pub is_kill : a.Signo → Bool
  pub is_stop : a.Signo → Bool

module _ (p : Processes) (a : SignalApi) (x : ActionApi a) where
  open a use {Signo}
  open x use {Action, CAction, Actions, get, set, to_ctype, try_from, is_kill, is_stop}

  -- The result, the actions, and the user's memory.
  pub record Acted : Type 0 where
    pub result : LinuxResult ℕ
    pub actions : Actions
    pub cells : Cells CAction

  abbrev pub refused : Actions → Cells CAction → LinuxResult ℕ → Acted
  refused m c r = record { result = r; actions = m; cells = c }

  abbrev pub put_action : Signo → Actions → Cells CAction → LinuxResult Action → Acted
  put_action n m c (err e) = refused m c (err e)
  put_action n m c (ok v) = refused (set n v m) c (ok 0)

  abbrev pub act_with : Signo → Actions → Cells CAction → LinuxResult (Option CAction) → Acted
  act_with n m c (err e) = refused m c (err e)
  act_with n m c (ok none) = refused m c (ok 0)
  act_with n m c (ok (some v)) = put_action n m c (try_from v)

  abbrev pub after_old : Signo → ℕ → Actions → LinuxResult (Unit {0}) × Cells CAction → Acted
  after_old n act m (err e, c) = refused m c (err e)
  after_old n act m (ok u, c) = act_with n m c (take_new act c)

  -- SIGKILL and SIGSTOP have no actions.
  abbrev act_on : LinuxResult Signo → ℕ → ℕ → Actions → Cells CAction → Acted
  act_on (err e) act oldact m c = refused m c (err e)
  act_on (ok n) act oldact m c =
      if is_kill n || is_stop n
      then refused m c (err einval)
      else after_old n act m (give_old oldact (to_ctype (get n m)) c)

  pub sys_rt_sigaction : ℕ → ℕ → ℕ → ℕ → Actions → Cells CAction → Acted
  sys_rt_sigaction signo act oldact size m c =
      act_on (check_sigset_size size >>= λ u. parse_signo p a signo) act oldact m c

-- `SignalOSAction`, and what `check_signals` makes of it: the task goes on, or exits with a code.
data SignalOsAction : Type 0 where
  terminate core_dump stop continue handler : SignalOsAction

data Checked : Type 0 where
  nothing : Checked
  handled : Checked
  exits : ℕ → Checked

abbrev check_signals : Option (ℕ × SignalOsAction) → Checked
check_signals none = nothing
check_signals (some (signo, terminate)) = exits (128 + signo)
check_signals (some (signo, core_dump)) = exits (128 + signo)
check_signals (some (signo, stop)) = exits 1
check_signals (some (signo, continue)) = handled
check_signals (some (signo, handler)) = handled

-- The signals of a set; `remove` takes one out.
record MaskApi : Type 1 where
  pub SignalSet : Type 0
  pub remove : SignalSet → ℕ → SignalSet

abbrev sigkill : ℕ
sigkill = 9

abbrev sigstop : ℕ
sigstop = 19

module _ (k : MaskApi) {M : Type 0} (look : M → k.SignalSet → Option (ℕ × SignalOsAction)) where
  open k use {SignalSet, remove}

  -- The loop of `sigsuspend` over the looks: `none` while it still waits, and else the exit code of the
  -- task or the result 0.
  unfoldable suspend_loop : SignalSet → List M → Option (LinuxResult ℕ ⊎ ℕ)
  suspend_loop blocked [] = none
  suspend_loop blocked (t ∷ run) = elim (check_signals (look t blocked)) [
    | nothing ↦ suspend_loop blocked run
    | handled ↦ some (inl (ok 0))
    | exits code ↦ some (inr code)
  ]

  -- The mask while it waits. The return register that the call sets is not modelled.
  abbrev suspended_mask : SignalSet → SignalSet
  suspended_mask set = remove (remove set sigkill) sigstop

  abbrev suspend_with : LinuxResult SignalSet → List M → Option (LinuxResult ℕ ⊎ ℕ)
  suspend_with (err e) run = some (inl (err e))
  suspend_with (ok set) run = suspend_loop (suspended_mask set) run

  unfoldable sys_rt_sigsuspend : LinuxResult SignalSet → ℕ → List M → Option (LinuxResult ℕ ⊎ ℕ)
  sys_rt_sigsuspend set size run = suspend_with (check_sigset_size size >>= λ u. set) run

-- `sys_rt_sigtimedwait`, with what `wait_timeout` gave: the result, and what is written to `info`.
abbrev gave_info : {I : Type 0} → I → Bool → LinuxResult (Unit {0}) → LinuxResult ℕ × Option I
gave_info sig true access = (ok 0, none)
gave_info sig false (err e) = (err e, none)
gave_info sig false (ok u) = (ok 0, some sig)

abbrev waited : {I : Type 0} → Option I → Bool → LinuxResult (Unit {0}) → LinuxResult ℕ × Option I
waited none is_null access = (err eagain, none)
waited (some sig) is_null access = gave_info sig is_null access

abbrev sys_rt_sigtimedwait :
    {I Set : Type 0} (wait : Set → Option (ℕ × ℕ) → Option I)
    → LinuxResult Set
    → LinuxResult (Option (ℕ × ℕ))
    → Bool
    → LinuxResult (Unit {0})
    → ℕ
    → LinuxResult ℕ × Option I
sys_rt_sigtimedwait wait set timeout is_null access size =
    elim (check_sigset_size size >>= λ u. set) [
      | err e ↦ (err e, none)
      | ok s ↦ elim timeout [ err e ↦ (err e, none) | ok d ↦ waited (wait s d) is_null access ]
    ]
