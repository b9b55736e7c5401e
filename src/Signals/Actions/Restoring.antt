-- ===== src/Signals/Actions/Restoring.antt =====
-- What `sys_rt_sigaction` can be made to restore, and what ends `sys_rt_sigsuspend`.
use freeos.Prelude.{ℕ, ◌≡◌, refl, true, false, ◌||◌, Option, none, some, arith, ◌==◌}
use freeos.Prelude.Errors.{LinuxResult, ok, err}
use freeos.Tasks.{Processes}
use freeos.Signals.{SignalApi, parse_signo, sigset_size}
use freeos.Signals.Masks.{Cells, store, take_new}
use freeos.Signals.Actions.{ActionApi, put_action, act_with, after_old, sys_rt_sigaction}

module _ (p : Processes) (a : SignalApi) (x : ActionApi a) where
  open a use {Signo}
  open x use {Action, CAction, Actions, get, set, to_ctype, try_from, is_kill, is_stop}

  -- The user's memory is changed by the old action only.
  after_old_cells :
      (n : Signo) (act : ℕ) (m : Actions) (c : Cells CAction)
      → (after_old p a x n act m (ok tt, c)).cells ≡ c
  after_old_cells n act m c = by_new (take_new act c)
    where
      by_action : (r : LinuxResult Action) → (put_action p a x n m c r).cells ≡ c
      by_action (ok v) = refl
      by_action (err e) = refl

      by_new : (r : LinuxResult (Option CAction)) → (act_with p a x n m c r).cells ≡ c
      by_new (err e) = refl
      by_new (ok none) = refl
      by_new (ok (some v)) = by_action (try_from v)

  -- Whatever a call of `sys_rt_sigaction` for a signal but SIGKILL and SIGSTOP did, a second call with
  -- the place to which the first one wrote the old action restores this action, where an action can be
  -- read back from its C form and the table of actions keeps what is set.
  pub sys_rt_sigaction_restores :
      (signo act oldact : ℕ) (n : Signo) (m : Actions) (c : Cells CAction)
      → parse_signo p a signo ≡ ok n
      → (is_kill n || is_stop n) ≡ false
      → (oldact == 0) ≡ false
      → c.get_as_mut oldact ≡ ok tt
      → try_from (to_ctype (get n m)) ≡ ok (get n m)
      → ((m' : Actions) → get n (set n (get n m) m') ≡ get n m)
      → let first = sys_rt_sigaction p a x signo act oldact sigset_size m c in
        let second = sys_rt_sigaction p a x signo oldact 0 sigset_size first.actions first.cells in
        (second.result ≡ ok 0) × (get n second.actions ≡ get n m)
  unfolding sys_rt_sigaction
  sys_rt_sigaction_restores signo act oldact n m c named changeable real writable back keeps =
      let self : (oldact == oldact) ≡ true = ground arith in
      let old = to_ctype (get n m) in
      let first_actions = (after_old p a x n act m (ok tt, store oldact old c)).actions in
      rw
        (
          named,
          changeable,
          real,
          writable,
          after_old_cells n act m (store oldact old c),
          self,
          back,
        )
        (refl, keeps first_actions)
