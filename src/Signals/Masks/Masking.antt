-- ===== src/Signals/Masks/Masking.antt =====
-- What `sys_rt_sigprocmask` does to the mask and to the user's memory.
use freeos.Prelude.{
  ℕ, ◌≡◌, refl, ap, ◌∙◌, Bool, true, false, Option, none, some, arith, ◌==◌, not, ◌&&◌, ◌||◌,
}
use freeos.Prelude.Errors.{LinuxResult, ok, err}
use freeos.Signals.{sigset_size}
use freeos.Signals.Masks.{
  Cells, store, take_new, SetApi, IsSetApi, sig_block, sig_unblock, sig_setmask, new_mask, masked,
  mask_with, after_old, sys_rt_sigprocmask,
}

module _ (x : SetApi) where
  open x use {SignalSet, has, union, minus}

  -- The user's memory is changed by the old mask only.
  after_old_cells :
      (how set : ℕ) (b : SignalSet) (c : Cells SignalSet)
      → (after_old x how set b (ok tt, c)).cells ≡ c
  after_old_cells how set b c = by_set (take_new set c)
    where
      by_mask : (r : LinuxResult SignalSet) → (masked x b c r).cells ≡ c
      by_mask (ok s) = refl
      by_mask (err e) = refl

      by_set : (r : LinuxResult (Option SignalSet)) → (mask_with x how b c r).cells ≡ c
      by_set (err e) = refl
      by_set (ok none) = refl
      by_set (ok (some s)) = by_mask (new_mask x how s b)

  -- With a place to which the old mask may be written, every call of `sys_rt_sigprocmask` can be undone:
  -- whatever it did to the mask, and whether it failed or not, SIG_SETMASK from that place gives the
  -- mask that there was before.
  pub sys_rt_sigprocmask_restores :
      (how set oldset : ℕ) (b : SignalSet) (c : Cells SignalSet)
      → (oldset == 0) ≡ false
      → c.get_as_mut oldset ≡ ok tt
      → let m = sys_rt_sigprocmask x how set oldset sigset_size b c in
        (sys_rt_sigprocmask x sig_setmask oldset 0 sigset_size m.blocked m.cells).blocked ≡ b
  unfolding sys_rt_sigprocmask
  sys_rt_sigprocmask_restores how set oldset b c real writable =
      let self : (oldset == oldset) ≡ true = ground arith in
      rw (real, writable, after_old_cells how set b (store oldset b c), self) refl

  -- With one place for both sets, SIG_SETMASK changes nothing: the old mask is written there before the
  -- new one is read.
  pub sys_rt_sigprocmask_aliased :
      (set : ℕ) (b : SignalSet) (c : Cells SignalSet)
      → (set == 0) ≡ false
      → c.get_as_mut set ≡ ok tt
      → let m = sys_rt_sigprocmask x sig_setmask set set sigset_size b c in
        (m.result ≡ ok 0) × (m.blocked ≡ b)
  unfolding sys_rt_sigprocmask
  sys_rt_sigprocmask_aliased set b c real writable =
      let self : (set == set) ≡ true = ground arith in rw (real, writable, real, self) (refl, refl)

  module _ (laws : IsSetApi x) where
    cancels : (s t : Bool) → ((s || t) && not t) ≡ (s && not t)
    cancels true true = refl
    cancels true false = refl
    cancels false true = refl
    cancels false false = refl

    -- Blocking a set and unblocking it leaves blocked what was blocked before and is not in the set.
    sys_rt_sigprocmask_unblocks :
        (set : ℕ) (b s : SignalSet) (c : Cells SignalSet) (n : ℕ)
        → (set == 0) ≡ false
        → c.get_as_ref set ≡ ok s
        → let m = sys_rt_sigprocmask x sig_block set 0 sigset_size b c in
          let m' = sys_rt_sigprocmask x sig_unblock set 0 sigset_size m.blocked m.cells in
          has m'.blocked n ≡ (has b n && not (has s n))
    unfolding sys_rt_sigprocmask
    sys_rt_sigprocmask_unblocks set b s c n real there =
        rw (real, there, there)
          (laws.has-minus (union b s) s n
            ∙ ap (λ v. v && not (has s n)) (laws.has-union b s n)
            ∙ cancels (has b n) (has s n))
