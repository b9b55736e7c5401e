-- ===== src/Wait/Tests.antt =====
-- A parent with one child that becomes a zombie at the second look.
use freeos.Prelude.{◌≡◌, refl, true, false, [], ◌∷◌, some, inl, inr}
use freeos.Prelude.Errors.{ok}
use freeos.Prelude.UserPtr.{UserPtr}
use freeos.Wait.{
  Child, Status, Waited, reaped, sys_waitpid, apply, eligible, wait_pid, filter, find, wait_loop,
}
use freeos.Wait.Reap.{Reports, Selected, In, sys_waitpid-Reports, sys_waitpid_returns}

abbrev child : Child
child = record { pid = 5; pgid = 4; is_clone_child = false }

abbrev running : Status
running = record { is_zombie = λ c. false; exit_code = λ c. 0 }

abbrev exited : Status
exited = record { is_zombie = λ c. true; exit_code = λ c. 256 }

abbrev place : UserPtr (Unit {0})
place = record { is_null = false; get_as_ref = ok tt }

waits :
    sys_waitpid 4 (child ∷ []) 5 place 0 (running ∷ exited ∷ []) ≡ some (reaped 0 true exited child)
unfolding sys_waitpid filter eligible apply wait_pid wait_loop find
waits = refl

sys_waitpid-Reports_example :
    Reports (Selected 4 (child ∷ []) 5 0) 0 (running ∷ exited ∷ []) (reaped 0 true exited child)
sys_waitpid-Reports_example =
    sys_waitpid-Reports 4 (child ∷ []) 5 place 0 (running ∷ exited ∷ [])
      (reaped 0 true exited child) waits

sys_waitpid_returns_example :
    (w : Waited) × (sys_waitpid 4 (child ∷ []) 5 place 0 (running ∷ exited ∷ []) ≡ some w)
unfolding In eligible apply wait_pid
sys_waitpid_returns_example =
    sys_waitpid_returns 4 (child ∷ []) 5 place 0 (running ∷ exited ∷ []) child exited
      (inl refl, refl) (inr (inl refl)) refl
