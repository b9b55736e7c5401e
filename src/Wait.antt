-- ===== src/Wait.antt =====
-- api/src/imp/task/wait.rs: `waitpid`. The processes are those of the crate axprocess; what the call
-- reads of a child, and does to it, are the fields and the result here. `child_exit_wq.wait()` gives
-- the processor away: a run is the list of what the children are at the first look and after each
-- wake-up.
pub mod Reap
mod Tests
use freeos.Prelude.{
  ℕ, ◌-◌, ◌^◌, ◌&&◌, is_some, Bool, true, false, not, ◌||◌, List, [], ◌∷◌, Option, none, some, ltb,
  ◌==◌, if◌then◌else◌,
}
use freeos.Prelude.Errors.{Result, ok, err, LinuxError, LinuxResult, echild}
use freeos.Prelude.Words.{u32_mod, has_bits, is_nonpos}
use freeos.Prelude.UserPtr.{UserPtr, nullable}

abbrev pub wnohang : ℕ
wnohang = 0x00000001

abbrev pub wnowait : ℕ
wnowait = 0x01000000

abbrev wall : ℕ
wall = 0x40000000

abbrev wclone : ℕ
wclone = 0x80000000

-- What the call reads of a child that does not change while it waits.
pub record Child : Type 0 where
  pub pid : ℕ
  pub pgid : ℕ
  pub is_clone_child : Bool

-- Whether a child is a zombie at some time, and its exit code.
pub record Status : Type 0 where
  pub is_zombie : Child → Bool
  pub exit_code : Child → ℕ

pub data WaitPid : Type 0 where
  any : WaitPid
  of_pid : ℕ → WaitPid
  of_pgid : ℕ → WaitPid

pub apply : WaitPid → Child → Bool
apply any c = true
apply (of_pid p) c = c.pid == p
apply (of_pgid g) c = c.pgid == g

-- The argument `pid`, an `i32`, in the process group `own`.
pub wait_pid : ℕ → ℕ → WaitPid
wait_pid own pid =
    if pid == u32_mod - 1
    then any
    else if pid == 0
    then of_pgid own
    else if not (is_nonpos pid)
    then of_pid pid
    else of_pgid (u32_mod - pid)

abbrev same_bool : Bool → Bool → Bool
same_bool true b = b
same_bool false b = not b

pub eligible : ℕ → WaitPid → Child → Bool
eligible options w c =
    apply w c && (has_bits options wall || same_bool (has_bits options wclone) c.is_clone_child)

pub filter : (Child → Bool) → List Child → List Child
filter p [] = []
filter p (c ∷ cs) = let rest = filter p cs in if p c then c ∷ rest else rest

unfoldable pub find : (Child → Bool) → List Child → Option Child
find p [] = none
find p (c ∷ cs) = if p c then some c else find p cs

-- The result, the exit code that is written to the user, and the child that is freed.
pub record Waited : Type 0 where
  pub result : LinuxResult ℕ
  pub written : Option ℕ
  pub freed : Option Child

abbrev pub failed : LinuxError → Waited
failed e = record { result = err e; written = none; freed = none }

abbrev pub no_child_yet : Waited
no_child_yet = record { result = ok 0; written = none; freed = none }

-- A zombie is found; `wants` says whether the caller gave a place for the exit code.
pub reaped : ℕ → Bool → Status → Child → Waited
reaped options wants s c = record {
  result = ok c.pid;
  written = if wants then some (s.exit_code c) else none;
  freed = if has_bits options wnowait then none else some c;
}

-- `none` while the call still waits when the run ends.
unfoldable pub wait_loop : ℕ → Bool → List Child → List Status → Option Waited
wait_loop options wants children [] = none
wait_loop options wants children (s ∷ run) =
    let rest = wait_loop options wants children run in
    elim (find s.is_zombie children) [
      | some c ↦ some (reaped options wants s c)
      | none ↦ if has_bits options wnohang then some no_child_yet else rest
    ]

abbrev pub after_pointer :
    ℕ → List Child → List Status → LinuxResult (Option (Unit {0})) → Option Waited
after_pointer options children run (err e) = some (failed e)
after_pointer options children run (ok place) = wait_loop options (is_some place) children run

abbrev pub among : ℕ → UserPtr (Unit {0}) → List Status → List Child → Option Waited
among options exit_code_ptr run [] = some (failed echild)
among options exit_code_ptr run (c ∷ cs) =
    after_pointer options (c ∷ cs) run (nullable exit_code_ptr)

pub sys_waitpid : ℕ → List Child → ℕ → UserPtr (Unit {0}) → ℕ → List Status → Option Waited
sys_waitpid own all pid exit_code_ptr options run =
    among options exit_code_ptr run (filter (eligible options (wait_pid own pid)) all)
