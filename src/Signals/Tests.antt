-- ===== src/Signals/Tests.antt =====
-- Signals to the processes of Tasks: a signal's number is itself, and a set is a test on numbers.
use freeos.Prelude.{
  ℕ, ◌-◌, ◌≡◌, refl, Bool, true, not, ◌&&◌, ◌||◌, [], ◌∷◌, none, some, arith, ◌==◌, leb,
  if◌then◌else◌,
}
use freeos.Prelude.Errors.{ok}
use freeos.Prelude.Words.{u32_mod}
use freeos.Prelude.Map.{get}
use freeos.Tasks.{Processes, Tables}
use freeos.Signals.{
  SignalApi, to_process, parse_signo, make_siginfo, sys_kill, si_user, sigset_size,
}
use freeos.Signals.Delivery.{sys_kill_group}
use freeos.Signals.Masks.{Cells, SetApi, IsSetApi, sig_block, sig_setmask, sys_rt_sigprocmask}
use freeos.Signals.Masks.Masking.{sys_rt_sigprocmask_restores, sys_rt_sigprocmask_aliased}

-- Process 2 leads group 2, with process 3, which takes no signals, and process 4; process 5 is in group 1.
abbrev five : Processes
five = record {
  World = ℕ → ℕ;
  Process = ℕ;
  Group = ℕ;
  Session = ℕ;
  Thread = ℕ;
  pid = λ x. x;
  parent = λ x w. some 1;
  is_init = λ x. x == 1;
  has_data = λ x. not (x == 3);
  group = λ x w. w x;
  pgid = λ g. g;
  members = λ g w. 2 ∷ 3 ∷ 4 ∷ [];
  session = λ g. 1;
  sid = λ s. s;
  tid = λ th. th;
  process = λ th. th;
  thread_has_data = λ th. true;
  create_group = λ x w. (some x, λ y. x);
  move_to_group = λ x g w. (true, λ y. g);
}

abbrev groups : ℕ → ℕ
groups x = if x == 5 then 1 else 2

abbrev tables : Tables five
tables = record {
  threads = [];
  processes = (2, 2) ∷ (5, 5) ∷ [];
  groups = (1, 1) ∷ (2, 2) ∷ [];
  sessions = (1, 1) ∷ [];
}

abbrev api : SignalApi
api = record {
  Signo = ℕ;
  from_repr = λ n. if n == 0 then none else if leb n 64 then some n else none;
  SignalInfo = ℕ × ℕ;
  new_info = λ n c. (n, c);
  code = λ i. i.1;
  set_signo = λ n i. (n, i.1);
}

sig_nine : make_siginfo five api 9 si_user ≡ ok (some (9, 0))
unfolding make_siginfo parse_signo
sig_nine = refl

group_listed : get 2 tables.groups ≡ some 2
unfolding get
group_listed = refl

sys_kill_group_example :
    sys_kill five api 5 tables groups (u32_mod - 2) 9 []
    ≡ (ok 2, to_process 2 (9, 0) ∷ to_process 4 (9, 0) ∷ [])
sys_kill_group_example =
    sys_kill_group five api 5 tables groups 2 9 2 (9, 0) [] (omega arith) (omega arith) group_listed
      sig_nine

abbrev tests : SetApi
tests = record {
  SignalSet = ℕ → Bool;
  has = λ s n. s n;
  union = λ s t n. s n || t n;
  minus = λ s t n. s n && not (t n);
}

tests-IsSetApi : IsSetApi tests
tests-IsSetApi = record { has-union = λ s t n. refl; has-minus = λ s t n. refl }

-- The mask holds 10; the user's memory holds the set of 12.
abbrev ten : ℕ → Bool
ten n = n == 10

abbrev cells : Cells (ℕ → Bool)
cells = record { get_as_ref = λ q. ok (λ n. n == 12); get_as_mut = λ q. ok tt }

sys_rt_sigprocmask_restores_example :
    let m = sys_rt_sigprocmask tests sig_block 8 16 sigset_size ten cells in
    (sys_rt_sigprocmask tests sig_setmask 16 0 sigset_size m.blocked m.cells).blocked ≡ ten
sys_rt_sigprocmask_restores_example =
    sys_rt_sigprocmask_restores tests sig_block 8 16 ten cells refl refl

sys_rt_sigprocmask_aliased_example :
    let m = sys_rt_sigprocmask tests sig_setmask 8 8 sigset_size ten cells in
    (m.result ≡ ok 0) × (m.blocked ≡ ten)
sys_rt_sigprocmask_aliased_example = sys_rt_sigprocmask_aliased tests 8 ten cells refl refl
