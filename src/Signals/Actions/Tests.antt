-- ===== src/Signals/Actions/Tests.antt =====
-- Actions are numbers: a signal's action is at first its number, and signals 9 and 19 cannot be changed.
use freeos.Prelude.{ℕ, ◌≡◌, refl, true, false, [], none, some, ◌==◌, leb, if◌then◌else◌}
use freeos.Prelude.Errors.{ok}
use freeos.Tasks.{Processes}
use freeos.Signals.{SignalApi, parse_signo, sigset_size}
use freeos.Signals.Masks.{Cells}
use freeos.Signals.Actions.{ActionApi, sys_rt_sigaction}
use freeos.Signals.Actions.Restoring.{sys_rt_sigaction_restores}

abbrev one : Processes
one = record {
  World = Unit {0};
  Process = ℕ;
  Group = ℕ;
  Session = ℕ;
  Thread = ℕ;
  pid = λ x. x;
  parent = λ x w. none;
  is_init = λ x. true;
  has_data = λ x. true;
  group = λ x w. 1;
  pgid = λ g. g;
  members = λ g w. [];
  session = λ g. 1;
  sid = λ s. s;
  tid = λ th. th;
  process = λ th. th;
  thread_has_data = λ th. true;
  create_group = λ x w. (none, w);
  move_to_group = λ x g w. (false, w);
}

abbrev api : SignalApi
api = record {
  Signo = ℕ;
  from_repr = λ n. if n == 0 then none else if leb n 64 then some n else none;
  SignalInfo = ℕ;
  new_info = λ n c. n;
  code = λ i. 0;
  set_signo = λ n i. n;
}

abbrev actions : ActionApi api
actions = record {
  Action = ℕ;
  CAction = ℕ;
  Actions = ℕ → ℕ;
  get = λ n m. m n;
  set = λ n v m k. if n == k then v else m k;
  to_ctype = λ v. v;
  try_from = λ v. ok v;
  is_kill = λ n. n == 9;
  is_stop = λ n. n == 19;
}

abbrev cells : Cells ℕ
cells = record { get_as_ref = λ q. ok 77; get_as_mut = λ q. ok tt }

abbrev own : ℕ → ℕ
own n = n

signal_two : parse_signo one api 2 ≡ ok 2
unfolding parse_signo
signal_two = refl

sys_rt_sigaction_restores_example :
    let first = sys_rt_sigaction one api actions 2 8 16 sigset_size own cells in
    let second = sys_rt_sigaction one api actions 2 16 0 sigset_size first.actions first.cells in
    (second.result ≡ ok 0) × (second.actions 2 ≡ 2)
sys_rt_sigaction_restores_example =
    sys_rt_sigaction_restores one api actions 2 8 16 2 own cells signal_two refl refl refl refl
      (λ m'. refl)
