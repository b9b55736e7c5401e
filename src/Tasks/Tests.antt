-- ===== src/Tasks/Tests.antt =====
-- Three processes in one session: 1 with group 1, 2 and 3 in group 1. A process is its number, and the
-- world says which group each is in.
use freeos.Prelude.{ℕ, ◌≡◌, refl, true, none, some, [], ◌∷◌, arith, ◌==◌, if◌then◌else◌}
use freeos.Prelude.Errors.{ok}
use freeos.Prelude.Map.{get, contains_key}
use freeos.Tasks.{Processes, IsProcesses, Tables, sys_setpgid, sys_getpgid, add_thread_to_table}
use freeos.Tasks.Registered.{IsRegistered, add_thread_to_table-IsRegistered}
use freeos.Tasks.Groups.{sys_setpgid-sys_getpgid}

abbrev three : Processes
three = record {
  World = ℕ → ℕ;
  Process = ℕ;
  Group = ℕ;
  Session = ℕ;
  Thread = ℕ;
  pid = λ x. x;
  parent = λ x w. if x == 1 then none else some 1;
  is_init = λ x. x == 1;
  has_data = λ x. true;
  group = λ x w. w x;
  pgid = λ g. g;
  members = λ g w. [];
  session = λ g. 1;
  sid = λ s. s;
  tid = λ th. th;
  process = λ th. th;
  thread_has_data = λ th. true;
  create_group = λ x w. (some x, λ y. if y == x then x else w y);
  move_to_group = λ x g w. (true, λ y. if y == x then g else w y);
}

three-IsProcesses : IsProcesses three
three-IsProcesses = record { created = λ x w g e. ground arith; entered = λ x g w e. ground arith }

abbrev all_in_one : ℕ → ℕ
all_in_one x = 1

abbrev tables : Tables three
tables = record {
  threads = (1, 1) ∷ (2, 2) ∷ [];
  processes = (1, 1) ∷ (2, 2) ∷ [];
  groups = (1, 1) ∷ [];
  sessions = (1, 1) ∷ [];
}

tables-IsKeyed : (k g : ℕ) → get k tables.groups ≡ some g → g ≡ k
unfolding get
tables-IsKeyed k g e = ground arith

tables-IsRegistered : IsRegistered three all_in_one tables
unfolding get contains_key
tables-IsRegistered = record {
  with_process = λ k x e. ground arith;
  with_group = λ k x e. ground arith;
  with_session = λ k g e. ground arith;
}

add_thread_to_table-IsRegistered_example :
    IsRegistered three all_in_one (add_thread_to_table three 3 all_in_one tables)
add_thread_to_table-IsRegistered_example =
    add_thread_to_table-IsRegistered three all_in_one 3 tables tables-IsRegistered

two_named : get 2 tables.processes ≡ some 2
unfolding get
two_named = refl

moves_two : (sys_setpgid three 1 2 0 tables all_in_one).0 ≡ ok 0
unfolding sys_setpgid get
moves_two = refl

sys_setpgid-sys_getpgid_example :
    sys_getpgid three 1 2 tables (sys_setpgid three 1 2 0 tables all_in_one).1 ≡ ok 2
sys_setpgid-sys_getpgid_example =
    sys_setpgid-sys_getpgid three three-IsProcesses 1 tables tables-IsKeyed 2 0 0 all_in_one 2
      (rw two_named refl) moves_two
