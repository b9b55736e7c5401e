-- ===== src/Futex/Tests.antt =====
-- A table with one queue, in which the tasks 7 and 9 wait.
use freeos.Prelude.{
  ℕ, ◌≡◌, refl, Bool, true, false, List, [], ◌∷◌, ◌++◌, arith, min, length, if◌then◌else◌, ◌==◌,
  take, drop,
}
use freeos.Prelude.Map.{get}
use freeos.Futex.{WaitQueues, Guard, FutexTable, drop_guard}
use freeos.Futex.Leak.{drop_guard_keeps}
use freeos.Futex.Wake.{IsLength}

abbrev notify_one : List ℕ → Bool × List ℕ
notify_one [] = (false, [])
notify_one (t ∷ q) = (true, q)

abbrev is_empty : List ℕ → Bool
is_empty [] = true
is_empty (t ∷ q) = false

abbrev lists : WaitQueues
lists = record {
  WaitQueue = List ℕ;
  new_queue = [];
  is_empty = is_empty;
  notify_one = notify_one;
  requeue = λ n q q2. (min n (length q), drop n q, q2 ++ take n q);
}

length-IsLength : IsLength lists length
length-IsLength [] = (refl, refl)
length-IsLength (t ∷ q) = refl

abbrev table : FutexTable lists
table = record {
  table = (0x1000, 0) ∷ [];
  queues = λ r. if r == 0 then 7 ∷ 9 ∷ [] else [];
  guards = λ r. if r == 0 then 1 else 0;
  next_ref = 1;
}

abbrev guard : Guard
guard = record { key = 0x1000; inner = 0 }

drop_guard_keeps_example : (drop_guard lists guard table).table ≡ (0x1000, 0) ∷ []
unfolding get
drop_guard_keeps_example = drop_guard_keeps lists guard table (omega arith, refl)
