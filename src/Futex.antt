-- ===== src/Futex.antt =====
-- core/src/futex.rs: `FutexTable`, and api/src/imp/futex.rs: the `futex` call. An `Arc<WaitQueue>` is a
-- reference, an index into the queues ever made; its strong count is the number of table entries and
-- live guards that hold it. `WaitQueue` itself (crate axtask) is a parameter.
pub mod Leak
pub mod Wake
mod Tests
use freeos.Prelude.{
  ℕ, ◌%◌, zero, suc, ◌+◌, ◌-◌, ◌<◌, ◌≡◌, Bool, true, false, not, ◌&&◌, ◌||◌, List, [], ◌∷◌, Option,
  none, some, ◌==◌, if◌then◌else◌, bit_and,
}
use freeos.Prelude.Errors.{Result, ok, err, LinuxError, LinuxResult, eagain, enosys}
use freeos.Prelude.Words.{u32_mod}
use freeos.Prelude.Map.{Map, get, insert}
use freeos.Prelude.Map.{remove as remove_entry}

pub record WaitQueues : Type 1 where
  pub WaitQueue : Type 0
  pub new_queue : WaitQueue
  pub is_empty : WaitQueue → Bool
  -- whether a task was woken
  pub notify_one : WaitQueue → Bool × WaitQueue
  -- at most so many tasks are moved to the other queue: their number, and both queues
  pub requeue : ℕ → WaitQueue → WaitQueue → ℕ × WaitQueue × WaitQueue

-- The commands; `FUTEX_CMD_MASK` takes away the flags 128 and 256.
abbrev futex_wait : ℕ
futex_wait = 0

abbrev futex_wake : ℕ
futex_wake = 1

abbrev futex_requeue : ℕ
futex_requeue = 3

abbrev futex_cmp_requeue : ℕ
futex_cmp_requeue = 4

abbrev command_of : ℕ → ℕ
command_of futex_op = bit_and futex_op (u32_mod - 1 - 384)

-- How many entries of the table hold the reference.
pub entries : ℕ → Map ℕ → ℕ
entries q [] = 0
entries q ((k, r) ∷ m) = (if r == q then 1 else 0) + entries q m

-- `WaitQueueGuard`
pub record Guard : Type 0 where
  pub key : ℕ
  pub inner : ℕ

module _ (w : WaitQueues) where
  open w use {WaitQueue, new_queue, is_empty, notify_one, requeue}

  -- The table, the queues behind the references, and how many live guards hold each of them.
  pub record FutexTable : Type 0 where
    pub table : Map ℕ
    pub queues : ℕ → WaitQueue
    pub guards : ℕ → ℕ
    pub next_ref : ℕ

  pub strong_count : ℕ → FutexTable → ℕ
  strong_count q t = entries q t.table + t.guards q

  abbrev guarded : ℕ → FutexTable → FutexTable
  guarded q t = record t { guards = λ r. if r == q then t.guards q + 1 else t.guards r }

  pub get_queue : ℕ → FutexTable → Option Guard × FutexTable
  get_queue addr t = elim (get addr t.table) [
    | none ↦ (none, t)
    | some q ↦ (some (record { key = addr; inner = q }), guarded q t)
  ]

  abbrev with_new : ℕ → FutexTable → FutexTable
  with_new addr t = record t {
    table = insert addr t.next_ref t.table;
    queues = λ r. if r == t.next_ref then new_queue else t.queues r;
    next_ref = t.next_ref + 1;
  }

  pub get_or_insert : ℕ → FutexTable → Guard × FutexTable
  get_or_insert addr t = elim (get addr t.table) [
    | none ↦ (record { key = addr; inner = t.next_ref }, guarded t.next_ref (with_new addr t))
    | some q ↦ (record { key = addr; inner = q }, guarded q t)
  ]

  -- `WaitQueueGuard::drop`, and then the guard gives up its reference.
  abbrev released : ℕ → FutexTable → FutexTable
  released q t = record t { guards = λ r. if r == q then t.guards q - 1 else t.guards r }

  pub drop_guard : Guard → FutexTable → FutexTable
  drop_guard g t =
      if strong_count g.inner t == 1 && is_empty (t.queues g.inner)
      then released g.inner (record t { table = remove_entry g.key t.table })
      else released g.inner t

  -- `notify_one` up to `n` times, until no task is left: how many were woken.
  abbrev pub go_on : Bool × WaitQueue → (WaitQueue → ℕ × WaitQueue) → ℕ × WaitQueue
  go_on (false, q) rest = (0, q)
  go_on (true, q) rest = let (n, q') = rest q in (suc n, q')

  pub wake_loop : ℕ → WaitQueue → ℕ × WaitQueue
  wake_loop zero q = (0, q)
  wake_loop (suc n) q = go_on (notify_one q) (wake_loop n)

  abbrev set_queue : ℕ → WaitQueue → FutexTable → FutexTable
  set_queue r q t = record t { queues = λ s. if s == r then q else t.queues s }

  -- `FUTEX_WAKE`
  abbrev wake_guard : ℕ → Option Guard × FutexTable → LinuxResult ℕ × FutexTable
  wake_guard value (none, t) = (ok 0, t)
  wake_guard value (some g, t) =
      let (count, q) = wake_loop value (t.queues g.inner) in
      (ok count, drop_guard g (set_queue g.inner q t))

  pub wake : ℕ → ℕ → FutexTable → LinuxResult ℕ × FutexTable
  wake addr value t = wake_guard value (get_queue addr t)

  -- `FUTEX_REQUEUE`: when as many tasks as asked for were woken, more are moved to the second queue.
  abbrev move : ℕ → ℕ → ℕ → ℕ → FutexTable → ℕ × FutexTable
  move count value2 r r2 t =
      let (n, q, q2) = requeue value2 (t.queues r) (t.queues r2) in
      (count + n, set_queue r2 q2 (set_queue r q t))

  abbrev requeue_guards : ℕ → ℕ → Guard → Option Guard → FutexTable → LinuxResult ℕ × FutexTable
  requeue_guards value value2 g2 none t = (ok 0, drop_guard g2 t)
  requeue_guards value value2 g2 (some g) t =
      let (count, q) = wake_loop value (t.queues g.inner) in
      let t' = set_queue g.inner q t in
      let (n, t'') =
        (if count == value then move count value2 g.inner g2.inner t' else (count, t')) in
      (ok n, drop_guard g2 (drop_guard g t''))

  unfoldable requeue_to : ℕ → ℕ → ℕ → ℕ → FutexTable → LinuxResult ℕ × FutexTable
  requeue_to addr addr2 value value2 t =
      let (found, t1) = get_queue addr t in
      let (g2, t2) = get_or_insert addr2 t1 in requeue_guards value value2 g2 found t2

  -- A call returns, or it waits in the queue of its guard, for ever or with a timeout.
  pub data Outcome : Type 0 where
    returns : LinuxResult ℕ → FutexTable → Outcome
    waits : Guard → Bool → FutexTable → Outcome

  abbrev pub returned : LinuxResult ℕ × FutexTable → Outcome
  returned (r, t) = returns r t

  -- The value at `uaddr` is read and compared.
  abbrev compared : LinuxResult ℕ → ℕ → (FutexTable → Outcome) → FutexTable → Outcome
  compared (err e) value then_do t = returns (err e) t
  compared (ok found) value then_do t =
      if not (found == value) then returns (err eagain) t else then_do t

  -- The guard is made before the timeout is read, and dropped when that fails.
  abbrev wait_timeout : LinuxResult Bool → Guard × FutexTable → Outcome
  wait_timeout (err e) (g, t) = returns (err e) (drop_guard g t)
  wait_timeout (ok timed) (g, t) = waits g timed t

  -- The task goes on after it was woken, or its time is over.
  unfoldable resumed : Guard → FutexTable → Outcome
  resumed g t = returns (ok 0) (drop_guard g t)

  -- `timed` is what reading the timeout gives: whether there is one; `timeout_addr` is its address,
  -- which a requeue takes for a number.
  unfoldable sys_futex :
      ℕ → LinuxResult ℕ → ℕ → ℕ → ℕ → LinuxResult Bool → ℕ → ℕ → FutexTable → Outcome
  sys_futex addr at_addr futex_op value timeout_addr timed addr2 value3 t =
      let command = command_of futex_op in
      let value2 = timeout_addr % u32_mod in
      if command == futex_wait
      then compared at_addr value (λ s. wait_timeout timed (get_or_insert addr s)) t
      else if command == futex_wake
      then returned (wake addr value t)
      else if command == futex_requeue
      then returned (requeue_to addr addr2 value value2 t)
      else if command == futex_cmp_requeue
      then compared at_addr value3 (λ s. returned (requeue_to addr addr2 value value2 s)) t
      else returns (err enosys) t
