-- ===== src/Futex/Wake.antt =====
-- How many tasks `FUTEX_WAKE` wakes.
use freeos.Prelude.{ℕ, zero, suc, ◌-◌, ◌≡◌, refl, Bool, true, false, some, arith, min, ==_self}
use freeos.Prelude.Errors.{ok}
use freeos.Prelude.Map.{get}
use freeos.Futex.{WaitQueues, Guard, FutexTable, get_queue, drop_guard, go_on, wake_loop, wake}

module _ (w : WaitQueues) where
  open w use {WaitQueue, notify_one}

  -- What `notify_one` does to the number of tasks in the queue.
  abbrev Notifies : (WaitQueue → ℕ) → ℕ → Bool × WaitQueue → Type 0
  Notifies len n (false, q) = (n ≡ 0) × (len q ≡ 0)
  Notifies len n (true, q) = n ≡ suc (len q)

  -- `len` counts the tasks in a queue: `notify_one` wakes one of them, if there is one.
  abbrev pub IsLength : (WaitQueue → ℕ) → Type 0
  IsLength len = (q : WaitQueue) → Notifies len (len q) (notify_one q)

  abbrev Wakes : (WaitQueue → ℕ) → ℕ → ℕ → ℕ × WaitQueue → Type 0
  Wakes len n l (count, q) = (count ≡ min n l) × (len q ≡ l - n)

  go_on-Wakes :
      (len : WaitQueue → ℕ) (n l : ℕ) (out : Bool × WaitQueue) (rest : WaitQueue → ℕ × WaitQueue)
      → Notifies len l out
      → ((q : WaitQueue) → Wakes len n (len q) (rest q))
      → Wakes len (suc n) l (go_on w out rest)
  go_on-Wakes len n l (false, q) rest (nothing, empty) next = (omega arith, omega arith)
  go_on-Wakes len n l (true, q) rest one next =
      let (count, left) = next q in (omega arith, omega arith)

  wake_loop-Wakes :
      (len : WaitQueue → ℕ) (n : ℕ) (q : WaitQueue)
      → IsLength len
      → Wakes len n (len q) (wake_loop w n q)
  unfolding wake_loop
  wake_loop-Wakes len zero q counts = (omega arith, omega arith)
  wake_loop-Wakes len (suc n) q counts =
      go_on-Wakes len n (len q) (notify_one q) (wake_loop w n) (counts q)
        (λ q'. wake_loop-Wakes len n q' counts)

  drop_guard_queues : (g : Guard) (t : FutexTable w) → (drop_guard w g t).queues ≡ t.queues
  unfolding drop_guard
  drop_guard_queues g t = ground arith

  -- When `notify_one` wakes one task as long as there is one, `FUTEX_WAKE` at an address with a
  -- queue wakes as many tasks as asked for, or all, if they are fewer; it returns their number,
  -- and the others stay in the queue.
  wake_lem :
      (len : WaitQueue → ℕ) (addr value r : ℕ) (t : FutexTable w)
      → IsLength len
      → get addr t.table ≡ some r
      → let (res, t') = wake w addr value t in
        (res ≡ ok (min value (len (t.queues r)))) × (len (t'.queues r) ≡ len (t.queues r) - value)
  unfolding wake get_queue
  wake_lem len addr value r t counts there =
      let (count, left) = wake_loop-Wakes len value (t.queues r) counts in
      rw (there, get_queue, drop_guard_queues) (rw count refl, rw (==_self r) left)
