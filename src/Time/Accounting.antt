-- ===== src/Time/Accounting.antt =====
-- What the switches count, and what the interval timer does.
use freeos.Prelude.{ℕ, ◌-◌, ◌<◌, ◌≤◌, ◌≡◌, refl, ap₂, Bool, List, [], ◌∷◌, arith}
use freeos.Prelude.Words.{usize_mod}
use freeos.Time.{
  TimeStat, reset, update_timer, update_if, is_set, is_real, runs_in_kernel,
  switch_into_kernel_mode, switch_into_user_mode, switch_from_old_task, switch_to_new_task, output,
  minus, plus,
}

update_if_times :
    (test : Bool) (delta : ℕ) (s : TimeStat)
    → ((update_if test delta s).utime_ns ≡ s.utime_ns)
      × ((update_if test delta s).stime_ns ≡ s.stime_ns)
      × ((update_if test delta s).kernel_timestamp ≡ s.kernel_timestamp)
unfolding update_timer
update_if_times test delta s = ground arith

into_kernel_times :
    (now : ℕ) (s : TimeStat)
    → let s' = switch_into_kernel_mode now s in
      (s'.utime_ns ≡ plus s.utime_ns (minus now s.kernel_timestamp)) × (s'.stime_ns ≡ s.stime_ns)
unfolding switch_into_kernel_mode
into_kernel_times now s =
    let delta = minus now s.kernel_timestamp in
    let (u, st, k) =
      update_if_times (is_set s.timer_type) delta
        (record s { utime_ns = plus s.utime_ns delta; kernel_timestamp = now }) in
    (u, st)

into_user_times :
    (now : ℕ) (s : TimeStat)
    → let s' = switch_into_user_mode now s in
      (s'.utime_ns ≡ s.utime_ns)
      × (s'.stime_ns ≡ plus s.stime_ns (minus now s.kernel_timestamp))
      × (s'.kernel_timestamp ≡ s.kernel_timestamp)
unfolding switch_into_user_mode
into_user_times now s =
    let delta = minus now s.kernel_timestamp in
    update_if_times (runs_in_kernel s.timer_type) delta
      (record s { stime_ns = plus s.stime_ns delta; user_timestamp = now })

reset_times :
    (now : ℕ) (s : TimeStat)
    → ((reset now s).utime_ns ≡ 0)
      × ((reset now s).stime_ns ≡ 0)
      × ((reset now s).kernel_timestamp ≡ now)
unfolding reset
reset_times now s = (refl, refl, refl)

-- When a thread is reset at `t0`, goes into user mode at `t1` and comes back at `t2`, all of the
-- time since `t0` is counted as user time, and the time from `t0` to `t1` as system time too.
pub output-round_trip :
    (t0 t1 t2 : ℕ) (s : TimeStat)
    → t0 ≤ t1
    → t1 ≤ t2
    → t2 < usize_mod
    → output (switch_into_kernel_mode t2 (switch_into_user_mode t1 (reset t0 s)))
      ≡ (t2 - t0, t1 - t0)
unfolding output
output-round_trip t0 t1 t2 s a b c =
    let (u0, s0, k0) = reset_times t0 s in
    let (u1, s1, k1) = into_user_times t1 (reset t0 s) in
    let (u2, s2) = into_kernel_times t2 (switch_into_user_mode t1 (reset t0 s)) in
    let user : (switch_into_kernel_mode t2 (switch_into_user_mode t1 (reset t0 s))).utime_ns
        ≡ t2 - t0 =
      ground (arith, u0, k0, u1, k1, u2) in
    let system : (switch_into_kernel_mode t2 (switch_into_user_mode t1 (reset t0 s))).stime_ns
        ≡ t1 - t0 =
      ground (arith, s0, k0, s1, s2) in
    ap₂ (λ x y. (x, y)) user system

-- The calls that lead from one state of the timer to the next.
pub data Event : Type 0 where
  into_kernel : ℕ → Event
  into_user : ℕ → Event
  from_old : ℕ → Event
  to_new : ℕ → Event

pub step : Event → TimeStat → TimeStat
step (into_kernel now) s = switch_into_kernel_mode now s
step (into_user now) s = switch_into_user_mode now s
step (from_old now) s = switch_from_old_task now s
step (to_new now) s = switch_to_new_task now s

pub run : List Event → TimeStat → TimeStat
run [] s = s
run (e ∷ es) s = run es (step e s)

update_if_armed :
    (test : Bool) (delta : ℕ) (s : TimeStat)
    → 0 < s.timer_remained_ns
    → 0 < (update_if test delta s).timer_remained_ns
unfolding update_timer
update_if_armed test delta s armed = ground arith

step_armed : (e : Event) (s : TimeStat) → 0 < s.timer_remained_ns → 0 < (step e s).timer_remained_ns
unfolding step switch_into_kernel_mode switch_into_user_mode switch_from_old_task switch_to_new_task
step_armed (into_kernel now) s armed =
    let delta = minus now s.kernel_timestamp in
    update_if_armed (is_set s.timer_type) delta
      (record s { utime_ns = plus s.utime_ns delta; kernel_timestamp = now }) armed
step_armed (into_user now) s armed =
    let delta = minus now s.kernel_timestamp in
    update_if_armed (runs_in_kernel s.timer_type) delta
      (record s { stime_ns = plus s.stime_ns delta; user_timestamp = now }) armed
step_armed (from_old now) s armed =
    let delta = minus now s.kernel_timestamp in
    update_if_armed (runs_in_kernel s.timer_type) delta
      (record s { stime_ns = plus s.stime_ns delta; kernel_timestamp = now }) armed
step_armed (to_new now) s armed =
    let delta = minus now s.kernel_timestamp in
    update_if_armed (is_real s.timer_type) delta (record s { kernel_timestamp = now }) armed

-- An interval timer with some time remaining never comes to its end: whatever switches follow, at
-- whatever times, some of its time remains.
pub run_armed :
    (es : List Event) (s : TimeStat) → 0 < s.timer_remained_ns → 0 < (run es s).timer_remained_ns
unfolding run
run_armed [] s armed = armed
run_armed (e ∷ es) s armed = run_armed es (step e s) (step_armed e s armed)
