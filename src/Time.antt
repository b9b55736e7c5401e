-- ===== src/Time.antt =====
-- core/src/time.rs: the times and the interval timer of a thread. Timestamps and times are `usize`
-- numbers of nanoseconds; sums and differences wrap round.
pub mod Accounting
pub mod Values
mod Tests
use freeos.Prelude.{ℕ, ◌+◌, ◌-◌, ◌%◌, Bool, true, false, not, ◌||◌, ltb, leb, ◌==◌, if◌then◌else◌}
use freeos.Prelude.Words.{usize_mod, usize_as_i32}

pub data TimerType : Type 0 where
  no_timer : TimerType
  real : TimerType
  virtual : TimerType
  prof : TimerType

-- `From<usize> for TimerType`: the number is taken as an `i32`.
unfoldable timer_type_from : ℕ → TimerType
timer_type_from num =
    if usize_as_i32 num == 0
    then real
    else if usize_as_i32 num == 1
    then virtual
    else if usize_as_i32 num == 2
    then prof
    else no_timer

pub record TimeStat : Type 0 where
  pub utime_ns : ℕ
  pub stime_ns : ℕ
  pub user_timestamp : ℕ
  pub kernel_timestamp : ℕ
  pub timer_type : TimerType
  pub timer_interval_ns : ℕ
  pub timer_remained_ns : ℕ

unfoldable pub new : TimeStat
new = record {
  utime_ns = 0;
  stime_ns = 0;
  user_timestamp = 0;
  kernel_timestamp = 0;
  timer_type = no_timer;
  timer_interval_ns = 0;
  timer_remained_ns = 0;
}

pub output : TimeStat → ℕ × ℕ
output s = (s.utime_ns, s.stime_ns)

abbrev pub minus : ℕ → ℕ → ℕ
minus a b = if leb b a then a - b else a + usize_mod - b

abbrev pub plus : ℕ → ℕ → ℕ
plus a b = (a + b) % usize_mod

pub reset : ℕ → TimeStat → TimeStat
reset now s = record s { utime_ns = 0; stime_ns = 0; user_timestamp = 0; kernel_timestamp = now }

pub update_timer : ℕ → TimeStat → TimeStat
update_timer delta s =
    if s.timer_remained_ns == 0
    then s
    else if ltb delta s.timer_remained_ns
    then record s { timer_remained_ns = s.timer_remained_ns - delta }
    else s

-- `self.timer_type != TimerType::NONE`
unfoldable pub is_set : TimerType → Bool
is_set no_timer = false
is_set real = true
is_set virtual = true
is_set prof = true

unfoldable pub is_real : TimerType → Bool
is_real no_timer = false
is_real real = true
is_real virtual = false
is_real prof = false

-- `REAL` or `PROF`
unfoldable pub runs_in_kernel : TimerType → Bool
runs_in_kernel no_timer = false
runs_in_kernel real = true
runs_in_kernel virtual = false
runs_in_kernel prof = true

abbrev pub update_if : Bool → ℕ → TimeStat → TimeStat
update_if test delta s = if test then update_timer delta s else s

pub switch_into_kernel_mode : ℕ → TimeStat → TimeStat
switch_into_kernel_mode now s =
    let delta = minus now s.kernel_timestamp in
    update_if (is_set s.timer_type) delta
      (record s { utime_ns = plus s.utime_ns delta; kernel_timestamp = now })

pub switch_into_user_mode : ℕ → TimeStat → TimeStat
switch_into_user_mode now s =
    let delta = minus now s.kernel_timestamp in
    update_if (runs_in_kernel s.timer_type) delta
      (record s { stime_ns = plus s.stime_ns delta; user_timestamp = now })

pub switch_from_old_task : ℕ → TimeStat → TimeStat
switch_from_old_task now s =
    let delta = minus now s.kernel_timestamp in
    update_if (runs_in_kernel s.timer_type) delta
      (record s { stime_ns = plus s.stime_ns delta; kernel_timestamp = now })

pub switch_to_new_task : ℕ → TimeStat → TimeStat
switch_to_new_task now s =
    let delta = minus now s.kernel_timestamp in
    update_if (is_real s.timer_type) delta (record s { kernel_timestamp = now })

unfoldable set_timer : ℕ → ℕ → ℕ → TimeStat → Bool × TimeStat
set_timer interval remained kind s =
    let t = timer_type_from kind in
    (
      is_set t,
      record s { timer_type = t; timer_interval_ns = interval; timer_remained_ns = remained },
    )
