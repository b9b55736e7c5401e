-- ===== src/Time/Tests.antt =====
-- A thread that is reset at 100, runs in user mode from 130, and comes back at 150.
use freeos.Prelude.{◌<◌, ◌≡◌, [], ◌∷◌, arith}
use freeos.Time.{TimeStat, new, output, reset, real, switch_into_kernel_mode, switch_into_user_mode}
use freeos.Time.Accounting.{output-round_trip, into_kernel, into_user, run, run_armed}
use freeos.Time.Values.{TimeValue}

output-round_trip_example :
    output (switch_into_kernel_mode 150 (switch_into_user_mode 130 (reset 100 new))) ≡ (50, 30)
output-round_trip_example =
    output-round_trip 100 130 150 new (omega arith) (omega arith) (omega arith)

-- 10 nanoseconds remain.
abbrev armed : TimeStat
armed = record {
  utime_ns = 0;
  stime_ns = 0;
  user_timestamp = 0;
  kernel_timestamp = 100;
  timer_type = real;
  timer_interval_ns = 0;
  timer_remained_ns = 10;
}

run_armed_example : 0 < (run (into_user 104 ∷ into_kernel 999 ∷ []) armed).timer_remained_ns
run_armed_example = run_armed (into_user 104 ∷ into_kernel 999 ∷ []) armed (omega arith)

abbrev moment : TimeValue
moment = record { secs = 12; subsec_nanos = 345678 }
