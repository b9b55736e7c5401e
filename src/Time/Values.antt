-- ===== src/Time/Values.antt =====
-- api/src/time.rs: conversions from and to `TimeValue`, the `Duration` of Rust's library: seconds, and
-- nanoseconds below one billion. Seconds are `i64` or `u64`, the same bit pattern.
use freeos.Prelude.{ℕ, ◌+◌, ◌*◌, ◌/◌, ◌%◌, ◌<◌, ◌≡◌, Option, none, some, arith, leb, if◌then◌else◌}
use freeos.Prelude.Words.{usize_mod, u32_mod}

pub record TimeValue : Type 0 where
  pub secs : ℕ
  pub subsec_nanos : ℕ

-- `Duration::new`: whole seconds among the nanoseconds are carried over; it panics when the
-- seconds overflow.
unfoldable duration_new : ℕ → ℕ → Option TimeValue
duration_new secs nanos =
    let s = secs + nanos / 1000000000 in
    if leb usize_mod s then none else some (record { secs = s; subsec_nanos = nanos % 1000000000 })

pub record Timespec : Type 0 where
  pub tv_sec : ℕ
  pub tv_nsec : ℕ

pub record Timeval : Type 0 where
  pub tv_sec : ℕ
  pub tv_usec : ℕ

-- `timespec`, `__kernel_timespec` and `__kernel_old_timespec`
unfoldable timespec_from_time_value : TimeValue → Timespec
timespec_from_time_value tv = record { tv_sec = tv.secs; tv_nsec = tv.subsec_nanos }

unfoldable timespec_to_time_value : Timespec → Option TimeValue
timespec_to_time_value ts = duration_new ts.tv_sec (ts.tv_nsec % u32_mod)

-- `timeval`, `__kernel_old_timeval` and `__kernel_sock_timeval`
unfoldable timeval_from_time_value : TimeValue → Timeval
timeval_from_time_value tv = record { tv_sec = tv.secs; tv_usec = tv.subsec_nanos / 1000 }

unfoldable timeval_to_time_value : Timeval → Option TimeValue
timeval_to_time_value tv = duration_new tv.tv_sec (tv.tv_usec % u32_mod * 1000 % u32_mod)

-- A time that a `Duration` can hold.
abbrev pub IsTime : TimeValue → Type 0
IsTime tv = (tv.secs < usize_mod) × (tv.subsec_nanos < 1000000000)

duration_new_lem :
    (secs nanos : ℕ)
    → secs < usize_mod
    → nanos < 1000000000
    → duration_new secs nanos ≡ some (record { secs = secs; subsec_nanos = nanos })
unfolding duration_new
duration_new_lem secs nanos small fine = ground arith

-- A time goes through a `timespec` unchanged.
timespec_to_time_value-timespec_from_time_value :
    (tv : TimeValue) → IsTime tv → timespec_to_time_value (timespec_from_time_value tv) ≡ some tv
unfolding timespec_to_time_value timespec_from_time_value
timespec_to_time_value-timespec_from_time_value tv (small, fine) =
    let same : tv.subsec_nanos % u32_mod ≡ tv.subsec_nanos = omega (arith, fine) in
    rw same (duration_new_lem tv.secs tv.subsec_nanos small fine)

-- A time goes through a `timeval` cut off to whole microseconds.
timeval_to_time_value-timeval_from_time_value :
    (tv : TimeValue)
    → IsTime tv
    → timeval_to_time_value (timeval_from_time_value tv)
      ≡ some (record tv { subsec_nanos = tv.subsec_nanos / 1000 * 1000 })
unfolding timeval_to_time_value timeval_from_time_value
timeval_to_time_value-timeval_from_time_value tv (small, fine) =
    let same : tv.subsec_nanos / 1000 % u32_mod * 1000 % u32_mod ≡ tv.subsec_nanos / 1000 * 1000 =
      omega (arith, fine) in
    rw same (duration_new_lem tv.secs (tv.subsec_nanos / 1000 * 1000) small (omega (arith, fine)))
