-- ===== src/Clocks/RoundTrip.antt =====
-- The conversions of api/src/time.rs, there and back.
use vegar.Prelude.{ℕ, ◌-◌, ◌*◌, ◌/◌, ◌%◌, ◌^◌, ◌<◌, ◌≡◌, some, arith}
use vegar.Clocks.Values.{
  nanos_per_sec, TimeValue, IsDuration, new_duration, timespec_from_time_value,
  timespec_to_time_value, timeval_from_time_value, timeval_to_time_value,
}

-- A duration with proper parts is made as it is.
pub new_duration_proper :
    (secs nanos : ℕ)
    → secs < 2 ^ 64
    → nanos < nanos_per_sec
    → new_duration secs nanos ≡ some (record { secs = secs; subsec_nanos = nanos })
unfolding new_duration
new_duration_proper secs nanos hs hn = ground arith

-- A time that is written as a `timespec` is read back as it was. Written as a `timeval`, it is read
-- back with its nanoseconds rounded down to whole microseconds. None of the conversions panics.
pub time_values_read_back :
    (tv : TimeValue)
    → IsDuration tv
    → (timespec_to_time_value (timespec_from_time_value tv) ≡ some tv)
      × (timeval_to_time_value (timeval_from_time_value tv)
          ≡ some (record tv { subsec_nanos = tv.subsec_nanos - tv.subsec_nanos % 1000 }))
unfolding timespec_to_time_value timespec_from_time_value timeval_to_time_value
    timeval_from_time_value
time_values_read_back tv d =
    let low : tv.subsec_nanos < 2 ^ 32 = omega (arith, d.nanos_lt) in
    let kept : tv.subsec_nanos % 2 ^ 32 ≡ tv.subsec_nanos = omega (arith, d.nanos_lt) in
    let cut : tv.subsec_nanos / 1000 % 2 ^ 32 * 1000 % 2 ^ 32
        ≡ tv.subsec_nanos - tv.subsec_nanos % 1000 =
      omega (arith, d.nanos_lt) in
    (
      rw kept (new_duration_proper tv.secs tv.subsec_nanos d.secs_lt d.nanos_lt),
      rw cut (
          new_duration_proper tv.secs (tv.subsec_nanos - tv.subsec_nanos % 1000) d.secs_lt
            (omega (arith, d.nanos_lt))),
    )
