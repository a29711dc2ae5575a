-- ===== src/Clocks/Tests.antt =====
-- Runs of the clock calls, and the theorems about them at concrete inputs.
use vegar.Prelude.{◌+◌, ◌<◌, ◌≡◌, refl, ◌⊎◌, none, some, arith, ok, err, einval, eintr}
use vegar.Clocks.Values.{
  TimeValue, IsDuration, total_nanos, new_duration, from_nanos, checked_sub, Timespec,
  timespec_from_time_value, timespec_to_time_value,
}
use vegar.Clocks.Calls.{returns, finish_sleep, sys_nanosleep, sys_clock_gettime}
use vegar.Clocks.Sleep.{requested, IsRequest, sys_nanosleep_cases}

abbrev moment : TimeValue
moment = record { secs = 3; subsec_nanos = 1_999 }

moment-IsDuration : IsDuration moment
moment-IsDuration = record { secs_lt = omega arith; nanos_lt = omega arith }

abbrev second : Timespec
second = record { tv_sec = 1; tv_nsec = 0 }

-- A task that sleeps for exactly as long as it asked for.
abbrev on_time : TimeValue → TimeValue
on_time dur = dur

exact_sleep_is_interrupted :
    sys_nanosleep on_time (ok second) (some (ok tt))
    ≡ returns (err eintr) (some (record { tv_sec = 0; tv_nsec = 0 }))
unfolding sys_nanosleep timespec_to_time_value new_duration finish_sleep checked_sub total_nanos
    from_nanos timespec_from_time_value
exact_sleep_is_interrupted = refl

sys_nanosleep_cases_example :
    ((IsRequest second → ⊥)
      × (sys_nanosleep on_time (ok second) (some (ok tt)) ≡ returns (err einval) none))
    ⊎ ((IsRequest second
          × ((total_nanos (requested second) < total_nanos (on_time (requested second)))
              × (sys_nanosleep on_time (ok second) (some (ok tt)) ≡ returns (ok 0) none)))
        ⊎ (IsRequest second
            × ((left : Timespec) × ((total_nanos (requested left)
                      + total_nanos (on_time (requested second))
                    ≡ total_nanos (requested second))
                  × (sys_nanosleep on_time (ok second) (some (ok tt))
                      ≡ returns (err eintr) (some left))))))
sys_nanosleep_cases_example = sys_nanosleep_cases on_time second

abbrev second_after : TimeValue
second_after = record { secs = 4; subsec_nanos = 0 }

monotonic_clock :
    sys_clock_gettime moment second_after 1 (ok tt)
    ≡ (ok 0, some (record { tv_sec = 4; tv_nsec = 0 }))
unfolding sys_clock_gettime timespec_from_time_value
monotonic_clock = refl
