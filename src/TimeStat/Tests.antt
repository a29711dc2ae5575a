-- ===== src/TimeStat/Tests.antt =====
-- The time accounting of core/src/time.rs at concrete clock values.
use vegar.Prelude.{◌≤◌, ◌≡◌, refl, [], ◌∷◌, arith}
use vegar.TimeStat.{
  TimeStat, TimerType, none, virtual, into_kernel, into_user, run, new, from_usize,
}
use vegar.TimeStat.Account.{new_task_utime}
use vegar.TimeStat.Timer.{Armed, run-Armed}

from_usize_values :
    (from_usize 1 ≡ virtual) × (from_usize 7 ≡ none) × (from_usize 4294967297 ≡ virtual)
unfolding from_usize
from_usize_values = (refl, refl, refl)

-- A timer of 50 ns, armed at time 10.
abbrev armed : TimeStat
armed = record {
  utime_ns = 0;
  stime_ns = 0;
  user_timestamp = 0;
  kernel_timestamp = 10;
  timer_type = TimerType.real;
  timer_interval_ns = 0;
  timer_remained_ns = 50;
}

-- A task that is started and enters the kernel at 1000 has used 1000 ns already.
new_task_utime_example :
    (1000 ≤ (run (into_kernel 1000 ∷ into_user 1010 ∷ into_kernel 1020 ∷ []) new).utime_ns)
    × ((run (into_kernel 1000 ∷ into_user 1010 ∷ into_kernel 1020 ∷ []) new).utime_ns ≤ 1020)
new_task_utime_example = new_task_utime 1000 (into_user 1010 ∷ into_kernel 1020 ∷ []) (omega arith)

run-Armed_example : Armed 50 (run (into_user 1000 ∷ []) armed)
run-Armed_example = run-Armed (into_user 1000 ∷ []) armed (omega arith)
