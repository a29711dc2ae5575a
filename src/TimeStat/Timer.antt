-- ===== src/TimeStat/Timer.antt =====
-- The interval timer.
use vegar.Prelude.{ℕ, ◌≤◌, ◌<◌, List, [], ◌∷◌, arith}
use vegar.TimeStat.{
  TimeStat, Event, into_kernel, into_user, from_old, to_new, step, run, switch_into_kernel_mode,
  switch_into_user_mode, switch_from_old_task, switch_to_new_task,
}

pub record Armed (bound : ℕ) (s : TimeStat) : Type 0 where
  pub pending : 0 < s.timer_remained_ns
  pub below : s.timer_remained_ns ≤ bound

step-Armed : (bound : ℕ) (e : Event) (s : TimeStat) → Armed bound s → Armed bound (step e s)
unfolding step switch_into_kernel_mode switch_into_user_mode switch_from_old_task switch_to_new_task
step-Armed bound (into_kernel t) s a = ground arith
step-Armed bound (into_user t) s a = ground arith
step-Armed bound (from_old t) s a = ground arith
step-Armed bound (to_new t) s a = ground arith

run-Armed-within :
    (bound : ℕ) (es : List Event) (s : TimeStat) → Armed bound s → Armed bound (run es s)
unfolding run
run-Armed-within bound [] s a = a
run-Armed-within bound (e ∷ es) s a = run-Armed-within bound es (step e s) (step-Armed bound e s a)

-- A timer with time left never runs out: after any events, however far apart, the time left is still
-- positive and at most what it was.
pub run-Armed :
    (es : List Event) (s : TimeStat)
    → 0 < s.timer_remained_ns
    → Armed s.timer_remained_ns (run es s)
run-Armed es s h = run-Armed-within s.timer_remained_ns es s (omega arith)
