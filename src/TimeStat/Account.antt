-- ===== src/TimeStat/Account.antt =====
-- What `utime_ns` and `stime_ns` account for.
use vegar.Prelude.{ℕ, ◌+◌, ◌-◌, ◌≤◌, ◌<◌, ◌≡◌, List, [], ◌∷◌, arith, usize_mod}
use vegar.TimeStat.{
  TimeStat, Event, into_kernel, into_user, from_old, to_new, at, step, run, new,
  switch_into_kernel_mode, switch_into_user_mode, switch_from_old_task, switch_to_new_task,
}

-- The clock values of a list of events rise from `now` on and stay below `2 ^ 64`.
abbrev pub Rising : ℕ → List Event → Type 0
Rising now [] = now < usize_mod
Rising now (e ∷ es) = (now ≤ at e) × Rising (at e) es

-- The clock value of the last event.
abbrev pub last_at : ℕ → List Event → ℕ
last_at now [] = now
last_at now (e ∷ es) = last_at (at e) es

Rising-lt : (now : ℕ) (es : List Event) → Rising now es → now < usize_mod
Rising-lt now [] h = h
Rising-lt now (e ∷ es) h = omega (arith, Rising-lt (at e) es h.1)

-- User time has grown from `used` by no more than the clock since `start`.
pub record Accounted (used start now : ℕ) (s : TimeStat) : Type 0 where
  pub user : s.utime_ns + start ≤ used + s.kernel_timestamp
  pub past : s.kernel_timestamp ≤ now

step-Accounted :
    (used start now : ℕ) (e : Event) (s : TimeStat)
    → now ≤ at e
    → at e < usize_mod
    → Accounted used start now s
    → Accounted used start (at e) (step e s)
unfolding step switch_into_kernel_mode switch_into_user_mode switch_from_old_task switch_to_new_task
step-Accounted used start now (into_kernel t) s h b a = ground arith
step-Accounted used start now (into_user t) s h b a = ground arith
step-Accounted used start now (from_old t) s h b a = ground arith
step-Accounted used start now (to_new t) s h b a = ground arith

run-Accounted :
    (used start now : ℕ) (es : List Event) (s : TimeStat)
    → Rising now es
    → Accounted used start now s
    → Accounted used start (last_at now es) (run es s)
unfolding run
run-Accounted used start now [] s h a = a
run-Accounted used start now (e ∷ es) s h a =
    run-Accounted used start (at e) es (step e s) h.1
      (step-Accounted used start now e s h.0 (Rising-lt (at e) es h.1) a)

-- User time does not fall while it stays below the largest word.
step-utime :
    (now : ℕ) (e : Event) (s : TimeStat)
    → now ≤ at e
    → at e < usize_mod
    → Accounted 0 0 now s
    → s.utime_ns ≤ (step e s).utime_ns
unfolding step switch_into_kernel_mode switch_into_user_mode switch_from_old_task switch_to_new_task
step-utime now (into_kernel t) s h b a = ground arith
step-utime now (into_user t) s h b a = ground arith
step-utime now (from_old t) s h b a = ground arith
step-utime now (to_new t) s h b a = ground arith

run-utime :
    (now : ℕ) (es : List Event) (s : TimeStat)
    → Rising now es
    → Accounted 0 0 now s
    → s.utime_ns ≤ (run es s).utime_ns
unfolding run
run-utime now [] s h a = omega arith
run-utime now (e ∷ es) s h a =
    let b = Rising-lt (at e) es h.1 in
    let here = step-utime now e s h.0 b a in
    let there = run-utime (at e) es (step e s) h.1 (step-Accounted 0 0 now e s h.0 b a) in
    omega (arith, here, there)

-- After any events whose clock values rise from `kernel_timestamp` and stay below `2 ^ 64`, user time
-- has grown by no more than the time since then.
utime-le-elapsed :
    (es : List Event) (s : TimeStat)
    → Rising s.kernel_timestamp es
    → (run es s).utime_ns + s.kernel_timestamp ≤ s.utime_ns + last_at s.kernel_timestamp es
utime-le-elapsed es s h =
    let a =
      run-Accounted s.utime_ns s.kernel_timestamp s.kernel_timestamp es s h
        (record { user = omega arith; past = omega arith }) in
    omega arith

-- The statistics of a new task that first enters the kernel when the clock shows `t`, after any further
-- events whose clock values rise from there and stay below `2 ^ 64`: its user time is at most what the
-- clock shows at the last of them, but at least `t`, the time from the start of the clock and not of
-- the task to that first entry.
pub new_task_utime :
    (t : ℕ) (es : List Event)
    → Rising t es
    → (t ≤ (run (into_kernel t ∷ es) new).utime_ns)
      × ((run (into_kernel t ∷ es) new).utime_ns ≤ last_at t es)
unfolding run new
new_task_utime t es h =
    let b = Rising-lt t es h in
    let fresh : Accounted 0 0 0 new = record { user = omega arith; past = omega arith } in
    let first = step-Accounted 0 0 0 (into_kernel t) new (omega arith) b fresh in
    let all : (step (into_kernel t) new).utime_ns ≡ t =
      unfold step switch_into_kernel_mode in ground arith in
    let grows = run-utime t es (step (into_kernel t) new) h first in
    let bound = run-Accounted 0 0 t es (step (into_kernel t) new) h first in
    (omega (arith, all, grows), omega (arith, bound.user, bound.past))

-- A task that leaves the kernel at `exit` and comes back at `enter` is charged the time since
-- `kernel_timestamp` as system time up to `exit`, and once more as user time up to `enter`: the
-- kernel time before `exit` counts twice, whatever the timer does.
pub kernel_time_counts_twice :
    (exit enter : ℕ) (s : TimeStat)
    → s.kernel_timestamp ≤ exit
    → exit ≤ enter
    → s.utime_ns + enter < usize_mod
    → s.stime_ns + exit < usize_mod
    → let s' = run (into_user exit ∷ into_kernel enter ∷ []) s in
      (s'.stime_ns ≡ s.stime_ns + (exit - s.kernel_timestamp))
      × (s'.utime_ns ≡ s.utime_ns + (enter - exit) + (exit - s.kernel_timestamp))
unfolding run step switch_into_kernel_mode switch_into_user_mode
kernel_time_counts_twice exit enter s h k u t = ground arith
