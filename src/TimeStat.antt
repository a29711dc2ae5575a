-- ===== src/TimeStat.antt =====
-- `TimerType` and `TimeStat` of core/src/time.rs. Times are nanoseconds in a `usize`.
pub mod Account
pub mod Timer
mod Tests
use vegar.Prelude.{
  ℕ, ◌+◌, ◌-◌, Bool, true, false, ◌||◌, List, [], ◌∷◌, ltb, ◌==◌, if◌then◌else◌, add_usize,
  sub_usize, as_u32,
}

pub data TimerType : Type 0 where
  none real virtual prof : TimerType

abbrev pub is_none : TimerType → Bool
is_none none = true
is_none _ = false

-- `timer_type == REAL || timer_type == PROF`.
abbrev pub is_real_or_prof : TimerType → Bool
is_real_or_prof real = true
is_real_or_prof prof = true
is_real_or_prof _ = false

abbrev pub is_real : TimerType → Bool
is_real real = true
is_real _ = false

-- `From<usize>`: -1 and whatever is no timer give `none`.
unfoldable pub from_usize : ℕ → TimerType
from_usize num =
    let n = as_u32 num in
    if n == 0 then real else if n == 1 then virtual else if n == 2 then prof else none

pub record TimeStat : Type 0 where
  pub utime_ns : ℕ
  pub stime_ns : ℕ
  pub user_timestamp : ℕ
  pub kernel_timestamp : ℕ
  pub timer_type : TimerType
  pub timer_interval_ns : ℕ
  pub timer_remained_ns : ℕ

unfoldable pub new : TimeStat
new = record {
  utime_ns = 0;
  stime_ns = 0;
  user_timestamp = 0;
  kernel_timestamp = 0;
  timer_type = none;
  timer_interval_ns = 0;
  timer_remained_ns = 0;
}

unfoldable pub output : TimeStat → ℕ × ℕ
output s = (s.utime_ns, s.stime_ns)

unfoldable pub reset : ℕ → TimeStat → TimeStat
reset now s = record s { utime_ns = 0; stime_ns = 0; user_timestamp = 0; kernel_timestamp = now }

unfoldable pub update_timer : ℕ → TimeStat → TimeStat
update_timer delta s =
    if s.timer_remained_ns == 0
    then s
    else if ltb delta s.timer_remained_ns
    then record s { timer_remained_ns = s.timer_remained_ns - delta }
    else s

unfoldable pub switch_into_kernel_mode : ℕ → TimeStat → TimeStat
unfolding update_timer
switch_into_kernel_mode now s =
    let delta = sub_usize now s.kernel_timestamp in
    let s' : TimeStat = record s {
      utime_ns = add_usize s.utime_ns delta;
      kernel_timestamp = now;
    } in
    if is_none s.timer_type then s' else update_timer delta s'

unfoldable pub switch_into_user_mode : ℕ → TimeStat → TimeStat
unfolding update_timer
switch_into_user_mode now s =
    let delta = sub_usize now s.kernel_timestamp in
    let s' : TimeStat = record s { stime_ns = add_usize s.stime_ns delta; user_timestamp = now } in
    if is_real_or_prof s.timer_type then update_timer delta s' else s'

unfoldable pub switch_from_old_task : ℕ → TimeStat → TimeStat
unfolding update_timer
switch_from_old_task now s =
    let delta = sub_usize now s.kernel_timestamp in
    let s' : TimeStat = record s {
      stime_ns = add_usize s.stime_ns delta;
      kernel_timestamp = now;
    } in
    if is_real_or_prof s.timer_type then update_timer delta s' else s'

unfoldable pub switch_to_new_task : ℕ → TimeStat → TimeStat
unfolding update_timer
switch_to_new_task now s =
    let delta = sub_usize now s.kernel_timestamp in
    let s' : TimeStat = record s { kernel_timestamp = now } in
    if is_real s.timer_type then update_timer delta s' else s'

-- The new state, and whether a timer is armed now.
unfoldable pub set_timer : ℕ → ℕ → ℕ → TimeStat → TimeStat × Bool
unfolding from_usize
set_timer interval remained type s =
    let t = from_usize type in
    (
      record s { timer_type = t; timer_interval_ns = interval; timer_remained_ns = remained },
      if is_none t then false else true,
    )

-- The calls that the scheduler and the trap handlers make, each with its clock value.
pub data Event : Type 0 where
  into_kernel into_user from_old to_new : ℕ → Event

abbrev pub at : Event → ℕ
at (into_kernel now) = now
at (into_user now) = now
at (from_old now) = now
at (to_new now) = now

unfoldable pub step : Event → TimeStat → TimeStat
step (into_kernel now) = switch_into_kernel_mode now
step (into_user now) = switch_into_user_mode now
step (from_old now) = switch_from_old_task now
step (to_new now) = switch_to_new_task now

unfoldable pub run : List Event → TimeStat → TimeStat
run [] s = s
run (e ∷ es) s = run es (step e s)
