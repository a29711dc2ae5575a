-- ===== src/Clocks/Calls.antt =====
-- `sys_clock_gettime`, `sys_gettimeofday` and `sys_times` of api/src/imp/time.rs, `sys_nanosleep` of
-- api/src/imp/task/schedule.rs, and `time_stat_output` of core/src/task.rs. What a user pointer gives
-- and what the clocks show are arguments; a call answers with its result and what it has written.
use vegar.Prelude.{
  ℕ, ◌/◌, ◌^◌, ◌||◌, Option, none, some, ltb, leb, ◌==◌, if◌then◌else◌, LinuxResult, ok, err,
  einval, eintr, as_u32,
}
use vegar.TimeStat.{TimeStat, output}
use vegar.Clocks.Values.{
  nanos_per_sec, TimeValue, checked_sub, Timespec, timespec_from_time_value, timespec_to_time_value,
  Timeval, timeval_from_time_value,
}

-- A result, and what was written to user memory.
abbrev pub Written : Type 0 → Type 0
Written A = LinuxResult ℕ × Option A

-- `*ptr.get_as_mut()? = value; Ok(0)`
abbrev pub store : {A : Type 0} → LinuxResult (Unit {0}) → A → ℕ → Written A
store (ok _) a r = (ok r, some a)
store (err e) a r = (err e, none)

unfoldable pub sys_clock_gettime :
    (wall_time monotonic_time : TimeValue) → ℕ → LinuxResult (Unit {0}) → Written Timespec
sys_clock_gettime wall_time monotonic_time clock_id ts =
    let clock = as_u32 clock_id in
    if clock == 0
    then store ts (timespec_from_time_value wall_time) 0
    else if clock == 1
    then store ts (timespec_from_time_value monotonic_time) 0
    else (err einval, none)

unfoldable pub sys_gettimeofday : TimeValue → LinuxResult (Unit {0}) → Written Timeval
sys_gettimeofday wall_time ts = store ts (timeval_from_time_value wall_time) 0

pub record Output : Type 0 where
  pub utime_s : ℕ
  pub utime_us : ℕ
  pub stime_s : ℕ
  pub stime_us : ℕ

unfoldable pub time_stat_output : TimeStat → Output
time_stat_output s =
    let (utime_ns, stime_ns) = output s in
    record {
      utime_s = utime_ns / nanos_per_sec;
      utime_us = utime_ns / 1000;
      stime_s = stime_ns / nanos_per_sec;
      stime_us = stime_ns / 1000;
    }

pub record Tms : Type 0 where
  pub tms_utime : ℕ
  pub tms_stime : ℕ
  pub tms_cutime : ℕ
  pub tms_cstime : ℕ

-- `ticks` is `nanos_to_ticks` of the monotonic clock.
unfoldable pub sys_times : TimeStat → ℕ → LinuxResult (Unit {0}) → Written Tms
sys_times s ticks tms =
    let o = time_stat_output s in
    store tms
      (record {
        tms_utime = o.utime_us;
        tms_stime = o.stime_us;
        tms_cutime = o.utime_us;
        tms_cstime = o.stime_us;
      })
      ticks

-- The end of a call: it panics, or returns with what it has written.
pub data Slept : Type 0 where
  panics : Slept
  returns : LinuxResult ℕ → Option Timespec → Slept

-- `rem` is `none` for a null pointer. `actual` is `after - now`.
unfoldable pub finish_sleep : TimeValue → TimeValue → Option (LinuxResult (Unit {0})) → Slept
finish_sleep dur actual rem = elim (checked_sub dur actual) [
  | none ↦ returns (ok 0) none
  | some diff ↦ elim rem [
    | none ↦ returns (err eintr) none
    | some (err e) ↦ returns (err e) none
    | some (ok _) ↦ returns (err eintr) (some (timespec_from_time_value diff))
  ]
]

-- A word is below zero as `i64` from `2 ^ 63` on. `sleep` gives the time for which the task slept.
unfoldable pub sys_nanosleep :
    (TimeValue → TimeValue) → LinuxResult Timespec → Option (LinuxResult (Unit {0})) → Slept
sys_nanosleep sleep (err e) rem = returns (err e) none
sys_nanosleep sleep (ok req) rem =
    if leb (2 ^ 63) req.tv_nsec || ltb 999_999_999 req.tv_nsec || leb (2 ^ 63) req.tv_sec
    then returns (err einval) none
    else (elim (timespec_to_time_value req) [
      | none ↦ panics
      | some dur ↦ finish_sleep dur (sleep dur) rem
    ])
