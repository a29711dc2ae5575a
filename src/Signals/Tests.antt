-- ===== src/Signals/Tests.antt =====
-- Runs of api/src/imp/signal.rs, and the theorems about it at concrete inputs.
use vegar.Prelude.{
  Bool-cases, inl, inr, ap, sym, ◌∙◌, ℕ, ◌-◌, ◌^◌, ◌≤◌, ◌<◌, ◌≡◌, refl, LinuxResult, efault, true,
  false, ◌&&◌, Option, none, some, [], ◌∷◌, length, arith, ltb, leb, ◌==◌, if◌then◌else◌, ok, err,
  einval, enomem,
}
use vegar.Signals.Info.{SignalInfo, check_sigset_size, parse_signo, make_siginfo}
use vegar.Signals.Send.{World, send_signal_process, get_process_group, send_signal_process_group}
use vegar.Signals.Kill.{kill_pid, sys_kill}
use vegar.Signals.Counts.{sends, targets, sys_kill-sends}
use vegar.Signals.Exchange.{
  UserData, SignalSet, put, take_over, exchange, sys_rt_sigprocmask, SignalStack, check_stack,
  sys_sigaltstack,
}
use vegar.Signals.Waits.{SignalManager, returns, report, sys_rt_sigtimedwait}
use vegar.Clocks.Values.{TimeValue, Timespec, new_duration, timespec_to_time_value}
use vegar.Signals.Alias.{masked, sys_rt_sigprocmask_apart}

-- The numbers 1 to 64 are signals.
abbrev signals : ℕ → Option ℕ
signals n = if ltb 0 n && leb n 64 then some n else none

-- Process 1 is init, and 3 is on its way out of the table.
abbrev three : World
three = record {
  processes = 1 ∷ 2 ∷ 3 ∷ [];
  is_process = λ p. ltb p 4;
  is_init = λ p. p == 1;
  has_process_data = λ p. ltb p 3;
  members = λ g. if g == 2 then some (2 ∷ 3 ∷ []) else none;
  process_of = λ t. none;
  has_thread_data = λ t. false;
}

sys_kill-sends_example :
    let sent = sends three (record { signo = 15; code = 0 }) (targets three [] (2 ^ 32 - 2)) in
    ((sys_kill signals three [] (2 ^ 32 - 2) 15).1 ≡ sent) × (1 ≡ length sent)
unfolding sys_kill make_siginfo parse_signo kill_pid send_signal_process get_process_group
    send_signal_process_group
sys_kill-sends_example =
    sys_kill-sends signals three [] (2 ^ 32 - 2) 15 15 1 (ground arith) refl refl

-- Signal 2 is blocked; a set with signal 3 is at each address.
abbrev blocked : SignalSet
blocked signo = signo == 2

abbrev passed : SignalSet
passed signo = signo == 3

abbrev memory : UserData SignalSet
memory a = some passed

sys_rt_sigprocmask_apart_example :
    let mem' : UserData SignalSet = λ a. if 64 == a then some blocked else memory a in
    (◌<◌ 0 3 → sys_rt_sigprocmask 0 32 64 8 blocked memory ≡ (ok 0, masked 0 blocked passed, mem'))
    × (◌≤◌ 3 0 → sys_rt_sigprocmask 0 32 64 8 blocked memory ≡ (err einval, blocked, mem'))
sys_rt_sigprocmask_apart_example =
    sys_rt_sigprocmask_apart 0 32 64 blocked passed passed memory (ground arith) (ground arith)
      (ground arith) refl refl

-- A stack of `MINSIGSTKSZ` bytes is refused.
abbrev small_stack : SignalStack
small_stack = record { sp = 4096; flags = 0; size = 2048 }

small_stack_refused :
    (sys_sigaltstack (λ sp size. true) 8 0 small_stack (λ a. some small_stack)).0 ≡ err enomem
unfolding sys_sigaltstack exchange put take_over check_stack
small_stack_refused = refl

abbrev interrupt : SignalInfo
interrupt = record { signo = 2; code = 0 }

abbrev first_of : SignalSet → Option TimeValue → Option SignalInfo
first_of set timeout = if set 2 then some interrupt else none

first_of-in_set :
    (set : SignalSet) (timeout : Option TimeValue) (sig : SignalInfo)
    → first_of set timeout ≡ some sig
    → set sig.signo ≡ true
first_of-in_set set timeout sig e = elim (Bool-cases (set 2)) [
  | inr out ↦ ground (arith, out, e)
  | inl in_it ↦
      let same : interrupt ≡ sig = ground (arith, in_it, e) in
      ap (λ (s : SignalInfo). set s.signo) (sym same) ∙ in_it
]

-- A signal is there before every timeout.
abbrev at_once : SignalManager
at_once = record { wait_timeout = first_of; wait_timeout-in_set = first_of-in_set }

abbrev every_signal : SignalSet
every_signal s = true

abbrev one_second : Timespec
one_second = record { tv_sec = 1; tv_nsec = 0 }

abbrev no_access : LinuxResult (Unit {0})
no_access = err efault

-- The signal is lost where its place cannot be accessed.
signal_is_lost :
    sys_rt_sigtimedwait at_once (ok every_signal) (some no_access) (some (ok one_second)) 8
    ≡ returns (err efault) (some interrupt) none
unfolding sys_rt_sigtimedwait check_sigset_size timespec_to_time_value new_duration report
signal_is_lost = refl
