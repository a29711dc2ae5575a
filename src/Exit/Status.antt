-- ===== src/Exit/Status.antt =====
-- The codes of api/src/imp/task/exit.rs and api/src/signal.rs in the words of `wait`.
use vegar.Prelude.{ℕ, ◌+◌, ◌/◌, ◌%◌, ◌^◌, ◌≤◌, ◌≡◌, refl, some, arith}
use vegar.Exit.Calls.{shift_code, terminate, exits_with, check_signals}

-- The macros of `wait`, on the word of a status.
abbrev pub term_sig : ℕ → ℕ
term_sig status = status % 2 ^ 7

abbrev pub exit_status : ℕ → ℕ
exit_status status = status / 2 ^ 8 % 2 ^ 8

abbrev pub core_bit : ℕ → ℕ
core_bit status = status / 2 ^ 7 % 2

-- The code that `exit` and `exit_group` hand on is a status of a normal end whose code is the low 8 bits
-- of the argument, and a signal from 1 to 64 that terminates a process ends it with a status of
-- that signal, but with the bit of a core dump set.
pub exit_codes :
    (code signo : ℕ)
    → 1 ≤ signo
    → signo ≤ 64
    → let status = shift_code code in
      let killed = 128 + signo in
      (term_sig status ≡ 0)
      × (exit_status status ≡ code % 2 ^ 8)
      × (check_signals (some (signo, terminate)) ≡ exits_with killed)
      × (term_sig killed ≡ signo)
      × (core_bit killed ≡ 1)
unfolding check_signals
exit_codes code signo lo hi = (omega arith, omega arith, refl, omega arith, omega arith)
