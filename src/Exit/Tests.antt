-- ===== src/Exit/Tests.antt =====
-- Runs of api/src/imp/task/exit.rs, and the theorems about it at concrete inputs.
use vegar.Prelude.{ℕ, ◌+◌, ◌%◌, ◌^◌, ◌≡◌, refl, true, false, some, [], ◌∷◌, arith}
use vegar.Exit.Calls.{
  exits_process, notifies_parent, signals_parent, clears_files, exits_group, kills_thread,
  exits_task, Exiting, clear_tid, signal_parent, wake_parent, tell_parent, exit_last, kill_threads,
  exit_group, do_exit, shift_code, sys_exit_group, terminate, exits_with, check_signals,
}
use vegar.Exit.Status.{term_sig, exit_status, core_bit, exit_codes}
use vegar.Exit.Order.{IsOrdered, IsHidden, IsIn, do_exit_tells}

-- The last thread of process 7, a child of 3.
abbrev last_thread : Exiting
last_thread = record {
  pid = 7;
  clear_child_tid = 0;
  is_writable = false;
  has_queue = false;
  is_last = true;
  parent = some 3;
  exit_signal = some 17;
  has_data = λ p. true;
  is_group_exited = false;
  threads = 7 ∷ [];
  has_thread_data = λ t. true;
}

group_ends :
    sys_exit_group 1 last_thread
    ≡ exits_process 7
      ∷ signals_parent 3 17
      ∷ notifies_parent 3
      ∷ exits_process 7
      ∷ clears_files
      ∷ exits_group
      ∷ kills_thread 7
      ∷ exits_task 256
      ∷ []
unfolding sys_exit_group do_exit clear_tid exit_last tell_parent signal_parent wake_parent
    exit_group kill_threads
group_ends = refl

term_code :
    (term_sig (shift_code 3) ≡ 0)
    × (exit_status (shift_code 3) ≡ 3 % 2 ^ 8)
    × (check_signals (some (15, terminate)) ≡ exits_with (128 + 15))
    × (term_sig (128 + 15) ≡ 15)
    × (core_bit (128 + 15) ≡ 1)
term_code = exit_codes 3 15 (ground arith) (ground arith)

do_exit_tells_example :
    let effects = do_exit 0 false last_thread in
    IsOrdered false effects
    × (true ≡ false → IsHidden effects)
    × ((parent : ℕ)
        → true ≡ true
        → some 3 ≡ some parent
        → true ≡ true
        → IsIn (notifies_parent parent) effects)
do_exit_tells_example = do_exit_tells 0 false last_thread
