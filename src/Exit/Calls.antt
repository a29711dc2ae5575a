-- ===== src/Exit/Calls.antt =====
-- `do_exit`, `sys_exit` and `sys_exit_group` of api/src/imp/task/exit.rs, and `check_signals` of
-- api/src/signal.rs. What `do_exit` does to the rest of the kernel is a list.
use vegar.Prelude.{
  ℕ, ◌+◌, ◌*◌, ◌%◌, ◌^◌, Bool, true, false, ◌&&◌, not, Option, none, some, List, [], ◌∷◌, ◌++◌,
  if◌then◌else◌,
}

pub data Effect : Type 0 where
  clears_word wakes_futex exits_process notifies_parent kills_thread exits_task : ℕ → Effect
  signals_parent : ℕ → ℕ → Effect
  yields clears_files exits_group : Effect

-- The thread that ends, and what the other parts of the kernel say of it.
pub record Exiting : Type 0 where
  pub pid : ℕ
  pub clear_child_tid : ℕ
  -- Whether the word at that address can be written, and whether the futex table has a queue for it.
  pub is_writable : Bool
  pub has_queue : Bool
  -- `thread.exit`: no other thread of the process is left.
  pub is_last : Bool
  pub parent : Option ℕ
  pub exit_signal : Option ℕ
  pub has_data : ℕ → Bool
  pub is_group_exited : Bool
  pub threads : List ℕ
  pub has_thread_data : ℕ → Bool

-- The block on `clear_child_tid`.
unfoldable pub clear_tid : Exiting → List Effect
clear_tid x =
    if x.is_writable
    then clears_word x.clear_child_tid
      ∷ (if x.has_queue then wakes_futex x.clear_child_tid ∷ yields ∷ [] else yields ∷ [])
    else []

-- The exit signal for the parent.
unfoldable pub signal_parent : Exiting → ℕ → List Effect
signal_parent x parent = elim x.exit_signal [
  | none ↦ []
  | some signo ↦ if x.has_data parent then signals_parent parent signo ∷ [] else []
]

-- The wake of the parent.
unfoldable pub wake_parent : Exiting → ℕ → List Effect
wake_parent x parent = if x.has_data parent then notifies_parent parent ∷ [] else []

unfoldable pub tell_parent : Exiting → List Effect
tell_parent x = elim x.parent [
  | none ↦ []
  | some parent ↦ signal_parent x parent ++ wake_parent x parent
]

-- The block on the last thread.
unfoldable pub exit_last : Exiting → List Effect
exit_last x =
    if x.is_last
    then exits_process x.pid ∷ (tell_parent x ++ (exits_process x.pid ∷ clears_files ∷ []))
    else []

-- `SIGKILL` to each thread that has its data.
unfoldable pub kill_threads : Exiting → List ℕ → List Effect
kill_threads x [] = []
kill_threads x (tid ∷ tids) =
    if x.has_thread_data tid then kills_thread tid ∷ kill_threads x tids else kill_threads x tids

unfoldable pub exit_group : Exiting → Bool → List Effect
exit_group x group_exit =
    if group_exit && not x.is_group_exited then exits_group ∷ kill_threads x x.threads else []

-- The code is the word of an `i32`.
unfoldable pub do_exit : ℕ → Bool → Exiting → List Effect
do_exit exit_code group_exit x =
    clear_tid x ++ (exit_last x ++ (exit_group x group_exit ++ (exits_task exit_code ∷ [])))

-- `exit_code << 8`
abbrev pub shift_code : ℕ → ℕ
shift_code exit_code = (exit_code * 2 ^ 8) % 2 ^ 32

unfoldable pub sys_exit : ℕ → Exiting → List Effect
sys_exit exit_code = do_exit (shift_code exit_code) false

unfoldable pub sys_exit_group : ℕ → Exiting → List Effect
sys_exit_group exit_code = do_exit (shift_code exit_code) true

-- `SignalOSAction`
pub data SignalOsAction : Type 0 where
  terminate core_dump stop continue handler : SignalOsAction

-- `check_signals` goes on, after it handled a signal or not, or ends the process with a code.
pub data Checked : Type 0 where
  goes_on : Bool → Checked
  exits_with : ℕ → Checked

-- The argument is what the signal manager of the thread gives.
unfoldable pub check_signals : Option (ℕ × SignalOsAction) → Checked
check_signals none = goes_on false
check_signals (some (signo, terminate)) = exits_with (128 + signo)
check_signals (some (signo, core_dump)) = exits_with (128 + signo)
check_signals (some (signo, stop)) = exits_with 1
check_signals (some (signo, continue)) = goes_on true
check_signals (some (signo, handler)) = goes_on true
