-- ===== src/Wait/Calls.antt =====
-- `sys_waitpid` of api/src/imp/task/wait.rs. What the call sees of its children at its start and at each
-- wake from `child_exit_wq` is an argument.
use vegar.Prelude.{
  ℕ, Bool, true, false, Option, none, some, List, [], ◌∷◌, bit_and, if◌then◌else◌, LinuxResult, ok,
  err, echild,
}
use vegar.Wait.Select.{Process, wnohang, wnowait, options_all, contains, filter_panics, select}

-- The state of the processes, by pid.
pub record Status : Type 0 where
  pub is_zombie : ℕ → Bool
  pub exit_code : ℕ → ℕ

-- A call returns, after it freed a child or not and wrote an exit code or not; or it still waits; or
-- the kernel panics.
pub data Answer : Type 0 where
  returned : LinuxResult ℕ → Option ℕ → Option ℕ → Answer
  sleeping panicked : Answer

-- `children.iter().find(|child| child.is_zombie())`
unfoldable pub find_zombie : Status → List Process → Option Process
find_zombie st [] = none
find_zombie st (p ∷ ps) = if st.is_zombie p.pid then some p else find_zombie st ps

-- The first branch of the loop.
unfoldable pub reap : ℕ → Bool → Status → Process → Answer
reap options has_ptr st child =
    returned (ok child.pid) (if contains options wnowait then none else some child.pid)
      (if has_ptr then some (st.exit_code child.pid) else none)

-- One round of the loop: an answer, or the call goes to sleep.
unfoldable pub poll : ℕ → Bool → List Process → Status → Option Answer
poll options has_ptr children st = elim (find_zombie st children) [
  | some child ↦ some (reap options has_ptr st child)
  | none ↦ if contains options wnohang then some (returned (ok 0) none none) else none
]

-- The loop; the list is what it sees at the wakes.
unfoldable pub wait_loop : ℕ → Bool → List Process → Status → List Status → Answer
wait_loop options has_ptr children st [] = elim (poll options has_ptr children st) [
  | some answer ↦ answer
  | none ↦ sleeping
]
wait_loop options has_ptr children st (st' ∷ later) = elim (poll options has_ptr children st) [
  | some answer ↦ answer
  | none ↦ wait_loop options has_ptr children st' later
]

abbrev pub is_empty : List Process → Bool
is_empty [] = true
is_empty (p ∷ ps) = false

-- `exit_code_ptr` is what `nullable!` gives: whether there is a pointer, or an error.
unfoldable pub sys_waitpid :
    ℕ → ℕ → ℕ → LinuxResult Bool → List Process → Status → List Status → Answer
sys_waitpid own_pgid arg bits exit_code_ptr processes st later =
    let options = bit_and bits options_all in
    let children = select own_pgid arg options processes in
    if filter_panics own_pgid arg options processes
    then panicked
    else if is_empty children
    then returned (err echild) none none
    else elim exit_code_ptr [
      | err e ↦ returned (err e) none none
      | ok has_ptr ↦ wait_loop options has_ptr children st later
    ]
