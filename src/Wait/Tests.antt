-- ===== src/Wait/Tests.antt =====
-- Runs of api/src/imp/task/wait.rs, and the theorems about it at concrete inputs.
use vegar.Prelude.{
  ◌-◌, ◌^◌, ◌≡◌, ◌⊎◌, ◌↔◌, refl, inl, inr, Bool, true, false, none, some, List, [], ◌∷◌, arith,
  ◌==◌, LinuxError, ok, err, echild,
}
use vegar.Wait.Select.{
  Process, is_clone_child, apply, to_wait_pid, fits_kind, filter_panics, select, IsWanted,
  apply_iff,
}
use vegar.Wait.Calls.{
  Status, returned, panicked, is_empty, find_zombie, reap, poll, wait_loop, sys_waitpid,
}
use vegar.Wait.Reap.{IsIn, NoZombie, LoopCases, sys_waitpid_cases}
use vegar.Wait.Exits.{wakes, do_exit_ends_wait}
use vegar.Exit.Calls.{Exiting, do_exit}

abbrev first : Process
first = record { pid = 12; pgid = 10; exit_signal = some 17; has_data = true }

abbrev second : Process
second = record { pid = 13; pgid = 11; exit_signal = some 17; has_data = true }

abbrev family : List Process
family = first ∷ second ∷ []

abbrev alive : Status
alive = record { is_zombie = λ p. false; exit_code = λ p. 0 }

abbrev second_exited : Status
second_exited = record { is_zombie = λ p. p == 13; exit_code = λ p. 256 }

-- The second child ends while the call sleeps.
waits_for_second :
    sys_waitpid 10 0xffffffff 0 (ok true) family alive (second_exited ∷ [])
    ≡ returned (ok 13) (some 13) (some 256)
unfolding sys_waitpid select filter_panics is_clone_child apply to_wait_pid fits_kind find_zombie
    reap poll wait_loop
waits_for_second = refl

apply_iff_example :
    (apply (to_wait_pid 10 (2 ^ 32 - 11)) second ≡ true) ↔ IsWanted 10 (2 ^ 32 - 11) second
apply_iff_example = apply_iff 10 (2 ^ 32 - 11) second (ground arith) (ground arith)

sys_waitpid_cases_example :
    let children = select 10 0xffffffff 0 family in
    let answer = sys_waitpid 10 0xffffffff 0 (ok true) family alive (second_exited ∷ []) in
    ((child : Process)
      → IsIn child children
      → IsIn child family
        × (apply (to_wait_pid 10 0xffffffff) child ≡ true)
        × (fits_kind 0 child ≡ true))
    × (((filter_panics 10 0xffffffff 0 family ≡ true) × (answer ≡ panicked))
        ⊎ ((filter_panics 10 0xffffffff 0 family ≡ false)
            × (((is_empty children ≡ true) × (answer ≡ returned (err echild) none none))
                ⊎ ((is_empty children ≡ false)
                    × (((e : LinuxError) × (ok true ≡ err e)
                          × (answer ≡ returned (err e) none none))
                        ⊎ ((has_ptr : Bool) × (ok true ≡ ok has_ptr)
                            × LoopCases 0 has_ptr children alive (second_exited ∷ []) answer))))))
sys_waitpid_cases_example =
    sys_waitpid_cases 10 0xffffffff 0 (ok true) family alive (second_exited ∷ [])

-- The second child exits by `exit(1)` in its only thread.
abbrev ending : Exiting
ending = record {
  pid = 13;
  clear_child_tid = 0;
  is_writable = false;
  has_queue = false;
  is_last = true;
  parent = some 10;
  exit_signal = some 17;
  has_data = λ p. true;
  is_group_exited = false;
  threads = 13 ∷ [];
  has_thread_data = λ t. true;
}

alive-NoZombie : (ps : List Process) → NoZombie alive ps
alive-NoZombie ps child i = refl

do_exit_ends_wait_example :
    sys_waitpid 10 0xffffffff 0
      (ok true)
      family
      alive
      (wakes ending 256 10 alive (do_exit 256 false ending))
    ≡ returned (ok 13) (some 13) (some 256)
unfolding select is_clone_child apply to_wait_pid fits_kind filter_panics
do_exit_ends_wait_example =
    do_exit_ends_wait ending 256 false 10 10 0xffffffff 0 true family second alive refl refl refl
      refl refl (inr (inl refl)) (alive-NoZombie (select 10 0xffffffff 0 family)) refl
