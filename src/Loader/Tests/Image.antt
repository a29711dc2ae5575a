-- ===== src/Loader/Tests/Image.antt =====
-- Runs of `sys_execve` and of `run_user_app`, and the theorems about them at concrete inputs.
use vegar.Prelude.{lookup, nat_eq, ◌≡◌, refl, none, [], ◌∷◌, arith, LinuxResult, ok, enoent}
use vegar.Memory.Flat.{flat}
use vegar.Loader.Text.{Text, get_range}
use vegar.Loader.Elf.{map_elf, map_segments, map_segment, write_segment}
use vegar.Loader.Load.{next_of, next_of_elf, load_elf, map_stack, load_user_app}
use vegar.Loader.Segments.{IsSmall, All, AreMapped}
use vegar.Loader.Mapped.{stack_pointer}
use vegar.Loader.Exec.{
  new_user_aspace_empty, copy_from_kernel, map_trampoline, name_of, image, fails, sys_execve,
}
use vegar.FilePaths.Text.{rfind}
use vegar.Tasks.Tables.{ProcessGroup, Thread, new_tables, add_thread_to_table}
use vegar.Tasks.Kept.{kept}
use vegar.Loader.Boot.{Started, Boot, spawned, split_path, first_space, run_user_app}
use vegar.Tasks.Closed.{Fits}
use vegar.Tasks.Steps.{start}
use vegar.Tasks.Found.{IsFound}
use vegar.Loader.First.{first_thread, run_user_app-IsFound}
use vegar.Loader.Runs.{Clears, sys_execve_runs, sys_execve_failure_unmaps}
use vegar.Loader.Tests.{sh, loop, binary, parsed, code, programs, plat, empty_space, spaces}

code-IsSmall : All IsSmall (code ∷ [])
code-IsSmall = (omega arith, tt)

empty-Clears : Clears flat programs plat spaces empty_space
unfolding map_trampoline
empty-Clears = record { unmaps = refl; maps_trampoline = refl }

sys_execve_runs_example :
    ((sys_execve flat programs plat spaces 1 (ok sh) (ok (sh ∷ [])) (ok []) 1 empty_space).0
      ≡ image (record {
        ip = 0x1_2004;
        sp = stack_pointer flat programs plat (sh ∷ []) [] tt;
        name = name_of sh;
        exe_path = sh;
      }))
    × AreMapped flat
        (sys_execve flat programs plat spaces 1 (ok sh) (ok (sh ∷ [])) (ok []) 1 empty_space).1
        (code ∷ [])
unfolding load_elf map_elf map_segments map_segment write_segment map_stack get_range next_of
    next_of_elf
sys_execve_runs_example =
    sys_execve_runs flat programs plat spaces 0 sh sh [] [] binary tt parsed empty_space
      empty-Clears refl refl refl code-IsSmall refl

sys_execve_failure_unmaps_example :
    ((sys_execve flat programs plat spaces 1 (ok sh) (ok (loop ∷ [])) (ok []) 1 empty_space).0
      ≡ fails enoent)
    × ((sys_execve flat programs plat spaces 1 (ok sh) (ok (loop ∷ [])) (ok []) 1 empty_space).1
          0x1000
        ≡ none)
sys_execve_failure_unmaps_example =
    sys_execve_failure_unmaps flat programs plat spaces 0 sh loop [] [] enoent empty_space 0x1000
      empty-Clears refl refl

abbrev first_group : ProcessGroup
first_group = record { pgid = 1; session = 1 }

abbrev shell_thread : Thread
shell_thread = first_thread kept flat programs plat spaces 5 first_group (new_tables kept)

abbrev any_dir : Text → LinuxResult (Unit {0})
any_dir path = ok tt

abbrev boot : Boot kept flat
boot =
    run_user_app kept flat programs plat spaces 1 any_dir (sh ∷ []) [] 5 first_group
      (new_tables kept)

-- The task that is spawned.
abbrev shell_task : Started kept flat
shell_task = record {
  entry = 0x1_2004;
  ustack_top = stack_pointer flat programs plat (sh ∷ []) [] tt;
  argument = 2333;
  name = sh;
  exe_path = sh;
  space =
      (load_elf flat programs plat binary tt (sh ∷ []) []
        (map_trampoline flat spaces empty_space).1).1;
  thread = shell_thread;
  tables = add_thread_to_table kept shell_thread (new_tables kept);
}

boots : boot ≡ spawned shell_task
unfolding run_user_app first_space new_user_aspace_empty copy_from_kernel map_trampoline split_path
    load_user_app next_of next_of_elf load_elf map_elf map_segments map_segment write_segment
    map_stack get_range rfind
boots = refl

shell_thread-Fits : Fits kept (new_tables kept) shell_thread
unfolding new_tables lookup
shell_thread-Fits = record {
  same_process = λ q e. ground (arith, e);
  same_group = λ g e. ground (arith, e);
  same_session = λ s e. ground (arith, e);
}

run_user_app-IsFound_example : IsFound kept shell_task.tables shell_thread
run_user_app-IsFound_example =
    run_user_app-IsFound kept flat programs plat spaces 5 first_group (new_tables kept) start
      shell_thread-Fits 1 any_dir (sh ∷ []) [] shell_task boots
