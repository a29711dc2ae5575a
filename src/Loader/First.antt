-- ===== src/Loader/First.antt =====
-- The task that `run_user_app` of src/entry.rs spawns is in the tables of core/src/task.rs.
use mathlib.Core.Path.{subst}
use vegar.Prelude.{
  ℕ, ◌≡◌, Option, none, some, Option-cases, inl, inr, List, [], ◌∷◌, LinuxResult, ok, err,
}
use vegar.Memory.AddrSpace.{AddrSpace}
use vegar.Tasks.Tables.{WeakMap, ProcessGroup, Thread, Tables}
use vegar.Tasks.Closed.{Fits}
use vegar.Tasks.Steps.{Reach}
use vegar.Tasks.Found.{IsFound, added_IsFound}
use vegar.Loader.Text.{Text}
use vegar.Loader.Elf.{Load, loaded, failed, panicked, Programs, Platform}
use vegar.Loader.Load.{load_user_app}
use vegar.Loader.Exec.{UserSpaces}
use vegar.Loader.Boot.{
  split_path, first_space, Started, Boot, spawned, panics, runs_out, start_task, load_first,
  run_user_app,
}

module _ (W : WeakMap) (A : AddrSpace) (P : Programs) (plat : Platform) (U : UserSpaces A) (tid : ℕ)
    (group : ProcessGroup) (tables : Tables W) where
  -- The thread and the process of the first task.
  abbrev pub first_thread : Thread
  first_thread = record { tid = tid; process = record { pid = tid; group = group } }

  abbrev FoundIf : Boot W A → Type 0
  FoundIf (spawned st) = IsFound W st.tables first_thread
  FoundIf panics = Unit {0}
  FoundIf runs_out = Unit {0}

  module _ (reached : Reach W tables) (fits : Fits W tables first_thread) where
    start_task-FoundIf :
        (path : Text) (r : Option (Load (ℕ × ℕ) × A.Space))
        → FoundIf (start_task W A P plat U path tid group tables r)
    start_task-FoundIf path none = tt
    start_task-FoundIf path (some (failed e, s)) = tt
    start_task-FoundIf path (some (panicked, s)) = tt
    start_task-FoundIf path (some (loaded (entry, top), s)) =
        (added_IsFound W tables first_thread reached fits).1

    load_first-FoundIf :
        (fuel : ℕ) (path : Text) (args envs : List Text) (dir : LinuxResult (Unit {0}))
        (s : A.Space)
        → FoundIf (load_first W A P plat U fuel path args envs tid group tables dir s)
    load_first-FoundIf fuel path args envs (err e) s = tt
    load_first-FoundIf fuel path args envs (ok _) s =
        start_task-FoundIf path (load_user_app A P plat fuel args envs s)

    run_user_app-FoundIf :
        (fuel : ℕ) (set_current_dir : Text → LinuxResult (Unit {0})) (args envs : List Text)
        → FoundIf (run_user_app W A P plat U fuel set_current_dir args envs tid group tables)
    unfolding run_user_app
    run_user_app-FoundIf fuel set_current_dir [] envs = tt
    run_user_app-FoundIf fuel set_current_dir (path ∷ args) envs =
        elim (Option-cases (first_space A U)) [
          | inl e ↦ rw (run_user_app, e) tt
          | inr (s, e) ↦
              rw (run_user_app, e)
                (load_first-FoundIf fuel path (path ∷ args) envs
                  (set_current_dir (split_path path).0) s)
        ]

  -- From tables that adding threads and ending objects has led to, and with an id and a group whose
  -- numbers nothing else has, if `run_user_app` spawns its task then the calls that look tasks up find
  -- the thread, its process, the group and the session.
  pub run_user_app-IsFound :
      Reach W tables
      → Fits W tables first_thread
      → (fuel : ℕ) (set_current_dir : Text → LinuxResult (Unit {0})) (args envs : List Text)
        (st : Started W A)
      → run_user_app W A P plat U fuel set_current_dir args envs tid group tables ≡ spawned st
      → IsFound W st.tables first_thread
  run_user_app-IsFound reached fits fuel set_current_dir args envs st e =
      subst FoundIf e (run_user_app-FoundIf reached fits fuel set_current_dir args envs)
