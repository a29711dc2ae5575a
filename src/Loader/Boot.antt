-- ===== src/Loader/Boot.antt =====
-- `run_user_app` of src/entry.rs, up to the task that it spawns.
use vegar.Prelude.{ℕ, suc, Option, none, some, List, [], ◌∷◌, LinuxResult, ok, err, take, drop}
use vegar.Memory.AddrSpace.{AddrSpace}
use vegar.FilePaths.Text.{rfind}
use vegar.Tasks.Tables.{WeakMap, ProcessGroup, Thread, Tables, add_thread_to_table}
use vegar.Loader.Text.{Text}
use vegar.Loader.Elf.{Load, loaded, failed, panicked, Programs, Platform}
use vegar.Loader.Load.{load_user_app}
use vegar.Loader.Exec.{UserSpaces, new_user_aspace_empty, copy_from_kernel, map_trampoline}

-- `rsplit_once('/').unwrap_or(("", path))`
unfoldable pub split_path : Text → Text × Text
split_path path = elim (rfind 47 path) [
  | none ↦ ([], path)
  | some i ↦ (take i path, drop (suc i) path)
]

module _ (A : AddrSpace) (U : UserSpaces A) where
  -- `.and_then(...).expect(...)`: none is a panic.
  abbrev pub or_panic : LinuxResult (Unit {0}) × A.Space → Option A.Space
  or_panic (ok _, s) = some s
  or_panic (err e, s) = none

  abbrev pub and_do : Option A.Space → (A.Space → LinuxResult (Unit {0}) × A.Space) → Option A.Space
  and_do none f = none
  and_do (some s) f = or_panic (f s)

  abbrev pub expected : LinuxResult A.Space → Option A.Space
  expected (ok s) = some s
  expected (err e) = none

  unfoldable pub first_space : Option A.Space
  first_space =
      and_do (and_do (expected (new_user_aspace_empty A U)) (copy_from_kernel A U))
        (map_trampoline A U)

-- What the first task starts with.
pub record Started (W : WeakMap) (A : AddrSpace) : Type 0 where
  pub entry : ℕ
  pub ustack_top : ℕ
  pub argument : ℕ
  pub name : Text
  pub exe_path : Text
  pub space : A.Space
  pub thread : Thread
  pub tables : Tables W

pub data Boot (W : WeakMap) (A : AddrSpace) : Type 0 where
  spawned : Started W A → Boot W A
  panics : Boot W A
  runs_out : Boot W A

module _ (W : WeakMap) (A : AddrSpace) (P : Programs) (plat : Platform) (U : UserSpaces A) where
  -- The process of the new task is a child of the first one, in its group.
  abbrev pub start_task :
      Text → ℕ → ProcessGroup → Tables W → Option (Load (ℕ × ℕ) × A.Space) → Boot W A
  start_task exe_path tid group tables none = runs_out
  start_task exe_path tid group tables (some (failed e, s)) = panics
  start_task exe_path tid group tables (some (panicked, s)) = panics
  start_task exe_path tid group tables (some (loaded (entry, top), s)) =
      let thread : Thread = record { tid = tid; process = record { pid = tid; group = group } } in
      spawned (record {
        entry = entry;
        ustack_top = top;
        argument = 2333;
        name = (split_path exe_path).1;
        exe_path = exe_path;
        space = s;
        thread = thread;
        tables = add_thread_to_table W thread tables;
      })

  abbrev pub load_first :
      ℕ
      → Text
      → List Text
      → List Text
      → ℕ
      → ProcessGroup
      → Tables W
      → LinuxResult (Unit {0})
      → A.Space
      → Boot W A
  load_first fuel exe_path args envs tid group tables (err e) s = panics
  load_first fuel exe_path args envs tid group tables (ok _) s =
      start_task exe_path tid group tables (load_user_app A P plat fuel args envs s)

  -- `set_current_dir` is what the file system does; `tid` is the id of the new task, and `group` that of
  -- the first process. An empty list of arguments is an index out of bounds.
  unfoldable pub run_user_app :
      ℕ
      → (Text → LinuxResult (Unit {0}))
      → List Text
      → List Text
      → ℕ
      → ProcessGroup
      → Tables W
      → Boot W A
  run_user_app fuel set_current_dir [] envs tid group tables = panics
  run_user_app fuel set_current_dir (exe_path ∷ args) envs tid group tables =
      elim (first_space A U) [
        | none ↦ panics
        | some s ↦
            load_first fuel exe_path (exe_path ∷ args) envs tid group tables
              (set_current_dir (split_path exe_path).0) s
      ]
