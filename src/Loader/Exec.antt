-- ===== src/Loader/Exec.antt =====
-- `new_user_aspace_empty`, `copy_from_kernel`, `map_trampoline` and `access_user_memory` of
-- core/src/mm.rs, the drop of `ProcessData` in core/src/task.rs, the handler of page faults in
-- src/mm.rs, and `sys_execve` of api/src/imp/task/execve.rs.
use vegar.Prelude.{
  ℕ, suc, ◌≡◌, Bool, true, false, not, ◌&&◌, Option, none, some, List, ltb, if◌then◌else◌,
  LinuxError, LinuxResult, ok, err, eagain, enoent, drop,
}
use vegar.Memory.AddrSpace.{MappingFlags, AddrSpace, within}
use vegar.Pointers.Checks.{page_size_4k}
use vegar.FilePaths.Text.{rfind}
use vegar.Loader.Text.{Text}
use vegar.Loader.Elf.{Load, loaded, failed, panicked, Programs, Platform}
use vegar.Loader.Load.{load_user_app}

-- What else axmm does on an address space. `own_table` says that the target keeps page tables for
-- user space apart from those of the kernel.
pub record UserSpaces (A : AddrSpace) : Type 0 where
  pub new_empty : (base size : ℕ) → LinuxResult A.Space
  pub copy_mappings_from : A.Space → A.Space → LinuxResult (Unit {0}) × A.Space
  pub map_linear :
      A.Space → (start paddr size : ℕ) → MappingFlags → ℕ → LinuxResult (Unit {0}) × A.Space
  pub unmap_user_areas : A.Space → LinuxResult (Unit {0}) × A.Space
  pub handle_page_fault : A.Space → ℕ → MappingFlags → Bool × A.Space
  pub clear_mappings : A.Space → (base size : ℕ) → A.Space
  pub kernel : A.Space
  pub kernel_base : ℕ
  pub kernel_size : ℕ
  pub own_table : Bool
  pub user_space_base : ℕ
  pub user_space_size : ℕ
  pub trampoline : ℕ
  pub trampoline_paddr : ℕ
  -- It unmaps the areas of the space, which lie in user space; what was copied from the kernel is no
  -- area.
  pub flags_at-unmap_user_areas :
      (s : A.Space) (x : ℕ)
      → (unmap_user_areas s).0 ≡ ok tt
      → A.flags_at (unmap_user_areas s).1 x
        ≡ (if within user_space_base user_space_size x then none else A.flags_at s x)
  pub flags_at-map_linear :
      (s : A.Space) (start paddr size : ℕ) (f : MappingFlags) (page x : ℕ)
      → (map_linear s start paddr size f page).0 ≡ ok tt
      → A.flags_at (map_linear s start paddr size f page).1 x
        ≡ (if within start size x then some f else A.flags_at s x)
  pub flags_at-copy_mappings_from :
      (s : A.Space) (x : ℕ)
      → (copy_mappings_from s kernel).0 ≡ ok tt
      → A.flags_at (copy_mappings_from s kernel).1 x
        ≡ (if within kernel_base kernel_size x then A.flags_at kernel x else A.flags_at s x)
  pub flags_at-clear_mappings :
      (s : A.Space) (base size x : ℕ)
      → A.flags_at (clear_mappings s base size) x
        ≡ (if within base size x then none else A.flags_at s x)

abbrev pub user_read_execute : MappingFlags
user_read_execute = record { user = true; read = true; write = false; execute = true }

module _ (A : AddrSpace) (U : UserSpaces A) where
  unfoldable pub new_user_aspace_empty : LinuxResult A.Space
  new_user_aspace_empty = U.new_empty U.user_space_base U.user_space_size

  unfoldable pub copy_from_kernel : A.Space → LinuxResult (Unit {0}) × A.Space
  copy_from_kernel s = if U.own_table then (ok tt, s) else U.copy_mappings_from s U.kernel

  -- The address space as the drop of a `ProcessData` leaves it.
  unfoldable pub drop_process_data : A.Space → A.Space
  drop_process_data s = if U.own_table then s else U.clear_mappings s U.kernel_base U.kernel_size

  unfoldable pub map_trampoline : A.Space → LinuxResult (Unit {0}) × A.Space
  map_trampoline s =
      U.map_linear s U.trampoline U.trampoline_paddr page_size_4k user_read_execute page_size_4k

-- The flag of the processor while `f` runs, and after it. `f` gets the flag that it sees.
unfoldable pub access_user_memory : {R : Type 0} → (Bool → R) → R × Bool
access_user_memory f = let result = f true in (result, false)

-- What the handler of a page fault does: it leaves the fault to the kernel, mends it, or ends the
-- process with SIGSEGV.
pub data Fault : Type 0 where
  not_handled : Fault
  handled : Fault
  exits : Fault

module _ (A : AddrSpace) (U : UserSpaces A) where
  unfoldable pub handle_page_fault :
      (accessing : Bool) → ℕ → MappingFlags → (is_user : Bool) → A.Space → Fault × A.Space
  handle_page_fault accessing vaddr access is_user s =
      let (mended, s') = U.handle_page_fault s vaddr access in
      if not is_user && not accessing
      then (not_handled, s)
      else if mended
      then (handled, s')
      else (exits, s')

-- `path.rsplit_once('/')`: what comes after the last slash, or all of it.
unfoldable pub name_of : Text → Text
name_of path = elim (rfind 47 path) [ none ↦ path | some i ↦ drop (suc i) path ]

-- What a task gets by `sys_execve`: its registers, its name and the path of its program.
pub record Image : Type 0 where
  pub ip : ℕ
  pub sp : ℕ
  pub name : Text
  pub exe_path : Text

-- The end of a call: it may panic, or need more nested calls of `load_user_app`.
pub data Exec : Type 0 where
  image : Image → Exec
  fails : LinuxError → Exec
  panics : Exec
  runs_out : Exec

module _ (A : AddrSpace) (P : Programs) (plat : Platform) (U : UserSpaces A) where
  abbrev pub start_image : Text → Option (Load (ℕ × ℕ) × A.Space) → A.Space → Exec × A.Space
  start_image path none s = (runs_out, s)
  start_image path (some (loaded (entry, sp), s')) s =
      (image (record { ip = entry; sp = sp; name = name_of path; exe_path = path }), s')
  start_image path (some (failed e, s')) s = (fails enoent, s')
  start_image path (some (panicked, s')) s = (panics, s')

  abbrev pub or_fails :
      LinuxResult (Unit {0}) × A.Space → (A.Space → Exec × A.Space) → Exec × A.Space
  or_fails (ok _, s) f = f s
  or_fails (err e, s) f = (fails e, s)

  abbrev pub after : {B : Type 0} → LinuxResult B → A.Space → (B → Exec × A.Space) → Exec × A.Space
  after (ok b) s f = f b
  after (err e) s f = (fails e, s)

  -- `path`, `args` and `envs` are what the user pointers give; `threads` counts those of the process.
  unfoldable pub sys_execve :
      (fuel : ℕ)
      → LinuxResult Text
      → LinuxResult (List Text)
      → LinuxResult (List Text)
      → ℕ
      → A.Space
      → Exec × A.Space
  sys_execve fuel path_ptr argv envp threads s = after path_ptr s (λ path. after argv s (λ args.
      after envp s (λ envs.
        if ltb 1 threads
        then (fails eagain, s)
        else or_fails (U.unmap_user_areas s) (λ s1.
          or_fails (map_trampoline A U s1)
            (λ s2. start_image path (load_user_app A P plat fuel args envs s2) s2)))))
