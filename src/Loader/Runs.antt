-- ===== src/Loader/Runs.antt =====
-- What `sys_execve` of api/src/imp/task/execve.rs leaves behind.
use mathlib.Core.Path.{subst}
use vegar.Prelude.{
  ℕ, suc, ◌≤◌, ◌≡◌, refl, sym, ap, ◌∙◌, true, false, Option, none, some, List, ◌∷◌, arith, ltb,
  if◌then◌else◌, LinuxError, LinuxResult, ok, err, enoent,
}
use vegar.Memory.AddrSpace.{AddrSpace, within}
use vegar.Pointers.Checks.{page_size_4k}
use vegar.Loader.Text.{Text}
use vegar.Loader.Elf.{Load, loaded, Parsed, Programs, Platform}
use vegar.Loader.Load.{next_of, maps, load_elf, load_user_app}
use vegar.Loader.Ends.{load_mapped, load_unread}
use vegar.Loader.Segments.{is_loaded, IsSmall, All, AreMapped}
use vegar.Loader.Mapped.{stack_pointer, load_elf_maps}
use vegar.Loader.Exec.{
  UserSpaces, map_trampoline, name_of, Exec, image, fails, start_image, or_fails, sys_execve,
}

module _ (A : AddrSpace) (P : Programs) (plat : Platform) (U : UserSpaces A) where
  -- The space that the program is loaded into.
  abbrev pub cleared : A.Space → A.Space
  cleared s = (map_trampoline A U (U.unmap_user_areas s).1).1

  -- The space can be emptied, and takes the trampoline.
  pub record Clears (s : A.Space) : Type 0 where
    pub unmaps : (U.unmap_user_areas s).0 ≡ ok tt
    pub maps_trampoline : (map_trampoline A U (U.unmap_user_areas s).1).0 ≡ ok tt

  or_fails_ok :
      (r : LinuxResult (Unit {0}) × A.Space) (f : A.Space → Exec × A.Space)
      → r.0 ≡ ok tt
      → or_fails A P plat U r f ≡ f r.1
  or_fails_ok (ok tt, s) f h = refl
  or_fails_ok (err e, s) f h = ground (arith, h)

  sys_execve-start_image :
      (fuel : ℕ) (path : Text) (args envs : List Text) (threads : ℕ) (s : A.Space)
      → threads ≤ 1
      → Clears s
      → sys_execve A P plat U fuel (ok path) (ok args) (ok envs) threads s
        ≡ start_image A P plat U path
            (load_user_app A P plat fuel args envs (cleared s))
            (cleared s)
  unfolding sys_execve
  sys_execve-start_image fuel path args envs threads s h c =
      let one : ltb 1 threads ≡ false = ground (arith, h) in
      let start : A.Space → Exec × A.Space =
        λ s2. start_image A P plat U path (load_user_app A P plat fuel args envs s2) s2 in
      rw (sys_execve, one)
        (or_fails_ok (U.unmap_user_areas s)
            (λ s1. or_fails A P plat U (map_trampoline A U s1) start) c.unmaps
          ∙ or_fails_ok (map_trampoline A U (U.unmap_user_areas s).1) start c.maps_trampoline)

  cleared-flags :
      (s : A.Space) (x : ℕ)
      → Clears s
      → within U.trampoline page_size_4k x ≡ false
      → A.flags_at (cleared s) x
        ≡ (if within U.user_space_base U.user_space_size x then none else A.flags_at s x)
  unfolding map_trampoline
  cleared-flags s x c outside = ground (
    arith,
    outside,
    U.flags_at-map_linear (U.unmap_user_areas s).1 U.trampoline U.trampoline_paddr page_size_4k _
        page_size_4k x c.maps_trampoline,
    U.flags_at-unmap_user_areas s x c.unmaps,
  )

  -- The end of an image that was loaded.
  start_loaded :
      (path : Text) (r : Load (ℕ × ℕ) × A.Space) (s : A.Space) (entry sp : ℕ)
      → r.0 ≡ loaded (entry, sp)
      → start_image A P plat U path (some r) s
        ≡ (image (record { ip = entry; sp = sp; name = name_of path; exe_path = path }), r.1)
  start_loaded path r s entry sp h =
      ap (λ (l : Load (ℕ × ℕ)). start_image A P plat U path (some (l, r.1)) s) h

  -- With one thread, an address space that can be emptied and takes the trampoline, a file for the
  -- first argument that is mapped itself, segments whose sizes stay 8 KiB below the largest word, and
  -- a loading that succeeds, `sys_execve` sets the registers to the entry point of that file and to
  -- the stack pointer, and the name and the path to those of its own argument `path`. All segments
  -- of the file are mapped.
  pub sys_execve_runs :
      (fuel : ℕ) (path program : Text) (args envs : List Text) (input : Text) (elf : P.Elf)
      (parsed : Parsed P.Auxv) (s : A.Space)
      → Clears s
      → P.read program ≡ ok input
      → next_of P input ≡ maps elf
      → P.elf_parser elf plat.user_interp_base (A.base (cleared s)) (A.base (cleared s))
        ≡ some parsed
      → All IsSmall parsed.ph_load
      → is_loaded (load_elf A P plat input elf (program ∷ args) envs (cleared s)).0 ≡ true
      → ((sys_execve A P plat U (suc fuel) (ok path) (ok (program ∷ args)) (ok envs) 1 s).0
          ≡ image (record {
            ip = parsed.entry;
            sp = stack_pointer A P plat (program ∷ args) envs parsed.auxv;
            name = name_of path;
            exe_path = path;
          }))
        × AreMapped A
            (sys_execve A P plat U (suc fuel) (ok path) (ok (program ∷ args)) (ok envs) 1 s).1
            parsed.ph_load
  sys_execve_runs fuel path program args envs input elf parsed s c there n p small h =
      let sp = stack_pointer A P plat (program ∷ args) envs parsed.auxv in
      let end = load_elf A P plat input elf (program ∷ args) envs (cleared s) in
      let (_, mapped, answer) =
        load_elf_maps A P plat input elf (program ∷ args) envs parsed (cleared s) p small h in
      let same =
        sys_execve-start_image (suc fuel) path (program ∷ args) envs 1 s (omega arith) c
        ∙ ap (λ (r : Option (Load (ℕ × ℕ) × A.Space)). start_image A P plat U path r (cleared s))
            (load_mapped A P plat fuel program args envs (cleared s) input elf there n)
        ∙ start_loaded path end (cleared s) parsed.entry sp answer in
      (
        ap (λ (r : Exec × A.Space). r.0) same,
        subst (λ (r : Exec × A.Space). AreMapped A r.1 parsed.ph_load) (sym same) mapped,
      )

  -- With one thread and an address space that can be emptied and takes the trampoline, if the file of
  -- the first argument cannot be read, `sys_execve` returns ENOENT, and outside the page of the
  -- trampoline no address of user space is mapped any more; every address that is not in user space,
  -- such as those of the kernel, is mapped as before.
  pub sys_execve_failure_unmaps :
      (fuel : ℕ) (path program : Text) (args envs : List Text) (e : LinuxError) (s : A.Space)
      (x : ℕ)
      → Clears s
      → P.read program ≡ err e
      → within U.trampoline page_size_4k x ≡ false
      → ((sys_execve A P plat U (suc fuel) (ok path) (ok (program ∷ args)) (ok envs) 1 s).0
          ≡ fails enoent)
        × (A.flags_at
              (sys_execve A P plat U (suc fuel) (ok path) (ok (program ∷ args)) (ok envs) 1 s).1
              x
            ≡ (if within U.user_space_base U.user_space_size x then none else A.flags_at s x))
  sys_execve_failure_unmaps fuel path program args envs e s x c unread outside =
      let same =
        sys_execve-start_image (suc fuel) path (program ∷ args) envs 1 s (omega arith) c
        ∙ ap (λ (r : Option (Load (ℕ × ℕ) × A.Space)). start_image A P plat U path r (cleared s))
            (load_unread A P plat fuel program args envs (cleared s) e unread) in
      (
        ap (λ (r : Exec × A.Space). r.0) same,
        ap (λ (r : Exec × A.Space). A.flags_at r.1 x) same ∙ cleared-flags s x c outside,
      )
