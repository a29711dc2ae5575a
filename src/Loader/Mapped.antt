-- ===== src/Loader/Mapped.antt =====
-- What a program that core/src/mm.rs has loaded finds in its address space.
use mathlib.Core.Path.{subst}
use vegar.Prelude.{ℕ, ◌≡◌, refl, sym, ap, ◌∙◌, true, some, List, sub_usize, length}
use vegar.Memory.AddrSpace.{AddrSpace}
use vegar.Pointers.Checks.{page_size_4k}
use vegar.Loader.Text.{Text}
use vegar.Loader.Elf.{Load, loaded, Parsed, Programs, Platform, and_then, map_segments, map_elf}
use vegar.Loader.Load.{user_read_write, map_stack, load_elf}
use vegar.Loader.Segments.{
  is_loaded, IsSmall, All, IsMapped, Grows, map_alloc_lem, then_with-ends_well, and_then-ends_well,
  and_then_assoc, write-Grows, AreMapped, grow_mapped, map_segments-loaded,
}

module _ (A : AddrSpace) (P : Programs) (plat : Platform) where
  abbrev pub stack_start : ℕ
  stack_start = sub_usize plat.user_stack_top plat.user_stack_size

  -- What a program finds: its stack and its heap, and what was mapped before.
  pub record Ready (s s' : A.Space) : Type 0 where
    pub grows : Grows A s s'
    pub stack : IsMapped A s' stack_start plat.user_stack_size
    pub heap : IsMapped A s' plat.user_heap_base plat.user_heap_size

  -- The stack pointer, below which the stack is free.
  abbrev pub stack_pointer : List Text → List Text → P.Auxv → ℕ
  stack_pointer args envs auxv =
      sub_usize plat.user_stack_top
        (length (P.app_stack_region args envs auxv stack_start plat.user_stack_size))

  map_stack-loaded :
      (args envs : List Text) (parsed : Parsed P.Auxv) (s : A.Space)
      → is_loaded (map_stack A P plat args envs parsed s).0 ≡ true
      → Ready s (map_stack A P plat args envs parsed s).1
        × ((map_stack A P plat args envs parsed s).0
            ≡ loaded (parsed.entry, stack_pointer args envs parsed.auxv))
  unfolding map_stack
  map_stack-loaded args envs parsed s h =
      let sp = stack_pointer args envs parsed.auxv in
      let bytes = P.app_stack_region args envs parsed.auxv stack_start plat.user_stack_size in
      let Q : Load (ℕ × ℕ) × A.Space → Type 0 =
        λ r. Ready s r.1 × (r.0 ≡ loaded (parsed.entry, sp)) in
      let stacked =
        A.map_alloc s stack_start plat.user_stack_size user_read_write true page_size_4k in
      let heaped =
        A.map_alloc stacked.1 plat.user_heap_base plat.user_heap_size user_read_write true
          page_size_4k in
      then_with-ends_well A stacked _ Q h (λ done1 h1.
        then_with-ends_well A heaped _ Q h1 (λ done2 h2.
          then_with-ends_well A (A.write heaped.1 sp page_size_4k bytes) _ Q h2 (λ done3 h3.
            let (grows1, there1) =
              map_alloc_lem A s stack_start plat.user_stack_size user_read_write page_size_4k
                done1 in
            let (grows2, there2) =
              map_alloc_lem A stacked.1 plat.user_heap_base plat.user_heap_size user_read_write
                page_size_4k done2 in
            let keeps = write-Grows A heaped.1 sp page_size_4k bytes in
            (
              record {
                grows = λ x e. keeps x (grows2 x (grows1 x e));
                stack = λ x lo hi. keeps x (grows2 x (there1 x lo hi));
                heap = λ x lo hi. keeps x (there2 x lo hi);
              },
              refl,
            ))))

  map_elf_parsed :
      (input : Text) (elf : P.Elf) (parsed : Parsed P.Auxv) (s : A.Space)
      → P.elf_parser elf plat.user_interp_base (A.base s) (A.base s) ≡ some parsed
      → map_elf A P plat input elf s
        ≡ and_then A (map_segments A input parsed.ph_load s) (λ _ s'. (loaded parsed, s'))
  unfolding map_elf
  map_elf_parsed input elf parsed s h = rw (map_elf, h) refl

  -- With segments whose sizes in memory stay 8 KiB below the largest word, a program that is loaded
  -- starts at its entry point, with the stack pointer as far below the top of the stack as its
  -- arguments take. All of its segments, its stack and its heap are mapped, and so is what was.
  pub load_elf_maps :
      (input : Text) (elf : P.Elf) (args envs : List Text) (parsed : Parsed P.Auxv) (s : A.Space)
      → P.elf_parser elf plat.user_interp_base (A.base s) (A.base s) ≡ some parsed
      → All IsSmall parsed.ph_load
      → is_loaded (load_elf A P plat input elf args envs s).0 ≡ true
      → Ready s (load_elf A P plat input elf args envs s).1
        × AreMapped A (load_elf A P plat input elf args envs s).1 parsed.ph_load
        × ((load_elf A P plat input elf args envs s).0
            ≡ loaded (parsed.entry, stack_pointer args envs parsed.auxv))
  unfolding load_elf
  load_elf_maps input elf args envs parsed s p small h =
      let segments = map_segments A input parsed.ph_load s in
      let stack : A.Space → Load (ℕ × ℕ) × A.Space = λ s'. map_stack A P plat args envs parsed s' in
      let Q : Load (ℕ × ℕ) × A.Space → Type 0 = λ r.
        Ready s r.1
        × AreMapped A r.1 parsed.ph_load
        × (r.0 ≡ loaded (parsed.entry, stack_pointer args envs parsed.auxv)) in
      let same : load_elf A P plat input elf args envs s ≡ and_then A segments (λ _ s'. stack s') =
        ap
          (λ (r : Load (Parsed P.Auxv) × A.Space).
            and_then A r (λ q s'. map_stack A P plat args envs q s'))
          (map_elf_parsed input elf parsed s p)
        ∙ and_then_assoc A segments (λ _ s'. (loaded parsed, s'))
            (λ q s'. map_stack A P plat args envs q s') in
      subst Q (sym same) (
        and_then-ends_well A segments (λ _ s'. stack s') Q
          (subst (λ (r : Load (ℕ × ℕ) × A.Space). is_loaded r.0 ≡ true) same h)
          (λ _ e h'.
            let (grows, there) = map_segments-loaded A input parsed.ph_load s small (rw e refl) in
            let (ready, answer) = map_stack-loaded args envs parsed segments.1 h' in
            (
              record {
                grows = λ x m. ready.grows x (grows x m);
                stack = ready.stack;
                heap = ready.heap;
              },
              grow_mapped A segments.1 (stack segments.1).1 parsed.ph_load ready.grows there,
              answer,
            )))
