-- ===== src/Loader/Elf.antt =====
-- `map_elf` of core/src/mm.rs, over the address space of axmm and the parsers of ELF files. Errors of
-- type `AxError` are the `LinuxError` that they convert to: `InvalidInput` and `InvalidData` are both
-- EINVAL.
use vegar.Prelude.{
  ℕ, ◌%◌, true, Option, none, some, List, [], ◌∷◌, ◌==◌, if◌then◌else◌, LinuxError, LinuxResult, ok,
  err, einval, add_usize,
}
use vegar.Memory.AddrSpace.{MappingFlags, AddrSpace}
use vegar.Pointers.Checks.{align_down_4k, page_size_4k}
use vegar.Loader.Text.{Text, get_range}

-- The end of a call that may panic.
pub data Load (A : Type 0) : Type 0 where
  loaded : A → Load A
  failed : LinuxError → Load A
  panicked : Load A

-- What a program header of type LOAD says.
pub record Segment : Type 0 where
  pub vaddr : ℕ
  pub offset : ℕ
  pub memsz : ℕ
  pub filesz : ℕ
  pub flags : MappingFlags

-- `ELFParser`: the segments to load, the entry point and the auxiliary vector.
pub record Parsed (Auxv : Type 0) : Type 0 where
  pub ph_load : List Segment
  pub entry : ℕ
  pub auxv : Auxv

-- Files, and the crates that read them. `interp` gives the data of the header of type INTERP, if there
-- is one, and none within it if the data is not of the kind that is expected.
pub record Programs : Type 1 where
  pub Elf : Type 0
  pub Auxv : Type 0
  pub read : Text → LinuxResult Text
  pub canonicalize : Text → LinuxResult Text
  pub elf_file : Text → Option Elf
  pub interp : Elf → Option (Option Text)
  pub elf_parser : Elf → (interp_base bias base : ℕ) → Option (Parsed Auxv)
  pub app_stack_region : List Text → List Text → Auxv → (start size : ℕ) → Text

-- `axconfig::plat`
pub record Platform : Type 0 where
  pub user_interp_base : ℕ
  pub user_stack_top : ℕ
  pub user_stack_size : ℕ
  pub user_heap_base : ℕ
  pub user_heap_size : ℕ

module _ (A : AddrSpace) where
  -- `?` of a call on the address space.
  abbrev pub then_with :
      {B : Type 0}
      → LinuxResult (Unit {0}) × A.Space
      → (A.Space → Load B × A.Space)
      → Load B × A.Space
  then_with (ok _, s) f = f s
  then_with (err e, s) f = (failed e, s)

  abbrev pub finish : LinuxResult (Unit {0}) × A.Space → Load (Unit {0}) × A.Space
  finish (ok _, s) = (loaded tt, s)
  finish (err e, s) = (failed e, s)

  abbrev pub and_then :
      {B C : Type 0} → Load B × A.Space → (B → A.Space → Load C × A.Space) → Load C × A.Space
  and_then (loaded b, s) f = f b s
  and_then (failed e, s) f = (failed e, s)
  and_then (panicked, s) f = (panicked, s)

  -- The size of a segment in whole pages, from the page that it starts in.
  abbrev pub seg_align_size : Segment → ℕ
  seg_align_size seg = align_down_4k (add_usize (add_usize seg.memsz (seg.vaddr % 4096)) 4095)

  -- The bytes of a segment are copied from the file, whose bytes are `input`.
  unfoldable pub write_segment : Text → Segment → A.Space → Load (Unit {0}) × A.Space
  write_segment input seg s = elim (get_range input seg.offset (add_usize seg.offset seg.filesz)) [
    | none ↦ (failed einval, s)
    | some seg_data ↦ finish (A.write s seg.vaddr page_size_4k seg_data)
  ]

  -- One round of the loop.
  unfoldable pub map_segment : Text → Segment → A.Space → Load (Unit {0}) × A.Space
  map_segment input seg s =
      if seg.vaddr % 4096 == seg.offset % 4096
      then (then_with
          (A.map_alloc s (align_down_4k seg.vaddr) (seg_align_size seg) seg.flags true page_size_4k)
          (write_segment input seg))
      else (panicked, s)

  unfoldable pub map_segments : Text → List Segment → A.Space → Load (Unit {0}) × A.Space
  map_segments input [] s = (loaded tt, s)
  map_segments input (seg ∷ segs) s =
      and_then (map_segment input seg s) (λ _ s'. map_segments input segs s')

  -- The parser gets the base of the space as an address and as the bias of the file.
  unfoldable pub map_elf :
      (P : Programs) → Platform → Text → P.Elf → A.Space → Load (Parsed P.Auxv) × A.Space
  map_elf P plat input elf s = elim (P.elf_parser elf plat.user_interp_base (A.base s) (A.base s)) [
    | none ↦ (failed einval, s)
    | some parsed ↦ and_then (map_segments input parsed.ph_load s) (λ _ s'. (loaded parsed, s'))
  ]
