-- ===== src/Loader/Load.antt =====
-- `load_user_app` of core/src/mm.rs.
use vegar.Prelude.{
  ℕ, zero, suc, Bool, true, false, ◌&&◌, ◌||◌, Option, none, some, List, [], ◌∷◌, ◌++◌, ◌==◌,
  if◌then◌else◌, LinuxError, LinuxResult, ok, err, einval, sub_usize, length, take, drop, text_beq,
}
use vegar.Memory.AddrSpace.{MappingFlags, AddrSpace}
use vegar.Pointers.Checks.{page_size_4k}
use vegar.Loader.Text.{Text, is_utf8, from_bytes_with_nul, position, split_whitespace, trim_ascii}
use vegar.Loader.Elf.{
  Load, loaded, failed, panicked, Parsed, Programs, Platform, then_with, and_then, map_elf,
}

-- "/lib/ld-linux-riscv64-lp64.so.1"
abbrev pub riscv64 : Text
riscv64 =
    47 ∷ 108 ∷ 105 ∷ 98 ∷ 47 ∷ 108 ∷ 100 ∷ 45 ∷ 108 ∷ 105 ∷ 110 ∷ 117 ∷ 120 ∷ 45 ∷ 114 ∷ 105 ∷ 115
    ∷ 99 ∷ 118 ∷ 54 ∷ 52 ∷ 45 ∷ 108 ∷ 112 ∷ 54 ∷ 52 ∷ 46 ∷ 115 ∷ 111 ∷ 46 ∷ 49 ∷ []

-- "/lib64/ld-linux-loongarch-lp64d.so.1"
abbrev pub loongarch64 : Text
loongarch64 =
    47 ∷ 108 ∷ 105 ∷ 98 ∷ 54 ∷ 52 ∷ 47 ∷ 108 ∷ 100 ∷ 45 ∷ 108 ∷ 105 ∷ 110 ∷ 117 ∷ 120 ∷ 45 ∷ 108
    ∷ 111 ∷ 111 ∷ 110 ∷ 103 ∷ 97 ∷ 114 ∷ 99 ∷ 104 ∷ 45 ∷ 108 ∷ 112 ∷ 54 ∷ 52 ∷ 100 ∷ 46 ∷ 115 ∷ 111
    ∷ 46 ∷ 49 ∷ []

-- "/lib64/ld-linux-x86-64.so.2"
abbrev pub x86_64 : Text
x86_64 =
    47 ∷ 108 ∷ 105 ∷ 98 ∷ 54 ∷ 52 ∷ 47 ∷ 108 ∷ 100 ∷ 45 ∷ 108 ∷ 105 ∷ 110 ∷ 117 ∷ 120 ∷ 45 ∷ 120
    ∷ 56 ∷ 54 ∷ 45 ∷ 54 ∷ 52 ∷ 46 ∷ 115 ∷ 111 ∷ 46 ∷ 50 ∷ []

-- "/lib/ld-linux-aarch64.so.1"
abbrev pub aarch64 : Text
aarch64 =
    47 ∷ 108 ∷ 105 ∷ 98 ∷ 47 ∷ 108 ∷ 100 ∷ 45 ∷ 108 ∷ 105 ∷ 110 ∷ 117 ∷ 120 ∷ 45 ∷ 97 ∷ 97 ∷ 114
    ∷ 99 ∷ 104 ∷ 54 ∷ 52 ∷ 46 ∷ 115 ∷ 111 ∷ 46 ∷ 49 ∷ []

-- "/musl/lib/libc.so"
abbrev pub libc_so : Text
libc_so =
    47 ∷ 109 ∷ 117 ∷ 115 ∷ 108 ∷ 47 ∷ 108 ∷ 105 ∷ 98 ∷ 47 ∷ 108 ∷ 105 ∷ 98 ∷ 99 ∷ 46 ∷ 115 ∷ 111
    ∷ []

abbrev pub is_dynamic_linker : Text → Bool
is_dynamic_linker p =
    text_beq p riscv64 || text_beq p loongarch64 || text_beq p x86_64 || text_beq p aarch64

-- What a file asks for: an interpreter, with the path and what else goes before the arguments, or to
-- be mapped itself.
pub data Next (Elf : Type 0) : Type 0 where
  runs : Text → List Text → Next Elf
  maps : Elf → Next Elf
  stops : LinuxError → Next Elf
  breaks : Next Elf

-- `file_data.starts_with(b"#!")`
abbrev pub is_script : Text → Bool
is_script (x ∷ y ∷ bs) = (x == 35) && (y == 33)
is_script _ = false

abbrev pub or_length : Option ℕ → Text → ℕ
or_length none t = length t
or_length (some n) t = n

-- The first line, without the two characters at its start.
unfoldable pub script_line : Text → Text
script_line bytes =
    let head = take 254 (drop 2 bytes) in take (or_length (position 10 head) head) head

abbrev pub split_line : {Elf : Type 0} → Text × Option Text → Next Elf
split_line (before, none) = runs (trim_ascii before) []
split_line (before, some after) = runs (trim_ascii before) (trim_ascii after ∷ [])

module _ (P : Programs) where
  unfoldable pub next_of_script : Text → Next P.Elf
  next_of_script bytes =
      let line = script_line bytes in
      if is_utf8 line then split_line (split_whitespace line) else stops einval

  -- The path in the header of type INTERP.
  unfoldable pub interp_path : Text → LinuxResult Text
  interp_path bytes = elim (from_bytes_with_nul bytes) [
    | none ↦ err einval
    | some path ↦ elim (is_utf8 path) [
      | false ↦ err einval
      | true ↦ elim (P.canonicalize path) [
        | err e ↦ err e
        | ok canonical ↦ ok (if is_dynamic_linker canonical then libc_so else canonical)
      ]
    ]
  ]

  unfoldable pub next_of_elf : P.Elf → Next P.Elf
  next_of_elf elf = elim (P.interp elf) [
    | none ↦ maps elf
    | some none ↦ breaks
    | some (some bytes) ↦ elim (interp_path bytes) [ err e ↦ stops e | ok path ↦ runs path [] ]
  ]

  unfoldable pub next_of : Text → Next P.Elf
  next_of bytes =
      if is_script bytes
      then next_of_script bytes
      else (elim (P.elf_file bytes) [ none ↦ stops einval | some elf ↦ next_of_elf elf ])

abbrev pub user_read_write : MappingFlags
user_read_write = record { user = true; read = true; write = true; execute = false }

module _ (A : AddrSpace) (P : Programs) (plat : Platform) where
  -- The stack, the heap and what the program finds on its stack.
  unfoldable pub map_stack :
      List Text → List Text → Parsed P.Auxv → A.Space → Load (ℕ × ℕ) × A.Space
  map_stack args envs parsed s =
      let ustack_start = sub_usize plat.user_stack_top plat.user_stack_size in
      let stack_data = P.app_stack_region args envs parsed.auxv ustack_start plat.user_stack_size in
      let user_sp = sub_usize plat.user_stack_top (length stack_data) in
      then_with A
        (A.map_alloc s ustack_start plat.user_stack_size user_read_write true page_size_4k)
        (λ s1.
          then_with A
            (A.map_alloc s1 plat.user_heap_base plat.user_heap_size user_read_write true
              page_size_4k)
            (λ s2.
              then_with A (A.write s2 user_sp page_size_4k stack_data)
                (λ s3. (loaded (parsed.entry, user_sp), s3))))

  unfoldable pub load_elf : Text → P.Elf → List Text → List Text → A.Space → Load (ℕ × ℕ) × A.Space
  load_elf bytes elf args envs s =
      and_then A (map_elf A P plat bytes elf s) (λ parsed s'. map_stack args envs parsed s')

  -- A call that does not end gives none at any fuel.
  unfoldable pub load_user_app :
      ℕ → List Text → List Text → A.Space → Option (Load (ℕ × ℕ) × A.Space)
  load_user_app zero args envs s = none
  load_user_app (suc fuel) [] envs s = some (failed einval, s)
  load_user_app (suc fuel) (path ∷ args) envs s = elim (P.read path) [
    | err e ↦ some (failed e, s)
    | ok bytes ↦ elim (next_of P bytes) [
      | runs interp before ↦ load_user_app fuel (interp ∷ before ++ path ∷ args) envs s
      | maps elf ↦ some (load_elf bytes elf (path ∷ args) envs s)
      | stops e ↦ some (failed e, s)
      | breaks ↦ some (panicked, s)
    ]
  ]
