-- ===== src/Loader/Tests.antt =====
-- Runs of the loader, and the theorems about it at concrete inputs.
mod Image
use vegar.Prelude.{
  ℕ, ◌≡◌, refl, ◌⊎◌, true, false, Option, none, some, List, [], ◌∷◌, ◌++◌, arith, ap, sym, ◌∙◌, inl,
  inr, if◌then◌else◌, LinuxResult, ok, err, enoent, text_beq,
}
use vegar.Memory.AddrSpace.{within}
use vegar.Memory.Flat.{Mappings, flat}
use vegar.Loader.Text.{
  Text, is_utf8, utf8_from, first_byte, position, split_whitespace, trim_start, trim_end,
  trim_ascii,
}
use vegar.Loader.Elf.{Load, Segment, Parsed, Programs, Platform}
use vegar.Loader.Load.{
  user_read_write, Next, next_of, next_of_script, next_of_elf, script_line, runs, load_user_app,
}
use vegar.Loader.Scripts.{IsLine, script_of, load_user_app-script_of}
use vegar.Loader.Ends.{Descends, load_user_app_ends, load_user_app_loops}
use vegar.Loader.Exec.{UserSpaces}
use vegar.Tasks.Steps.{start}

-- "sh"
abbrev sh : Text
sh = 115 ∷ 104 ∷ []

-- "run"
abbrev run : Text
run = 114 ∷ 117 ∷ 110 ∷ []

-- "loop"
abbrev loop : Text
loop = 108 ∷ 111 ∷ 111 ∷ 112 ∷ []

-- A script for `sh` with the option "-e".
abbrev sh_script : Text
sh_script = script_of sh (some (32, 45 ∷ 101 ∷ [])) []

-- A script for itself.
abbrev loop_script : Text
loop_script = script_of loop none []

abbrev binary : Text
binary = 127 ∷ 0 ∷ 0 ∷ 0 ∷ []

abbrev files : Text → LinuxResult Text
files path =
    if text_beq path run then ok sh_script else if text_beq path sh then ok binary else err enoent

abbrev code : Segment
code = record { vaddr = 0x1_2004; offset = 4; memsz = 0x1000; filesz = 0; flags = user_read_write }

abbrev parsed : Parsed (Unit {0})
parsed = record { ph_load = code ∷ []; entry = 0x1_2004; auxv = tt }

abbrev programs : Programs
programs = record {
  Elf = Unit {0};
  Auxv = Unit {0};
  read = files;
  canonicalize = λ path. ok path;
  elf_file = λ bytes. some tt;
  interp = λ elf. none;
  elf_parser = λ elf interp_base bias base. some parsed;
  app_stack_region = λ args envs auxv start size. 1 ∷ 0 ∷ [];
}

abbrev plat : Platform
plat = record {
  user_interp_base = 0x400_0000;
  user_stack_top = 0x8000_0000;
  user_stack_size = 0x1_0000;
  user_heap_base = 0x4000_0000;
  user_heap_size = 0x1_0000;
}

abbrev empty_space : Mappings
empty_space x = none

abbrev spaces : UserSpaces flat
spaces = record {
  new_empty = λ base size. ok empty_space;
  copy_mappings_from = λ s k. (ok tt, λ x. if within 0x1_0000_0000 0x1000 x then k x else s x);
  map_linear =
      λ s start paddr size f page. (ok tt, λ x. if within start size x then some f else s x);
  unmap_user_areas = λ s. (ok tt, λ x. if within 0x1000 0x8000_0000 x then none else s x);
  handle_page_fault = λ s vaddr access. (false, s);
  clear_mappings = λ s base size x. if within base size x then none else s x;
  kernel = empty_space;
  kernel_base = 0x1_0000_0000;
  kernel_size = 0x1000;
  own_table = true;
  user_space_base = 0x1000;
  user_space_size = 0x8000_0000;
  trampoline = 0x6000_0000;
  trampoline_paddr = 0x20_0000;
  flags_at-unmap_user_areas = λ s x e. refl;
  flags_at-map_linear = λ s start paddr size f page x e. refl;
  flags_at-copy_mappings_from = λ s x e. refl;
  flags_at-clear_mappings = λ s base size x. refl;
}

sh-IsLine : IsLine sh (some (32, 45 ∷ 101 ∷ []))
unfolding is_utf8 utf8_from first_byte
sh-IsLine = record {
  name = (refl, (refl, tt));
  arg = (refl, refl, (refl, (refl, tt)));
  short = omega arith;
  utf8 = refl;
}

load_user_app-script_of_example :
    load_user_app flat programs plat 2 (run ∷ []) [] empty_space
    ≡ load_user_app flat programs plat 1 (sh ∷ trim_ascii (45 ∷ 101 ∷ []) ∷ run ∷ []) [] empty_space
load_user_app-script_of_example =
    load_user_app-script_of programs flat plat 1 run [] [] empty_space sh (some (32, 45 ∷ 101 ∷ []))
      [] sh-IsLine refl

-- Only the script asks for an interpreter.
abbrev rank : Text → ℕ
rank path = if text_beq path run then 1 else 0

abbrev interp_named : {Elf : Type 0} → Next Elf → Option Text
interp_named (runs interp before) = some interp
interp_named _ = none

interp_of :
    (bytes interp : Text) (before : List Text)
    → next_of programs bytes ≡ runs interp before
    → interp_named (next_of programs bytes) ≡ some interp
interp_of bytes interp before n = ap interp_named n

script_interp : interp_named (next_of programs sh_script) ≡ some sh
unfolding next_of next_of_script next_of_elf script_line is_utf8 utf8_from first_byte position
    split_whitespace trim_ascii trim_start trim_end
script_interp = refl

binary_interp : interp_named (next_of programs binary) ≡ none
unfolding next_of next_of_script next_of_elf
binary_interp = refl

read_cases :
    (path bytes : Text)
    → files path ≡ ok bytes
    → ((rank path ≡ 1) × (bytes ≡ sh_script)) ⊎ (bytes ≡ binary)
read_cases path bytes there = ground (arith, there)

rank-Descends : Descends flat programs plat rank
rank-Descends path bytes interp before there n = elim (read_cases path bytes there) [
  | inl (one, script) ↦
      let named : some sh ≡ some interp =
        sym script_interp
        ∙ sym (ap (λ (b : Text). interp_named (next_of programs b)) script)
        ∙ interp_of bytes interp before n in
      let same : interp ≡ sh = ground (arith, named) in rw (same, one) (omega arith)
  | inr plain ↦ absurd (
      ground (
        arith,
        interp_of bytes interp before n,
        ap (λ (b : Text). interp_named (next_of programs b)) plain,
        binary_interp,
      ))
]

load_user_app_ends_example :
    (end : Load (ℕ × ℕ) × Mappings) × (load_user_app flat programs plat 2 (run ∷ []) [] empty_space
      ≡ some end)
load_user_app_ends_example =
    load_user_app_ends flat programs plat rank rank-Descends 2 run [] [] empty_space (omega arith)

-- Every file is the script for itself.
abbrev looping : Programs
looping = record {
  Elf = Unit {0};
  Auxv = Unit {0};
  read = λ path. ok loop_script;
  canonicalize = λ path. ok path;
  elf_file = λ bytes. none;
  interp = λ elf. none;
  elf_parser = λ elf interp_base bias base. none;
  app_stack_region = λ args envs auxv start size. [];
}

loop_script_next : next_of looping loop_script ≡ runs loop []
unfolding next_of next_of_script next_of_elf script_line is_utf8 utf8_from first_byte position
    split_whitespace trim_ascii trim_start trim_end
loop_script_next = refl

load_user_app_loops_example : load_user_app flat looping plat 1000 (loop ∷ []) [] empty_space ≡ none
load_user_app_loops_example =
    load_user_app_loops flat looping plat loop loop_script [] refl loop_script_next 1000 [] []
      empty_space

-- With a space after `#!` the path of the interpreter is empty.
spaced_script : next_of programs (35 ∷ 33 ∷ 32 ∷ sh ++ 10 ∷ []) ≡ runs [] (sh ∷ [])
unfolding next_of next_of_script next_of_elf script_line is_utf8 utf8_from first_byte position
    split_whitespace trim_ascii trim_start trim_end
spaced_script = refl
