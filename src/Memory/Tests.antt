-- ===== src/Memory/Tests.antt =====
-- Runs of api/src/imp/mm, and the theorems about it at concrete inputs.
use vegar.Prelude.{ℕ, ◌≡◌, refl, true, false, none, some, [], ◌∷◌, arith, if◌then◌else◌, ok}
use vegar.Memory.Flat.{Mappings, is_free, find, flat}
use vegar.Memory.AddrSpace.{MappingFlags, Files, within}
use vegar.Memory.Flags.{to_mapping_flags, page_size}
use vegar.Memory.Calls.{align_down, aligned_length, find_area, choose_start, map_area, sys_mmap}
use vegar.Memory.Brk.{Heap, IsBounded, brks, brks-IsBounded}
use vegar.Memory.Mapped.{sys_mmap_maps}

-- Each descriptor is open on a file of 10 bytes.
abbrev files : Files
files = record {
  File = ℕ;
  from_fd = λ fd. ok fd;
  size = λ file. ok 10;
  read_at = λ file offset length. ok [];
}

abbrev empty_space : Mappings
empty_space x = none

-- `PROT_READ | PROT_WRITE`
abbrev read_write : MappingFlags
read_write = record { user = true; read = true; write = true; execute = false }

sys_mmap_maps_example :
    ((sys_mmap flat files 0x5004 100 3 0x22 0xffffffff 0 empty_space).1 0x5063 ≡ (
      if within 0x5000 (aligned_length 0x5004 100 (page_size 0x22)) 0x5063
      then some (to_mapping_flags 3)
      else none))
    × (false ≡ false
        → within 0x5000 (aligned_length 0x5004 100 (page_size 0x22)) 0x5063 ≡ true
        → empty_space 0x5063 ≡ none)
    × (false ≡ true → (0x5000 ≡ align_down 0x5004 (page_size 0x22)) × ¬ ◌≡◌ {A = ℕ} 0x5000 0)
unfolding sys_mmap choose_start find_area find is_free aligned_length page_size map_area
sys_mmap_maps_example =
    sys_mmap_maps flat files 0x5004 100 3 0x22 0xffffffff 0 0x5000 0x5063 empty_space refl

abbrev heap : Heap
heap = record { heap_bottom = 0x40000000; heap_top = 0x40000000 }

brks-IsBounded_example :
    IsBounded 0x10000 (brks 0x10000 (0 ∷ 0x40000100 ∷ 0x50000000 ∷ []) heap)
    × ((brks 0x10000 (0 ∷ 0x40000100 ∷ 0x50000000 ∷ []) heap).heap_bottom ≡ 0x40000000)
brks-IsBounded_example =
    brks-IsBounded 0x10000 (0 ∷ 0x40000100 ∷ 0x50000000 ∷ []) heap (ground arith, ground arith)
      (ground arith)
