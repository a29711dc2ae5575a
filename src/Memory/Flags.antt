-- ===== src/Memory/Flags.antt =====
-- `MmapProt` and `MmapFlags` of api/src/imp/mm/mmap.rs.
use vegar.Prelude.{ℕ, ◌+◌, Bool, true, Option, none, some, bit_and, ◌==◌, if◌then◌else◌}
use vegar.Memory.AddrSpace.{MappingFlags}

abbrev pub prot_read : ℕ
prot_read = 1

abbrev pub prot_write : ℕ
prot_write = 2

abbrev pub prot_exec : ℕ
prot_exec = 4

abbrev pub prot_growsdown : ℕ
prot_growsdown = 0x1000000

abbrev pub prot_growsup : ℕ
prot_growsup = 0x2000000

-- All flags of `MmapProt`.
abbrev pub prot_all : ℕ
prot_all = 0x3000007

abbrev pub map_shared : ℕ
map_shared = 1

abbrev pub map_private : ℕ
map_private = 2

abbrev pub map_fixed : ℕ
map_fixed = 0x10

abbrev pub map_anonymous : ℕ
map_anonymous = 0x20

abbrev pub map_hugetlb : ℕ
map_hugetlb = 0x40000

abbrev pub map_huge_1gb : ℕ
map_huge_1gb = 0x78000000

-- All flags of `MmapFlags`, with `NORESERVE` and `STACK`.
abbrev pub map_all : ℕ
map_all = 0x78064033

-- `contains` of a `bitflags` type.
abbrev pub contains : ℕ → ℕ → Bool
contains bits flag = bit_and bits flag == flag

abbrev pub from_bits_truncate : ℕ → ℕ → ℕ
from_bits_truncate all bits = bit_and bits all

abbrev pub from_bits : ℕ → ℕ → Option ℕ
from_bits all bits = if bit_and bits all == bits then some bits else none

-- `From<MmapProt> for MappingFlags`
unfoldable pub to_mapping_flags : ℕ → MappingFlags
to_mapping_flags prot = record {
  user = true;
  read = contains prot prot_read;
  write = contains prot prot_write;
  execute = contains prot prot_exec;
}

abbrev pub size_4k : ℕ
size_4k = 0x1000

abbrev pub size_2m : ℕ
size_2m = 0x200000

abbrev pub size_1g : ℕ
size_1g = 0x40000000

unfoldable pub page_size : ℕ → ℕ
page_size map_flags =
    if contains map_flags (map_hugetlb + map_huge_1gb)
    then size_1g
    else if contains map_flags map_hugetlb
    then size_2m
    else size_4k
