-- ===== src/Clone/Flags.antt =====
-- `CloneFlags` of api/src/imp/task/clone.rs.
use vegar.Prelude.{ℕ, Bool, bit_and, ◌==◌}

abbrev pub clone_vm : ℕ
clone_vm = 0x100

abbrev pub clone_fs : ℕ
clone_fs = 0x200

abbrev pub clone_files : ℕ
clone_files = 0x400

abbrev pub clone_sighand : ℕ
clone_sighand = 0x800

abbrev pub clone_parent : ℕ
clone_parent = 0x8000

abbrev pub clone_thread : ℕ
clone_thread = 0x10000

abbrev pub clone_settls : ℕ
clone_settls = 0x80000

abbrev pub clone_parent_settid : ℕ
clone_parent_settid = 0x100000

abbrev pub clone_child_cleartid : ℕ
clone_child_cleartid = 0x200000

abbrev pub clone_child_settid : ℕ
clone_child_settid = 0x1000000

-- All flags of `CloneFlags`: every bit from 0x100 on but 0x1000 and 0x400000.
abbrev pub clone_all : ℕ
clone_all = 0xffbfef00

-- `from_bits_truncate(flags & !FLAG_MASK)`
abbrev pub clone_flags : ℕ → ℕ
clone_flags flags = bit_and flags clone_all

-- `flags & FLAG_MASK`
abbrev pub exit_signal_bits : ℕ → ℕ
exit_signal_bits flags = bit_and flags 0xff

abbrev pub contains : ℕ → ℕ → Bool
contains flags flag = bit_and flags flag == flag
