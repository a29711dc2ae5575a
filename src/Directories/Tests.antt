-- ===== src/Directories/Tests.antt =====
-- Runs of api/src/imp/fs/ctl.rs, and the theorems about it at concrete inputs.
use vegar.Prelude.{ℕ, ◌≡◌, refl, none, [], ◌∷◌, ◌++◌, arith, ok, err, erange}
use vegar.Directories.Buffer.{DirEntry, reg, dir, new_buffer, remaining_space, write_entry}
use vegar.Directories.Calls.{
  OpenDir, read_loop, getdents_rest, getdents, sys_getdents64, sys_getcwd,
}
use vegar.Directories.Stream.{pending, entries, IsPacked, sys_getdents64_keeps}

abbrev dot : DirEntry
dot = record { entry_type = dir; name = 46 ∷ [] }

abbrev notes : DirEntry
notes = record { entry_type = reg; name = 110 ∷ 111 ∷ 116 ∷ 101 ∷ 115 ∷ [] }

abbrev two_entries : OpenDir
two_entries = record { last_dirent = none; to_read = ok dot ∷ ok notes ∷ [] }

-- The first call has room for one entry, and the second one gets the other.
first_call : (sys_getdents64 (ok tt) (ok tt) 40 two_entries).0 ≡ ok 24
unfolding sys_getdents64 getdents getdents_rest read_loop write_entry new_buffer remaining_space
first_call = refl

second_call :
    (sys_getdents64 (ok tt) (ok tt) 40 (sys_getdents64 (ok tt) (ok tt) 40 two_entries).1).0 ≡ ok 32
unfolding sys_getdents64 getdents getdents_rest read_loop write_entry new_buffer remaining_space
second_call = refl

no_room : (sys_getcwd 4096 1 (ok tt) (ok (47 ∷ []))).0 ≡ err erange
unfolding sys_getcwd
no_room = refl

sys_getdents64_keeps_example :
    let out = sys_getdents64 (ok tt) (ok tt) 40 two_entries in
    (entries out.2.written ++ pending out.1 ≡ dot ∷ notes ∷ [])
    × IsPacked out.2
    × ((n : ℕ) → out.0 ≡ ok n → n ≡ out.2.offset)
sys_getdents64_keeps_example =
    sys_getdents64_keeps (ok tt) (ok tt) 40 two_entries (ground arith, (ground arith, tt))
