-- ===== src/Directories/Calls.antt =====
-- `sys_getdents64` and `sys_getcwd` of api/src/imp/fs/ctl.rs.
use vegar.Prelude.{
  ℕ, ◌+◌, Bool, true, false, ◌&&◌, ◌||◌, Option, none, some, List, [], ◌∷◌, ◌++◌, length, leb, ◌==◌,
  if◌then◌else◌, LinuxResult, ok, err, einval, erange, ◌>>◌,
}
use vegar.Directories.Buffer.{DirEntry, DirBuffer, new_buffer, write_entry}

-- An open directory: an entry that did not fit the last time, and what `read_dir` has still to give, an
-- entry or an error at a time.
pub record OpenDir : Type 0 where
  pub last_dirent : Option DirEntry
  pub to_read : List (LinuxResult DirEntry)

-- The loop of `read_dir`.
unfoldable pub read_loop :
    List (LinuxResult DirEntry) → DirBuffer → LinuxResult (Unit {0}) × OpenDir × DirBuffer
read_loop [] b = (ok tt, record { last_dirent = none; to_read = [] }, b)
read_loop (err e ∷ rest) b = (err e, record { last_dirent = none; to_read = rest }, b)
read_loop (ok ent ∷ rest) b =
    let (fits, b') = write_entry ent.entry_type ent.name b in
    let out = read_loop rest b' in
    if fits then out else (ok tt, record { last_dirent = some ent; to_read = rest }, b')

abbrev pub is_some : {A : Type 0} → Option A → Bool
is_some none = false
is_some (some a) = true

-- From the loop on.
unfoldable pub getdents_rest :
    List (LinuxResult DirEntry) → DirBuffer → LinuxResult ℕ × OpenDir × DirBuffer
getdents_rest to_read b =
    let (r, d, b') = read_loop to_read b in
    elim r [
      | err e ↦ (err e, d, b')
      | ok _ ↦
          if is_some d.last_dirent && (b'.offset == 0)
          then (err einval, d, b')
          else (ok b'.offset, d, b')
    ]

-- `sys_getdents64` behind its checks, on a buffer of `len` bytes.
unfoldable pub getdents : ℕ → OpenDir → LinuxResult ℕ × OpenDir × DirBuffer
getdents len d = elim d.last_dirent [
  | none ↦ getdents_rest d.to_read (new_buffer len)
  | some ent ↦
      let (fits, b) = write_entry ent.entry_type ent.name (new_buffer len) in
      if fits then getdents_rest d.to_read b else (err einval, d, b)
]

-- The checks are whether the buffer can be written and whether the descriptor is that of a directory.
unfoldable pub sys_getdents64 :
    LinuxResult (Unit {0})
    → LinuxResult (Unit {0})
    → ℕ
    → OpenDir
    → LinuxResult ℕ × OpenDir × DirBuffer
sys_getdents64 buf_check fd_check len d = elim buf_check [
  | err e ↦ (err e, d, new_buffer len)
  | ok _ ↦ elim fd_check [ err e ↦ (err e, d, new_buffer len) | ok _ ↦ getdents len d ]
]

-- `CString::new` fails on a text with a zero in it.
abbrev pub has_zero : List ℕ → Bool
has_zero [] = false
has_zero (c ∷ cs) = (c == 0) || has_zero cs

-- `sys_getcwd`, with the address of the buffer, whether it can be written, and what `current_dir`
-- gives. What is written is the last part of the answer.
unfoldable pub sys_getcwd :
    ℕ → ℕ → LinuxResult (Unit {0}) → LinuxResult (List ℕ) → LinuxResult ℕ × List ℕ
sys_getcwd buf size buf_check current_dir =
    if buf == 0 then (ok 0, []) else elim (buf_check >> current_dir) [
      | err e ↦ (err e, [])
      | ok cwd ↦
          if has_zero cwd
          then (err einval, [])
          else if leb (length cwd + 1) size
          then (ok buf, cwd ++ (0 ∷ []))
          else (err erange, [])
    ]
