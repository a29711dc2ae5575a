-- ===== src/Files/Open.antt =====
-- `flags_to_options`, `sys_openat` and `sys_open` of api/src/imp/fs/fd_ops.rs. The result of
-- `handle_file_path` at the call and the outcome of a user pointer are arguments.
use vegar.Prelude.{
  ℕ, ◌/◌, ◌%◌, ◌^◌, Bool, true, false, ◌||◌, Option, none, some, ◌==◌, if◌then◌else◌, LinuxError,
  LinuxResult, ok, err, as_u32,
}
use vegar.FdTable.Objects.{FlattenObjects}
use vegar.FdTable.Calls.{Outcome, returns, panics, add_file_like}
use vegar.FilePaths.Text.{Text}
use vegar.FilePaths.Resolve.{Resolved, resolved, refused, panicked, starts_with_slash, at_fdcwd}
use vegar.Files.Objects.{Inner, Object, file, directory, directory_from_fd}
use vegar.Files.Describe.{OpenOptions, Opens, is_eisdir}

-- One bit of the flags.
abbrev pub has_bit : ℕ → ℕ → Bool
has_bit flags k = flags / 2 ^ k % 2 == 1

-- The access mode in the low two bits, then O_APPEND, O_TRUNC, O_CREAT, O_PATH and O_DIRECTORY.
unfoldable pub flags_to_options : ℕ → OpenOptions
flags_to_options c_flags =
    let flags = as_u32 c_flags in
    let mode = flags % 4 in
    record {
      read = if mode == 1 then false else true;
      write = if mode == 0 then false else true;
      append = has_bit flags 10;
      truncate = has_bit flags 9;
      create = has_bit flags 6;
      execute = has_bit flags 21;
      directory = has_bit flags 16;
    }

module _ {State : Type 0} (I : Inner State) (F : Opens I) (O : FlattenObjects (Object I)) where
  -- A result, the table and the state.
  pub record Opened : Type 0 where
    pub result : Outcome ℕ
    pub table : O.Table
    pub state : State

  abbrev pub fail : LinuxError → O.Table → State → Opened
  fail e t s = record { result = returns (err e); table = t; state = s }

  -- `add_to_fd_table()?`
  abbrev pub add_object : Object I → O.Table → State → Opened
  add_object f t s =
      let (r, t') = add_file_like O t f in record { result = returns r; table = t'; state = s }

  -- The directory that the path is relative to, if it is.
  unfoldable pub base_directory : O.Table → ℕ → Text → LinuxResult (Option I.FsDirectory)
  base_directory t dirfd path =
      if starts_with_slash path || dirfd == at_fdcwd
      then ok none
      else (elim (directory_from_fd I O t dirfd) [ err e ↦ err e | ok d ↦ ok (some d) ])

  abbrev pub finish_directory : Text → O.Table → LinuxResult I.FsDirectory × State → Opened
  finish_directory real t (ok d, s) = add_object (directory d real) t s
  finish_directory real t (err e, s) = fail e t s

  -- The last statement of `sys_openat`.
  unfoldable pub open_as_directory :
      Option I.FsDirectory → Text → Text → OpenOptions → O.Table → State → Opened
  open_as_directory dir path real opts t s = finish_directory real t (F.open_dir dir path opts s)

  abbrev pub finish_file :
      Option I.FsDirectory
      → Text
      → Text
      → OpenOptions
      → O.Table
      → LinuxResult I.FsFile × State
      → Opened
  finish_file dir path real opts t (ok f, s) = add_object (file f real) t s
  finish_file dir path real opts t (err e, s) =
      if is_eisdir e then open_as_directory dir path real opts t s else fail e t s

  -- What is opened is `path`; `real` is only kept with it.
  unfoldable pub open_at :
      Option I.FsDirectory → Text → Text → OpenOptions → O.Table → State → Opened
  open_at dir path real opts t s =
      if opts.directory
      then open_as_directory dir path real opts t s
      else finish_file dir path real opts t (F.open_file dir path opts s)

  abbrev pub open_resolved :
      Option I.FsDirectory → Text → Resolved → OpenOptions → O.Table → State → Opened
  open_resolved dir path (resolved real) opts t s = open_at dir path real opts t s
  open_resolved dir path (refused e) opts t s = fail e t s
  open_resolved dir path panicked opts t s = record { result = panics; table = t; state = s }

  abbrev pub open_from :
      LinuxResult (Option I.FsDirectory) → Text → Resolved → OpenOptions → O.Table → State → Opened
  open_from (err e) path real opts t s = fail e t s
  open_from (ok dir) path real opts t s = open_resolved dir path real opts t s

  unfoldable pub sys_openat :
      (ℕ → Text → Resolved) → ℕ → LinuxResult Text → ℕ → O.Table → State → Opened
  sys_openat resolve dirfd (err e) flags t s = fail e t s
  sys_openat resolve dirfd (ok path) flags t s =
      open_from (base_directory t dirfd path) path (resolve dirfd path) (flags_to_options flags) t s

  unfoldable pub sys_open : (ℕ → Text → Resolved) → LinuxResult Text → ℕ → O.Table → State → Opened
  sys_open resolve path flags t s = sys_openat resolve at_fdcwd path flags t s
