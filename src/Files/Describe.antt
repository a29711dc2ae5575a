-- ===== src/Files/Describe.antt =====
-- api/src/imp/fs/stat.rs: `sys_stat`, `sys_fstat`, `sys_lstat`, `sys_fstatat` and `sys_statx`. A call
-- answers with its result and what it has written to user memory. `*ptr.get_as_mut()? = e` works out
-- `e` before it checks the pointer.
use vegar.Prelude.{
  ℕ, ◌/◌, ◌%◌, ◌^◌, Bool, true, false, Option, none, some, [], ◌∷◌, ◌==◌, if◌then◌else◌, LinuxError,
  LinuxResult, ok, err, enoent, eisdir, ◌>>=◌,
}
use vegar.FdTable.Objects.{FlattenObjects}
use vegar.FdTable.Calls.{Outcome, returns, panics, get_file_like}
use vegar.FilePaths.Text.{Text}
use vegar.FilePaths.Resolve.{Resolved, resolved, refused, panicked}
use vegar.Files.Stats.{Kstat, Stat, Statx, to_stat, to_statx}
use vegar.Files.Objects.{Inner, Object, file, directory, file_like}

-- The options of an opening: the fields of `OpenOptions` that the kernel sets.
pub record OpenOptions : Type 0 where
  pub read : Bool
  pub write : Bool
  pub append : Bool
  pub truncate : Bool
  pub create : Bool
  pub execute : Bool
  pub directory : Bool

abbrev pub new_options : OpenOptions
new_options = record {
  read = false;
  write = false;
  append = false;
  truncate = false;
  create = false;
  execute = false;
  directory = false;
}

-- How axfs opens a path, from a directory or from the current one. `AxError::IsADirectory` is EISDIR.
pub record Opens {State : Type 0} (I : Inner State) : Type 0 where
  pub open_file : Option I.FsDirectory → Text → OpenOptions → State → LinuxResult I.FsFile × State
  pub open_dir :
      Option I.FsDirectory → Text → OpenOptions → State → LinuxResult I.FsDirectory × State

-- An outcome and what was written.
abbrev pub Described : Type 0 → Type 0
Described A = Outcome ℕ × Option A

abbrev pub is_eisdir : LinuxError → Bool
is_eisdir eisdir = true
is_eisdir _ = false

-- `*buf.get_as_mut()? = r?.into(); Ok(0)`
abbrev pub put :
    {A : Type 0} → (Kstat → A) → LinuxResult (Unit {0}) → LinuxResult Kstat → Described A
put into buf (err e) = (returns (err e), none)
put into (err e) (ok k) = (returns (err e), none)
put into (ok _) (ok k) = (returns (ok 0), some (into k))

-- `AT_EMPTY_PATH`, bit 12.
abbrev pub at_empty_path : ℕ → Bool
at_empty_path flags = flags / 2 ^ 12 % 2 == 1

abbrev pub is_empty : Text → Bool
is_empty [] = true
is_empty (c ∷ cs) = false

-- `resolve` is `handle_file_path` where the call is made, and a null pointer to a path is none.
module _ {State : Type 0} (I : Inner State) (F : Opens I) (O : FlattenObjects (Object I))
    (resolve : ℕ → Text → Resolved) where
  -- The state after an opening is that of the file system; a description does not change it.
  abbrev pub stat_opened : LinuxResult (Object I) × State → LinuxResult Kstat × State
  stat_opened (ok f, s) = ((file_like I f).stat s, s)
  stat_opened (err e, s) = (err e, s)

  abbrev pub as_object :
      {A : Type 0} → (A → Object I) → LinuxResult A × State → LinuxResult (Object I) × State
  as_object f (ok a, s) = (ok (f a), s)
  as_object f (err e, s) = (err e, s)

  abbrev pub stat_or_dir : Text → LinuxResult I.FsFile × State → LinuxResult Kstat × State
  stat_or_dir path (ok f, s) = ((file_like I (file f path)).stat s, s)
  stat_or_dir path (err e, s) =
      if is_eisdir e
      then stat_opened (
          as_object (λ d. directory d path)
            (F.open_dir none path (record new_options { read = true }) s))
      else (err e, s)

  unfoldable pub stat_at_path : Text → State → LinuxResult Kstat × State
  stat_at_path path s =
      stat_or_dir path (F.open_file none path (record new_options { read = true }) s)

  abbrev pub write_stat :
      {A : Type 0}
      → (Kstat → A)
      → LinuxResult (Unit {0})
      → LinuxResult Kstat × State
      → Described A × State
  write_stat into buf (r, s) = (put into buf r, s)

  unfoldable pub sys_stat :
      LinuxResult Text → LinuxResult (Unit {0}) → State → Described Stat × State
  sys_stat (err e) statbuf s = ((returns (err e), none), s)
  sys_stat (ok path) statbuf s = write_stat to_stat statbuf (stat_at_path path s)

  unfoldable pub sys_lstat :
      LinuxResult Text → LinuxResult (Unit {0}) → State → Described Stat × State
  sys_lstat path statbuf s = sys_stat path statbuf s

  -- `get_file_like(fd)?.stat()?`
  unfoldable pub stat_fd : O.Table → ℕ → State → LinuxResult Kstat
  stat_fd t fd s = get_file_like O t fd >>= λ f. (file_like I f).stat s

  unfoldable pub sys_fstat : O.Table → ℕ → LinuxResult (Unit {0}) → State → Described Stat × State
  sys_fstat t fd statbuf s = (put to_stat statbuf (stat_fd t fd s), s)

  -- The two ways of `sys_fstatat` and `sys_statx`, with what each makes of the description.
  unfoldable pub describe_fd :
      {A : Type 0}
      → (Kstat → A)
      → O.Table
      → ℕ
      → LinuxResult (Unit {0})
      → ℕ
      → State
      → Described A × State
  describe_fd into t dirfd buf flags s =
      if at_empty_path flags
      then (put into buf (stat_fd t dirfd s), s)
      else ((returns (err enoent), none), s)

  abbrev pub describe_resolved :
      {A : Type 0} → (Kstat → A) → Resolved → LinuxResult (Unit {0}) → State → Described A × State
  describe_resolved into (refused e) buf s = ((returns (err e), none), s)
  describe_resolved into panicked buf s = ((panics, none), s)
  describe_resolved into (resolved real) buf s = write_stat into buf (stat_at_path real s)

  unfoldable pub describe_path :
      {A : Type 0} → (Kstat → A) → ℕ → Text → LinuxResult (Unit {0}) → State → Described A × State
  describe_path into dirfd path buf s = describe_resolved into (resolve dirfd path) buf s

  unfoldable pub describe :
      {A : Type 0}
      → (Kstat → A)
      → O.Table
      → ℕ
      → Option (LinuxResult Text)
      → LinuxResult (Unit {0})
      → ℕ
      → State
      → Described A × State
  describe into t dirfd none buf flags s = describe_fd into t dirfd buf flags s
  describe into t dirfd (some (err e)) buf flags s = ((returns (err e), none), s)
  describe into t dirfd (some (ok path)) buf flags s =
      if is_empty path
      then describe_fd into t dirfd buf flags s
      else describe_path into dirfd path buf s

  unfoldable pub sys_fstatat :
      O.Table
      → ℕ
      → Option (LinuxResult Text)
      → LinuxResult (Unit {0})
      → ℕ
      → State
      → Described Stat × State
  sys_fstatat t dirfd path statbuf flags s = describe to_stat t dirfd path statbuf flags s

  unfoldable pub sys_statx :
      O.Table
      → ℕ
      → Option (LinuxResult Text)
      → (flags mask : ℕ) → LinuxResult (Unit {0})
      → State
      → Described Statx × State
  sys_statx t dirfd path flags mask statxbuf s = describe to_statx t dirfd path statxbuf flags s
