-- ===== src/FilePaths/Calls.antt =====
-- `sys_chdir`, `sys_mkdirat`, `sys_linkat`, `sys_link`, `sys_unlinkat` and `sys_unlink` of
-- api/src/imp/fs/ctl.rs, over the paths and the hard links of api/src/path.rs. What a user pointer to
-- a path gives is an argument.
use vegar.Prelude.{
  ℕ, Bool, true, false, Option, none, some, ◌==◌, if◌then◌else◌, LinuxError, LinuxResult, ok, err,
  eexist, einval, enoent, eisdir,
}
use vegar.FdTable.Calls.{Outcome, returns, panics}
use vegar.FilePaths.Text.{Text}
use vegar.FilePaths.Links.{
  FileSystem, LinkError, AxError, already_exists, invalid_input, no_such_file, to_ax_error, World,
  create_link, remove_link,
}
use vegar.FilePaths.Resolve.{Resolved, resolved, refused, panicked, at_fdcwd, handle_file_path}

-- What else the calls ask of axfs.
pub record Directories (F : FileSystem) : Type 0 where
  pub set_current_dir : F.Fs → Text → LinuxResult F.Fs
  pub create_dir : F.Fs → Text → LinuxResult F.Fs
  pub remove_dir : F.Fs → Text → LinuxResult F.Fs
  pub is_dir : F.Fs → Text → LinuxResult Bool
  pub canonicalize : F.Fs → Text → Option Text

-- `AxError` as a `LinuxError`.
abbrev pub to_linux_error : AxError → LinuxError
to_linux_error already_exists = eexist
to_linux_error invalid_input = einval
to_linux_error no_such_file = enoent

abbrev pub at_removedir : ℕ
at_removedir = 0x200

module _ (F : FileSystem) (D : Directories F)
    (file_path directory_path : ℕ → LinuxResult Text) where
  abbrev pub resolve : World F → ℕ → Text → Resolved
  resolve (m, fs) dirfd path =
      handle_file_path (D.canonicalize fs) enoent m file_path directory_path dirfd path

  -- `handle_file_path(dirfd, path)?`
  abbrev pub with_path : Resolved → World F → (Text → Outcome ℕ × World F) → Outcome ℕ × World F
  with_path (resolved p) w f = f p
  with_path (refused e) w f = (returns (err e), w)
  with_path panicked w f = (panics, w)

  -- A call of axfs that changes the file system or fails.
  abbrev pub changed : LinuxResult F.Fs → World F → Outcome ℕ × World F
  changed (ok fs') (m, fs) = (returns (ok 0), (m, fs'))
  changed (err e) w = (returns (err e), w)

  unfoldable pub sys_chdir : LinuxResult Text → World F → Outcome ℕ × World F
  sys_chdir (err e) w = (returns (err e), w)
  sys_chdir (ok path) w = changed (D.set_current_dir w.1 path) w

  unfoldable pub sys_mkdirat : ℕ → LinuxResult Text → World F → Outcome ℕ × World F
  sys_mkdirat dirfd (err e) w = (returns (err e), w)
  sys_mkdirat dirfd (ok path) w =
      with_path (resolve w dirfd path) w (λ p. changed (D.create_dir w.1 p) w)

  abbrev pub linked : Option LinkError × World F → Outcome ℕ × World F
  linked (none, w) = (returns (ok 0), w)
  linked (some e, w) = (returns (err (to_linux_error (to_ax_error e))), w)

  unfoldable pub sys_linkat :
      ℕ → LinuxResult Text → ℕ → LinuxResult Text → World F → Outcome ℕ × World F
  sys_linkat old_dirfd (err e) new_dirfd new_path w = (returns (err e), w)
  sys_linkat old_dirfd (ok old_path) new_dirfd (err e) w = (returns (err e), w)
  sys_linkat old_dirfd (ok old_path) new_dirfd (ok new_path) w =
      with_path (resolve w old_dirfd old_path) w (λ old.
        with_path (resolve w new_dirfd new_path) w (λ new. linked (create_link F w new old)))

  unfoldable pub sys_link : LinuxResult Text → LinuxResult Text → World F → Outcome ℕ × World F
  sys_link old_path new_path w = sys_linkat at_fdcwd old_path at_fdcwd new_path w

  abbrev pub unlinked : Option Text × World F → Outcome ℕ × World F
  unlinked (some p, w) = (returns (ok 0), w)
  unlinked (none, w) = (returns (err enoent), w)

  abbrev pub unlink_unless : LinuxResult Bool → Text → World F → Outcome ℕ × World F
  unlink_unless (err e) p w = (returns (err e), w)
  unlink_unless (ok true) p w = (returns (err eisdir), w)
  unlink_unless (ok false) p w = unlinked (remove_link F w p)

  unfoldable pub sys_unlinkat : ℕ → LinuxResult Text → ℕ → World F → Outcome ℕ × World F
  sys_unlinkat dirfd (err e) flags w = (returns (err e), w)
  sys_unlinkat dirfd (ok path) flags w = with_path (resolve w dirfd path) w (λ p.
      if flags == at_removedir
      then changed (D.remove_dir w.1 p) w
      else unlink_unless (D.is_dir w.1 p) p w)

  unfoldable pub sys_unlink : LinuxResult Text → World F → Outcome ℕ × World F
  sys_unlink path w = sys_unlinkat at_fdcwd path 0 w
