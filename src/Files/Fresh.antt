-- ===== src/Files/Fresh.antt =====
-- What `sys_openat` of api/src/imp/fs/fd_ops.rs does to the table of descriptors.
use vegar.Prelude.{
  ℕ, ◌≡◌, refl, inl, inr, Bool, true, false, Bool-cases, Option, none, some, Option-cases, ◌==◌,
  if◌then◌else◌, LinuxError, LinuxResult, ok, err, emfile,
}
use mathlib.Core.Logic.{◌⊎◌}
use vegar.FdTable.Objects.{FlattenObjects}
use vegar.FdTable.Calls.{returns, add_file_like}
use vegar.FilePaths.Text.{Text}
use vegar.FilePaths.Resolve.{Resolved, resolved}
use vegar.Files.Objects.{Inner, Object, file, directory}
use vegar.Files.Describe.{OpenOptions, Opens, is_eisdir}
use vegar.Files.Open.{
  Opened, add_object, base_directory, finish_directory, open_as_directory, finish_file, open_at,
  open_from, flags_to_options, sys_openat,
}

module _ {State : Type 0} (I : Inner State) (F : Opens I) (O : FlattenObjects (Object I)) where
  -- A file or a directory with the path `real`.
  abbrev pub IsNamed : Text → Object I → Type 0
  IsNamed real (file f path) = path ≡ real
  IsNamed real (directory d path) = path ≡ real
  IsNamed real _ = ⊥

  -- A fresh descriptor for an object with the path, or the table as it was.
  abbrev pub Adds : Text → O.Table → Opened I F O → Type 0
  Adds real t r =
      ((fd : ℕ) × ((f : Object I) × ((r.result ≡ returns (ok fd))
            × (IsNamed real f)
            × (O.get t fd ≡ none)
            × ((j : ℕ) → O.get r.table j ≡ (if fd == j then some f else O.get t j)))))
      ⊎ (((e : LinuxError) × (r.result ≡ returns (err e))) × (r.table ≡ t))

  add_object-Adds :
      (real : Text) (f : Object I) (t : O.Table) (s : State)
      → IsNamed real f
      → Adds real t (add_object I F O f t s)
  unfolding add_file_like
  add_object-Adds real f t s named = elim (Option-cases (O.add t f)) [
    | inl full ↦ inr ((emfile, rw (add_file_like, full) refl), rw (add_file_like, full) refl)
    | inr ((fd, t'), added) ↦
        let (_, free, after) = O.add-some t t' f fd added in
        inl
          (fd, (f, (rw (add_file_like, added) refl, named, free, rw (add_file_like, added) after)))
  ]

  finish_directory-Adds :
      (real : Text) (t : O.Table) (r : LinuxResult I.FsDirectory × State)
      → Adds real t (finish_directory I F O real t r)
  finish_directory-Adds real t (ok d, s) = add_object-Adds real (directory d real) t s refl
  finish_directory-Adds real t (err e, s) = inr ((e, refl), refl)

  finish_file-Adds :
      (dir : Option I.FsDirectory) (path real : Text) (opts : OpenOptions) (t : O.Table)
      (r : LinuxResult I.FsFile × State)
      → Adds real t (finish_file I F O dir path real opts t r)
  unfolding open_as_directory
  finish_file-Adds dir path real opts t (ok f, s) = add_object-Adds real (file f real) t s refl
  finish_file-Adds dir path real opts t (err e, s) = elim (Bool-cases (is_eisdir e)) [
    | inl dir_error ↦ rw dir_error (finish_directory-Adds real t (F.open_dir dir path opts s))
    | inr other ↦ rw other (inr ((e, refl), refl))
  ]

  if-Adds :
      (real : Text) (t : O.Table) (b : Bool) (x y : Opened I F O)
      → Adds real t x
      → Adds real t y
      → Adds real t (if b then x else y)
  if-Adds real t true x y h k = h
  if-Adds real t false x y h k = k

  open_at-Adds :
      (dir : Option I.FsDirectory) (path real : Text) (opts : OpenOptions) (t : O.Table) (s : State)
      → Adds real t (open_at I F O dir path real opts t s)
  unfolding open_at open_as_directory
  open_at-Adds dir path real opts t s =
      if-Adds real t opts.directory _ _ (finish_directory-Adds real t (F.open_dir dir path opts s))
        (finish_file-Adds dir path real opts t (F.open_file dir path opts s))

  open_from-Adds :
      (base : LinuxResult (Option I.FsDirectory)) (path real : Text) (opts : OpenOptions)
      (t : O.Table) (s : State)
      → Adds real t (open_from I F O base path (resolved real) opts t s)
  open_from-Adds (err e) path real opts t s = inr ((e, refl), refl)
  open_from-Adds (ok dir) path real opts t s = open_at-Adds dir path real opts t s

  -- With a path that resolves to `real`, `sys_openat` either returns a descriptor that was free, has
  -- put a file or a directory with the path `real` there and left all others as they were, or it fails
  -- and leaves the table as it was.
  pub sys_openat-Adds :
      (resolve : ℕ → Text → Resolved) (dirfd : ℕ) (path real : Text) (flags : ℕ) (t : O.Table)
      (s : State)
      → resolve dirfd path ≡ resolved real
      → Adds real t (sys_openat I F O resolve dirfd (ok path) flags t s)
  unfolding sys_openat
  sys_openat-Adds resolve dirfd path real flags t s found =
      rw (sys_openat, found)
        (open_from-Adds (base_directory I F O t dirfd path) path real (flags_to_options flags) t s)
