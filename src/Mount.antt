-- ===== src/Mount.antt =====
-- api/src/imp/fs/mount.rs: the list of mounted file systems. The user strings are what
-- `get_as_str` gives, `resolve` is `handle_file_path` at `AT_FDCWD` (of a path on which it does not
-- panic), and `exists` is `FilePath::exists`.
pub mod Table
mod Tests
use vegar.Prelude.{
  ℕ, Bool, true, false, not, ◌||◌, List, [], ◌∷◌, ◌++◌, ltb, ◌==◌, if◌then◌else◌, filter, length,
  text_beq, LinuxError, LinuxResult, ok, err, eperm, ◌>>=◌,
}
use vegar.FilePaths.Text.{Text, starts_with, is_prefix}

pub record MountedFs : Type 0 where
  pub device : Text
  pub mnt_dir : Text

abbrev pub Mounted : Type 0
Mounted = List MountedFs

-- The bytes of "vfat".
abbrev pub vfat : Text
vfat = 118 ∷ 102 ∷ 97 ∷ 116 ∷ []

-- `check_mounted`
unfoldable pub check_mounted : Mounted → Text → Bool
unfolding is_prefix
check_mounted [] path = false
check_mounted (m ∷ ms) path = starts_with path m.mnt_dir || check_mounted ms path

-- `umount_fat_fs`: the list that is retained, and whether it is shorter.
unfoldable pub umount_fat_fs : Mounted → Text → Bool × Mounted
umount_fat_fs ms path =
    let kept = filter (λ m. not (text_beq m.mnt_dir path)) ms in
    (ltb (length kept) (length ms), kept)

module _ (exists : Text → Bool) where
  unfoldable pub mount_fat_fs : Mounted → Text → Text → Bool × Mounted
  mount_fat_fs ms device path =
      if exists path
      then (true, ms ++ record { device = device; mnt_dir = path } ∷ [])
      else (false, ms)

  -- The guards behind the two resolved paths.
  unfoldable pub mount_at : Mounted → Text → Text → Text → LinuxResult ℕ × Mounted
  unfolding mount_fat_fs
  mount_at ms fs_type device_path mount_path =
      if not (text_beq fs_type vfat)
      then (err eperm, ms)
      else if not (exists mount_path)
      then (err eperm, ms)
      else if check_mounted ms mount_path
      then (err eperm, ms)
      else (let (done, ms') = mount_fat_fs ms device_path mount_path in
          if not done then (err eperm, ms') else (ok 0, ms'))

  unfoldable pub umount_at : Mounted → Text → ℕ → LinuxResult ℕ × Mounted
  unfolding umount_fat_fs
  umount_at ms mount_path flags =
      if not (flags == 0)
      then (err eperm, ms)
      else if not (exists mount_path)
      then (err eperm, ms)
      else (let (done, ms') = umount_fat_fs ms mount_path in
          if not done then (err eperm, ms') else (ok 0, ms'))

  module _ (resolve : Text → LinuxResult Text) where
    -- `sys_mount`: the three strings, then the two paths, each error in that order.
    unfoldable pub sys_mount :
        Mounted → LinuxResult Text → LinuxResult Text → LinuxResult Text → LinuxResult ℕ × Mounted
    unfolding mount_at
    sys_mount ms source target fs_type =
        let read : LinuxResult (Text × Text × Text) = (do
          s ← source
          t ← target
          f ← fs_type
          dp ← resolve s
          mp ← resolve t
          ok (f, dp, mp)) in
        elim read [ err e ↦ (err e, ms) | ok (f, dp, mp) ↦ mount_at ms f dp mp ]

    unfoldable pub sys_umount2 : Mounted → LinuxResult Text → ℕ → LinuxResult ℕ × Mounted
    unfolding umount_at
    sys_umount2 ms target flags =
        let read : LinuxResult Text = (do t ← target; resolve t) in
        elim read [ err e ↦ (err e, ms) | ok mp ↦ umount_at ms mp flags ]
