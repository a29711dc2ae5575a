-- ===== src/Mount/Table.antt =====
-- The table of mounts through `sys_mount` and `sys_umount2`.
use vegar.Prelude.{
  ◌≡◌, refl, Bool, true, false, not, [], ◌∷◌, ◌++◌, arith, append-nil, filter, length-append,
  text_beq, text_beq_iff, LinuxResult, ok, err,
}
use vegar.FilePaths.Text.{Text, is_prefix}
use vegar.Mount.{MountedFs, Mounted, check_mounted, mount_at, umount_at, sys_mount, sys_umount2}

is_prefix-append : (p q : Text) → is_prefix p (p ++ q) ≡ true
unfolding is_prefix
is_prefix-append [] q = refl
is_prefix-append (x ∷ p) q = ground (arith, is_prefix-append p q)

-- A mounted directory hides every path that its text begins, also those beside it: with `/mnt`
-- mounted, `/mnt2` counts as mounted.
pub check_mounted_prefix :
    (before after : Mounted) (m : MountedFs) (q : Text)
    → check_mounted (before ++ m ∷ after) (m.mnt_dir ++ q) ≡ true
unfolding check_mounted
check_mounted_prefix [] after m q = ground (arith, is_prefix-append m.mnt_dir q)
check_mounted_prefix (b ∷ before) after m q = ground (arith, check_mounted_prefix before after m q)

is_prefix_self : (p q : Text) → p ≡ q → is_prefix p q ≡ true
unfolding is_prefix
is_prefix_self [] q e = refl
is_prefix_self (x ∷ p) [] e = cc
is_prefix_self (x ∷ p) (y ∷ q) e = ground (arith, is_prefix_self p q)

abbrev elsewhere : Text → MountedFs → Bool
elsewhere path m = not (text_beq m.mnt_dir path)

-- A path that is not mounted is no mount directory.
filter-not_mounted :
    (ms : Mounted) (path : Text) → check_mounted ms path ≡ false → filter (elsewhere path) ms ≡ ms
unfolding check_mounted
filter-not_mounted [] path h = refl
filter-not_mounted (m ∷ ms) path h =
    ground (
      arith,
      filter-not_mounted ms path,
      is_prefix_self m.mnt_dir path,
      text_beq_iff m.mnt_dir path,
    )

filter-append :
    (path : Text) (ms ns : Mounted)
    → filter (elsewhere path) (ms ++ ns) ≡ filter (elsewhere path) ms ++ filter (elsewhere path) ns
filter-append path [] ns = refl
filter-append path (m ∷ ms) ns = ground (arith, filter-append path ms ns)

module _ (exists : Text → Bool) where
  mount_at-ok :
      (ms ms' : Mounted) (fs_type device path : Text)
      → mount_at exists ms fs_type device path ≡ (ok 0, ms')
      → (exists path ≡ true)
        × (check_mounted ms path ≡ false)
        × (ms' ≡ ms ++ record { device = device; mnt_dir = path } ∷ [])
  unfolding mount_at
  mount_at-ok ms ms' fs_type device path h = ground arith

  umount_last :
      (ms : Mounted) (device path : Text)
      → exists path ≡ true
      → check_mounted ms path ≡ false
      → umount_at exists (ms ++ record { device = device; mnt_dir = path } ∷ []) path 0 ≡ (ok 0, ms)
  unfolding umount_at
  umount_last ms device path e free =
      let m : MountedFs = record { device = device; mnt_dir = path } in
      ground (
        arith,
        filter-append path ms (m ∷ []),
        filter-not_mounted ms path free,
        append-nil ms,
        (text_beq_iff path path).1 refl,
        length-append ms (m ∷ []),
      )

  -- `umount2` undoes `mount`: whenever `sys_mount` succeeds with a target that names some path,
  -- `sys_umount2` of the same target with flags 0 succeeds, and the table is what it was.
  pub umount2-mount :
      (resolve : Text → LinuxResult Text) (ms ms' : Mounted)
      (source target fs_type : LinuxResult Text)
      → sys_mount exists resolve ms source target fs_type ≡ (ok 0, ms')
      → sys_umount2 exists resolve ms' target 0 ≡ (ok 0, ms)
  unfolding sys_mount sys_umount2
  umount2-mount resolve ms ms' source (err e) fs_type h = ground arith
  umount2-mount resolve ms ms' (err e) (ok t) fs_type h = ground arith
  umount2-mount resolve ms ms' (ok s) (ok t) (err e) h = ground arith
  umount2-mount resolve ms ms' (ok s) (ok t) (ok f) h = resolved (resolve s) (resolve t) refl refl
    where
      resolved :
          (dp mp : LinuxResult Text)
          → resolve s ≡ dp
          → resolve t ≡ mp
          → sys_umount2 exists resolve ms' (ok t) 0 ≡ (ok 0, ms)
      resolved (err e) mp ed em = ground (arith, ed)
      resolved (ok dp) (err e) ed em = ground (arith, ed, em)
      resolved (ok dp) (ok mp) ed em =
          let (e, free, same) = mount_at-ok ms ms' f dp mp (ground (arith, ed, em)) in
          ground (arith, em, same, umount_last ms dp mp e free)
