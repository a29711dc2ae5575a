-- ===== src/Mount/Tests.antt =====
-- Mounts of api/src/imp/fs/mount.rs at concrete paths.
use vegar.Prelude.{◌≡◌, refl, true, [], ◌∷◌, ok, err, eperm}
use vegar.FilePaths.Text.{Text}
use vegar.Mount.{MountedFs, vfat, check_mounted, sys_mount}

-- "/m" and "/m2"
abbrev m_dir : Text
m_dir = 47 ∷ 109 ∷ []

abbrev on_m : MountedFs
on_m = record { device = 47 ∷ 100 ∷ []; mnt_dir = m_dir }

mount_twice : (sys_mount (λ p. true) ok (on_m ∷ []) (ok m_dir) (ok m_dir) (ok vfat)).0 ≡ err eperm
unfolding sys_mount check_mounted
mount_twice = refl
