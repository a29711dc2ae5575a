-- ===== src/FilePaths/Steps.antt =====
-- The hard links of api/src/path.rs over any sequence of the calls of api/src/imp/fs/ctl.rs.
use vegar.Prelude.{
  ℕ, ◌+◌, ◌<◌, Bool, true, false, Option, none, some, ◌==◌, if◌then◌else◌, LinuxResult, ok, err,
  length, usize_mod,
}
use vegar.FdTable.Calls.{Outcome}
use vegar.FilePaths.Text.{Text}
use vegar.FilePaths.Links.{FileSystem, LinkError, new_manager, World, create_link, remove_link}
use vegar.FilePaths.Links.Counts.{
  IsCounted, new_manager-IsCounted, create_link-IsCounted, remove_link-IsCounted,
}
use vegar.FilePaths.Resolve.{Resolved, resolved, refused, panicked}
use vegar.FilePaths.Calls.{
  Directories, resolve, with_path, changed, sys_chdir, sys_mkdirat, linked, sys_linkat, unlinked,
  unlink_unless, sys_unlinkat, at_removedir,
}

-- The calls; `sys_link` and `sys_unlink` are calls of these.
pub data FsCall : Type 0 where
  chdir : LinuxResult Text → FsCall
  mkdirat : ℕ → LinuxResult Text → FsCall
  linkat : ℕ → LinuxResult Text → ℕ → LinuxResult Text → FsCall
  unlinkat : ℕ → LinuxResult Text → ℕ → FsCall

module _ (F : FileSystem) (D : Directories F)
    (file_path directory_path : ℕ → LinuxResult Text) where
  unfoldable pub run_call : FsCall → World F → Outcome ℕ × World F
  run_call (chdir path) w = sys_chdir F D file_path directory_path path w
  run_call (mkdirat dirfd path) w = sys_mkdirat F D file_path directory_path dirfd path w
  run_call (linkat old_dirfd old new_dirfd new) w =
      sys_linkat F D file_path directory_path old_dirfd old new_dirfd new w
  run_call (unlinkat dirfd path flags) w =
      sys_unlinkat F D file_path directory_path dirfd path flags w

  -- What is reached from no links at all, with fewer than `2 ^ 64 - 1` links before each call.
  pub data Reached : World F → Type 0 where
    start : (fs : F.Fs) → Reached (new_manager, fs)
    next :
        (w : World F) (call : FsCall)
        → Reached w
        → length w.0.links + 1 < usize_mod
        → Reached (run_call call w).1

  changed-IsCounted :
      (r : LinuxResult F.Fs) (w : World F)
      → IsCounted w.0
      → IsCounted (changed F D file_path directory_path r w).1.0
  changed-IsCounted (ok fs') w h = h
  changed-IsCounted (err e) w h = h

  with_path-IsCounted :
      (r : Resolved) (w : World F) (f : Text → Outcome ℕ × World F)
      → IsCounted w.0
      → ((p : Text) → IsCounted (f p).1.0)
      → IsCounted (with_path F D file_path directory_path r w f).1.0
  with_path-IsCounted (resolved p) w f h k = k p
  with_path-IsCounted (refused e) w f h k = h
  with_path-IsCounted panicked w f h k = h

  linked-IsCounted :
      (r : Option LinkError × World F)
      → IsCounted r.1.0
      → IsCounted (linked F D file_path directory_path r).1.0
  linked-IsCounted (none, w) h = h
  linked-IsCounted (some e, w) h = h

  unlinked-IsCounted :
      (r : Option Text × World F)
      → IsCounted r.1.0
      → IsCounted (unlinked F D file_path directory_path r).1.0
  unlinked-IsCounted (none, w) h = h
  unlinked-IsCounted (some p, w) h = h

  unlink_unless-IsCounted :
      (r : LinuxResult Bool) (p : Text) (w : World F)
      → IsCounted w.0
      → IsCounted (unlink_unless F D file_path directory_path r p w).1.0
  unlink_unless-IsCounted (err e) p w h = h
  unlink_unless-IsCounted (ok true) p w h = h
  unlink_unless-IsCounted (ok false) p w h =
      unlinked-IsCounted (remove_link F w p) (remove_link-IsCounted F w.0 w.1 p h)

  run_call-IsCounted :
      (call : FsCall) (w : World F)
      → IsCounted w.0
      → length w.0.links + 1 < usize_mod
      → IsCounted (run_call call w).1.0
  unfolding run_call sys_chdir sys_mkdirat sys_linkat sys_unlinkat
  run_call-IsCounted (chdir (err e)) w h room = h
  run_call-IsCounted (chdir (ok path)) w h room = changed-IsCounted (D.set_current_dir w.1 path) w h
  run_call-IsCounted (mkdirat dirfd (err e)) w h room = h
  run_call-IsCounted (mkdirat dirfd (ok path)) w h room =
      with_path-IsCounted (resolve F D file_path directory_path w dirfd path) w _ h
        (λ p. changed-IsCounted (D.create_dir w.1 p) w h)
  run_call-IsCounted (linkat a (err e) b new) w h room = h
  run_call-IsCounted (linkat a (ok old) b (err e)) w h room = h
  run_call-IsCounted (linkat a (ok old) b (ok new)) w h room =
      with_path-IsCounted (resolve F D file_path directory_path w a old) w _ h (λ p.
        with_path-IsCounted (resolve F D file_path directory_path w b new) w _ h (λ q.
          linked-IsCounted (create_link F w q p) (create_link-IsCounted F w.0 w.1 q p h room)))
  run_call-IsCounted (unlinkat dirfd (err e) flags) w h room = h
  run_call-IsCounted (unlinkat dirfd (ok path) flags) w h room =
      with_path-IsCounted (resolve F D file_path directory_path w dirfd path) w _ h (λ p.
        elim (flags == at_removedir)
          as (λ b.
            IsCounted
              (if b
                then changed F D file_path directory_path (D.remove_dir w.1 p) w
                else unlink_unless F D file_path directory_path (D.is_dir w.1 p) p w).1.0) [
                  | true ↦ changed-IsCounted (D.remove_dir w.1 p) w h
                  | false ↦ unlink_unless-IsCounted (D.is_dir w.1 p) p w h
                ])

  -- After any sequence of calls that make and remove links and directories and change the current
  -- directory, whether they succeed or fail, the reference count of each target is the number of links
  -- to it, as long as there are fewer than `2 ^ 64 - 1` links before each call.
  pub Reached-IsCounted : (w : World F) → Reached w → IsCounted w.0
  Reached-IsCounted _ (start fs) = new_manager-IsCounted
  Reached-IsCounted _ (next w call r room) = run_call-IsCounted call w (Reached-IsCounted w r) room
