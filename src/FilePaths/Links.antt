-- ===== src/FilePaths/Links.antt =====
-- `HardlinkManager` of api/src/path.rs. The file system is what `axfs::api` gives.
pub mod Counts
pub mod Calls
use vegar.Prelude.{
  ℕ, Bool, true, false, not, Option, none, some, List, [], ◌∷◌, ◌==◌, if◌then◌else◌, text_beq,
  text_eq, lookup, insert, remove, add_usize, sub_usize,
}
use vegar.FilePaths.Text.{Text, is_dir}

-- `axfs::api::{absolute_path_exists, remove_file}`; `none` is an error of `remove_file`.
pub record FileSystem : Type 1 where
  pub Fs : Type 0
  pub exists : Fs → Text → Bool
  pub remove_file : Fs → Text → Option Fs

pub data LinkError : Type 0 where
  link_exists invalid_path not_found not_file : LinkError

pub data AxError : Type 0 where
  already_exists invalid_input no_such_file : AxError

-- `From<LinkError> for AxError`
unfoldable pub to_ax_error : LinkError → AxError
to_ax_error link_exists = already_exists
to_ax_error invalid_path = invalid_input
to_ax_error not_found = no_such_file
to_ax_error not_file = invalid_input

pub record LinkManagerInner : Type 0 where
  pub links : List (Text × Text)
  pub ref_counts : List (Text × ℕ)

unfoldable pub new_manager : LinkManagerInner
new_manager = record { links = []; ref_counts = [] }

-- `HardlinkManager::real_path`
unfoldable pub real_path : LinkManagerInner → Text → Text
real_path m path = elim (lookup path m.links) [ none ↦ path | some dst ↦ dst ]

module _ (F : FileSystem) where
  open F use {Fs, exists, remove_file}

  -- The manager beside the file system that it changes.
  abbrev pub World : Type 0
  World = LinkManagerInner × Fs

  -- `HardlinkManager::link_count`
  unfoldable pub link_count : World → Text → ℕ
  link_count (m, fs) path = elim (lookup path m.ref_counts) [
    | some n ↦ n
    | none ↦ if exists fs path then 1 else 0
  ]

  -- The count falls to `count`: at 0 the entry goes, and the file with it.
  unfoldable pub lower_count : ℕ → World → Text → Option (Unit {0}) × World
  lower_count count (m, fs) path =
      if count == 0
      then (let m' : LinkManagerInner = record m { ref_counts = remove path m.ref_counts } in
          elim (remove_file fs path) [ none ↦ (none, (m', fs)) | some fs' ↦ (some tt, (m', fs')) ])
      else (some tt, (record m { ref_counts = insert path count m.ref_counts }, fs))

  unfoldable pub decrease_ref_count : World → Text → Option (Unit {0}) × World
  unfolding lower_count
  decrease_ref_count (m, fs) path = elim (lookup path m.ref_counts) [
    | none ↦ (none, (m, fs))
    | some count ↦ lower_count (sub_usize count 1) (m, fs) path
  ]

  -- `links.insert(src, dst); *ref_counts.entry(dst).or_insert(0) += 1;`
  unfoldable pub add_link : World → Text → Text → World
  add_link (m, fs) src dst =
      let count : ℕ = elim (lookup dst m.ref_counts) [ none ↦ 0 | some n ↦ n ] in
      (
        record {
          links = insert src dst m.links;
          ref_counts = insert dst (add_usize count 1) m.ref_counts;
        },
        fs,
      )

  unfoldable pub atomic_link_update : World → Text → Text → World
  unfolding decrease_ref_count add_link
  atomic_link_update (m, fs) src dst = elim (lookup src m.links) [
    | none ↦ add_link (m, fs) src dst
    | some old_dst ↦
        if text_beq old_dst dst
        then (m, fs)
        else add_link (decrease_ref_count (m, fs) old_dst).1 src dst
  ]

  -- What is left, and the target of the removed link.
  unfoldable pub atomic_link_remove : World → Text → Option Text × World
  unfolding decrease_ref_count
  atomic_link_remove (m, fs) src = elim (lookup src m.links) [
    | none ↦ (none, (m, fs))
    | some dst ↦
        (some dst, (decrease_ref_count (record m { links = remove src m.links }, fs) dst).1)
  ]

  -- `Err(e)` is `some e`.
  unfoldable pub create_link : World → Text → Text → Option LinkError × World
  unfolding atomic_link_update
  create_link (m, fs) src dst =
      if not (exists fs dst)
      then (some not_found, (m, fs))
      else if not (is_dir dst)
      then (some not_file, (m, fs))
      else (none, atomic_link_update (m, fs) src dst)

  -- A removed link, or else the file itself.
  unfoldable pub remove_link : World → Text → Option Text × World
  unfolding atomic_link_remove
  remove_link (m, fs) src =
      let (removed, w) = atomic_link_remove (m, fs) src in
      elim removed [
        | some dst ↦ (some dst, w)
        | none ↦ elim (remove_file w.1 src) [ none ↦ (none, w) | some fs' ↦ (some src, (w.0, fs')) ]
      ]
