-- ===== src/Files/Agree.antt =====
-- The calls of api/src/imp/fs/stat.rs describe a file alike.
use vegar.Prelude.{
  ℕ, ◌≡◌, refl, ap, inl, inr, true, Bool-cases, Option, none, some, [], ◌∷◌, LinuxResult, ok, err,
  enoent,
}
use vegar.FdTable.Objects.{FlattenObjects}
use vegar.FdTable.Calls.{Outcome, returns, panics}
use vegar.FilePaths.Text.{Text}
use vegar.FilePaths.Resolve.{Resolved, resolved, refused, panicked}
use vegar.Files.Stats.{Kstat, to_stat, to_statx}
use vegar.Files.Objects.{Inner, Object}
use vegar.Files.Describe.{
  Opens, Described, put, at_empty_path, stat_at_path, sys_stat, stat_fd, sys_fstat, describe_fd,
  describe_resolved, describe_path, describe, sys_fstatat, sys_statx,
}

-- `Option::map`
abbrev pub mapped : {A B : Type 0} → (A → B) → Option A → Option B
mapped f none = none
mapped f (some a) = some (f a)

-- Two descriptions that come from one `Kstat` or from none, with one result and one state.
pub record Alike {State A B : Type 0} (f : Kstat → A) (g : Kstat → B) (x : Described A × State)
    (y : Described B × State) : Type 0 where
  pub kstat : Option Kstat
  pub left : x.0.1 ≡ mapped f kstat
  pub right : y.0.1 ≡ mapped g kstat
  pub results : x.0.0 ≡ y.0.0
  pub states : x.1 ≡ y.1

module _ {State A B : Type 0} (f : Kstat → A) (g : Kstat → B) where
  stops-Alike : (r : Outcome ℕ) (s : State) → Alike f g ((r, none), s) ((r, none), s)
  stops-Alike r s = record {
    kstat = none;
    left = refl;
    right = refl;
    results = refl;
    states = refl;
  }

  put-Alike :
      (buf : LinuxResult (Unit {0})) (r : LinuxResult Kstat) (s : State)
      → Alike f g (put f buf r, s) (put g buf r, s)
  put-Alike buf (err e) s = stops-Alike (returns (err e)) s
  put-Alike (err e) (ok k) s = stops-Alike (returns (err e)) s
  put-Alike (ok tt) (ok k) s = record {
    kstat = some k;
    left = refl;
    right = refl;
    results = refl;
    states = refl;
  }

module _ {State : Type 0} (I : Inner State) (F : Opens I) (O : FlattenObjects (Object I))
    (resolve : ℕ → Text → Resolved) where
  module _ {A B : Type 0} (f : Kstat → A) (g : Kstat → B) (t : O.Table) (dirfd : ℕ)
      (buf : LinuxResult (Unit {0})) (s : State) where
    describe_fd-Alike :
        (flags : ℕ)
        → Alike f g
            (describe_fd I F O resolve f t dirfd buf flags s)
            (describe_fd I F O resolve g t dirfd buf flags s)
    unfolding describe_fd
    describe_fd-Alike flags = elim (Bool-cases (at_empty_path flags)) [
      | inl set ↦ rw (describe_fd, set) (put-Alike f g buf (stat_fd I F O resolve t dirfd s) s)
      | inr clear ↦ rw (describe_fd, clear) (stops-Alike f g (returns (err enoent)) s)
    ]

    describe_resolved-Alike :
        (r : Resolved)
        → Alike f g
            (describe_resolved I F O resolve f r buf s)
            (describe_resolved I F O resolve g r buf s)
    describe_resolved-Alike (refused e) = stops-Alike f g (returns (err e)) s
    describe_resolved-Alike panicked = stops-Alike f g panics s
    describe_resolved-Alike (resolved real) =
        let (k, s') = stat_at_path I F O resolve real s in put-Alike f g buf k s'

    describe-Alike :
        (path : Option (LinuxResult Text)) (flags : ℕ)
        → Alike f g
            (describe I F O resolve f t dirfd path buf flags s)
            (describe I F O resolve g t dirfd path buf flags s)
    unfolding describe describe_path
    describe-Alike none flags = describe_fd-Alike flags
    describe-Alike (some (err e)) flags = stops-Alike f g (returns (err e)) s
    describe-Alike (some (ok [])) flags = describe_fd-Alike flags
    describe-Alike (some (ok (c ∷ path))) flags = describe_resolved-Alike (resolve dirfd (c ∷ path))

  -- `sys_statx` and `sys_fstatat` with the same arguments return the same and leave the same state,
  -- and either both write nothing or they write what they make of one and the same description.
  pub sys_statx-sys_fstatat :
      (t : O.Table) (dirfd : ℕ) (path : Option (LinuxResult Text)) (flags mask : ℕ)
      (buf : LinuxResult (Unit {0})) (s : State)
      → Alike to_stat to_statx
          (sys_fstatat I F O resolve t dirfd path buf flags s)
          (sys_statx I F O resolve t dirfd path flags mask buf s)
  unfolding sys_statx sys_fstatat
  sys_statx-sys_fstatat t dirfd path flags mask buf s =
      describe-Alike to_stat to_statx t dirfd buf s path flags

  -- `sys_fstatat` without a path and with AT_EMPTY_PATH is `sys_fstat`, and with a path that resolves
  -- to `real` it is `sys_stat` of `real`.
  pub sys_fstatat_cases :
      (t : O.Table) (dirfd flags : ℕ) (buf : LinuxResult (Unit {0})) (s : State)
      → (at_empty_path flags ≡ true
          → sys_fstatat I F O resolve t dirfd none buf flags s
            ≡ sys_fstat I F O resolve t dirfd buf s)
        × ((c : ℕ) (path real : Text)
            → resolve dirfd (c ∷ path) ≡ resolved real
            → sys_fstatat I F O resolve t dirfd (some (ok (c ∷ path))) buf flags s
              ≡ sys_stat I F O resolve (ok real) buf s)
  unfolding sys_fstatat sys_fstat sys_stat describe describe_fd describe_path
  sys_fstatat_cases t dirfd flags buf s = (
    (λ set. rw set refl),
    (λ c path real found.
        ap (λ (r : Resolved). describe_resolved I F O resolve to_stat r buf s) found),
  )
