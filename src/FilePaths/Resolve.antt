-- ===== src/FilePaths/Resolve.antt =====
-- `FilePath::new`, `join`, `components` and `handle_file_path` of api/src/path.rs. What `axfs`
-- answers, and the paths behind file descriptors, are arguments.
use vegar.Prelude.{
  text_eq, ℕ, ◌-◌, ◌^◌, ◌≡◌, ◌≢◌, ◌⊎◌, refl, sym, ap, ◌∙◌, inl, inr, Bool, true, false, ◌&&◌, ◌||◌,
  Option, none, some, List, [], ◌∷◌, ◌++◌, arith, leb, ◌==◌, if◌then◌else◌, Bool-cases,
  Option-cases, text_beq, text_beq_iff, LinuxError, LinuxResult, ok, err, lookup,
}
use mathlib.Core.List.{reverse}
use vegar.FilePaths.Text.{Text, slash, ends_with_char, is_dir}
use vegar.FilePaths.Links.{LinkManagerInner, real_path}

-- `char::is_whitespace`: the Unicode property `White_Space`.
unfoldable pub is_whitespace : ℕ → Bool
is_whitespace c =
    (leb 9 c && leb c 13)
    || c == 32
    || c == 0x85
    || c == 0xa0
    || c == 0x1680
    || (leb 0x2000 c && leb c 0x200a)
    || c == 0x2028
    || c == 0x2029
    || c == 0x202f
    || c == 0x205f
    || c == 0x3000

-- The text without the code points at its start that pass a test.
unfoldable pub trim_start_matches : (ℕ → Bool) → Text → Text
trim_start_matches p [] = []
trim_start_matches p (x ∷ xs) = if p x then trim_start_matches p xs else x ∷ xs

unfoldable pub trim_matches : (ℕ → Bool) → Text → Text
unfolding trim_start_matches
trim_matches p s = reverse (trim_start_matches p (reverse (trim_start_matches p s)))

-- The first part with one more code point at its front.
grow : ℕ → List Text → List Text
grow y [] = (y ∷ []) ∷ []
grow y (part ∷ parts) = (y ∷ part) ∷ parts

-- `str::split` at one character.
unfoldable pub split : ℕ → Text → List Text
unfolding grow
split c [] = [] ∷ []
split c (x ∷ xs) = let rest = split c xs in if x == c then [] ∷ rest else grow x rest

-- `FilePath::components`
unfoldable pub components : Text → List Text
unfolding trim_matches split
components p = split slash (trim_matches (λ c. c == slash) p)

abbrev pub starts_with_slash : Text → Bool
starts_with_slash [] = false
starts_with_slash (x ∷ xs) = x == slash

ends_with_char-append : (c : ℕ) (s : Text) → ends_with_char c (s ++ c ∷ []) ≡ true
ends_with_char-append c [] = ground arith
ends_with_char-append c (x ∷ []) = ground arith
ends_with_char-append c (x ∷ y ∷ s) = ends_with_char-append c (y ∷ s)

-- A path, an error, or the failed assertion of `FilePath::new`.
pub data Resolved : Type 0 where
  resolved : Text → Resolved
  refused : LinuxError → Resolved
  panicked : Resolved

abbrev pub and_then : Resolved → (Text → Resolved) → Resolved
and_then (resolved p) f = f p
and_then (refused e) f = refused e
and_then panicked f = panicked

abbrev pub from_result : LinuxResult Text → Resolved
from_result (ok p) = resolved p
from_result (err e) = refused e

-- `new_path.push('/')` where a slash at the end is missing.
abbrev pub with_slash : Text → Text
with_slash p = if is_dir p then p else p ++ slash ∷ []

-- `AT_FDCWD`, -100, as a bit pattern.
abbrev pub at_fdcwd : ℕ
at_fdcwd = 2 ^ 32 - 100

module _ (canonicalize : Text → Option Text) (no_such_file : LinuxError)
    (m : LinkManagerInner) where
  -- `FilePath::new` of a path with the canonical form `canonical`.
  unfoldable pub from_canonical : Text → Text → Resolved
  from_canonical path canonical =
      let trimmed = trim_matches is_whitespace canonical in
      let new_path = if is_dir path then with_slash trimmed else trimmed in
      if starts_with_slash new_path then resolved (real_path m new_path) else panicked

  -- `FilePath::new`
  unfoldable pub new : Text → Resolved
  unfolding from_canonical
  new path = elim (canonicalize path) [
    | none ↦ refused no_such_file
    | some canonical ↦ from_canonical path canonical
  ]

  -- `FilePath::join`
  unfoldable pub join : Text → Text → Resolved
  join p path = new (with_slash p ++ path)

  -- `File::from_fd(fd)?.path()` and `Directory::from_fd(fd)?.path()` are the first two arguments.
  unfoldable pub handle_file_path :
      (ℕ → LinuxResult Text) → (ℕ → LinuxResult Text) → ℕ → Text → Resolved
  unfolding new join
  handle_file_path file_path directory_path dirfd path =
      if starts_with_slash path
      then new path
      else if text_beq path []
      then and_then (from_result (file_path dirfd)) new
      else (let base =
            if dirfd == at_fdcwd
            then new []
            else and_then (from_result (directory_path dirfd)) new in
          and_then base (λ b. join b path))

  -- What a relative path is relative to: the current directory, or that of a descriptor.
  abbrev pub IsBase : (ℕ → LinuxResult Text) → ℕ → Text → Type 0
  IsBase directory_path dirfd base =
      ((dirfd ≡ at_fdcwd) × (new [] ≡ resolved base))
      ⊎ ((dirfd ≢ at_fdcwd) × (d : Text) × (directory_path dirfd ≡ ok d) × (new d ≡ resolved base))

  absolute-new :
      (file_path directory_path : ℕ → LinuxResult Text) (dirfd : ℕ) (path : Text)
      → starts_with_slash path ≡ true
      → handle_file_path file_path directory_path dirfd path ≡ new path
  unfolding handle_file_path
  absolute-new file_path directory_path dirfd path a = rw a refl

  starts_with_slash-append :
      (p q : Text) → starts_with_slash p ≡ true → starts_with_slash (with_slash p ++ q) ≡ true
  starts_with_slash-append [] q a = ground (arith, a)
  starts_with_slash-append (x ∷ xs) q a = elim (Bool-cases (is_dir (x ∷ xs))) [
    | inl d ↦ rw d a
    | inr d ↦ rw d a
  ]

  relative-join :
      (file_path directory_path : ℕ → LinuxResult Text) (dirfd : ℕ) (path base : Text)
      → starts_with_slash path ≡ false
      → text_beq path [] ≡ false
      → IsBase directory_path dirfd base
      → handle_file_path file_path directory_path dirfd path ≡ join base path
  unfolding handle_file_path
  relative-join file_path directory_path dirfd path base r some_path (inl (cwd, b)) =
      let here : (dirfd == at_fdcwd) ≡ true = ground (arith, cwd) in rw (r, some_path, here, b) refl
  relative-join file_path directory_path dirfd path base r some_path (inr (fd, d, there, b)) =
      let other : (dirfd == at_fdcwd) ≡ false = ground (arith, fd) in
      rw (r, some_path, other, there) (ap (λ x. and_then x (λ q. join q path)) b)

  -- A path that is not empty and relative to a directory, the current one for `AT_FDCWD` or else that
  -- of a descriptor, is resolved just as the absolute path is, with any descriptor, that continues
  -- the path of this directory, one slash between them; if the directory is found, under a path
  -- that begins with a slash.
  pub handle_file_path_relative :
      (file_path directory_path : ℕ → LinuxResult Text) (dirfd any_fd : ℕ) (path base : Text)
      → starts_with_slash path ≡ false
      → path ≢ []
      → IsBase directory_path dirfd base
      → starts_with_slash base ≡ true
      → handle_file_path file_path directory_path dirfd path
        ≡ handle_file_path file_path directory_path any_fd (with_slash base ++ path)
  unfolding join
  handle_file_path_relative file_path directory_path dirfd any_fd path base r some_path is_base a =
      let named : text_beq path [] ≡ false = elim (Bool-cases (text_beq path [])) [
        | inl e ↦ absurd (some_path ((text_beq_iff path []).0 e))
        | inr e ↦ e
      ] in
      relative-join file_path directory_path dirfd path base r named is_base
      ∙ sym (
          absolute-new file_path directory_path any_fd (with_slash base ++ path)
            (starts_with_slash-append base path a))

  -- The empty path is resolved as the path of the file itself behind the descriptor is, where that is
  -- absolute.
  handle_file_path_empty :
      (file_path directory_path : ℕ → LinuxResult Text) (dirfd any_fd : ℕ) (f : Text)
      → file_path dirfd ≡ ok f
      → starts_with_slash f ≡ true
      → handle_file_path file_path directory_path dirfd []
        ≡ handle_file_path file_path directory_path any_fd f
  unfolding handle_file_path
  handle_file_path_empty file_path directory_path dirfd any_fd f there a =
      rw there refl ∙ sym (absolute-new file_path directory_path any_fd f a)

  -- A path that is given with a slash at its end stays one, unless it is a link.
  pub new-is_dir :
      (path p : Text)
      → is_dir path ≡ true
      → ((k : Text) → lookup k m.links ≡ none)
      → new path ≡ resolved p
      → is_dir p ≡ true
  unfolding new from_canonical real_path
  new-is_dir path p d free h = elim (Option-cases (canonicalize path)) [
    | inl e ↦ ground (arith, e)
    | inr (c, e) ↦
        let trimmed = trim_matches is_whitespace c in
        ground (arith, e, free (with_slash trimmed), ends_with_char-append slash trimmed)
  ]
