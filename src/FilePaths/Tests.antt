-- ===== src/FilePaths/Tests.antt =====
-- Paths and hard links of api/src/path.rs at concrete texts, over a file system that is a list of
-- the paths that exist.
use vegar.Prelude.{
  ℕ, ◌≡◌, ◌≢◌, ◌⊎◌, refl, inr, Bool, true, false, not, ◌||◌, Option, none, some, List, [], ◌∷◌,
  arith, filter, text_beq, if◌then◌else◌, LinuxResult, ok, err, enoent, ebadf, lookup, insert,
  remove, text_eq,
}
use Prim.Native.String.{String}
use Prim.Native.Char.{code}
use vegar.FilePaths.Text.{Text, slash, strip_slash}
use vegar.FilePaths.Text.Parts.{IsProper}
use vegar.FilePaths.Links.{
  FileSystem, World, LinkManagerInner, not_found, not_file, new_manager, real_path, create_link,
  remove_link,
}
use vegar.FilePaths.Links.Counts.{IsCounted, new_manager-IsCounted, create_link-IsCounted}
use vegar.FilePaths.Calls.{Directories, sys_linkat}
use vegar.FilePaths.Steps.{FsCall, linkat, run_call, start, next, Reached-IsCounted}
use vegar.FilePaths.Links.Calls.{create_link_cases}
use vegar.FilePaths.Resolve.{
  starts_with_slash, at_fdcwd, handle_file_path, handle_file_path_relative, IsBase, Resolved,
  components, resolved, is_whitespace, trim_matches,
}

abbrev text : String → Text
text String.[] = []
text (String.◌∷◌ c s) = code c ∷ text s

abbrev mem : Text → List Text → Bool
mem p [] = false
mem p (q ∷ qs) = text_beq p q || mem p qs

abbrev listed : FileSystem
listed = record {
  Fs = List Text;
  exists = λ fs p. mem p fs;
  remove_file = λ fs p. if mem p fs then some (filter (λ q. not (text_beq p q)) fs) else none;
}

components-path : components (text "/usr/bin/") ≡ text "usr" ∷ text "bin" ∷ []
unfolding components
components-path = refl

abbrev usr_bin-IsProper : IsProper (text "/usr/bin/")
usr_bin-IsProper = record {
  rest = text "sr/bin/";
  first = 117;
  rooted = refl;
  one_slash = unfold strip_slash in refl;
}

-- `/l` leads to `/d/`.
abbrev linked : LinkManagerInner
linked = record { links = (text "/l", text "/d/") ∷ []; ref_counts = (text "/d/", 1) ∷ [] }

abbrev files : List Text
files = text "/d/" ∷ text "/f" ∷ []

create_link_makes_linked :
    create_link listed (new_manager, files) (text "/l") (text "/d/") ≡ (none, (linked, files))
unfolding create_link new_manager lookup insert
create_link_makes_linked = refl

linked-IsCounted : IsCounted linked
unfolding create_link new_manager lookup insert
linked-IsCounted =
    create_link-IsCounted listed new_manager files (text "/l") (text "/d/") new_manager-IsCounted
      (omega arith)

create_link_cases_example :
    let (out, w) = create_link listed (linked, files) (text "/m") (text "/f") in
    ((true ≡ false) × (out ≡ some not_found) × (w ≡ (linked, files)))
    ⊎ (((true ≡ true) × (false ≡ false) × (out ≡ some not_file) × (w ≡ (linked, files)))
        ⊎ ((true ≡ true)
            × (false ≡ true)
            × (out ≡ none)
            × (real_path w.0 (text "/m") ≡ text "/f")
            × ((t : Text) → t ≢ text "/m" → real_path w.0 t ≡ real_path linked t)))
create_link_cases_example = create_link_cases listed linked files (text "/m") (text "/f")

-- The only link to `/d/` is removed, and `/d/` with it.
remove_link_drops_target :
    remove_link listed (linked, files) (text "/l")
    ≡ (some (text "/d/"), (new_manager, text "/f" ∷ []))
unfolding remove_link lookup remove new_manager
remove_link_drops_target = refl

abbrev absolute : Text → Option Text
absolute p = if starts_with_slash p then some p else some (slash ∷ p)

abbrev no_fd : ℕ → LinuxResult Text
no_fd fd = err ebadf

link_is_followed :
    handle_file_path absolute enoent linked no_fd no_fd at_fdcwd (text "l") ≡ resolved (text "/d/")
unfolding handle_file_path real_path lookup is_whitespace trim_matches
link_is_followed = refl

-- Each descriptor is the directory `/d/`, or the file `/f`.
abbrev is_d : ℕ → LinuxResult Text
is_d fd = ok (text "/d/")

abbrev is_f : ℕ → LinuxResult Text
is_f fd = ok (text "/f")

abbrev resolve : ℕ → Text → Resolved
resolve = handle_file_path absolute enoent linked is_f is_d

d-IsBase : IsBase absolute enoent linked is_d 3 (text "/d/")
unfolding real_path lookup is_whitespace trim_matches vegar.FilePaths.Resolve.new
d-IsBase = inr (ground arith, text "/d/", refl, refl)

handle_file_path_relative_example : resolve 3 (text "x") ≡ resolve 9 (text "/d/x")
handle_file_path_relative_example =
    handle_file_path_relative absolute enoent linked is_f is_d 3 9 (text "x") (text "/d/") refl
      (ground arith) d-IsBase refl

-- Every path is in canonical form, and a directory ends in a slash.
abbrev directories : Directories listed
directories = record {
  set_current_dir = λ fs p. ok fs;
  create_dir = λ fs p. ok (p ∷ fs);
  remove_dir = λ fs p. ok (filter (λ q. not (text_beq p q)) fs);
  is_dir = λ fs p. ok false;
  canonicalize = λ fs p. some p;
}

abbrev no_path : ℕ → LinuxResult Text
no_path fd = err ebadf

abbrev link_call : FsCall
link_call = linkat at_fdcwd (ok (text "/d/")) at_fdcwd (ok (text "/l"))

abbrev after_link : World listed
after_link = (run_call listed directories no_path no_path link_call (new_manager, files)).1

linkat_makes_linked : after_link ≡ (linked, files)
unfolding run_call sys_linkat handle_file_path create_link new_manager lookup insert real_path
    trim_matches is_whitespace
linkat_makes_linked = refl

Reached-IsCounted_example : IsCounted after_link.0
unfolding new_manager
Reached-IsCounted_example =
    Reached-IsCounted listed directories no_path no_path after_link
      (next (new_manager, files) link_call (start files) (omega arith))
