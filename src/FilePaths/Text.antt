-- ===== src/FilePaths/Text.antt =====
-- `FilePath` of api/src/path.rs, as far as it only reads the text.
pub mod Parts
use Prim.Native.Nat.{pred}
use vegar.Prelude.{
  ℕ, zero, suc, ◌+◌, ◌-◌, Bool, true, false, not, ◌&&◌, ◌||◌, Option, none, some, List, [], ◌∷◌,
  ◌++◌, leb, ltb, ◌==◌, if◌then◌else◌, length, take, drop, text_beq,
}

abbrev pub Text : Type 0
Text = List ℕ

abbrev pub slash : ℕ
slash = 47

-- The result of slicing: a value, an error `NotFound`, or a panic (`begin > end`).
pub data Part : Type 0 where
  part : Text → Part
  not_found : Part
  panicked : Part

-- `str::ends_with` of one character.
abbrev pub ends_with_char : ℕ → Text → Bool
ends_with_char c [] = false
ends_with_char c (x ∷ []) = x == c
ends_with_char c (x ∷ y ∷ xs) = ends_with_char c (y ∷ xs)

-- `str::starts_with` of a text.
unfoldable pub is_prefix : Text → Text → Bool
is_prefix [] ys = true
is_prefix (x ∷ xs) [] = false
is_prefix (x ∷ xs) (y ∷ ys) = (x == y) && is_prefix xs ys

-- `str::rfind` of one character.
unfoldable pub rfind : ℕ → Text → Option ℕ
rfind c [] = none
rfind c (x ∷ xs) = elim (rfind c xs) [
  | some i ↦ some (suc i)
  | none ↦ if x == c then some 0 else none
]

-- `FilePath::is_root`
abbrev pub is_root : Text → Bool
is_root p = text_beq p (slash ∷ [])

-- `FilePath::is_dir`
abbrev pub is_dir : Text → Bool
is_dir p = ends_with_char slash p

-- `FilePath::is_file`
abbrev pub is_file : Text → Bool
is_file p = not (is_dir p)

-- `FilePath::starts_with`
abbrev pub starts_with : Text → Text → Bool
starts_with p prefix = is_prefix prefix p

-- `if path.ends_with('/') { path = path.strip_suffix('/').unwrap(); }`
unfoldable pub strip_slash : Text → Text
strip_slash p = if is_dir p then take (pred (length p)) p else p

-- `FilePath::parent`
unfoldable pub parent : Text → Part
parent p =
    if is_root p
    then part (slash ∷ [])
    else (let path = strip_slash p in
        elim (rfind slash path) [ none ↦ not_found | some pos ↦ part (take (suc pos) path) ])

-- `FilePath::name`: `&path[start_pos + 1..end_pos]`
unfoldable pub name : Text → Part
name p =
    if is_root p
    then part (slash ∷ [])
    else (let path = strip_slash p in
        elim (rfind slash path) [
          | none ↦ not_found
          | some start_pos ↦
              let end_pos = if is_dir path then pred (length path) else length path in
              if ltb end_pos (suc start_pos)
              then panicked
              else part (drop (suc start_pos) (take end_pos path))
        ])
