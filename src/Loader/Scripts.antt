-- ===== src/Loader/Scripts.antt =====
-- What core/src/mm.rs makes of the first line of a script.
use vegar.Prelude.{
  ℕ, zero, suc, ◌<◌, ◌≡◌, refl, ap, ◌∙◌, Bool, true, false, Option, none, some, List, [], ◌∷◌, ◌++◌,
  arith, ◌==◌, length, take, ok,
}
use vegar.Memory.AddrSpace.{AddrSpace}
use vegar.Loader.Text.{
  Text, is_utf8, position, is_whitespace, trim_start, trim_end, trim_ascii, end_with,
  split_whitespace,
}
use vegar.Loader.Elf.{Programs, Platform}
use vegar.Loader.Load.{runs, script_line, split_line, next_of_script, next_of, load_user_app}
use vegar.Loader.Ends.{load_interpreted}

-- No byte passes the test.
abbrev pub Without : (ℕ → Bool) → Text → Type 0
Without p [] = Unit {0}
Without p (x ∷ xs) = (p x ≡ false) × Without p xs

abbrev pub is_newline : ℕ → Bool
is_newline b = b == 10

Without-append : (p : ℕ → Bool) (xs ys : Text) → Without p xs → Without p ys → Without p (xs ++ ys)
Without-append p [] ys h k = k
Without-append p (x ∷ xs) ys h k = (h.0, Without-append p xs ys h.1 k)

Without-newline : (xs : Text) → Without is_whitespace xs → Without is_newline xs
Without-newline [] h = tt
Without-newline (x ∷ xs) h = (ground (arith, h.0), Without-newline xs h.1)

take_past :
    (n : ℕ) (xs : Text) (b : ℕ) (ys : Text)
    → length xs < n
    → (zs : Text) × (take n (xs ++ b ∷ ys) ≡ xs ++ b ∷ zs)
take_past zero xs b ys h = absurd (omega arith)
take_past (suc n) [] b ys h = (take n ys, refl)
take_past (suc n) (x ∷ xs) b ys h =
    let (zs, e) = take_past n xs b ys (omega arith) in (zs, ap (λ (t : Text). x ∷ t) e)

take_all : (xs ys : Text) → take (length xs) (xs ++ ys) ≡ xs
take_all [] ys = refl
take_all (x ∷ xs) ys = ap (λ (t : Text). x ∷ t) (take_all xs ys)

position_newline :
    (xs ys : Text) → Without is_newline xs → position 10 (xs ++ 10 ∷ ys) ≡ some (length xs)
unfolding position
position_newline [] ys h = refl
position_newline (x ∷ xs) ys h = rw (h.0, position_newline xs ys h.1) refl

script_line_lem :
    (line rest : Text)
    → Without is_newline line
    → length line < 254
    → script_line (35 ∷ 33 ∷ line ++ 10 ∷ rest) ≡ line
unfolding script_line
script_line_lem line rest h short =
    let (zs, e) = take_past 254 line 10 rest short in
    rw (e, position_newline line zs h) (take_all line (10 ∷ zs))

split_some :
    (interp : Text) (w : ℕ) (arg : Text)
    → Without is_whitespace interp
    → is_whitespace w ≡ true
    → split_whitespace (interp ++ w ∷ arg) ≡ (interp, some arg)
unfolding split_whitespace
split_some [] w arg h white = rw white refl
split_some (x ∷ xs) w arg h white = rw (h.0, split_some xs w arg h.1 white) refl

split_none :
    (interp : Text) → Without is_whitespace interp → split_whitespace interp ≡ (interp, none)
unfolding split_whitespace
split_none [] h = refl
split_none (x ∷ xs) h = rw (h.0, split_none xs h.1) refl

trim_start_none : (t : Text) → Without is_whitespace t → trim_start t ≡ t
unfolding trim_start
trim_start_none [] h = refl
trim_start_none (x ∷ xs) h = rw h.0 refl

trim_end_none : (t : Text) → Without is_whitespace t → trim_end t ≡ t
unfolding trim_end
trim_end_none [] h = refl
trim_end_none (x ∷ []) h = rw h.0 refl
trim_end_none (x ∷ y ∷ xs) h = ap (end_with x) (trim_end_none (y ∷ xs) h.1)

trim_ascii_none : (t : Text) → Without is_whitespace t → trim_ascii t ≡ t
unfolding trim_ascii
trim_ascii_none t h = ap trim_end (trim_start_none t h) ∙ trim_end_none t h

-- The line of a script: an interpreter, and maybe a white space and what follows it.
abbrev pub line_of : Text → Option (ℕ × Text) → Text
line_of interp none = interp
line_of interp (some (w, arg)) = interp ++ w ∷ arg

abbrev pub arg_of : Option (ℕ × Text) → List Text
arg_of none = []
arg_of (some (w, arg)) = trim_ascii arg ∷ []

abbrev pub IsArg : Option (ℕ × Text) → Type 0
IsArg none = Unit {0}
IsArg (some (w, arg)) = (is_whitespace w ≡ true) × (is_newline w ≡ false) × Without is_newline arg

pub record IsLine (interp : Text) (more : Option (ℕ × Text)) : Type 0 where
  pub name : Without is_whitespace interp
  pub arg : IsArg more
  pub short : length (line_of interp more) < 254
  pub utf8 : is_utf8 (line_of interp more) ≡ true

abbrev pub script_of : Text → Option (ℕ × Text) → Text → Text
script_of interp more rest = 35 ∷ 33 ∷ line_of interp more ++ 10 ∷ rest

line_of-Without :
    (interp : Text) (more : Option (ℕ × Text))
    → Without is_whitespace interp
    → IsArg more
    → Without is_newline (line_of interp more)
line_of-Without interp none h a = Without-newline interp h
line_of-Without interp (some (w, arg)) h a =
    Without-append is_newline interp (w ∷ arg) (Without-newline interp h) (a.1, a.2)

module _ (P : Programs) where
  split-line_of :
      (interp : Text) (more : Option (ℕ × Text))
      → Without is_whitespace interp
      → IsArg more
      → split_line {Elf = P.Elf} (split_whitespace (line_of interp more))
        ≡ runs interp (arg_of more)
  split-line_of interp none h a = rw (split_none interp h, trim_ascii_none interp h) refl
  split-line_of interp (some (w, arg)) h a =
      rw (split_some interp w arg h a.0, trim_ascii_none interp h) refl

  next-script_of :
      (interp : Text) (more : Option (ℕ × Text)) (rest : Text)
      → IsLine interp more
      → next_of P (script_of interp more rest) ≡ runs interp (arg_of more)
  unfolding next_of next_of_script
  next-script_of interp more rest l =
      let line =
        script_line_lem (line_of interp more) rest (line_of-Without interp more l.name l.arg)
          l.short in
      rw (line, l.utf8) (split-line_of interp more l.name l.arg)

  -- A script begins with `#!`, an interpreter without white space and maybe one white space and an
  -- argument, all before the first line feed, valid UTF-8 and shorter than 254 bytes. Loading it is
  -- loading the interpreter, with the trimmed argument if there is one, then the path of the script,
  -- then the arguments of the caller. A white space right after `#!` makes the interpreter empty.
  pub load_user_app-script_of :
      (A : AddrSpace) (plat : Platform) (fuel : ℕ) (path : Text) (args envs : List Text)
      (s : A.Space) (interp : Text) (more : Option (ℕ × Text)) (rest : Text)
      → IsLine interp more
      → P.read path ≡ ok (script_of interp more rest)
      → load_user_app A P plat (suc fuel) (path ∷ args) envs s
        ≡ load_user_app A P plat fuel (interp ∷ arg_of more ++ path ∷ args) envs s
  load_user_app-script_of A plat fuel path args envs s interp more rest l there =
      load_interpreted A P plat fuel path args envs s (script_of interp more rest) interp
        (arg_of more) there (next-script_of interp more rest l)
