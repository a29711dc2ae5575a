-- ===== src/Loader/Text.antt =====
-- What core/src/mm.rs uses of the standard library on bytes.
use vegar.Prelude.{
  ℕ, zero, suc, ◌-◌, Bool, true, false, ◌&&◌, ◌||◌, Option, none, some, List, [], ◌∷◌, leb, ◌==◌,
  if◌then◌else◌, length, take, drop,
}

abbrev pub Text : Type 0
Text = List ℕ

abbrev pub within : ℕ → ℕ → ℕ → Bool
within lo hi b = leb lo b && leb b hi

-- After the first byte of a character: the range of the next byte, and how many follow.
pub record Rest : Type 0 where
  pub lo : ℕ
  pub hi : ℕ
  pub count : ℕ

abbrev pub rest : ℕ → ℕ → ℕ → Option Rest
rest lo hi count = some (record { lo = lo; hi = hi; count = count })

unfoldable pub first_byte : ℕ → Option Rest
first_byte b =
    if leb b 0x7f
    then rest 0 0 0
    else if within 0xc2 0xdf b
    then rest 0x80 0xbf 1
    else if b == 0xe0
    then rest 0xa0 0xbf 2
    else if b == 0xed
    then rest 0x80 0x9f 2
    else if within 0xe1 0xef b
    then rest 0x80 0xbf 2
    else if b == 0xf0
    then rest 0x90 0xbf 3
    else if b == 0xf4
    then rest 0x80 0x8f 3
    else if within 0xf1 0xf3 b
    then rest 0x80 0xbf 3
    else none

unfoldable pub utf8_from : Rest → Text → Bool
utf8_from r [] = r.count == 0
utf8_from r (b ∷ bs) = elim r.count [
  | zero ↦ elim (first_byte b) [ none ↦ false | some r' ↦ utf8_from r' bs ]
  | suc n ↦ elim (within r.lo r.hi b) [
    | true ↦ utf8_from (record { lo = 0x80; hi = 0xbf; count = n }) bs
    | false ↦ false
  ]
]

-- `core::str::from_utf8`
unfoldable pub is_utf8 : Text → Bool
is_utf8 bs = utf8_from (record { lo = 0; hi = 0; count = 0 }) bs

-- `CStr::from_bytes_with_nul`: the only nul is at the end, and is cut off.
unfoldable pub from_bytes_with_nul : Text → Option Text
from_bytes_with_nul [] = none
from_bytes_with_nul (b ∷ []) = if b == 0 then some [] else none
from_bytes_with_nul (b ∷ c ∷ bs) =
    let rest = from_bytes_with_nul (c ∷ bs) in
    if b == 0 then none else (elim rest [ none ↦ none | some t ↦ some (b ∷ t) ])

-- `iter().position(|c| *c == b)`
unfoldable pub position : ℕ → Text → Option ℕ
position b [] = none
position b (x ∷ xs) =
    if x == b then some 0 else (elim (position b xs) [ none ↦ none | some i ↦ some (suc i) ])

-- `is_ascii_whitespace`: tab, line feed, form feed, carriage return and space.
abbrev pub is_whitespace : ℕ → Bool
is_whitespace b = (b == 9) || (b == 10) || (b == 12) || (b == 13) || (b == 32)

unfoldable pub trim_start : Text → Text
trim_start [] = []
trim_start (x ∷ xs) = if is_whitespace x then trim_start xs else x ∷ xs

abbrev pub end_with : ℕ → Text → Text
end_with x [] = if is_whitespace x then [] else x ∷ []
end_with x (y ∷ ys) = x ∷ y ∷ ys

unfoldable pub trim_end : Text → Text
trim_end [] = []
trim_end (x ∷ xs) = end_with x (trim_end xs)

-- `trim_ascii`
unfoldable pub trim_ascii : Text → Text
trim_ascii t = trim_end (trim_start t)

-- `splitn(2, is_ascii_whitespace)`: the text before the first white space, and that after it.
unfoldable pub split_whitespace : Text → Text × Option Text
split_whitespace [] = ([], none)
split_whitespace (x ∷ xs) =
    let (before, after) = split_whitespace xs in
    if is_whitespace x then ([], some xs) else (x ∷ before, after)

-- `slice.get(start..end)`
unfoldable pub get_range : Text → ℕ → ℕ → Option Text
get_range bytes start end =
    if leb start end && leb end (length bytes)
    then some (take (end - start) (drop start bytes))
    else none
