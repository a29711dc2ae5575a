-- ===== src/Sockets/Bytes.antt =====
-- Reading bytes out of memory that was put together from parts.
use vegar.Prelude.{
  ℕ, zero, suc, ◌+◌, ◌≤◌, ◌<◌, ◌≡◌, refl, sym, ap, ◌∙◌, [], ◌∷◌, ◌++◌, arith, length, get_or, take,
  append_assoc, length-append, length-take,
}
use mathlib.Core.Path.{ap₂}
use vegar.Sockets.{Bytes, slice, overwrite}

pub get_or-append_left :
    (xs ys : Bytes) (i : ℕ) → i < length xs → get_or (xs ++ ys) i 0 ≡ get_or xs i 0
get_or-append_left [] ys i h = absurd (omega arith)
get_or-append_left (x ∷ xs) ys zero h = refl
get_or-append_left (x ∷ xs) ys (suc i) h = get_or-append_left xs ys i (omega arith)

pub get_or-append_right :
    (xs ys : Bytes) (i j : ℕ) → i ≡ length xs + j → get_or (xs ++ ys) i 0 ≡ get_or ys j 0
get_or-append_right [] ys i j h = ap (λ k. get_or ys k 0) (omega arith)
get_or-append_right (x ∷ xs) ys zero j h = absurd (omega arith)
get_or-append_right (x ∷ xs) ys (suc i) j h = get_or-append_right xs ys i j (omega arith)

pub get_or-take : (n : ℕ) (xs : Bytes) (i : ℕ) → i < n → get_or (take n xs) i 0 ≡ get_or xs i 0
get_or-take zero xs i h = absurd (omega arith)
get_or-take (suc n) [] i h = refl
get_or-take (suc n) (x ∷ xs) zero h = refl
get_or-take (suc n) (x ∷ xs) (suc i) h = get_or-take n xs i (omega arith)

-- Two memories with the same bytes in a range have the same slice of it.
pub slice-eq :
    (from count : ℕ) (m n : Bytes)
    → ((i : ℕ) → i < from + count → get_or m i 0 ≡ get_or n i 0)
    → slice from count m ≡ slice from count n
slice-eq from zero m n h = refl
slice-eq from (suc count) m n h =
    ap₂ ◌∷◌ (h from (omega arith)) (slice-eq (from + 1) count m n (λ i l. h i (omega arith)))

-- A slice that is one part of the memory.
pub slice-append :
    (before xs after : Bytes) (from : ℕ)
    → from ≡ length before
    → slice from (length xs) (before ++ (xs ++ after)) ≡ xs
slice-append before [] after from h = refl
slice-append before (x ∷ xs) after from h =
    ap₂ ◌∷◌ (get_or-append_right before (x ∷ xs ++ after) from 0 (omega arith)) (
      ap (slice (from + 1) (length xs)) (sym (append_assoc before (x ∷ []) (xs ++ after)))
      ∙ slice-append (before ++ x ∷ []) xs after (from + 1)
          (omega (arith, length-append before (x ∷ []))))

-- The storage holds the first `n` bytes of the user.
pub get_or-storage :
    (uninit user : Bytes) (n i : ℕ)
    → n ≤ length user
    → i < n
    → get_or (overwrite (take n user) uninit) i 0 ≡ get_or user i 0
get_or-storage uninit user n i h l =
    get_or-append_left (take n user) _ i (omega (arith, length-take n user))
    ∙ get_or-take n user i l
