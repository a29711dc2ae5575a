-- ===== src/FilePaths/Text/Parts.antt =====
-- `parent` and `name` take a path apart.
use vegar.Prelude.{
  ℕ, zero, suc, ◌<◌, ◌≡◌, ◌≢◌, refl, ap, ◌∙◌, inl, inr, true, false, none, some, [], ◌∷◌, ◌++◌,
  arith, Bool-cases, Option-cases, length, take, drop,
}
use vegar.FilePaths.Text.{
  Text, slash, part, panicked, ends_with_char, rfind, is_root, is_dir, strip_slash, parent, name,
}

-- No code point of the text is `c`.
abbrev pub Lacks : ℕ → Text → Type 0
Lacks c [] = Unit {0}
Lacks c (x ∷ xs) = (x ≢ c) × Lacks c xs

take-append-drop : (n : ℕ) (xs : Text) → take n xs ++ drop n xs ≡ xs
take-append-drop zero xs = refl
take-append-drop (suc n) [] = refl
take-append-drop (suc n) (x ∷ xs) = ap (◌∷◌ x) (take-append-drop n xs)

take-all : (xs : Text) → take (length xs) xs ≡ xs
take-all [] = refl
take-all (x ∷ xs) = ap (◌∷◌ x) (take-all xs)

rfind-none : (c : ℕ) (xs : Text) → rfind c xs ≡ none → Lacks c xs
unfolding rfind
rfind-none c [] h = tt
rfind-none c (x ∷ xs) h = ground (arith, rfind-none c xs)

-- Behind the last `c` there is none.
rfind-drop : (c i : ℕ) (xs : Text) → rfind c xs ≡ some i → Lacks c (drop (suc i) xs)
unfolding rfind
rfind-drop c i [] h = cc
rfind-drop c i (x ∷ xs) h = elim (Option-cases (rfind c xs)) [
  | inl e ↦ let z : i ≡ 0 = ground arith in rw z (rfind-none c xs e)
  | inr (j, e) ↦ let z : i ≡ suc j = ground arith in rw z (rfind-drop c j xs e)
]

rfind-lt-length : (c i : ℕ) (xs : Text) → rfind c xs ≡ some i → i < length xs
unfolding rfind
rfind-lt-length c i [] h = cc
rfind-lt-length c i (x ∷ xs) h = elim (Option-cases (rfind c xs)) [
  | inl e ↦ ground arith
  | inr (j, e) ↦ ground (arith, rfind-lt-length c j xs e)
]

-- A text that ends in `c` has its last `c` at the end.
rfind-ends_with :
    (c : ℕ) (xs : Text)
    → ends_with_char c xs ≡ true
    → (i : ℕ) × (rfind c xs ≡ some i) × (suc i ≡ length xs)
unfolding rfind
rfind-ends_with c [] h = cc
rfind-ends_with c (x ∷ []) h = (0, ground arith, refl)
rfind-ends_with c (x ∷ y ∷ xs) h =
    let (i, e, l) = rfind-ends_with c (y ∷ xs) h in (suc i, ground (arith, e), ap suc l)

rfind-cons_self : (c : ℕ) (xs : Text) → (i : ℕ) × (rfind c (c ∷ xs) ≡ some i)
unfolding rfind
rfind-cons_self c xs = elim (Option-cases (rfind c xs)) [
  | inl e ↦ (0, ground (arith, e))
  | inr (i, e) ↦ (suc i, ground (arith, e))
]

-- Stripping one slash leaves the first code point of a longer text.
strip_slash-cons : (c x : ℕ) (xs : Text) → (ys : Text) × (strip_slash (c ∷ x ∷ xs) ≡ c ∷ ys)
unfolding strip_slash
strip_slash-cons c x xs = elim (Bool-cases (is_dir (c ∷ x ∷ xs))) [
  | inl e ↦ (take (length xs) (x ∷ xs), rw e refl)
  | inr e ↦ (x ∷ xs, rw e refl)
]

-- A path begins with a slash, is longer than that, and does not end in two slashes.
pub record IsProper (p : Text) : Type 0 where
  pub rest : Text
  pub first : ℕ
  pub rooted : p ≡ slash ∷ first ∷ rest
  pub one_slash : is_dir (strip_slash p) ≡ false

-- A path that begins with a slash, is longer than that and does not end in two slashes has a parent
-- and a name; the parent followed by the name is the path less a trailing slash, and the name holds
-- no slash. So neither call fails or panics.
pub parent-append-name :
    (p : Text)
    → IsProper p
    → (d : Text) × (n : Text) × (parent p ≡ part d)
      × (name p ≡ part n)
      × (d ++ n ≡ strip_slash p)
      × Lacks slash n
unfolding parent name
parent-append-name p v =
    let (ys, e) = strip_slash-cons slash v.first v.rest in
    let e' : strip_slash p ≡ slash ∷ ys = ap strip_slash v.rooted ∙ e in
    let (pos, at) = rfind-cons_self slash ys in
    let found : rfind slash (strip_slash p) ≡ some pos = ap (rfind slash) e' ∙ at in
    let whole = take-all (strip_slash p) in
    let fits = rfind-lt-length slash pos (strip_slash p) found in
    let long : is_root p ≡ false = ground (arith, v.rooted) in
    (
      take (suc pos) (strip_slash p),
      drop (suc pos) (strip_slash p),
      ground (arith, found, long),
      ground (arith, found, long, v.one_slash, whole, fits),
      take-append-drop (suc pos) (strip_slash p),
      rfind-drop slash pos (strip_slash p) found,
    )

-- On a path other than the root that ends in two slashes or more, `name` panics.
pub name_panics : (p : Text) → is_root p ≡ false → is_dir (strip_slash p) ≡ true → name p ≡ panicked
unfolding name
name_panics p r d =
    let (pos, found, end) = rfind-ends_with slash (strip_slash p) d in ground (arith, found, end)
