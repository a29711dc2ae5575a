-- ===== src/Files/Input.antt =====
-- What comes from standard input in api/src/file/stdio.rs.
use vegar.Prelude.{
  ℕ, zero, suc, ◌+◌, ◌-◌, ◌≤◌, ◌<◌, ◌≡◌, refl, ap, ◌∙◌, inl, inr, false, ◌||◌, Bool-cases, Option,
  some, List, [], ◌∷◌, ◌++◌, arith, ltb, ◌==◌, LinuxResult, ok, length, length-append,
}
use vegar.Files.Console.{
  Console, to_newlines, console_read_bytes, raw_read_loop, raw_read, try_again, read_blocked,
}

-- No carriage return is left.
abbrev pub HasNoReturn : List ℕ → Type 0
HasNoReturn [] = Unit {0}
HasNoReturn (c ∷ cs) = (c == 13 ≡ false) × HasNoReturn cs

to_newlines-HasNoReturn : (cs : List ℕ) → HasNoReturn (to_newlines cs)
unfolding to_newlines
to_newlines-HasNoReturn [] = tt
to_newlines-HasNoReturn (c ∷ cs) = (ground arith, to_newlines-HasNoReturn cs)

append-HasNoReturn : (xs ys : List ℕ) → HasNoReturn xs → HasNoReturn ys → HasNoReturn (xs ++ ys)
append-HasNoReturn [] ys h k = k
append-HasNoReturn (x ∷ xs) ys h k = (h.0, append-HasNoReturn xs ys h.1 k)

length-to_newlines : (cs : List ℕ) → length (to_newlines cs) ≡ length cs
unfolding to_newlines
length-to_newlines [] = refl
length-to_newlines (c ∷ cs) = ap suc (length-to_newlines cs)

module _ (C : Console) where
  -- What a read of the console for `len` bytes ends with.
  pub record Ends (len : ℕ) (r : Option (List ℕ × C.State)) : Type 0 where
    pub bytes : List ℕ
    pub state : C.State
    pub ends : r ≡ some (bytes, state)
    pub fits : length bytes ≤ len
    pub clean : HasNoReturn bytes

  read_bytes_fits : (n : ℕ) (s : C.State) → length (console_read_bytes C n s).0 ≤ n
  unfolding console_read_bytes
  read_bytes_fits n s = rw (length-to_newlines (C.read_bytes n s).0) (C.read_bytes-le n s)

  read_bytes_clean : (n : ℕ) (s : C.State) → HasNoReturn (console_read_bytes C n s).0
  unfolding console_read_bytes
  read_bytes_clean n s = to_newlines-HasNoReturn (C.read_bytes n s).0

  raw_read_loop-Ends :
      (fuel room : ℕ) (s : C.State) → room ≤ fuel → Ends room (raw_read_loop C fuel room s)
  unfolding raw_read_loop
  raw_read_loop-Ends fuel zero s h = record {
    bytes = [];
    state = s;
    ends = refl;
    fits = omega arith;
    clean = tt;
  }
  raw_read_loop-Ends zero (suc room) s h = absurd (omega arith)
  raw_read_loop-Ends (suc fuel) (suc room) s h =
      let got = (console_read_bytes C (suc room) s).0 in
      let s' = (console_read_bytes C (suc room) s).1 in
      let fits = read_bytes_fits (suc room) s in
      elim (Bool-cases (length got == 0)) [
        | inl empty ↦
            rw empty
              (record { bytes = []; state = s'; ends = refl; fits = omega arith; clean = tt })
        | inr some_bytes ↦
            let pos : 0 < length got = ground (arith, some_bytes) in
            let rest = raw_read_loop-Ends fuel (suc room - length got) s' (omega (arith, pos, h)) in
            rw (some_bytes, rest.ends)
              (record {
                bytes = got ++ rest.bytes;
                state = rest.state;
                ends = refl;
                fits = omega (arith, fits, rest.fits, length-append got rest.bytes);
                clean =
                    append-HasNoReturn got rest.bytes (read_bytes_clean (suc room) s) rest.clean;
              })
      ]

  -- `StdinRaw::read` ends after at most as many rounds as its buffer has bytes, on any console, with no
  -- more bytes than the buffer holds, and without a carriage return.
  pub raw_read-Ends : (len : ℕ) (s : C.State) → Ends len (raw_read C len s)
  unfolding raw_read
  raw_read-Ends len s = raw_read_loop-Ends len len s (omega arith)

module _ (attempts : ℕ → LinuxResult (List ℕ)) where
  -- The attempts from `i` on, `n` of them, give nothing.
  abbrev pub AreEmpty : ℕ → ℕ → Type 0
  AreEmpty i zero = Unit {0}
  AreEmpty i (suc n) = (attempts i ≡ ok []) × AreEmpty (suc i) n

  try_again_waits :
      (n i fuel : ℕ) (b : ℕ) (bs : List ℕ)
      → n < fuel
      → AreEmpty i n
      → attempts (i + n) ≡ ok (b ∷ bs)
      → try_again attempts fuel i ≡ some (ok (b ∷ bs))
  unfolding try_again
  try_again_waits n i zero b bs h e k = absurd (omega arith)
  try_again_waits zero i (suc fuel) b bs h e k =
      let here : attempts i ≡ ok (b ∷ bs) = ap attempts (omega arith) ∙ k in
      rw (try_again, here) refl
  try_again_waits (suc n) i (suc fuel) b bs h e k =
      let later : attempts (suc i + n) ≡ ok (b ∷ bs) = ap attempts (omega arith) ∙ k in
      rw (try_again, e.0) (try_again_waits n (suc i) fuel b bs (omega arith) e.1 later)

  -- With a buffer that is not empty, `Stdin::read_blocked` skips any number of attempts that give
  -- nothing, and returns what the first attempt with input gives: it returns as soon as input is there,
  -- and never with nothing.
  pub read_blocked_waits :
      (n fuel len b : ℕ) (bs : List ℕ)
      → 0 < len
      → n ≤ fuel
      → AreEmpty 0 n
      → attempts n ≡ ok (b ∷ bs)
      → read_blocked attempts fuel len ≡ some (ok (b ∷ bs))
  unfolding read_blocked
  read_blocked_waits zero fuel len b bs full h e k = rw (read_blocked, k) (ground arith)
  read_blocked_waits (suc n) fuel len b bs full h e k =
      let test : (len == 0) || ltb 0 0 ≡ false = ground (arith, full) in
      rw (read_blocked, e.0, test)
        (try_again_waits n 1 fuel b bs (omega arith) e.1 (ap attempts (omega arith) ∙ k))
