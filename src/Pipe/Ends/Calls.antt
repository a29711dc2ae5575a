-- ===== src/Pipe/Ends/Calls.antt =====
-- What one call of `read` or `write` does to the bytes that wait in the pipe.
use vegar.Prelude.{
  ℕ, zero, suc, ◌+◌, ◌≤◌, ◌<◌, min, ◌≡◌, ◌≢◌, refl, sym, ap, ◌∙◌, true, false, none, some, List, [],
  ◌∷◌, ◌++◌, arith, append-nil, append_assoc, length, take, drop, replicate, ok,
}
use vegar.Pipe.Ring.{PipeRingBuffer, write_byte, read_bytes, available_read, available_write}
use vegar.Pipe.Ring.Refine.{
  IsValid, contents, available_bounds, write_byte-IsValid, available_read-write_byte,
  contents-write_byte, read_bytes-Taken,
}
use vegar.Pipe.Ends.{
  SharedBuffer, Pipe, Others, Round, returned, again, Writing, read, write_bytes, write_round,
  write_loop, write,
}

-- What `k` turns of the inner loop have done, by their outcome.
abbrev pub Written : ℕ → Writing → PipeRingBuffer → Round ℕ Writing × PipeRingBuffer → Type 0
Written k (rest, n) r (returned m, r') =
    (length rest < k) × (m ≡ n + length rest) × IsValid r' × (contents r' ≡ contents r ++ rest)
Written k (rest, n) r (again w, r') =
    (k ≤ length rest)
    × (w.0 ≡ drop k rest)
    × (w.1 ≡ n + k)
    × IsValid r'
    × (contents r' ≡ contents r ++ take k rest)
    × (available_write r' + k ≡ available_write r)

available_write-write_byte :
    {r : PipeRingBuffer} (b : ℕ)
    → IsValid r
    → 0 < available_write r
    → available_write (write_byte r b) + 1 ≡ available_write r
available_write-write_byte {r} b v h = omega (
  arith,
  available_bounds v,
  available_bounds (write_byte-IsValid b v),
  available_read-write_byte b v h,
)

-- One turn more before an outcome.
Written-step :
    (k b n : ℕ) (rest : List ℕ) (r : PipeRingBuffer) (out : Round ℕ Writing × PipeRingBuffer)
    → contents (write_byte r b) ≡ contents r ++ (b ∷ [])
    → available_write (write_byte r b) + 1 ≡ available_write r
    → Written k (rest, n + 1) (write_byte r b) out
    → Written (suc k) (b ∷ rest, n) r out
Written-step k b n rest r (returned m, r') c a w = (
  omega arith,
  omega arith,
  w.2,
  w.3 ∙ ap (λ l. l ++ rest) c ∙ append_assoc (contents r) (b ∷ []) rest,
)
Written-step k b n rest r (again v, r') c a w = (
  omega arith,
  w.1,
  omega arith,
  w.3,
  w.4 ∙ ap (λ l. l ++ take k rest) c ∙ append_assoc (contents r) (b ∷ []) (take k rest),
  omega arith,
)

pub write_bytes-Written :
    (k : ℕ) (rest : List ℕ) (n : ℕ) {r : PipeRingBuffer}
    → IsValid r
    → k ≤ available_write r
    → Written k (rest, n) r (write_bytes k (rest, n) r)
unfolding write_bytes
write_bytes-Written zero rest n {r} v h =
    (omega arith, refl, omega arith, v, sym (append-nil _), omega arith)
write_bytes-Written (suc k) [] n {r} v h = (omega arith, omega arith, v, sym (append-nil _))
write_bytes-Written (suc k) (b ∷ rest) n {r} v h =
    let room : 0 < available_write r = omega arith in
    let fewer = available_write-write_byte b v room in
    Written-step k b n rest r (write_bytes k (rest, n + 1) (write_byte r b))
      (contents-write_byte b v room) fewer
      (write_bytes-Written k rest (n + 1) (write_byte-IsValid b v) (omega arith))

Written-returned :
    (k n : ℕ) (rest : List ℕ) (r : PipeRingBuffer) (out : Round ℕ Writing × PipeRingBuffer)
    → length rest < k
    → Written k (rest, n) r out
    → (r' : PipeRingBuffer) × (out ≡ (returned (n + length rest), r'))
      × IsValid r'
      × (contents r' ≡ contents r ++ rest)
Written-returned k n rest r (returned m, r') h w = (r', ap (λ i. (returned i, r')) w.1, w.2, w.3)
Written-returned k n rest r (again v, r') h w = absurd (omega arith)

Written-again :
    (k n : ℕ) (rest : List ℕ) (r : PipeRingBuffer) (out : Round ℕ Writing × PipeRingBuffer)
    → k ≤ length rest
    → Written k (rest, n) r out
    → (r' : PipeRingBuffer) × (out ≡ (again (drop k rest, n + k), r'))
      × IsValid r'
      × (contents r' ≡ contents r ++ take k rest)
      × (available_write r' + k ≡ available_write r)
Written-again k n rest r (returned m, r') h w = absurd (omega arith)
Written-again k n rest r (again (rest', m), r') h w = (r', rw (← w.1, ← w.2) refl, w.3, w.4, w.5)

module _ (p : Pipe) (s : SharedBuffer) (v : IsValid s.buffer) where
  -- On the write end of a pipe that is open at both ends, a non-empty `buf` that is shorter than
  -- the free space is written by one round, whatever the other tasks would do later: `write`
  -- returns its length, and appends exactly its bytes to those that wait, in order.
  pub write_fits :
      (others : Others) (buf : List ℕ)
      → p.readable ≡ false
      → s.strong_count ≢ 1
      → 0 < length buf
      → length buf < available_write s.buffer
      → let (out, s') = write p others buf s in
        (out ≡ some (ok (length buf)))
        × (contents s'.buffer ≡ contents s.buffer ++ buf)
        × IsValid s'.buffer
        × (s'.strong_count ≡ s.strong_count)
  unfolding write
  write_fits others buf w open_ some_bytes fits =
      let k = available_write s.buffer in
      let (r', e, v', c) =
        Written-returned k 0 buf s.buffer (write_bytes k (buf, 0) s.buffer) fits
          (write_bytes-Written k buf 0 v (omega arith)) in
      ground (arith, e, c, v')

-- With no room and both ends open, no number of rounds makes `write` return or changes the pipe, if
-- the other tasks do nothing: also not when all bytes are written already.
write_loop-stuck :
    (n : ℕ) (w : Writing) (s : SharedBuffer)
    → s.strong_count ≢ 1
    → available_write s.buffer ≡ 0
    → write_loop (replicate n (λ t. t)) (again w, s) ≡ (none, s)
unfolding write_loop write_round
write_loop-stuck zero w s o f = refl
write_loop-stuck (suc n) w s o f = ground (arith, write_loop-stuck n w s o f)

pub take-length : (xs : List ℕ) → take (length xs) xs ≡ xs
take-length [] = refl
take-length (x ∷ xs) = ap (◌∷◌ x) (take-length xs)

module _ (p : Pipe) (s : SharedBuffer) (v : IsValid s.buffer) where
  -- On the write end of an open pipe, a `write` of exactly as many bytes as there is room for puts
  -- them all into the buffer and yet does not return, in any number of rounds, until another task
  -- changes the pipe.
  pub write_exact_fit_waits :
      (rounds : ℕ) (buf : List ℕ)
      → p.readable ≡ false
      → s.strong_count ≢ 1
      → 0 < length buf
      → length buf ≡ available_write s.buffer
      → let (out, s') = write p (replicate rounds (λ t. t)) buf s in
        (out ≡ none)
        × (contents s'.buffer ≡ contents s.buffer ++ buf)
        × (available_write s'.buffer ≡ 0)
  unfolding write
  write_exact_fit_waits rounds buf w open_ some_bytes fits =
      let k = available_write s.buffer in
      let (r', e, v', c, full_now) =
        Written-again k 0 buf s.buffer (write_bytes k (buf, 0) s.buffer) (omega arith)
          (write_bytes-Written k buf 0 v (omega arith)) in
      let s' : SharedBuffer = record { buffer = r'; strong_count = s.strong_count } in
      let c' : contents r' ≡ contents s.buffer ++ buf =
        c
        ∙ ap (λ i. contents s.buffer ++ take i buf) (sym fits)
        ∙ ap (◌++◌ (contents s.buffer)) (take-length buf) in
      ground
        (arith, e, c', full_now, write_loop-stuck rounds (drop k buf, 0 + k) s' open_ (omega arith))

  -- On the read end, a `read` into a buffer of `len > 0` bytes, with bytes waiting, takes the oldest
  -- `min (available_read) len` bytes off, in order, in one round.
  pub read_available :
      (others : Others) (len : ℕ)
      → p.readable ≡ true
      → 0 < len
      → 0 < available_read s.buffer
      → let (out, s') = read p others len s in
        (bytes : List ℕ) × (out ≡ some (ok bytes))
        × (length bytes ≡ min (available_read s.buffer) len)
        × (contents s.buffer ≡ bytes ++ contents s'.buffer)
        × IsValid s'.buffer
        × (s'.strong_count ≡ s.strong_count)
  unfolding read
  read_available others len r some_len some_bytes =
      let n = min (available_read s.buffer) len in
      let t = read_bytes-Taken n v (omega arith) in
      (
        (read_bytes n s.buffer).0,
        ground arith,
        ground (arith, t.count),
        ground (arith, t.bytes),
        ground (arith, t.valid),
        ground arith,
      )
