-- ===== src/Pipe/Ring/Refine.antt =====
-- A valid ring buffer is a queue of at most `ring_buffer_size` bytes.
use mathlib.Core.Path.{ap₂}
use vegar.Prelude.{
  ℕ, zero, suc, ◌+◌, ◌%◌, ◌≤◌, ◌<◌, ◌≡◌, ◌≢◌, refl, ap, ◌∙◌, List, [], ◌∷◌, ◌++◌, arith, length,
  set, get_or, length-set, length-replicate, get_or-set_self, get_or-set_ne,
}
use vegar.Pipe.Ring.{
  PipeRingBuffer, RingBufferStatus, normal, ring_buffer_size, new, write_byte, read_byte,
  read_bytes, available_read, available_write,
}

-- What the status says of the two indices.
abbrev pub StatusFits : RingBufferStatus → ℕ → ℕ → Type 0
StatusFits normal h t = h ≢ t
StatusFits _ h t = h ≡ t

pub record IsValid (r : PipeRingBuffer) : Type 0 where
  pub storage : length r.arr ≡ ring_buffer_size
  pub head_in : r.head < ring_buffer_size
  pub tail_in : r.tail < ring_buffer_size
  pub fits : StatusFits r.status r.head r.tail

-- The `n` bytes from index `h` on, going round.
abbrev pub window : List ℕ → ℕ → ℕ → List ℕ
window arr h zero = []
window arr h (suc n) = get_or arr h 0 ∷ window arr ((h + 1) % ring_buffer_size) n

-- The bytes that wait to be read, oldest first.
abbrev pub contents : PipeRingBuffer → List ℕ
contents r = window r.arr r.head (available_read r)

pub length-window : (arr : List ℕ) (h n : ℕ) → length (window arr h n) ≡ n
length-window arr h zero = refl
length-window arr h (suc n) = ap suc (length-window arr ((h + 1) % ring_buffer_size) n)

pub new-IsValid : IsValid new
unfolding new
new-IsValid = record {
  storage = length-replicate {A = ℕ} ring_buffer_size 0;
  head_in = omega arith;
  tail_in = omega arith;
  fits = refl;
}

pub available_bounds :
    {r : PipeRingBuffer} → IsValid r → available_read r + available_write r ≡ ring_buffer_size
unfolding available_write
available_bounds {r} v = ground arith

pub write_byte-IsValid : {r : PipeRingBuffer} (b : ℕ) → IsValid r → IsValid (write_byte r b)
unfolding write_byte
write_byte-IsValid {r} b v = ground (arith, length-set r.arr r.tail b)

pub read_byte-IsValid : {r : PipeRingBuffer} → IsValid r → IsValid (read_byte r).1
unfolding read_byte
read_byte-IsValid {r} v = ground arith

pub available_read-write_byte :
    {r : PipeRingBuffer} (b : ℕ)
    → IsValid r
    → 0 < available_write r
    → available_read (write_byte r b) ≡ suc (available_read r)
unfolding write_byte available_write
available_read-write_byte {r} b v h = ground arith

pub available_read-read_byte :
    {r : PipeRingBuffer}
    → IsValid r
    → 0 < available_read r
    → available_read r ≡ suc (available_read (read_byte r).1)
unfolding read_byte available_read
available_read-read_byte {r} v h = ground arith

-- Fewer than `ring_buffer_size` steps round the ring do not come back to the start.
add-mod-ne :
    {h k : ℕ} → h < ring_buffer_size → suc k < ring_buffer_size → (h + suc k) % ring_buffer_size ≢ h
add-mod-ne {h} {k} hh hk = omega arith

-- Writing just past a window extends it by that byte.
window-set :
    (arr : List ℕ) (x n h i : ℕ)
    → length arr ≡ ring_buffer_size
    → h < ring_buffer_size
    → n < ring_buffer_size
    → i ≡ (h + n) % ring_buffer_size
    → window (set arr i x) h (suc n) ≡ window arr h n ++ (x ∷ [])
window-set arr x zero h i hs hh hn e =
    let i≡h : i ≡ h = omega arith in rw (i≡h, get_or-set_self arr h x 0 (omega arith)) refl
window-set arr x (suc n) h i hs hh hn e =
    ap₂ ◌∷◌ (get_or-set_ne arr x 0 (rw e (add-mod-ne hh hn))) (
      window-set arr x n ((h + 1) % ring_buffer_size) i hs (omega arith) (omega arith)
        (omega arith))

-- The write index lies just past the waiting bytes.
tail-window :
    {r : PipeRingBuffer} → IsValid r → r.tail ≡ (r.head + available_read r) % ring_buffer_size
unfolding available_read
tail-window {r} v = ground arith

-- With room left, `write_byte` appends its byte to the waiting ones.
pub contents-write_byte :
    {r : PipeRingBuffer} (b : ℕ)
    → IsValid r
    → 0 < available_write r
    → contents (write_byte r b) ≡ contents r ++ (b ∷ [])
contents-write_byte {r} b v h = rw (available_read-write_byte b v h) (
    unfold write_byte in
    window-set r.arr b (available_read r) r.head r.tail v.storage v.head_in
      (omega (arith, available_bounds v)) (tail-window v))

-- With a byte waiting, `read_byte` takes the oldest one off.
pub contents-read_byte :
    {r : PipeRingBuffer}
    → IsValid r
    → 0 < available_read r
    → contents r ≡ (read_byte r).0 ∷ contents (read_byte r).1
contents-read_byte {r} v h =
    ap (window r.arr r.head) (available_read-read_byte v h) ∙ unfold read_byte in refl

-- Reading `n` bytes of at least that many takes the `n` oldest off, in order.
pub record Taken (n : ℕ) (r : PipeRingBuffer) (out : List ℕ × PipeRingBuffer) : Type 0 where
  pub valid : IsValid out.1
  pub count : length out.0 ≡ n
  pub bytes : contents r ≡ out.0 ++ contents out.1

pub read_bytes-Taken :
    (n : ℕ) {r : PipeRingBuffer} → IsValid r → n ≤ available_read r → Taken n r (read_bytes n r)
unfolding read_bytes
read_bytes-Taken zero v h = record { valid = v; count = refl; bytes = refl }
read_bytes-Taken (suc n) {r} v h =
    let room : 0 < available_read r = omega arith in
    let left = available_read-read_byte v room in
    let ih = read_bytes-Taken n (read_byte-IsValid v) (omega arith) in
    record {
      valid = ih.valid;
      count = ap suc ih.count;
      bytes = contents-read_byte v room ∙ ap (◌∷◌ (read_byte r).0) ih.bytes;
    }
