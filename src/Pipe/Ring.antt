-- ===== src/Pipe/Ring.antt =====
-- `PipeRingBuffer` of api/src/file/pipe.rs. The array is a list of `ring_buffer_size` bytes, and a
-- byte is only moved, so it is any number.
pub mod Refine
pub mod Queue
use vegar.Prelude.{
  ℕ, zero, suc, ◌+◌, ◌-◌, ◌%◌, ◌≡◌, List, [], ◌∷◌, ltb, ◌==◌, if◌then◌else◌, set, get_or, replicate,
}

pub data RingBufferStatus : Type 0 where
  full empty normal : RingBufferStatus

abbrev pub ring_buffer_size : ℕ
ring_buffer_size = 256

pub record PipeRingBuffer : Type 0 where
  pub arr : List ℕ
  pub head : ℕ
  pub tail : ℕ
  pub status : RingBufferStatus

unfoldable pub new : PipeRingBuffer
new = record { arr = replicate ring_buffer_size 0; head = 0; tail = 0; status = empty }

-- `self.arr[self.tail]` is in bounds by `IsValid`.
unfoldable pub write_byte : PipeRingBuffer → ℕ → PipeRingBuffer
write_byte r byte =
    let tail' = (r.tail + 1) % ring_buffer_size in
    record {
      arr = set r.arr r.tail byte;
      head = r.head;
      tail = tail';
      status = if tail' == r.head then full else normal;
    }

-- The byte, and the buffer that is left.
unfoldable pub read_byte : PipeRingBuffer → ℕ × PipeRingBuffer
read_byte r =
    let head' = (r.head + 1) % ring_buffer_size in
    (
      get_or r.arr r.head 0,
      record {
        arr = r.arr;
        head = head';
        tail = r.tail;
        status = if head' == r.tail then empty else normal;
      },
    )

unfoldable pub available_read : PipeRingBuffer → ℕ
available_read r = elim r.status [
  | empty ↦ 0
  | _ ↦ if ltb r.head r.tail then r.tail - r.head else r.tail + ring_buffer_size - r.head
]

unfoldable pub available_write : PipeRingBuffer → ℕ
unfolding available_read
available_write r = elim r.status [ full ↦ 0 | _ ↦ ring_buffer_size - available_read r ]

-- `for c in buf.iter_mut().take(n) { *c = ring_buffer.read_byte(); }`
unfoldable pub read_bytes : ℕ → PipeRingBuffer → List ℕ × PipeRingBuffer
read_bytes zero r = ([], r)
read_bytes (suc n) r = let (c, r') = read_byte r in let (cs, r'') = read_bytes n r' in (c ∷ cs, r'')
