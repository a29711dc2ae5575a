-- ===== src/Pipe/Ends.antt =====
-- `Pipe` of api/src/file/pipe.rs: the two ends over one shared, locked buffer. A loop of the source
-- takes the lock once a round. What the other tasks do between two rounds is a list of changes of
-- the shared buffer, one for each round that does not return; a call that has not returned when the
-- list ends gives `none`.
pub mod Stream
pub mod Calls
use vegar.Prelude.{
  ℕ, zero, suc, ◌+◌, min, Bool, true, false, not, ◌&&◌, Option, none, some, List, [], ◌∷◌, ltb,
  ◌==◌, if◌then◌else◌, length, LinuxResult, ok, err, eperm, epipe,
}
use vegar.Pipe.Ring.{
  PipeRingBuffer, new, write_byte, read_byte, read_bytes, available_read, available_write,
}

-- `Arc<Mutex<PipeRingBuffer>>`, with the number of ends that hold it.
pub record SharedBuffer : Type 0 where
  pub buffer : PipeRingBuffer
  pub strong_count : ℕ

pub record Pipe : Type 0 where
  pub readable : Bool

-- The read end, the write end, and the buffer that both hold.
unfoldable pub new_pipe : Pipe × Pipe × SharedBuffer
unfolding new
new_pipe = (
  record { readable = true },
  record { readable = false },
  record { buffer = new; strong_count = 2 },
)

abbrev pub writable : Pipe → Bool
writable p = not p.readable

abbrev pub closed : SharedBuffer → Bool
closed s = s.strong_count == 1

-- `Drop` of the `Arc` of one end.
unfoldable pub drop_end : SharedBuffer → SharedBuffer
drop_end s = elim s.strong_count [
  | zero ↦ s
  | suc n ↦ record { buffer = s.buffer; strong_count = n }
]

abbrev pub Others : Type 0
Others = List (SharedBuffer → SharedBuffer)

-- What one round of a loop does: it returns, or the loop goes on from the given state.
pub data Round (A S : Type 0) : Type 0 where
  returned : A → Round A S
  again : S → Round A S

-- One round of the loop of `Pipe::read`, for a buffer of `len` bytes.
unfoldable pub read_round : ℕ → SharedBuffer → Round (List ℕ) (Unit {0}) × SharedBuffer
unfolding read_bytes
read_round len s =
    let read_size = min (available_read s.buffer) len in
    if read_size == 0
    then (if closed s then (returned [], s) else (again tt, s))
    else (let (bytes, buffer') = read_bytes read_size s.buffer in
        (returned bytes, record { buffer = buffer'; strong_count = s.strong_count }))

unfoldable pub read_loop :
    Others → ℕ → Round (List ℕ) (Unit {0}) × SharedBuffer → Option (List ℕ) × SharedBuffer
read_loop others len (returned bytes, s) = (some bytes, s)
read_loop [] len (again _, s) = (none, s)
read_loop (f ∷ fs) len (again _, s) = read_loop fs len (read_round len (f s))

-- `Pipe::read` gives the bytes that it puts at the front of `buf`.
unfoldable pub read :
    Pipe → Others → ℕ → SharedBuffer → Option (LinuxResult (List ℕ)) × SharedBuffer
unfolding read_loop read_round
read p others len s =
    if not p.readable
    then (some (err eperm), s)
    else if len == 0
    then (some (ok []), s)
    else (let (out, s') = read_loop others len (read_round len s) in
        (elim out [ none ↦ none | some bytes ↦ some (ok bytes) ], s'))

-- The rest of the bytes of `buf`, and `write_size`.
abbrev pub Writing : Type 0
Writing = List ℕ × ℕ

-- `for _ in 0..loop_write { ... }`
unfoldable pub write_bytes : ℕ → Writing → PipeRingBuffer → Round ℕ Writing × PipeRingBuffer
write_bytes zero w r = (again w, r)
write_bytes (suc k) ([], write_size) r = (returned write_size, r)
write_bytes (suc k) (b ∷ rest, write_size) r = write_bytes k (rest, write_size + 1) (write_byte r b)

-- One round of the loop of `Pipe::write`.
unfoldable pub write_round : Writing → SharedBuffer → Round ℕ Writing × SharedBuffer
unfolding write_bytes
write_round w s =
    let loop_write = available_write s.buffer in
    if loop_write == 0
    then (if closed s then (returned w.1, s) else (again w, s))
    else (let (out, buffer') = write_bytes loop_write w s.buffer in
        (out, record { buffer = buffer'; strong_count = s.strong_count }))

unfoldable pub write_loop : Others → Round ℕ Writing × SharedBuffer → Option ℕ × SharedBuffer
write_loop others (returned n, s) = (some n, s)
write_loop [] (again w, s) = (none, s)
write_loop (f ∷ fs) (again w, s) = write_loop fs (write_round w (f s))

unfoldable pub write : Pipe → Others → List ℕ → SharedBuffer → Option (LinuxResult ℕ) × SharedBuffer
unfolding write_loop write_round
write p others buf s =
    if not (writable p)
    then (some (err eperm), s)
    else if closed s
    then (some (err epipe), s)
    else if length buf == 0
    then (some (ok 0), s)
    else (let (out, s') = write_loop others (write_round (buf, 0) s) in
        (elim out [ none ↦ none | some n ↦ some (ok n) ], s'))

pub record PollState : Type 0 where
  pub poll_readable : Bool
  pub poll_writable : Bool

unfoldable pub poll : Pipe → SharedBuffer → PollState
poll p s = record {
  poll_readable = p.readable && ltb 0 (available_read s.buffer);
  poll_writable = writable p && ltb 0 (available_write s.buffer);
}
