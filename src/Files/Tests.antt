-- ===== src/Files/Tests.antt =====
-- Runs of the calls on files, and the theorems about them at concrete inputs.
use vegar.Prelude.{
  ℕ, zero, suc, ◌≤◌, ◌≡◌, refl, sym, ap, ◌∙◌, ◌⊎◌, none, some, List, [], ◌∷◌, ◌++◌, arith, ltb,
  ◌==◌, if◌then◌else◌, LinuxError, LinuxResult, ok, err, eisdir, enoent, length, take, drop,
  length-take,
}
use vegar.FdTable.Objects.{FlattenObjects}
use vegar.FdTable.Instance.{Slots, flatten}
use vegar.FdTable.Calls.{get_file_like}
use vegar.FilePaths.Text.{Text}
use vegar.FilePaths.Resolve.{Resolved, resolved}
use vegar.Files.Sockets.{Net}
use vegar.Files.Objects.{Inner, Object, stdout}
use vegar.Files.Console.{Console, to_newlines, console_read_bytes, raw_read_loop, raw_read}
use vegar.Files.Input.{Ends, raw_read-Ends}
use vegar.Pointers.Access.{returns, panics}
use vegar.Files.Vectors.{Iovec, UserBuffers, write_fd, writev_loop, sys_writev}
use vegar.Files.Prefix.{Output, gathered, sys_writev_appends}
use vegar.Files.Describe.{Opens}
use vegar.Files.Open.{sys_openat}
use vegar.Files.Fresh.{Adds, sys_openat-Adds}

-- The state is what was written to the console. There are no sockets.
abbrev Log : Type 0
Log = List ℕ

abbrev no_net : Net Log
no_net = record {
  Addr = ⊥;
  UdpSocket = ⊥;
  TcpSocket = ⊥;
  udp_recv_from = λ u len s. elim u [ ];
  udp_send = λ u buf s. elim u [ ];
  udp_send_to = λ u buf addr s. elim u [ ];
  udp_poll = λ u s. elim u [ ];
  udp_set_nonblocking = λ u b s. s;
  tcp_recv = λ t len s. elim t [ ];
  tcp_send = λ t buf s. elim t [ ];
  tcp_listen = λ t s. elim t [ ];
  tcp_accept = λ t s. elim t [ ];
  tcp_poll = λ t s. elim t [ ];
  tcp_set_nonblocking = λ t b s. s;
}

-- A file is a number. The console takes every byte.
abbrev inner : Inner Log
inner = record {
  net = no_net;
  FsFile = ℕ;
  FsDirectory = ℕ;
  Pipe = ⊥;
  file_read = λ f len s. (ok [], s);
  file_write = λ f buf s. (ok (length buf), s);
  file_seek = λ f pos s. (ok 0, s);
  get_attr = λ f s. ok (record { file_type = 8; perm = 0x1a4; size = 5; blocks = 1 });
  pipe_read = λ p len s. elim p [ ];
  pipe_write = λ p buf s. elim p [ ];
  pipe_stat = λ p. elim p [ ];
  pipe_poll = λ p s. elim p [ ];
  stdin_read = λ len s. (ok [], s);
  stdout_write = λ buf s. (ok (length buf), s ++ buf);
}

abbrev table : FlattenObjects (Object inner)
table = flatten 4

-- Descriptor 1 is the standard output.
abbrev open_files : Slots (Object inner)
open_files fd = if fd == 1 then some stdout else none

-- The buffer at an address `a` has the bytes `a`, as many as are asked for, and the array at any
-- address has two buffers.
abbrev bytes_at : ℕ → ℕ → List ℕ
bytes_at a zero = []
bytes_at a (suc n) = a ∷ bytes_at a n

abbrev two_buffers : List Iovec
two_buffers = record { iov_base = 7; iov_len = 2 } ∷ record { iov_base = 8; iov_len = 1 } ∷ []

abbrev buffers : UserBuffers
buffers = record {
  slice_mut = λ a n. returns (ok tt);
  slice = λ a n. if ltb n 0x8000_0000_0000_0000 then returns (ok (bytes_at a n)) else panics;
  iovecs = λ a n. ok two_buffers;
}

take-length : (xs : List ℕ) → take (length xs) xs ≡ xs
take-length [] = refl
take-length (x ∷ xs) = ap (λ (t : List ℕ). x ∷ t) (take-length xs)

console_output : Output inner table buffers open_files 1
unfolding write_fd get_file_like
console_output = record {
  sent = λ s. s;
  sent-ok = λ buf n s e.
      let same : length buf ≡ n = ground (arith, e) in
      (
        omega (arith, same),
        ap (λ (xs : List ℕ). s ++ xs) (sym (take-length buf) ∙ ap (λ (k : ℕ). take k buf) same),
      );
  sent-err = λ buf error s e. ground (arith, e);
}

abbrev expected : List ℕ
expected = 7 ∷ 7 ∷ 8 ∷ []

gathered_bytes : gathered inner table buffers two_buffers ≡ expected
unfolding gathered
gathered_bytes = refl

sys_writev_appends_example :
    (count : ℕ) × (count ≤ length (gathered inner table buffers two_buffers))
    × ((sys_writev inner table buffers open_files 1 0x5000 2 []).1
        ≡ [] ++ take count (gathered inner table buffers two_buffers))
    × (((sys_writev inner table buffers open_files 1 0x5000 2 []).0 ≡ returns (ok count))
        ⊎ (((e : LinuxError) × ((sys_writev inner table buffers open_files 1 0x5000 2 []).0
                ≡ returns (err e)))
            ⊎ ((sys_writev inner table buffers open_files 1 0x5000 2 []).0 ≡ panics)))
unfolding gathered console_output
sys_writev_appends_example =
    sys_writev_appends inner table buffers open_files 1 console_output 0x5000 2 two_buffers []
      (omega arith) refl (omega arith)

whole_write : sys_writev inner table buffers open_files 1 0x5000 2 [] ≡ (returns (ok 3), expected)
unfolding sys_writev writev_loop write_fd get_file_like
whole_write = refl

-- A directory is where a path begins with the letter `d`.
abbrev opens : Opens inner
opens = record {
  open_file = λ dir path opts s. elim path [
    | [] ↦ (err enoent, s)
    | c ∷ cs ↦ if c == 100 then (err eisdir, s) else (ok c, s)
  ];
  open_dir = λ dir path opts s. (ok 1, s);
}

abbrev same_path : ℕ → Text → Resolved
same_path dirfd path = resolved path

sys_openat-Adds_example :
    Adds inner opens table
      (97 ∷ [])
      open_files
      (sys_openat inner opens table same_path 0xffff_ff9c (ok (97 ∷ [])) 0 open_files [])
sys_openat-Adds_example =
    sys_openat-Adds inner opens table same_path 0xffff_ff9c (97 ∷ []) (97 ∷ []) 0 open_files [] refl

-- The console has what was typed.
abbrev typed : Console
typed = record {
  State = List ℕ;
  read_bytes = λ n s. (take n s, drop n s);
  write_bytes = λ buf s. s;
  read_bytes-le = λ n s. omega (arith, length-take n s);
}

raw_read-Ends_example : Ends typed 2 (raw_read typed 2 (104 ∷ 13 ∷ 105 ∷ []))
raw_read-Ends_example = raw_read-Ends typed 2 (104 ∷ 13 ∷ 105 ∷ [])

return_is_newline : raw_read typed 2 (104 ∷ 13 ∷ 105 ∷ []) ≡ some (104 ∷ 10 ∷ [], 105 ∷ [])
unfolding raw_read raw_read_loop console_read_bytes to_newlines
return_is_newline = refl

-- Nothing is typed before the third attempt.
abbrev late : ℕ → LinuxResult (List ℕ)
late i = if ltb i 2 then ok [] else ok (104 ∷ [])
