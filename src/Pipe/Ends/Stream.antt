-- ===== src/Pipe/Ends/Stream.antt =====
-- The pipe as a stream: any interleaving of the rounds of any number of readers and writers, and of
-- ends that are dropped, delivers what was written, in order.
use vegar.Prelude.{
  ℕ, ◌-◌, min, ◌≡◌, refl, sym, ap, ◌∙◌, List, [], ◌++◌, arith, append-nil, append_assoc, take, inl,
  inr, Bool-cases, ◌==◌,
}
use vegar.Pipe.Ring.{PipeRingBuffer, available_read, available_write}
use vegar.Pipe.Ring.Refine.{IsValid, contents, new-IsValid, read_bytes-Taken}
use vegar.Pipe.Ends.{
  SharedBuffer, Round, returned, again, Writing, read_round, write_round, write_bytes, drop_end,
  new_pipe,
}
use vegar.Pipe.Ends.Calls.{Written, write_bytes-Written, take-length}

-- The bytes of `rest` that a round has taken, by its outcome.
abbrev pub taken_by : Writing → Round ℕ Writing → List ℕ
taken_by w (returned n) = take (n - w.1) w.0
taken_by w (again w') = take (w'.1 - w.1) w.0

abbrev pub given_by : Round (List ℕ) (Unit {0}) → List ℕ
given_by (returned bytes) = bytes
given_by (again _) = []

-- A pipe with the bytes that writers have handed over and readers have got, since it was made.
pub record Stream : Type 0 where
  pub shared : SharedBuffer
  pub sent : List ℕ
  pub received : List ℕ

pub data Step (t : Stream) : Stream → Type 0 where
  writer :
      (w : Writing)
      → Step t (record {
        shared = (write_round w t.shared).1;
        sent = t.sent ++ taken_by w (write_round w t.shared).0;
        received = t.received;
      })
  reader :
      (len : ℕ)
      → Step t (record {
        shared = (read_round len t.shared).1;
        sent = t.sent;
        received = t.received ++ given_by (read_round len t.shared).0;
      })
  dropped : Step t (record { shared = drop_end t.shared; sent = t.sent; received = t.received })

pub data Reach (s : Stream) : Stream → Type 0 where
  here : Reach s s
  next : {t u : Stream} → Reach s t → Step t u → Reach s u

abbrev pub fresh : Stream
fresh = record { shared = new_pipe.2; sent = []; received = [] }

pub record InOrder (t : Stream) : Type 0 where
  pub valid : IsValid t.shared.buffer
  pub kept : t.sent ≡ t.received ++ contents t.shared.buffer

-- What a round adds to the bytes that wait is what it has taken.
pub record Appends (w : Writing) (s : SharedBuffer) (out : Round ℕ Writing × SharedBuffer)
    : Type 0 where
  pub valid : IsValid out.1.buffer
  pub bytes : contents out.1.buffer ≡ contents s.buffer ++ taken_by w out.0

-- The bytes that the inner loop has taken, whichever way it stopped.
Written-Appends :
    (k : ℕ) (w : Writing) (s : SharedBuffer) (out : Round ℕ Writing × PipeRingBuffer)
    → Written k w s.buffer out
    → Appends w s (out.0, record { buffer = out.1; strong_count = s.strong_count })
Written-Appends k (rest, n) s (returned m, r') t = record {
  valid = t.2;
  bytes =
      t.3
      ∙ ap (◌++◌ (contents s.buffer))
          (sym (ap (λ i. take i rest) (omega (arith, t.1)) ∙ take-length rest));
}
Written-Appends k (rest, n) s (again w', r') t = record {
  valid = t.3;
  bytes = t.4 ∙ ap (◌++◌ (contents s.buffer)) (ap (λ i. take i rest) (omega (arith, t.2)));
}

take-none : (xs : List ℕ) (n : ℕ) → take (n - n) xs ≡ []
take-none xs n = let none_left : n - n ≡ 0 = omega arith in rw none_left

-- A round that finds no room takes nothing.
Appends-none :
    (w : Writing) (s : SharedBuffer) (out : Round ℕ Writing)
    → IsValid s.buffer
    → taken_by w out ≡ []
    → Appends w s (out, s)
Appends-none w s out v e = record {
  valid = v;
  bytes = sym (ap (◌++◌ (contents s.buffer)) e ∙ append-nil _);
}

write_round-Appends :
    (w : Writing) (s : SharedBuffer) → IsValid s.buffer → Appends w s (write_round w s)
unfolding write_round
write_round-Appends w s v = elim (Bool-cases (available_write s.buffer == 0)) [
  | inl none_left ↦ elim (Bool-cases (s.strong_count == 1)) [
    | inl c ↦ rw (none_left, c) (Appends-none w s (returned w.1) v (take-none w.0 w.1))
    | inr c ↦ rw (none_left, c) (Appends-none w s (again w) v (take-none w.0 w.1))
  ]
  | inr room ↦ rw room (
      Written-Appends (available_write s.buffer) w s
        (write_bytes (available_write s.buffer) w s.buffer)
        (write_bytes-Written (available_write s.buffer) w.0 w.1 v (omega arith)))
]

-- What a round takes off the bytes that wait is what it gives.
record Removes (s : SharedBuffer) (out : Round (List ℕ) (Unit {0}) × SharedBuffer) : Type 0 where
  valid : IsValid out.1.buffer
  bytes : contents s.buffer ≡ given_by out.0 ++ contents out.1.buffer

read_round-Removes : (len : ℕ) (s : SharedBuffer) → IsValid s.buffer → Removes s (read_round len s)
unfolding read_round
read_round-Removes len s v =
    let n = min (available_read s.buffer) len in
    let t = read_bytes-Taken n v (omega arith) in
    elim (Bool-cases (n == 0)) [
      | inl nothing ↦ elim (Bool-cases (s.strong_count == 1)) [
        | inl c ↦ rw (nothing, c) (record { valid = v; bytes = refl })
        | inr c ↦ rw (nothing, c) (record { valid = v; bytes = refl })
      ]
      | inr some_bytes ↦ rw some_bytes (record { valid = t.valid; bytes = t.bytes })
    ]

buffer-drop_end : (s : SharedBuffer) → (drop_end s).buffer ≡ s.buffer
unfolding drop_end
buffer-drop_end s = ground arith

Step-InOrder : {t u : Stream} → Step t u → InOrder t → InOrder u
Step-InOrder {t} (writer w) h =
    let a = write_round-Appends w t.shared h.valid in
    record {
      valid = a.valid;
      kept =
          ap (λ l. l ++ taken_by w (write_round w t.shared).0) h.kept
          ∙ append_assoc t.received (contents t.shared.buffer) _
          ∙ ap (◌++◌ t.received) (sym a.bytes);
    }
Step-InOrder {t} (reader len) h =
    let r = read_round-Removes len t.shared h.valid in
    record {
      valid = r.valid;
      kept =
          h.kept
          ∙ ap (◌++◌ t.received) r.bytes
          ∙ sym (append_assoc t.received (given_by (read_round len t.shared).0) _);
    }
Step-InOrder {t} dropped h = record {
  valid = rw (buffer-drop_end t.shared) h.valid;
  kept = rw (buffer-drop_end t.shared) h.kept;
}

fresh-InOrder : InOrder fresh
unfolding new_pipe available_read
fresh-InOrder = record { valid = new-IsValid; kept = refl }

-- From a fresh pipe, after any interleaving of rounds of `read` and `write` and of dropped ends,
-- the ring buffer is valid, and the bytes that writers have handed over are those that readers have
-- got followed by those that still wait: nothing is lost, repeated or reordered.
pub Reach-InOrder : {t : Stream} → Reach fresh t → InOrder t
Reach-InOrder here = fresh-InOrder
Reach-InOrder (next r st) = Step-InOrder st (Reach-InOrder r)
