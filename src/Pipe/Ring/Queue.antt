-- ===== src/Pipe/Ring/Queue.antt =====
-- What the ring buffer of api/src/file/pipe.rs promises: a first-in first-out queue of at most
-- `ring_buffer_size` bytes. A client writes only with room, and reads only with bytes waiting, as the
-- two ends of a pipe do.
use mathlib.Core.Path.{subst}
use vegar.Prelude.{
  ℕ, ◌<◌, ◌≡◌, refl, sym, ap, ◌∙◌, true, false, inl, inr, Bool-cases, Option, none, some, List, [],
  ◌∷◌, ◌++◌, arith, ltb, ◌==◌, if◌then◌else◌, length,
}
use vegar.Pipe.Ring.{
  PipeRingBuffer, ring_buffer_size, write_byte, read_byte, available_read, available_write,
}
use vegar.Pipe.Ring.Refine.{
  IsValid, contents, length-window, available_bounds, write_byte-IsValid, read_byte-IsValid,
  contents-write_byte, contents-read_byte,
}

pub data Op : Type 0 where
  put : ℕ → Op
  take : Op

-- What a call gives, and what is left.
unfoldable pub step_ring : Op → PipeRingBuffer → Option ℕ × PipeRingBuffer
step_ring (put b) r = if available_write r == 0 then (none, r) else (none, write_byte r b)
step_ring take r =
    if available_read r == 0 then (none, r) else (some (read_byte r).0, (read_byte r).1)

-- The same calls on the queue.
unfoldable pub step_queue : Op → List ℕ → Option ℕ × List ℕ
step_queue (put b) q = if ltb (length q) ring_buffer_size then (none, q ++ b ∷ []) else (none, q)
step_queue take [] = (none, [])
step_queue take (b ∷ q) = (some b, q)

unfoldable pub run_ring : List Op → PipeRingBuffer → List (Option ℕ) × PipeRingBuffer
run_ring [] r = ([], r)
run_ring (op ∷ ops) r =
    let (out, r') = step_ring op r in let (outs, r'') = run_ring ops r' in (out ∷ outs, r'')

unfoldable pub run_queue : List Op → List ℕ → List (Option ℕ) × List ℕ
run_queue [] q = ([], q)
run_queue (op ∷ ops) q =
    let (out, q') = step_queue op q in let (outs, q'') = run_queue ops q' in (out ∷ outs, q'')

-- One call on both sides.
pub record Simulates (r : PipeRingBuffer) (op : Op) (x : Option ℕ × PipeRingBuffer) : Type 0 where
  pub valid : IsValid x.1
  pub same : step_queue op (contents r) ≡ (x.0, contents x.1)

length-contents : (r : PipeRingBuffer) → length (contents r) ≡ available_read r
length-contents r = length-window r.arr r.head (available_read r)

contents_empty : (r : PipeRingBuffer) → available_read r ≡ 0 → contents r ≡ []
contents_empty r h =
    elim (contents r) as (λ q. length q ≡ available_read r → q ≡ []) [
      | [] ↦ λ e. refl
      | b ∷ q ↦ λ e. absurd (omega (arith, e, h))
    ]
      (length-contents r)

step_ring-Simulates : (op : Op) (r : PipeRingBuffer) → IsValid r → Simulates r op (step_ring op r)
unfolding step_ring
step_ring-Simulates (put b) r v = elim (Bool-cases (available_write r == 0)) [
  | inl none_left ↦
      let no_room : ltb (length (contents r)) ring_buffer_size ≡ false =
        ground (arith, none_left, length-contents r, available_bounds v) in
      rw none_left (record { valid = v; same = unfold step_queue in rw no_room refl })
  | inr some_left ↦
      let room : 0 < available_write r = ground (arith, some_left) in
      let fits : ltb (length (contents r)) ring_buffer_size ≡ true =
        ground (arith, room, length-contents r, available_bounds v) in
      rw some_left (record {
        valid = write_byte-IsValid b v;
        same =
            unfold step_queue in
            rw fits (ap (λ (q : List ℕ). (none, q)) (sym (contents-write_byte b v room)));
      })
]
step_ring-Simulates take r v = elim (Bool-cases (available_read r == 0)) [
  | inl nothing ↦
      let empty : contents r ≡ [] = contents_empty r (ground (arith, nothing)) in
      rw nothing (record {
        valid = v;
        same =
            subst (λ (q : List ℕ). step_queue take q ≡ (none, q)) (sym empty)
              (unfold step_queue in refl);
      })
  | inr something ↦
      let there : 0 < available_read r = ground (arith, something) in
      rw something (record {
        valid = read_byte-IsValid v;
        same = ap (step_queue take) (contents-read_byte v there) ∙ (unfold step_queue in refl);
      })
]

-- From a valid ring buffer, any sequence of guarded writes and reads gives what the same calls give on
-- a queue that begins with the waiting bytes and holds at most `ring_buffer_size`; afterwards the buffer
-- is valid and its waiting bytes are those of the queue.
pub run_ring_refines :
    (ops : List Op) (r : PipeRingBuffer)
    → IsValid r
    → IsValid (run_ring ops r).1
      × (run_queue ops (contents r) ≡ ((run_ring ops r).0, contents (run_ring ops r).1))
unfolding run_ring run_queue
run_ring_refines [] r v = (v, refl)
run_ring_refines (op ∷ ops) r v =
    let s = step_ring-Simulates op r v in
    let x = step_ring op r in
    let (valid, later) = run_ring_refines ops x.1 s.valid in
    (
      valid,
      ap (λ (y : Option ℕ × List ℕ). (y.0 ∷ (run_queue ops y.1).0, (run_queue ops y.1).1)) s.same
          ∙ ap (λ (z : List (Option ℕ) × List ℕ). (x.0 ∷ z.0, z.1)) later,
    )
