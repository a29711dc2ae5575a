-- ===== src/Pipe/Tests.antt =====
-- Runs of the pipe of api/src/file/pipe.rs, and the theorems about it at concrete inputs.
use vegar.Prelude.{
  List, ◌≡◌, refl, true, false, none, some, [], ◌∷◌, ◌++◌, arith, replicate, ok, err, eperm,
}
use vegar.Pipe.Ring.{PipeRingBuffer, normal, write_byte, read_byte, available_read, available_write}
use vegar.Pipe.Ring.Refine.{IsValid, contents}
use vegar.Pipe.Ring.Queue.{Op, put, take, step_queue, run_ring, run_queue, run_ring_refines}
use vegar.Pipe.Ends.{Pipe, SharedBuffer, read, write, write_round, read_round, new_pipe, drop_end}
use vegar.Pipe.Ends.Calls.{write_exact_fit_waits}
use vegar.Pipe.Ends.Stream.{writer, reader, dropped, here, next, fresh, InOrder, Reach-InOrder}

-- The last byte of the storage and the first wait.
abbrev wrapped : PipeRingBuffer
wrapped = record { arr = 9 ∷ replicate 254 0 ++ (8 ∷ []); head = 255; tail = 1; status = normal }

-- One byte is free.
abbrev nearly_full : PipeRingBuffer
nearly_full = record { arr = replicate 256 7; head = 0; tail = 255; status = normal }

abbrev shared : SharedBuffer
shared = record { buffer = wrapped; strong_count = 2 }

abbrev read_end : Pipe
read_end = record { readable = true }

abbrev write_end : Pipe
write_end = record { readable = false }

abbrev wrapped-IsValid : IsValid wrapped
wrapped-IsValid = record {
  storage = refl;
  head_in = omega arith;
  tail_in = omega arith;
  fits = omega arith;
}

abbrev nearly_full-IsValid : IsValid nearly_full
nearly_full-IsValid = record {
  storage = refl;
  head_in = omega arith;
  tail_in = omega arith;
  fits = omega arith;
}

contents-wrapped : contents wrapped ≡ 8 ∷ 9 ∷ []
unfolding available_read
contents-wrapped = refl

write_on_read_end : (write read_end [] (1 ∷ []) shared).0 ≡ some (err eperm)
unfolding write
write_on_read_end = refl

read_after_close : (read read_end [] 4 (drop_end new_pipe.2)).0 ≡ some (ok [])
unfolding read drop_end new_pipe available_read
read_after_close = refl

write_exact_fit_waits_example :
    let s : SharedBuffer = record { buffer = nearly_full; strong_count = 2 } in
    let (out, s') = write write_end (replicate 9 (λ t. t)) (5 ∷ []) s in
    (out ≡ none)
    × (contents s'.buffer ≡ contents nearly_full ++ (5 ∷ []))
    × (available_write s'.buffer ≡ 0)
unfolding available_write
write_exact_fit_waits_example =
    write_exact_fit_waits write_end (record { buffer = nearly_full; strong_count = 2 })
      nearly_full-IsValid 9 (5 ∷ []) refl (omega arith) (omega arith) (omega arith)

Reach-InOrder_example : InOrder (record fresh {
  shared = drop_end (read_round 1 (write_round (4 ∷ 5 ∷ [], 0) fresh.shared).1).1;
  sent = 4 ∷ 5 ∷ [];
  received = 4 ∷ [];
})
unfolding write_round read_round new_pipe available_write available_read write_byte read_byte
Reach-InOrder_example =
    Reach-InOrder (next (next (next here (writer (4 ∷ 5 ∷ [], 0))) (reader 1)) dropped)

-- The two bytes that wait, one more, and a read from the empty buffer.
abbrev few_calls : List Op
few_calls = take ∷ put 5 ∷ take ∷ take ∷ take ∷ []

run_ring_refines_example :
    IsValid (run_ring few_calls wrapped).1
    × (run_queue few_calls (contents wrapped)
        ≡ ((run_ring few_calls wrapped).0, contents (run_ring few_calls wrapped).1))
run_ring_refines_example = run_ring_refines few_calls wrapped wrapped-IsValid

queue_answers : (run_queue few_calls (8 ∷ 9 ∷ [])).0 ≡ some 8 ∷ none ∷ some 9 ∷ some 5 ∷ none ∷ []
unfolding run_queue step_queue
queue_answers = refl
