-- ===== src/Tasks/Tests.antt =====
-- Runs of the tables of core/src/task.rs, and the theorems about them at concrete inputs.
use vegar.Prelude.{nat_eq, ◌≡◌, refl, some, arith, ok, err, esrch, lookup, insert, remove}
use vegar.Tasks.Tables.{
  Process, Thread, Tables, new_tables, add_session, add_group, add_process, add_thread_to_table,
  get_thread, get_process, get_process_group, get_session,
}
use vegar.Tasks.Kept.{kept}
use vegar.Tasks.Closed.{Fits}
use vegar.Tasks.Steps.{Reach, adds, thread_ends, start, next, Reach-finds}

abbrev shell : Process
shell = record { pid = 5; group = record { pgid = 1; session = 1 } }

abbrev main_thread : Thread
main_thread = record { tid = 5; process = shell }

abbrev side_thread : Thread
side_thread = record { tid = 6; process = shell }

abbrev one : Tables kept
one = add_thread_to_table kept main_thread (new_tables kept)

abbrev two : Tables kept
two = add_thread_to_table kept side_thread one

main_thread-Fits : Fits kept (new_tables kept) main_thread
unfolding new_tables lookup
main_thread-Fits = record {
  same_process = λ q e. ground (arith, e);
  same_group = λ g e. ground (arith, e);
  same_session = λ s e. ground (arith, e);
}

unwrap : {A : Type 0} {a b : A} → some a ≡ some b → b ≡ a
unwrap e = ground (arith, e)

side_thread-Fits : Fits kept one side_thread
unfolding new_tables lookup insert add_thread_to_table add_process add_group add_session
side_thread-Fits = record {
  same_process = λ q e. unwrap e;
  same_group = λ g e. unwrap e;
  same_session = λ s e. unwrap e;
}

both_threads : Reach kept two
both_threads =
    next one two (next (new_tables kept) one start (adds main_thread main_thread-Fits))
      (adds side_thread side_thread-Fits)

abbrev after_main : Tables kept
after_main = record two { threads = kept.expire two.threads 5 }

main_ended : Reach kept after_main
main_ended = next two after_main both_threads (thread_ends 5)

-- The process outlives its first thread.
side_is_found : get_thread kept after_main 6 ≡ ok side_thread
unfolding get_thread new_tables lookup insert remove add_thread_to_table add_process add_group
    add_session
side_is_found = refl

main_is_gone : get_thread kept after_main 5 ≡ err esrch
unfolding get_thread new_tables lookup insert remove add_thread_to_table add_process add_group
    add_session
main_is_gone = refl

Reach-finds_example :
    (get_process kept after_main 5 ≡ ok shell)
    × (get_process_group kept after_main 1 ≡ ok (record { pgid = 1; session = 1 }))
    × (get_session kept after_main 1 ≡ ok 1)
Reach-finds_example = Reach-finds kept after_main main_ended 6 side_thread side_is_found
