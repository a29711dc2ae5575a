-- ===== src/Clone/Tests.antt =====
-- Runs of api/src/imp/task/clone.rs, and the theorems about it at concrete inputs.
use vegar.Prelude.{
  ℕ, ◌≡◌, ◌≢◌, refl, true, Option, none, some, ok, err, einval, arith, lookup, insert, nat_eq,
}
use vegar.Tasks.Tables.{
  ProcessGroup, Thread, Tables, new_tables, add_session, add_group, add_process,
  add_thread_to_table, get_thread, get_process, get_process_group,
}
use vegar.Tasks.Kept.{kept}
use vegar.Tasks.Closed.{Fits}
use vegar.Tasks.Steps.{Reach, adds, start, next}
use vegar.Tasks.Found.{IsFound}
use vegar.Clone.Flags.{clone_flags}
use vegar.Clone.Calls.{
  NewThread, Caller, new_process_data, choose_actions, fork_process, make_thread, sys_clone,
}
use vegar.Clone.Shares.{PlacedBy, sys_clone_child}
use vegar.Clone.Place.{clone_into, begin_task}
use vegar.Clone.Found.{Callable, BelongsTo, clone_into-IsFound}

abbrev signals : ℕ → Option ℕ
signals n = some n

abbrev shell : Caller
shell = record {
  pid = 5;
  parent = some 1;
  has_data = λ p. true;
  clone_aspace = ok tt;
  writable = λ a. ok tt;
  new_tid = 8;
  user_heap_base = 0x40000000;
}

-- A thread without the address space of its caller is refused.
lone_thread : (sys_clone signals shell 0x10000 0 0 0 0).0 ≡ err einval
unfolding sys_clone
lone_thread = refl

-- `VM`, `SIGHAND`, `THREAD` and `PARENT_SETTID`.
sys_clone_child_example :
    let out = sys_clone signals shell 0x110900 4096 64 0 0 in
    (thread : NewThread) × (out.1 ≡ some thread)
    × (◌≡◌ {A = ℕ} 8 8)
    × (thread.tid ≡ 8)
    × (thread.retval ≡ 0)
    × (thread.sp ≡ some 4096)
    × (out.2 ≡ some 8)
    × PlacedBy shell (clone_flags 0x110900) (some 0) thread.process
unfolding sys_clone make_thread
sys_clone_child_example = sys_clone_child signals shell 0x110900 4096 64 0 0 8 refl

-- The shell in the tables.
abbrev jobs : ProcessGroup
jobs = record { pgid = 5; session = 1 }

abbrev shell_thread : Thread
shell_thread = record { tid = 5; process = record { pid = 5; group = jobs } }

abbrev shell_tables : Tables kept
shell_tables = add_thread_to_table kept shell_thread (new_tables kept)

shell_thread-Fits : Fits kept (new_tables kept) shell_thread
unfolding new_tables lookup
shell_thread-Fits = record {
  same_process = λ q e. ground (arith, e);
  same_group = λ g e. ground (arith, e);
  same_session = λ s e. ground (arith, e);
}

shell_reached : Reach kept shell_tables
shell_reached = next (new_tables kept) shell_tables start (adds shell_thread shell_thread-Fits)

shell-Callable : Callable kept shell_thread (λ p. jobs) shell shell_tables
unfolding get_thread get_process get_process_group new_tables lookup insert add_thread_to_table
    add_process add_group add_session
shell-Callable = record { caller = refl; group = refl; parent = λ p e. refl; fresh = refl }

-- A fork.
clone_into-IsFound_example :
    let out = clone_into kept shell_thread (λ p. jobs) signals shell 17 0 0 0 0 shell_tables in
    (child : Thread) × (child.tid ≡ 8)
    × BelongsTo shell_thread (λ p. jobs) shell (clone_flags 17) 8 child.process
    × Reach kept out.1
    × IsFound kept out.1 child
    × ((tid : ℕ) → tid ≢ 8 → get_thread kept out.1 tid ≡ get_thread kept shell_tables tid)
unfolding clone_into sys_clone make_thread fork_process choose_actions new_process_data
clone_into-IsFound_example =
    clone_into-IsFound kept shell_thread (λ p. jobs) shell shell_tables shell_reached shell-Callable
      signals 17 0 0 0 0 8 refl

abbrev word_of_child : Option NewThread → ℕ
word_of_child none = 0
word_of_child (some th) = begin_task th (λ x. 1) 64

-- With `CHILD_SETTID` the child finds its id in its memory.
child_finds_id : word_of_child (sys_clone signals shell 0x1000011 0 0 64 0).1 ≡ 8
unfolding sys_clone make_thread fork_process choose_actions new_process_data begin_task
child_finds_id = refl
