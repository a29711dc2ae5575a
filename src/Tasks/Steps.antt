-- ===== src/Tasks/Steps.antt =====
-- The tables of core/src/task.rs while threads are added and objects end.
use vegar.Prelude.{
  ℕ, ◌≡◌, ◌≢◌, refl, sym, ◌∙◌, Option, none, some, ◌==◌, ==_iff, if◌then◌else◌, Bool-cases, inl,
  inr, arith, ok, esrch, ok_or,
}
use vegar.Tasks.Tables.{
  WeakMap, ProcessGroup, Process, Thread, Tables, new_tables, add_session, add_group, add_process,
  add_thread_to_table, get_thread, get_process, get_process_group, get_session,
}
use vegar.Tasks.Closed.{IsClosed, Fits, add_thread_to_table-IsClosed}

module _ (W : WeakMap) where
  -- A thread owns its process, a process its group and a group its session, so that what the tables
  -- still hold keeps what it belongs to from ending.
  pub data Step (t : Tables W) : Tables W → Type 0 where
    adds : (th : Thread) → Fits W t th → Step t (add_thread_to_table W th t)
    thread_ends : (k : ℕ) → Step t (record t { threads = W.expire t.threads k })
    process_ends :
        (k : ℕ)
        → ((j : ℕ) (th : Thread) → W.get t.threads j ≡ some th → th.process.pid ≢ k)
        → Step t (record t { processes_by_pid = W.expire t.processes_by_pid k })
    group_ends :
        (k : ℕ)
        → ((j : ℕ) (p : Process) → W.get t.processes_by_pid j ≡ some p → p.group.pgid ≢ k)
        → Step t (record t { groups = W.expire t.groups k })
    session_ends :
        (k : ℕ)
        → ((j : ℕ) (g : ProcessGroup) → W.get t.groups j ≡ some g → g.session ≢ k)
        → Step t (record t { sessions = W.expire t.sessions k })

  pub data Reach : Tables W → Type 0 where
    start : Reach (new_tables W)
    next : (t u : Tables W) → Reach t → Step t u → Reach u

module _ (W : WeakMap) {V : Type 0} where
  get-expire_some :
      (m : W.Map V) (k j : ℕ) (v : V) → W.get (W.expire m k) j ≡ some v → W.get m j ≡ some v
  get-expire_some m k j v there = ground (arith, W.get-expire m k j)

  get-expire_other :
      (m : W.Map V) (k j : ℕ) (v : V) → j ≢ k → W.get m j ≡ some v → W.get (W.expire m k) j ≡ some v
  get-expire_other m k j v other there = elim (Bool-cases (k == j)) [
    | inl e ↦ absurd (other (sym ((==_iff k j).0 e)))
    | inr e ↦ W.get-expire m k j ∙ rw e there
  ]

module _ (W : WeakMap) where
  new_tables-IsClosed : IsClosed W (new_tables W)
  unfolding new_tables
  new_tables-IsClosed = record {
    of_thread = λ k th e. ground (arith, W.get-empty {V = Thread} k);
    of_process = λ k p e. ground (arith, W.get-empty {V = Process} k);
    of_group = λ k g e. ground (arith, W.get-empty {V = ProcessGroup} k);
  }

  Step-IsClosed : (t u : Tables W) → Step W t u → IsClosed W t → IsClosed W u
  Step-IsClosed t _ (adds th fits) closed = add_thread_to_table-IsClosed W th t fits closed
  Step-IsClosed t _ (thread_ends k) closed = record {
    of_thread = λ j th e. closed.of_thread j th (get-expire_some W t.threads k j th e);
    of_process = closed.of_process;
    of_group = closed.of_group;
  }
  Step-IsClosed t _ (process_ends k unused) closed = record {
    of_thread = λ j th e.
        get-expire_other W t.processes_by_pid k th.process.pid th.process (unused j th e)
          (closed.of_thread j th e);
    of_process = λ j p e. closed.of_process j p (get-expire_some W t.processes_by_pid k j p e);
    of_group = closed.of_group;
  }
  Step-IsClosed t _ (group_ends k unused) closed = record {
    of_thread = closed.of_thread;
    of_process = λ j p e.
        get-expire_other W t.groups k p.group.pgid p.group (unused j p e) (closed.of_process j p e);
    of_group = λ j g e. closed.of_group j g (get-expire_some W t.groups k j g e);
  }
  Step-IsClosed t _ (session_ends k unused) closed = record {
    of_thread = closed.of_thread;
    of_process = closed.of_process;
    of_group = λ j g e.
        get-expire_other W t.sessions k g.session g.session (unused j g e) (closed.of_group j g e);
  }

  pub Reach-IsClosed : (t : Tables W) → Reach W t → IsClosed W t
  Reach-IsClosed _ start = new_tables-IsClosed
  Reach-IsClosed u (next t _ r s) = Step-IsClosed t u s (Reach-IsClosed t r)

  pub ok_or-some : {A : Type 0} (o : Option A) (a : A) → ok_or o esrch ≡ ok a → o ≡ some a
  ok_or-some none a e = ground (arith, e)
  ok_or-some (some b) a e = ground (arith, e)

  -- In every state that the tables reach by adding threads whose numbers nothing else has, and by the
  -- end of objects that nothing in the tables belongs to, a thread that `get_thread` finds has its
  -- process found by `get_process`, its group by `get_process_group` and its session by
  -- `get_session`.
  pub Reach-finds :
      (t : Tables W)
      → Reach W t
      → (tid : ℕ) (th : Thread) → get_thread W t tid ≡ ok th
      → (get_process W t th.process.pid ≡ ok th.process)
        × (get_process_group W t th.process.group.pgid ≡ ok th.process.group)
        × (get_session W t th.process.group.session ≡ ok th.process.group.session)
  unfolding get_thread get_process get_process_group get_session
  Reach-finds t r tid th found =
      let closed = Reach-IsClosed t r in
      let p = closed.of_thread tid th (ok_or-some (W.get t.threads tid) th found) in
      let g = closed.of_process th.process.pid th.process p in
      let s = closed.of_group th.process.group.pgid th.process.group g in
      (rw p refl, rw g refl, rw s refl)

  add_session_threads : (s : ℕ) (t : Tables W) → (add_session W s t).threads ≡ t.threads
  unfolding add_session
  add_session_threads s t = ground arith

  add_group_threads : (g : ProcessGroup) (t : Tables W) → (add_group W g t).threads ≡ t.threads
  unfolding add_group
  add_group_threads g t =
      ground
        (arith, add_session_threads g.session (record t { groups = W.insert t.groups g.pgid g }))

  add_process_threads : (p : Process) (t : Tables W) → (add_process W p t).threads ≡ t.threads
  unfolding add_process
  add_process_threads p t = ground (
    arith,
    add_group_threads p.group (record t { processes_by_pid = W.insert t.processes_by_pid p.pid p }),
  )

  -- After `add_thread_to_table`, `get_thread` finds the new thread, and every other one as before.
  pub get-add_thread_to_table :
      (th : Thread) (t : Tables W) (tid : ℕ)
      → get_thread W (add_thread_to_table W th t) tid
        ≡ (if th.tid == tid then ok th else get_thread W t tid)
  unfolding get_thread add_thread_to_table
  get-add_thread_to_table th t tid =
      let same =
        add_process_threads th.process (record t { threads = W.insert t.threads th.tid th }) in
      rw (same, W.get-insert t.threads th.tid th tid) (ground arith)
