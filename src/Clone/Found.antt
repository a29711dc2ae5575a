-- ===== src/Clone/Found.antt =====
-- The threads that `sys_clone` of api/src/imp/task/clone.rs adds to the tables of core/src/task.rs.
use mathlib.Core.Path.{subst}
use vegar.Prelude.{
  ℕ, ◌≡◌, ◌≢◌, ◌⊎◌, refl, sym, ap, ◌∙◌, inl, inr, Option, some, arith, ok, ok_or, true, false, err,
  esrch, Bool-cases, if◌then◌else◌,
}
use vegar.Tasks.Tables.{
  WeakMap, ProcessGroup, Process, Thread, Tables, add_thread_to_table, get_thread, get_process,
  get_process_group,
}
use vegar.Tasks.Closed.{IsClosed, Fits}
use vegar.Tasks.Steps.{Reach, Reach-IsClosed, Reach-finds, get-add_thread_to_table, ok_or-some}
use vegar.Tasks.Found.{IsFound, added_IsFound}
use vegar.Clone.Calls.{NewThread, Caller}
use vegar.Clone.Flags.{clone_parent, clone_thread, clone_flags, exit_signal_bits, contains}
use vegar.Clone.Shares.{PlacedBy, sys_clone_child}
use vegar.Clone.Place.{child_process, child_thread, add_child, clone_into}

module _ (W : WeakMap) where
  -- What one look-up finds, and what it does not.
  unwrap : {V : Type 0} (o : Option V) (v q : V) → o ≡ some v → o ≡ some q → q ≡ v
  unwrap o v q e f = ground (arith, e, f)

  -- A group whose numbers are in the tables as its own is the only one there.
  Fits-in_group :
      (t : Tables W) (th : Thread)
      → IsClosed W t
      → ((q : Process) → W.get t.processes_by_pid th.process.pid ≡ some q → q ≡ th.process)
      → W.get t.groups th.process.group.pgid ≡ some th.process.group
      → Fits W t th
  Fits-in_group t th closed same there = record {
    same_process = same;
    same_group = λ g e. unwrap (W.get t.groups th.process.group.pgid) th.process.group g there e;
    same_session = λ s e.
        unwrap (W.get t.sessions th.process.group.session) th.process.group.session s
          (closed.of_group th.process.group.pgid th.process.group there) e;
  }

module _ (own : Thread) (group_of : ℕ → ProcessGroup) (c : Caller) where
  -- Whose thread the child is.
  abbrev pub BelongsTo : ℕ → ℕ → Process → Type 0
  BelongsTo flags n p =
      ((contains flags clone_thread ≡ true) × (p ≡ own.process))
      ⊎ ((contains flags clone_thread ≡ false)
          × (parent : ℕ) × ((if contains flags clone_parent then c.parent else some c.pid)
              ≡ some parent)
          × (p ≡ record { pid = n; group = group_of parent }))

module _ (W : WeakMap) (own : Thread) (group_of : ℕ → ProcessGroup) (c : Caller)
    (t : Tables W) where
  -- What the tables and axprocess say of the caller, of its parent and of the new id.
  pub record Callable : Type 0 where
    pub caller : get_thread W t own.tid ≡ ok own
    pub group : group_of c.pid ≡ own.process.group
    pub parent :
        (p : ℕ) → c.parent ≡ some p → get_process_group W t (group_of p).pgid ≡ ok (group_of p)
    pub fresh : get_process W t c.new_tid ≡ err esrch

  is_absent : (o : Option Process) (q : Process) → ok_or o esrch ≡ err esrch → o ≢ some q
  is_absent o q e f = ground (arith, e, f)

  module _ (reached : Reach W t) (callable : Callable) where
    own_group : W.get t.groups (group_of c.pid).pgid ≡ some (group_of c.pid)
    unfolding get_process_group
    own_group =
        let (_, g, _) = Reach-finds W t reached own.tid own callable.caller in
        subst (λ group. W.get t.groups group.pgid ≡ some group) (sym callable.group)
          (ok_or-some W (W.get t.groups own.process.group.pgid) own.process.group g)

    parent_group :
        (flags p : ℕ)
        → (if contains flags clone_parent then c.parent else some c.pid) ≡ some p
        → W.get t.groups (group_of p).pgid ≡ some (group_of p)
    unfolding get_process_group
    parent_group flags p e = elim (Bool-cases (contains flags clone_parent)) [
      | inl set ↦
          ok_or-some W (W.get t.groups (group_of p).pgid) (group_of p)
            (callable.parent p (ground (arith, set, e)))
      | inr clear ↦
          subst (λ q. W.get t.groups (group_of q).pgid ≡ some (group_of q))
            (ground (arith, clear, e)) own_group
    ]

    child-Fits :
        (flags : ℕ) (exit_signal : Option ℕ) (th : NewThread)
        → th.tid ≡ c.new_tid
        → PlacedBy c flags exit_signal th.process
        → Fits W t (child_thread own group_of th)
    unfolding child_process get_process get_process_group
    child-Fits flags exit_signal th same (inl (_, _, e)) =
        let (p, g, _) = Reach-finds W t reached own.tid own callable.caller in
        rw e (
          Fits-in_group W t (record { tid = th.tid; process = own.process })
            (Reach-IsClosed W t reached)
            (λ q f.
              unwrap W (W.get t.processes_by_pid own.process.pid) own.process q
                (ok_or-some W (W.get t.processes_by_pid own.process.pid) own.process p) f)
            (ok_or-some W (W.get t.groups own.process.group.pgid) own.process.group g))
    child-Fits flags exit_signal th same (inr (_, parent, who, e)) = rw e (
        Fits-in_group W t
          (record { tid = th.tid; process = record { pid = th.tid; group = group_of parent } })
          (Reach-IsClosed W t reached)
          (λ q f. absurd (
            is_absent (W.get t.processes_by_pid c.new_tid) q callable.fresh
              (ap (λ k. W.get t.processes_by_pid k) (sym same) ∙ f)))
          (parent_group flags parent who))

    child-BelongsTo :
        (flags n : ℕ) (exit_signal : Option ℕ) (th : NewThread)
        → th.tid ≡ n
        → PlacedBy c flags exit_signal th.process
        → BelongsTo own group_of c flags n (child_process own group_of th.tid th.process)
    unfolding child_process
    child-BelongsTo flags n exit_signal th same (inl (set, _, e)) = inl (set, rw e refl)
    child-BelongsTo flags n exit_signal th same (inr (clear, parent, who, e)) =
        inr (clear, parent, who, rw (e, same) refl)

    -- From tables that adding threads and ending objects has led to, in which the caller is found, with
    -- the group of its parent if it has one, and no process has the id of the new task: a `sys_clone`
    -- that succeeds adds a thread with the id that it returns. With `THREAD` that is a thread of the
    -- caller's process, else one of a new process, with the same id and in the group of the caller or,
    -- with `PARENT`, of the caller's parent. Then the calls that look tasks up find the thread, its
    -- process, its group and its session, and every other thread as before.
    pub clone_into-IsFound :
        (from_repr : ℕ → Option ℕ) (bits stack parent_tid child_tid tls n : ℕ)
        → let out = clone_into W own group_of from_repr c bits stack parent_tid child_tid tls t in
          out.0 ≡ ok n
          → (child : Thread) × (child.tid ≡ n)
            × BelongsTo own group_of c (clone_flags bits) n child.process
            × Reach W out.1
            × IsFound W out.1 child
            × ((tid : ℕ) → tid ≢ n → get_thread W out.1 tid ≡ get_thread W t tid)
    unfolding clone_into add_child
    clone_into-IsFound from_repr bits stack parent_tid child_tid tls n done =
        let (th, made, new, same, _, _, _, placed) =
          sys_clone_child from_repr c bits stack parent_tid child_tid tls n done in
        let child = child_thread own group_of th in
        let signal = from_repr (exit_signal_bits bits) in
        let fits = child-Fits (clone_flags bits) signal th (same ∙ new) placed in
        let (reached', found) = added_IsFound W t child reached fits in
        let others : (tid : ℕ)
            → tid ≢ n
            → get_thread W (add_thread_to_table W child t) tid ≡ get_thread W t tid =
          λ tid other. get-add_thread_to_table W child t tid ∙ ground (arith, same, other) in
        rw made (
          child,
          same,
          child-BelongsTo (clone_flags bits) n signal th same placed,
          reached',
          found,
          others,
        )
