-- ===== src/Clone/Shares.antt =====
-- What a child of `sys_clone` in api/src/imp/task/clone.rs has from its caller.
use mathlib.Core.Path.{subst}
use vegar.Prelude.{
  ℕ, ◌+◌, ◌≡◌, ◌⊎◌, refl, sym, ap, ◌∙◌, inl, inr, true, false, ◌&&◌, Option, none, some, arith,
  ◌==◌, if◌then◌else◌, Bool-cases, Option-cases, LinuxResult, ok, LinuxResult-cases, ◌>>◌,
}
use vegar.Clone.Flags.{
  clone_vm, clone_fs, clone_files, clone_sighand, clone_parent, clone_thread, clone_flags,
  clone_parent_settid, clone_child_settid, exit_signal_bits, contains,
}
use vegar.Clone.Calls.{
  copied, default_actions, actions_of, Placement, own_process, new_process, NewThread, Caller,
  new_process_data, share_if, choose_actions, fork_process, new_thread, make_thread, sys_clone,
  sys_fork,
}

-- The process of a child by the flags.
abbrev pub PlacedBy : Caller → ℕ → Option ℕ → Placement → Type 0
PlacedBy c flags exit_signal place =
    ((contains flags clone_thread ≡ true)
      × (contains flags (clone_vm + clone_sighand) ≡ true)
      × (place ≡ own_process))
    ⊎ ((contains flags clone_thread ≡ false)
        × (parent : ℕ) × ((if contains flags clone_parent then c.parent else some c.pid)
            ≡ some parent)
        × (place
            ≡ new_process parent (record {
              aspace = share_if (contains flags clone_vm);
              signal_actions =
                  if contains flags clone_sighand && c.has_data parent
                  then actions_of parent
                  else default_actions;
              exit_signal = exit_signal;
              heap_bottom = c.user_heap_base;
              heap_top = c.user_heap_base;
              files = share_if (contains flags clone_files);
              working_dir = share_if (contains flags clone_fs);
            })))

fork_process_lem :
    (c : Caller) (flags : ℕ) (exit_signal : Option ℕ) (place : Placement)
    → contains flags clone_thread ≡ false
    → fork_process c flags exit_signal ≡ ok place
    → PlacedBy c flags exit_signal place
unfolding fork_process choose_actions new_process_data
fork_process_lem c flags exit_signal place alone e =
    elim (Bool-cases (contains flags clone_parent)) [
      | inl same ↦ elim (Option-cases c.parent) [
        | inl orphan ↦ ground (arith, same, orphan)
        | inr (parent, there) ↦ elim (Bool-cases (contains flags clone_vm)) [
          | inl vm ↦
              inr (alone, parent, ground (arith, same, there), ground (arith, same, there, vm))
          | inr own ↦ elim (LinuxResult-cases c.clone_aspace) [
            | inl (error, f) ↦ ground (arith, same, there, own, f)
            | inr (u, f) ↦
                inr
                  (alone, parent, ground (arith, same, there), ground (arith, same, there, own, f))
          ]
        ]
      ]
      | inr other ↦ elim (Bool-cases (contains flags clone_vm)) [
        | inl vm ↦ inr (alone, c.pid, ground (arith, other), ground (arith, other, vm))
        | inr own ↦ elim (LinuxResult-cases c.clone_aspace) [
          | inl (error, f) ↦ ground (arith, other, own, f)
          | inr (u, f) ↦ inr (alone, c.pid, ground (arith, other), ground (arith, other, own, f))
        ]
      ]
    ]

-- A success of `make_thread`.
abbrev pub Made :
    Caller → ℕ → Option ℕ → ℕ → ℕ → LinuxResult ℕ × Option NewThread × Option ℕ → Type 0
Made c flags exit_signal stack n out =
    (thread : NewThread) × (out.1 ≡ some thread)
    × (n ≡ c.new_tid)
    × (thread.tid ≡ n)
    × (thread.retval ≡ 0)
    × (thread.sp ≡ (if stack == 0 then none else some stack))
    × (out.2 ≡ (if contains flags clone_parent_settid then some n else none))
    × PlacedBy c flags exit_signal thread.process

make_thread_lem :
    (from_repr : ℕ → Option ℕ) (c : Caller) (flags signal stack parent_tid child_tid tls n : ℕ)
    → (contains flags clone_thread ≡ true → contains flags (clone_vm + clone_sighand) ≡ true)
    → (make_thread from_repr c flags signal stack parent_tid child_tid tls).0 ≡ ok n
    → Made c flags
        (from_repr signal)
        stack
        n
        (make_thread from_repr c flags signal stack parent_tid child_tid tls)
unfolding make_thread
make_thread_lem from_repr c flags signal stack parent_tid child_tid tls n both e =
    let words : LinuxResult (Unit {0}) =
      (if contains flags clone_child_settid then c.writable child_tid else ok tt)
      >> (if contains flags clone_parent_settid then c.writable parent_tid else ok tt) in
    elim (LinuxResult-cases words) [
      | inl (error, w) ↦ ground (arith, w)
      | inr (u, w) ↦ elim (Bool-cases (contains flags clone_thread)) [
        | inl thread ↦ (
          new_thread c flags stack child_tid tls own_process,
          ground (arith, w, thread),
          ground (arith, w, thread),
          ground (arith, w, thread),
          refl,
          refl,
          ground (arith, w, thread),
          inl (thread, both thread, refl),
        )
        | inr alone ↦ elim (LinuxResult-cases (fork_process c flags (from_repr signal))) [
          | inl (error, f) ↦ ground (arith, w, alone, f)
          | inr (place, f) ↦ (
            new_thread c flags stack child_tid tls place,
            ground (arith, w, alone, f),
            ground (arith, w, alone, f),
            ground (arith, w, alone, f),
            refl,
            refl,
            ground (arith, w, alone, f),
            fork_process_lem c flags (from_repr signal) place alone f,
          )
        ]
      ]
    ]

-- A `sys_clone` that succeeds returns the id of the new task, which it writes to `parent_tid`
-- where that is asked for. The new thread sees the result 0, and has the stack that is given, or
-- else that of the caller. With `THREAD` the thread is one of the caller's process, and both `VM`
-- and `SIGHAND` are set. Without it the thread has a new process, a child of the caller or, with
-- `PARENT`, of the caller's parent; it shares the address space, the files and the working
-- directory just as `VM`, `FILES` and `FS` say, its break is at the base of the heap, and its exit
-- signal is that of the low 8 bits. Its signal actions are those of the new process's parent, with
-- `SIGHAND` and if that has its data, and else the default ones.
pub sys_clone_child :
    (from_repr : ℕ → Option ℕ) (c : Caller) (bits stack parent_tid child_tid tls n : ℕ)
    → (sys_clone from_repr c bits stack parent_tid child_tid tls).0 ≡ ok n
    → let flags = clone_flags bits in
      let out = sys_clone from_repr c bits stack parent_tid child_tid tls in
      (thread : NewThread) × (out.1 ≡ some thread)
      × (n ≡ c.new_tid)
      × (thread.tid ≡ n)
      × (thread.retval ≡ 0)
      × (thread.sp ≡ (if stack == 0 then none else some stack))
      × (out.2 ≡ (if contains flags clone_parent_settid then some n else none))
      × PlacedBy c flags (from_repr (exit_signal_bits bits)) thread.process
unfolding sys_clone
sys_clone_child from_repr c bits stack parent_tid child_tid tls n e =
    let flags = clone_flags bits in
    let signal = exit_signal_bits bits in
    let made = make_thread from_repr c flags signal stack parent_tid child_tid tls in
    let both : contains flags clone_thread ≡ true
        → contains flags (clone_vm + clone_sighand) ≡ true =
      λ thread. ground (arith, thread) in
    let call : sys_clone from_repr c bits stack parent_tid child_tid tls ≡ made = ground arith in
    let success : made.0 ≡ ok n = ap (λ r. r.0) (sym call) ∙ e in
    subst (Made c flags (from_repr signal) stack n) (sym call)
      (make_thread_lem from_repr c flags signal stack parent_tid child_tid tls n both success)

-- A `fork` of a caller whose address space can be cloned succeeds; the child has copies of the address
-- space, the files and the working directory, but the default signal actions whatever actions the
-- caller has set, and its break at the base of the heap whatever the break of the caller is.
pub sys_fork_child :
    (from_repr : ℕ → Option ℕ) (c : Caller)
    → c.clone_aspace ≡ ok tt
    → sys_fork from_repr c ≡ (
      ok c.new_tid,
      some (record {
        tid = c.new_tid;
        sp = none;
        tls = none;
        retval = 0;
        set_child_tid = none;
        clear_child_tid = 0;
        process = new_process c.pid (record {
          aspace = copied;
          signal_actions = default_actions;
          exit_signal = from_repr 17;
          heap_bottom = c.user_heap_base;
          heap_top = c.user_heap_base;
          files = copied;
          working_dir = copied;
        });
      }),
      none,
    )
unfolding sys_fork make_thread fork_process choose_actions new_process_data
sys_fork_child from_repr c cloned = rw cloned refl
