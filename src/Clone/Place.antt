-- ===== src/Clone/Place.antt =====
-- The end of `sys_clone` in api/src/imp/task/clone.rs: the new thread is added to the tables of
-- core/src/task.rs, and what its task does first, in `new_user_task`.
use vegar.Prelude.{ℕ, Option, none, some, ◌==◌, if◌then◌else◌, LinuxResult}
use vegar.Tasks.Tables.{WeakMap, ProcessGroup, Process, Thread, Tables, add_thread_to_table}
use vegar.Clone.Calls.{Placement, own_process, new_process, NewThread, Caller, sys_clone}

-- A process that `fork` of axprocess makes belongs to the group of its parent, which `group_of` gives.
unfoldable pub child_process : Thread → (ℕ → ProcessGroup) → ℕ → Placement → Process
child_process own group_of tid own_process = own.process
child_process own group_of tid (new_process parent it) = record {
  pid = tid;
  group = group_of parent;
}

abbrev pub child_thread : Thread → (ℕ → ProcessGroup) → NewThread → Thread
child_thread own group_of th = record {
  tid = th.tid;
  process = child_process own group_of th.tid th.process;
}

module _ (W : WeakMap) (own : Thread) (group_of : ℕ → ProcessGroup) where
  unfoldable pub add_child : Option NewThread → Tables W → Tables W
  add_child none t = t
  add_child (some th) t = add_thread_to_table W (child_thread own group_of th) t

  -- The whole call, by its result and the tables after it.
  unfoldable pub clone_into :
      (ℕ → Option ℕ) → Caller → ℕ → ℕ → ℕ → ℕ → ℕ → Tables W → LinuxResult ℕ × Tables W
  clone_into from_repr c bits stack parent_tid child_tid tls t =
      let out = sys_clone from_repr c bits stack parent_tid child_tid tls in
      (out.0, add_child out.1 t)

-- What the task of a new thread does to user memory before it enters user space.
unfoldable pub begin_task : NewThread → (ℕ → ℕ) → ℕ → ℕ
begin_task th memory = elim th.set_child_tid [
  | none ↦ memory
  | some a ↦ λ x. if x == a then th.tid else memory x
]
