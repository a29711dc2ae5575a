-- ===== src/Clone/Calls.antt =====
-- `sys_clone` and `sys_fork` of api/src/imp/task/clone.rs.
use vegar.Prelude.{
  ℕ, ◌+◌, Bool, ◌&&◌, not, Option, none, some, ◌==◌, if◌then◌else◌, LinuxResult, ok, err, einval,
  ok_or, ◌>>=◌, ◌>>◌,
}
use vegar.Clone.Flags.{
  clone_vm, clone_fs, clone_files, clone_sighand, clone_parent, clone_thread, clone_settls,
  clone_parent_settid, clone_child_cleartid, clone_child_settid, clone_flags, exit_signal_bits,
  contains,
}

-- How a child comes by a resource of the caller.
pub data Share : Type 0 where
  shared copied : Share

-- Whose signal actions a process has.
pub data SignalActions : Type 0 where
  default_actions : SignalActions
  actions_of : ℕ → SignalActions

-- `ProcessData` of a new process, with its file table and its working directory.
pub record ProcessData : Type 0 where
  pub aspace : Share
  pub signal_actions : SignalActions
  pub exit_signal : Option ℕ
  pub heap_bottom : ℕ
  pub heap_top : ℕ
  pub files : Share
  pub working_dir : Share

-- The process of a new thread: that of the caller, or a new one with a parent.
pub data Placement : Type 0 where
  own_process : Placement
  new_process : ℕ → ProcessData → Placement

-- A new thread. None: the register is that of the caller.
pub record NewThread : Type 0 where
  pub tid : ℕ
  pub sp : Option ℕ
  pub tls : Option ℕ
  pub retval : ℕ
  pub set_child_tid : Option ℕ
  pub clear_child_tid : ℕ
  pub process : Placement

-- The calling process, and what the other parts of the kernel answer.
pub record Caller : Type 0 where
  pub pid : ℕ
  pub parent : Option ℕ
  -- Whether a process has its data.
  pub has_data : ℕ → Bool
  -- `try_clone` and `copy_from_kernel`.
  pub clone_aspace : LinuxResult (Unit {0})
  -- Whether a word of user memory can be written.
  pub writable : ℕ → LinuxResult (Unit {0})
  -- The id of the new task.
  pub new_tid : ℕ
  pub user_heap_base : ℕ

-- `ProcessData::new`
unfoldable pub new_process_data : ℕ → Share → SignalActions → Option ℕ → Share → Share → ProcessData
new_process_data user_heap_base aspace signal_actions exit_signal files working_dir = record {
  aspace = aspace;
  signal_actions = signal_actions;
  exit_signal = exit_signal;
  heap_bottom = user_heap_base;
  heap_top = user_heap_base;
  files = files;
  working_dir = working_dir;
}

abbrev pub share_if : Bool → Share
share_if b = if b then shared else copied

-- `parent.data::<ProcessData>().map_or_else(Arc::default, ...)`, where the flag is set.
unfoldable pub choose_actions : Caller → ℕ → ℕ → SignalActions
choose_actions c flags parent =
    if contains flags clone_sighand && c.has_data parent then actions_of parent else default_actions

-- The branch without `THREAD`.
unfoldable pub fork_process : Caller → ℕ → Option ℕ → LinuxResult Placement
fork_process c flags exit_signal =
    (if contains flags clone_parent then ok_or c.parent einval else ok c.pid) >>= λ parent.
    (if contains flags clone_vm then ok shared else (c.clone_aspace >> ok copied)) >>= λ aspace.
    ok (
      new_process parent (
        new_process_data c.user_heap_base aspace (choose_actions c flags parent) exit_signal
          (share_if (contains flags clone_files)) (share_if (contains flags clone_fs))))

-- The thread of a new task, by its registers and its data.
abbrev pub new_thread : Caller → ℕ → ℕ → ℕ → ℕ → Placement → NewThread
new_thread c flags stack child_tid tls place = record {
  tid = c.new_tid;
  sp = if stack == 0 then none else some stack;
  tls = if contains flags clone_settls then some tls else none;
  retval = 0;
  set_child_tid = if contains flags clone_child_settid then some child_tid else none;
  clear_child_tid = if contains flags clone_child_cleartid then child_tid else 0;
  process = place;
}

-- `Signo::from_repr` of axsignal is a parameter.
module _ (from_repr : ℕ → Option ℕ) (c : Caller) where
  -- The task, behind the checks of the flags. The word at `parent_tid` is written before the process is
  -- made: the last part of the answer is what was written there.
  unfoldable pub make_thread : ℕ → ℕ → ℕ → ℕ → ℕ → ℕ → LinuxResult ℕ × Option NewThread × Option ℕ
  make_thread flags signal stack parent_tid child_tid tls =
      let child_word : LinuxResult (Unit {0}) =
        if contains flags clone_child_settid then c.writable child_tid else ok tt in
      let parent_word : LinuxResult (Unit {0}) =
        if contains flags clone_parent_settid then c.writable parent_tid else ok tt in
      let written : Option ℕ =
        if contains flags clone_parent_settid then some c.new_tid else none in
      let process : LinuxResult Placement =
        if contains flags clone_thread
        then ok own_process
        else fork_process c flags (from_repr signal) in
      elim (child_word >> parent_word) [
        | err e ↦ (err e, none, none)
        | ok _ ↦ elim process [
          | err e ↦ (err e, none, written)
          | ok place ↦ (ok c.new_tid, some (new_thread c flags stack child_tid tls place), written)
        ]
      ]

  unfoldable pub sys_clone : ℕ → ℕ → ℕ → ℕ → ℕ → LinuxResult ℕ × Option NewThread × Option ℕ
  sys_clone bits stack parent_tid child_tid tls =
      let signal = exit_signal_bits bits in
      let flags = clone_flags bits in
      if not (signal == 0) && contains flags (clone_thread + clone_parent)
      then (err einval, none, none)
      else if contains flags clone_thread && not (contains flags (clone_vm + clone_sighand))
      then (err einval, none, none)
      else make_thread flags signal stack parent_tid child_tid tls

  -- `SIGCHLD` is 17.
  unfoldable pub sys_fork : LinuxResult ℕ × Option NewThread × Option ℕ
  unfolding sys_clone
  sys_fork = sys_clone 17 0 0 0 0
