-- ===== src/Tasks/Tables.antt =====
-- `THREAD_TABLE`, `PROCESS_TABLE`, `PROCESS_GROUP_TABLE` and `SESSION_TABLE` of core/src/task.rs, over
-- an interface for the maps of the weak_map crate.
use vegar.Prelude.{
  ℕ, ◌≡◌, Bool, true, false, Option, none, some, List, ◌==◌, if◌then◌else◌, LinuxResult, esrch,
  ok_or,
}

abbrev pub is_some : {V : Type 0} → Option V → Bool
is_some none = false
is_some (some v) = true

-- `get` upgrades the weak reference, so a value that is gone is not there. `expire` is the end of the
-- last strong reference to a value.
pub record WeakMap : Type 1 where
  pub Map : Type 0 → Type 0
  pub empty : {V : Type 0} → Map V
  pub get : {V : Type 0} → Map V → ℕ → Option V
  pub contains_key : {V : Type 0} → Map V → ℕ → Bool
  pub insert : {V : Type 0} → Map V → ℕ → V → Map V
  pub values : {V : Type 0} → Map V → List V
  pub expire : {V : Type 0} → Map V → ℕ → Map V
  pub get-empty : {V : Type 0} (k : ℕ) → get (empty {V = V}) k ≡ none
  pub contains_key_lem : {V : Type 0} (m : Map V) (k : ℕ) → contains_key m k ≡ is_some (get m k)
  pub get-insert :
      {V : Type 0} (m : Map V) (k : ℕ) (v : V) (j : ℕ)
      → get (insert m k v) j ≡ (if k == j then some v else get m j)
  pub get-expire :
      {V : Type 0} (m : Map V) (k j : ℕ) → get (expire m k) j ≡ (if k == j then none else get m j)

pub record ProcessGroup : Type 0 where
  pub pgid : ℕ
  pub session : ℕ

pub record Process : Type 0 where
  pub pid : ℕ
  pub group : ProcessGroup

pub record Thread : Type 0 where
  pub tid : ℕ
  pub process : Process

module _ (W : WeakMap) where
  -- A session is its sid.
  pub record Tables : Type 0 where
    pub threads : W.Map Thread
    pub processes_by_pid : W.Map Process
    pub groups : W.Map ProcessGroup
    pub sessions : W.Map ℕ

  -- The four statics.
  unfoldable pub new_tables : Tables
  new_tables = record {
    threads = W.empty;
    processes_by_pid = W.empty;
    groups = W.empty;
    sessions = W.empty;
  }

  unfoldable pub add_session : ℕ → Tables → Tables
  add_session s t =
      if W.contains_key t.sessions s then t else record t { sessions = W.insert t.sessions s s }

  unfoldable pub add_group : ProcessGroup → Tables → Tables
  add_group g t =
      if W.contains_key t.groups g.pgid
      then t
      else add_session g.session (record t { groups = W.insert t.groups g.pgid g })

  unfoldable pub add_process : Process → Tables → Tables
  add_process p t =
      if W.contains_key t.processes_by_pid p.pid
      then t
      else add_group p.group (record t { processes_by_pid = W.insert t.processes_by_pid p.pid p })

  unfoldable pub add_thread_to_table : Thread → Tables → Tables
  add_thread_to_table th t =
      add_process th.process (record t { threads = W.insert t.threads th.tid th })

  unfoldable pub processes : Tables → List Process
  processes t = W.values t.processes_by_pid

  unfoldable pub get_thread : Tables → ℕ → LinuxResult Thread
  get_thread t tid = ok_or (W.get t.threads tid) esrch

  unfoldable pub get_process : Tables → ℕ → LinuxResult Process
  get_process t pid = ok_or (W.get t.processes_by_pid pid) esrch

  unfoldable pub get_process_group : Tables → ℕ → LinuxResult ProcessGroup
  get_process_group t pgid = ok_or (W.get t.groups pgid) esrch

  unfoldable pub get_session : Tables → ℕ → LinuxResult ℕ
  get_session t sid = ok_or (W.get t.sessions sid) esrch
