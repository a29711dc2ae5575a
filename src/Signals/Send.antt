-- ===== src/Signals/Send.antt =====
-- `send_signal_thread`, `send_signal_process` and `send_signal_process_group` of api/src/signal.rs, and
-- the tables of core/src/task.rs that the callers look targets up in.
use vegar.Prelude.{
  ℕ, ◌+◌, Bool, Option, List, [], ◌∷◌, ◌++◌, if◌then◌else◌, LinuxResult, ok, err, esrch, eperm,
  ok_or,
}
use vegar.Signals.Info.{SignalInfo}

-- Which processes, groups and threads there are. A process or a thread may be without its data.
pub record World : Type 0 where
  pub processes : List ℕ
  pub is_process : ℕ → Bool
  pub is_init : ℕ → Bool
  pub has_process_data : ℕ → Bool
  pub members : ℕ → Option (List ℕ)
  pub process_of : ℕ → Option ℕ
  pub has_thread_data : ℕ → Bool

pub data Sent : Type 0 where
  to_process : ℕ → SignalInfo → Sent
  to_thread : ℕ → SignalInfo → Sent

-- A result and the signals that were sent.
abbrev pub Sending : Type 0 → Type 0
Sending A = LinuxResult A × List Sent

unfoldable pub get_process : World → ℕ → LinuxResult ℕ
get_process w pid = if w.is_process pid then ok pid else err esrch

unfoldable pub get_process_group : World → ℕ → LinuxResult (List ℕ)
get_process_group w pgid = ok_or (w.members pgid) esrch

-- The process of a thread.
unfoldable pub get_thread : World → ℕ → LinuxResult ℕ
get_thread w tid = ok_or (w.process_of tid) esrch

unfoldable pub send_signal_thread : World → ℕ → SignalInfo → Sending (Unit {0})
send_signal_thread w tid sig =
    if w.has_thread_data tid then (ok tt, to_thread tid sig ∷ []) else (err eperm, [])

unfoldable pub send_signal_process : World → ℕ → SignalInfo → Sending (Unit {0})
send_signal_process w pid sig =
    if w.has_process_data pid then (ok tt, to_process pid sig ∷ []) else (err eperm, [])

abbrev pub count_ok : {A : Type 0} → LinuxResult A → ℕ
count_ok (ok a) = 1
count_ok (err e) = 0

unfoldable pub send_signal_process_group : World → List ℕ → SignalInfo → ℕ × List Sent
send_signal_process_group w [] sig = (0, [])
send_signal_process_group w (pid ∷ pids) sig =
    let (r, sent) = send_signal_process w pid sig in
    let (count, rest) = send_signal_process_group w pids sig in (count_ok r + count, sent ++ rest)
