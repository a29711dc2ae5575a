-- ===== src/Signals/Kill.antt =====
-- `sys_kill`, `sys_tkill`, `sys_tgkill` and the queueing calls of api/src/imp/signal.rs. Pids of type
-- `i32` are words.
use vegar.Prelude.{
  ℕ, ◌+◌, ◌-◌, ◌%◌, ◌^◌, Option, none, some, List, [], ◌∷◌, ◌++◌, ltb, ◌==◌, if◌then◌else◌,
  LinuxResult, ok, err, esrch, ◌>>=◌, ◌>>◌,
}
use vegar.Signals.Info.{
  SignalInfo, si_user, si_tkill, check_sigset_size, make_siginfo, make_queue_signal_info,
}
use vegar.Signals.Send.{
  World, Sending, get_process, get_process_group, get_thread, send_signal_thread,
  send_signal_process, send_signal_process_group,
}

-- A result with nothing sent, and one that a sending gives.
abbrev pub quiet : {A : Type 0} → LinuxResult A → Sending A
quiet r = (r, [])

abbrev pub give : {A B : Type 0} → Sending A → B → Sending B
give (ok a, sent) b = (ok b, sent)
give (err e, sent) b = (err e, sent)

-- A step that sends, after one that does not.
abbrev pub with_result : {A B : Type 0} → LinuxResult A → (A → Sending B) → Sending B
with_result (ok a) f = f a
with_result (err e) f = (err e, [])

-- The loop of `pid == -1`: it stops at the first error.
unfoldable pub kill_all : World → List ℕ → SignalInfo → ℕ → Sending ℕ
kill_all w [] sig count = (ok count, [])
kill_all w (pid ∷ pids) sig count =
    let skipped = kill_all w pids sig count in
    let rest = kill_all w pids sig (count + 1) in
    let (sending, sent) = send_signal_process w pid sig in
    if w.is_init pid
    then skipped
    else (elim sending [ err e ↦ (err e, sent) | ok _ ↦ (rest.0, sent ++ rest.1) ])

-- A group answers with the number of signals that were sent.
abbrev pub kill_group : World → List ℕ → SignalInfo → Sending ℕ
kill_group w pids sig = let (count, sent) = send_signal_process_group w pids sig in (ok count, sent)

-- The `match` on the pid, for a caller with the pids `own_group` in its group.
unfoldable pub kill_pid : World → List ℕ → ℕ → SignalInfo → Sending ℕ
kill_pid w own_group pid sig =
    if pid == 0
    then kill_group w own_group sig
    else if ltb pid (2 ^ 31)
    then with_result (get_process w pid) (λ target. give (send_signal_process w target sig) 1)
    else if pid == 2 ^ 32 - 1
    then kill_all w w.processes sig 0
    else with_result (get_process_group w ((2 ^ 32 - pid) % 2 ^ 32)) (λ pids. kill_group w pids sig)

module _ (from_repr : ℕ → Option ℕ) (w : World) where
  unfoldable pub sys_kill : List ℕ → ℕ → ℕ → Sending ℕ
  sys_kill own_group pid signo =
      with_result (make_siginfo from_repr signo si_user)
        (λ made. elim made [ none ↦ quiet (ok 0) | some sig ↦ kill_pid w own_group pid sig ])

  unfoldable pub find_thread_in_group : ℕ → ℕ → LinuxResult ℕ
  find_thread_in_group tgid tid =
      get_thread w tid >>= λ process. if process == tgid then ok tid else err esrch

  unfoldable pub sys_tkill : ℕ → ℕ → Sending ℕ
  sys_tkill tid signo = with_result (make_siginfo from_repr signo si_tkill) (λ made. elim made [
    | none ↦ quiet (ok 0)
    | some sig ↦ with_result (get_thread w tid) (λ _. give (send_signal_thread w tid sig) 0)
  ])

  unfoldable pub sys_tgkill : ℕ → ℕ → ℕ → Sending ℕ
  sys_tgkill tgid tid signo = with_result (make_siginfo from_repr signo si_tkill) (λ made.
      elim made [
        | none ↦ quiet (ok 0)
        | some sig ↦
            with_result (find_thread_in_group tgid tid)
              (λ thr. give (send_signal_thread w thr sig) 0)
      ])

  -- `own` is the pid of the caller, and `sig` what the user pointer gives.
  unfoldable pub sys_rt_sigqueueinfo : ℕ → ℕ → ℕ → LinuxResult SignalInfo → ℕ → Sending ℕ
  sys_rt_sigqueueinfo own tgid signo sig sigsetsize =
      with_result
        (check_sigset_size sigsetsize >> make_queue_signal_info from_repr own tgid signo sig)
        (λ made.
          with_result (get_process w tgid) (λ target. give (send_signal_process w target made) 0))

  unfoldable pub sys_rt_tgsigqueueinfo : ℕ → ℕ → ℕ → ℕ → LinuxResult SignalInfo → ℕ → Sending ℕ
  sys_rt_tgsigqueueinfo own tgid tid signo sig sigsetsize =
      with_result
        (check_sigset_size sigsetsize >> make_queue_signal_info from_repr own tgid signo sig)
        (λ made.
          with_result (find_thread_in_group tgid tid)
            (λ thr. give (send_signal_thread w thr made) 0))
