-- ===== src/Signals/Counts.antt =====
-- Whom the calls of api/src/imp/signal.rs send a signal to.
use vegar.Prelude.{
  ℕ, ◌+◌, ◌-◌, ◌%◌, ◌^◌, ◌≡◌, ◌≢◌, refl, ap, inl, inr, Option, none, some, List, [], ◌∷◌, length,
  arith, ltb, ◌==◌, if◌then◌else◌, Option-cases, ok,
}
use vegar.Signals.Info.{SignalInfo, si_user, parse_signo, make_siginfo}
use vegar.Signals.Send.{
  World, Sent, to_process, get_process, get_process_group, send_signal_process,
  send_signal_process_group,
}
use vegar.Signals.Kill.{kill_all, kill_pid, sys_kill}

-- The signals to those of the processes that have their data, in order.
abbrev pub sends : World → SignalInfo → List ℕ → List Sent
sends w sig [] = []
sends w sig (p ∷ ps) =
    if w.has_process_data p then to_process p sig ∷ sends w sig ps else sends w sig ps

abbrev pub non_init : World → List ℕ → List ℕ
non_init w [] = []
non_init w (p ∷ ps) = if w.is_init p then non_init w ps else p ∷ non_init w ps

-- The processes that `kill` means by the word of an `i32`.
abbrev pub targets : World → List ℕ → ℕ → List ℕ
targets w own_group pid =
    if pid == 0
    then own_group
    else if ltb pid (2 ^ 31)
    then pid ∷ []
    else if pid == 2 ^ 32 - 1
    then non_init w w.processes
    else (elim (w.members ((2 ^ 32 - pid) % 2 ^ 32)) [ none ↦ [] | some pids ↦ pids ])

group_lem :
    (w : World) (pids : List ℕ) (sig : SignalInfo)
    → send_signal_process_group w pids sig ≡ (length (sends w sig pids), sends w sig pids)
unfolding send_signal_process_group send_signal_process
group_lem w [] sig = refl
group_lem w (p ∷ ps) sig = ground (arith, group_lem w ps sig)

all_lem :
    (w : World) (pids : List ℕ) (sig : SignalInfo) (count n : ℕ)
    → (kill_all w pids sig count).0 ≡ ok n
    → ((kill_all w pids sig count).1 ≡ sends w sig (non_init w pids))
      × (n ≡ count + length (sends w sig (non_init w pids)))
unfolding kill_all send_signal_process
all_lem w [] sig count n e = ground arith
all_lem w (p ∷ ps) sig count n e =
    ground (arith, all_lem w ps sig count n, all_lem w ps sig (count + 1) n)

kill_pid_lem :
    (w : World) (own_group : List ℕ) (pid : ℕ) (sig : SignalInfo) (n : ℕ)
    → (kill_pid w own_group pid sig).0 ≡ ok n
    → ((kill_pid w own_group pid sig).1 ≡ sends w sig (targets w own_group pid))
      × (n ≡ length (sends w sig (targets w own_group pid)))
unfolding kill_pid get_process get_process_group send_signal_process
kill_pid_lem w own_group pid sig n e = elim (Option-cases (w.members ((2 ^ 32 - pid) % 2 ^ 32))) [
  | inl absent ↦ ground (arith, group_lem w own_group sig, all_lem w w.processes sig 0 n, absent)
  | inr (pids, there) ↦
      ground (
        arith,
        group_lem w own_group sig,
        group_lem w pids sig,
        all_lem w w.processes sig 0 n,
        there,
      )
]

-- A `kill` with a number other than 0 that succeeds has sent the signal of that number, with the code
-- `SI_USER`, to the processes that it means and that have their data, to each once and in order, and
-- returns how many they are.
pub sys_kill-sends :
    (from_repr : ℕ → Option ℕ) (w : World) (own_group : List ℕ) (pid signo valid n : ℕ)
    → signo ≢ 0
    → parse_signo from_repr signo ≡ ok valid
    → (sys_kill from_repr w own_group pid signo).0 ≡ ok n
    → let sent = sends w (record { signo = valid; code = si_user }) (targets w own_group pid) in
      ((sys_kill from_repr w own_group pid signo).1 ≡ sent) × (n ≡ length sent)
unfolding sys_kill make_siginfo
sys_kill-sends from_repr w own_group pid signo valid n ne v e =
    ground (arith, v, kill_pid_lem w own_group pid (record { signo = valid; code = si_user }) n)

-- A `kill` with the number 0 returns 0 and sends nothing, whether the process exists or not, and for
-- any other number only the low 8 bits count: 256 more gives the same answer and the same signals.
pub sys_kill_numbers :
    (from_repr : ℕ → Option ℕ) (w : World) (own_group : List ℕ) (pid signo : ℕ)
    → (sys_kill from_repr w own_group pid 0 ≡ (ok 0, []))
      × (signo ≢ 0
          → sys_kill from_repr w own_group pid (signo + 256)
            ≡ sys_kill from_repr w own_group pid signo)
unfolding sys_kill make_siginfo parse_signo
sys_kill_numbers from_repr w own_group pid signo =
    let low : (signo + 256) % 2 ^ 8 ≡ signo % 2 ^ 8 = omega arith in
    (refl, λ ne. ground (arith, ap from_repr low))
