-- ===== src/Signals/Waits.antt =====
-- `sys_rt_sigreturn`, `sys_rt_sigtimedwait` and `sys_rt_sigsuspend` of api/src/imp/signal.rs. What user
-- pointers give and what the signal manager of axsignal answers are arguments.
use vegar.Prelude.{
  ℕ, suc, ◌≡◌, refl, sym, ap, ◌∙◌, Bool, true, false, ◌&&◌, ◌||◌, not, Option-cases, Option, none,
  some, List, [], ◌∷◌, inl, inr, arith, ◌==◌, if◌then◌else◌, LinuxResult, ok, err, eagain,
}
use mathlib.Core.Path.{subst}
use vegar.Signals.Info.{SignalInfo, check_sigset_size}
use vegar.Signals.Exchange.{SignalSet}
use vegar.Clocks.Values.{TimeValue, Timespec, timespec_to_time_value}

-- The register of the return value, as `restore` of the signal manager leaves it.
unfoldable pub sys_rt_sigreturn :
    {Frame : Type 0} → (Frame → Frame) → (Frame → ℕ) → Frame → LinuxResult ℕ × Frame
sys_rt_sigreturn restore retval tf = let tf' = restore tf in (ok (retval tf'), tf')

-- How a call ends, whether it has taken a signal off the pending ones, and what it has written.
pub data Waited : Type 0 where
  panics : Waited
  returns : LinuxResult ℕ → (taken written : Option SignalInfo) → Waited

-- The last lines: `info` is none for a null pointer.
unfoldable pub report : Option SignalInfo → Option (LinuxResult (Unit {0})) → Waited
report none info = returns (err eagain) none none
report (some sig) none = returns (ok 0) (some sig) none
report (some sig) (some (err e)) = returns (err e) (some sig) none
report (some sig) (some (ok _)) = returns (ok 0) (some sig) (some sig)

-- `wait_timeout` of the signal manager of a thread: it takes a pending signal of the set, or one that
-- comes before the timeout.
pub record SignalManager : Type 0 where
  pub wait_timeout : SignalSet → Option TimeValue → Option SignalInfo
  pub wait_timeout-in_set :
      (set : SignalSet) (timeout : Option TimeValue) (sig : SignalInfo)
      → wait_timeout set timeout ≡ some sig
      → set sig.signo ≡ true

module _ (M : SignalManager) where
  -- A timeout past the largest duration panics.
  abbrev pub wait_until : SignalSet → Option TimeValue → Option (LinuxResult (Unit {0})) → Waited
  wait_until set none info = panics
  wait_until set (some timeout) info = report (M.wait_timeout set (some timeout)) info

  abbrev pub wait_for :
      SignalSet → Option (LinuxResult Timespec) → Option (LinuxResult (Unit {0})) → Waited
  wait_for set none info = report (M.wait_timeout set none) info
  wait_for set (some (err e)) info = returns (err e) none none
  wait_for set (some (ok ts)) info = wait_until set (timespec_to_time_value ts) info

  unfoldable pub sys_rt_sigtimedwait :
      LinuxResult SignalSet
      → Option (LinuxResult (Unit {0}))
      → Option (LinuxResult Timespec)
      → ℕ
      → Waited
  sys_rt_sigtimedwait set info timeout sigsetsize = elim (check_sigset_size sigsetsize) [
    | err e ↦ returns (err e) none none
    | ok _ ↦ elim set [ err e ↦ returns (err e) none none | ok s ↦ wait_for s timeout info ]
  ]

abbrev pub sigkill : ℕ
sigkill = 9

abbrev pub sigstop : ℕ
sigstop = 19

-- `SignalSet::remove`
abbrev pub remove_signal : ℕ → SignalSet → SignalSet
remove_signal s set = λ signo. set signo && not (signo == s)

-- The mask while the task waits, and the value of the register of the result then.
pub record Suspended : Type 0 where
  pub blocked : SignalSet
  pub restore_blocked : SignalSet
  pub rounds : ℕ

-- The rounds of the loop that find no signal. None: no signal comes in the rounds that are listed.
unfoldable pub suspend_loop : List Bool → Option ℕ
suspend_loop [] = none
suspend_loop (true ∷ checks) = some 0
suspend_loop (false ∷ checks) = elim (suspend_loop checks) [ none ↦ none | some n ↦ some (suc n) ]

-- `checks` is whether `check_signals` handles a signal, round by round.
unfoldable pub sys_rt_sigsuspend :
    LinuxResult SignalSet → ℕ → List Bool → SignalSet → Option (LinuxResult Suspended)
sys_rt_sigsuspend set sigsetsize checks blocked = elim (check_sigset_size sigsetsize) [
  | err e ↦ some (err e)
  | ok _ ↦ elim set [
    | err e ↦ some (err e)
    | ok s ↦ elim (suspend_loop checks) [
      | none ↦ none
      | some n ↦ some (
          ok (record {
            blocked = remove_signal sigstop (remove_signal sigkill s);
            restore_blocked = blocked;
            rounds = n;
          }))
    ]
  ]
]

abbrev suspended_or : Suspended → Option (LinuxResult Suspended) → Suspended
suspended_or d (some (ok w)) = w
suspended_or d _ = d

-- While `sys_rt_sigsuspend` waits, SIGKILL and SIGSTOP are not blocked, every other signal is blocked
-- just as in the given set, and the mask to be restored is the one from before.
pub sys_rt_sigsuspend_mask :
    (set : SignalSet) (checks : List Bool) (blocked : SignalSet) (w : Suspended) (signo : ℕ)
    → sys_rt_sigsuspend (ok set) 8 checks blocked ≡ some (ok w)
    → (w.blocked signo ≡ (if (signo == sigkill) || (signo == sigstop) then false else set signo))
      × (w.restore_blocked ≡ blocked)
unfolding sys_rt_sigsuspend check_sigset_size
sys_rt_sigsuspend_mask set checks blocked w signo h = elim (Option-cases (suspend_loop checks)) [
  | inl e ↦ ground (arith, e, h)
  | inr (n, e) ↦
      let made : Suspended = record {
        blocked = remove_signal sigstop (remove_signal sigkill set);
        restore_blocked = blocked;
        rounds = n;
      } in
      let answer : sys_rt_sigsuspend (ok set) 8 checks blocked ≡ some (ok made) =
        rw (sys_rt_sigsuspend, e) refl in
      let same : made ≡ w = ap (suspended_or made) (sym answer ∙ h) in
      subst
        (λ (v : Suspended).
          (v.blocked signo
            ≡ (if (signo == sigkill) || (signo == sigstop) then false else set signo))
          × (v.restore_blocked ≡ blocked))
        same (ground arith, refl)
]

-- The signal that a call has taken.
abbrev pub taken : Waited → Option SignalInfo
taken panics = none
taken (returns r sig written) = sig

report-taken :
    (o : Option SignalInfo) (info : Option (LinuxResult (Unit {0}))) (sig : SignalInfo)
    → taken (report o info) ≡ some sig
    → o ≡ some sig
unfolding report
report-taken none info sig h = h
report-taken (some s) none sig h = h
report-taken (some s) (some (err e)) sig h = h
report-taken (some s) (some (ok _)) sig h = h

wait_until-in_set :
    (M : SignalManager) (s : SignalSet) (limit : Option TimeValue)
    (info : Option (LinuxResult (Unit {0}))) (sig : SignalInfo)
    → taken (wait_until M s limit info) ≡ some sig
    → s sig.signo ≡ true
wait_until-in_set M s none info sig h = ground (arith, h)
wait_until-in_set M s (some t) info sig h =
    M.wait_timeout-in_set s (some t) sig (report-taken (M.wait_timeout s (some t)) info sig h)

wait_for-in_set :
    (M : SignalManager) (s : SignalSet) (timeout : Option (LinuxResult Timespec))
    (info : Option (LinuxResult (Unit {0}))) (sig : SignalInfo)
    → taken (wait_for M s timeout info) ≡ some sig
    → s sig.signo ≡ true
wait_for-in_set M s none info sig h =
    M.wait_timeout-in_set s none sig (report-taken (M.wait_timeout s none) info sig h)
wait_for-in_set M s (some (err e)) info sig h = ground (arith, h)
wait_for-in_set M s (some (ok ts)) info sig h =
    wait_until-in_set M s (timespec_to_time_value ts) info sig h

wait_for-read :
    (M : SignalManager) (set : LinuxResult SignalSet) (info : Option (LinuxResult (Unit {0})))
    (timeout : Option (LinuxResult Timespec)) (sig : SignalInfo) (access : LinuxResult (Unit {0}))
    → taken (elim access [
      | err e ↦ returns (err e) none none
      | ok _ ↦ elim set [ err e ↦ returns (err e) none none | ok s ↦ wait_for M s timeout info ]
    ])
      ≡ some sig
    → (s : SignalSet) × (set ≡ ok s) × (s sig.signo ≡ true)
wait_for-read M set info timeout sig (err e) h = ground (arith, h)
wait_for-read M (err e) info timeout sig (ok _) h = ground (arith, h)
wait_for-read M (ok s) info timeout sig (ok _) h = (s, refl, wait_for-in_set M s timeout info sig h)

-- Whatever the arguments of `sys_rt_sigtimedwait` are, a signal that it takes is one of a set that was
-- read.
pub sys_rt_sigtimedwait_in_set :
    (M : SignalManager) (set : LinuxResult SignalSet) (info : Option (LinuxResult (Unit {0})))
    (timeout : Option (LinuxResult Timespec)) (sigsetsize : ℕ) (sig : SignalInfo)
    → taken (sys_rt_sigtimedwait M set info timeout sigsetsize) ≡ some sig
    → (s : SignalSet) × (set ≡ ok s) × (s sig.signo ≡ true)
unfolding sys_rt_sigtimedwait
sys_rt_sigtimedwait_in_set M set info timeout sigsetsize sig h =
    wait_for-read M set info timeout sig (check_sigset_size sigsetsize) h
