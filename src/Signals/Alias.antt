-- ===== src/Signals/Alias.antt =====
-- What the exchanging calls of api/src/imp/signal.rs do, with one address for both values too.
use vegar.Prelude.{
  ℕ, zero, suc, ◌≡◌, ◌≢◌, ◌<◌, ◌≤◌, refl, ◌∙◌, true, false, ◌&&◌, ◌||◌, not, some, arith, ◌==◌,
  if◌then◌else◌, LinuxResult, ok, err, einval,
}
use vegar.Signals.Info.{check_sigset_size}
use vegar.Signals.Exchange.{
  UserData, SignalSet, put, take_over, exchange, sig_block, sig_unblock, change_mask,
  sys_rt_sigprocmask,
}

-- Both addresses are given and different.
exchange_apart :
    {A : Type 0} (old new : ℕ) (change : A → LinuxResult A) (value old_value new_value : A)
    (mem : UserData A)
    → old ≢ 0
    → new ≢ 0
    → old ≢ new
    → mem old ≡ some old_value
    → mem new ≡ some new_value
    → let mem' : UserData A = λ a. if old == a then some value else mem a in
      exchange old new change value mem ≡ (elim (change new_value) [
        | err e ↦ (err e, value, mem')
        | ok value' ↦ (ok 0, value', mem')
      ])
unfolding exchange put take_over
exchange_apart old new change value old_value new_value mem o n ne there new_there =
    let old_given : (old == 0) ≡ false = ground arith in
    let new_given : (new == 0) ≡ false = ground arith in
    let apart : (old == new) ≡ false = ground arith in
    rw (exchange, put, old_given, there) (rw (take_over, new_given, apart, new_there) refl)

-- One address for both: the old value comes back in.
exchange_same :
    {A : Type 0} (addr : ℕ) (change : A → LinuxResult A) (value old_value : A) (mem : UserData A)
    → addr ≢ 0
    → mem addr ≡ some old_value
    → let mem' : UserData A = λ a. if addr == a then some value else mem a in
      exchange addr addr change value mem
      ≡ (elim (change value) [ err e ↦ (err e, value, mem') | ok value' ↦ (ok 0, value', mem') ])
unfolding exchange put take_over
exchange_same addr change value old_value mem o there =
    let given : (addr == 0) ≡ false = ground arith in
    let equal : (addr == addr) ≡ true = ground arith in
    rw (exchange, put, given, there) (rw (take_over, given, equal) refl)

-- A new mask, by what `sigprocmask` means by `how`.
abbrev pub masked : ℕ → SignalSet → SignalSet → SignalSet
masked how blocked set signo =
    if how == sig_block
    then blocked signo || set signo
    else if how == sig_unblock
    then blocked signo && not (set signo)
    else set signo

change_mask_lem :
    (how : ℕ) (blocked set : SignalSet)
    → how < 3
    → change_mask how blocked set ≡ ok (masked how blocked set)
unfolding change_mask
change_mask_lem zero blocked set small = refl
change_mask_lem (suc zero) blocked set small = refl
change_mask_lem (suc (suc zero)) blocked set small = refl
change_mask_lem (suc (suc (suc n))) blocked set small = absurd (omega arith)

change_mask_unknown :
    (how : ℕ) (blocked set : SignalSet) → 3 ≤ how → change_mask how blocked set ≡ err einval
unfolding change_mask
change_mask_unknown how blocked set big = ground arith

-- `sys_rt_sigprocmask` with two different addresses writes the old mask to the one and takes the set at
-- the other over, by `how`; with another `how` than the three it is an error that leaves the mask as it
-- is, though the old mask is written.
pub sys_rt_sigprocmask_apart :
    (how set oldset : ℕ) (blocked old_there new_set : SignalSet) (mem : UserData SignalSet)
    → oldset ≢ 0
    → set ≢ 0
    → oldset ≢ set
    → mem oldset ≡ some old_there
    → mem set ≡ some new_set
    → let mem' : UserData SignalSet = λ a. if oldset == a then some blocked else mem a in
      (how < 3
        → sys_rt_sigprocmask how set oldset 8 blocked mem
          ≡ (ok 0, masked how blocked new_set, mem'))
      × (3 ≤ how → sys_rt_sigprocmask how set oldset 8 blocked mem ≡ (err einval, blocked, mem'))
unfolding sys_rt_sigprocmask check_sigset_size
sys_rt_sigprocmask_apart how set oldset blocked old_there new_set mem o n ne there new_there =
    let call =
      exchange_apart oldset set (change_mask how blocked) blocked old_there new_set mem o n ne there
        new_there in
    (
      λ small. call ∙ rw (change_mask_lem how blocked new_set small),
      λ big. call ∙ rw (change_mask_unknown how blocked new_set big),
    )

-- With one address for both, `SIG_BLOCK` and `SIG_SETMASK` leave the mask as it is and `SIG_UNBLOCK`
-- makes it empty, whatever set the caller passed there.
pub sys_rt_sigprocmask_same :
    (how addr : ℕ) (blocked passed : SignalSet) (mem : UserData SignalSet)
    → addr ≢ 0
    → how < 3
    → mem addr ≡ some passed
    → let out = sys_rt_sigprocmask how addr addr 8 blocked mem in
      (out.0 ≡ ok 0)
      × ((signo : ℕ) → out.1 signo ≡ (if how == sig_unblock then false else blocked signo))
      × (out.2 addr ≡ some blocked)
unfolding sys_rt_sigprocmask check_sigset_size
sys_rt_sigprocmask_same how addr blocked passed mem o small there =
    let call = exchange_same addr (change_mask how blocked) blocked passed mem o there in
    rw (call, change_mask_lem how blocked blocked small) (refl, λ signo. ground arith, ground arith)
