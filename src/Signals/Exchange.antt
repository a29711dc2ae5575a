-- ===== src/Signals/Exchange.antt =====
-- `sys_rt_sigprocmask`, `sys_rt_sigaction`, `sys_rt_sigpending` and `sys_sigaltstack` of
-- api/src/imp/signal.rs. User memory holds a value of the type in question at an address, or is not
-- accessible there; 0 is the null pointer.
use vegar.Prelude.{
  ℕ, Bool, ◌&&◌, ◌||◌, not, Option, none, some, leb, ◌==◌, if◌then◌else◌, LinuxResult, ok, err,
  einval, enomem, efault,
}
use vegar.Signals.Info.{check_sigset_size, parse_signo}

abbrev pub UserData : Type 0 → Type 0
UserData A = ℕ → Option A

-- `SignalSet`, by the signals in it.
abbrev pub SignalSet : Type 0
SignalSet = ℕ → Bool

abbrev pub union : SignalSet → SignalSet → SignalSet
union a b = λ signo. a signo || b signo

abbrev pub without : SignalSet → SignalSet → SignalSet
without a b = λ signo. a signo && not (b signo)

-- The value of the kernel and user memory, behind a result.
abbrev pub Exchanged : Type 0 → Type 0
Exchanged A = LinuxResult ℕ × A × UserData A

-- `if let Some(old) = nullable!(old.get_as_mut())? { *old = value }`
unfoldable pub put : {A : Type 0} → ℕ → A → UserData A → LinuxResult (UserData A)
put addr value mem = if addr == 0 then ok mem else (elim (mem addr) [
  | none ↦ err efault
  | some _ ↦ ok (λ a. if addr == a then some value else mem a)
])

-- `if let Some(new) = nullable!(new.get_as_ref())?`, with the value that the kernel takes over.
unfoldable pub take_over : {A : Type 0} → ℕ → (A → LinuxResult A) → A → UserData A → Exchanged A
take_over addr change value mem = if addr == 0 then (ok 0, value, mem) else (elim (mem addr) [
  | none ↦ (err efault, value, mem)
  | some new ↦ elim (change new) [ err e ↦ (err e, value, mem) | ok value' ↦ (ok 0, value', mem) ]
])

-- First the old value out, then the new one in.
unfoldable pub exchange : {A : Type 0} → ℕ → ℕ → (A → LinuxResult A) → A → UserData A → Exchanged A
exchange old new change value mem = elim (put old value mem) [
  | err e ↦ (err e, value, mem)
  | ok mem' ↦ take_over new change value mem'
]

abbrev pub sig_block : ℕ
sig_block = 0

abbrev pub sig_unblock : ℕ
sig_unblock = 1

abbrev pub sig_setmask : ℕ
sig_setmask = 2

-- The `match` on `how`.
unfoldable pub change_mask : ℕ → SignalSet → SignalSet → LinuxResult SignalSet
change_mask how blocked set =
    if how == sig_block
    then ok (union blocked set)
    else if how == sig_unblock
    then ok (without blocked set)
    else if how == sig_setmask
    then ok set
    else err einval

unfoldable pub sys_rt_sigprocmask :
    ℕ → ℕ → ℕ → ℕ → SignalSet → UserData SignalSet → Exchanged SignalSet
sys_rt_sigprocmask how set oldset sigsetsize blocked mem = elim (check_sigset_size sigsetsize) [
  | err e ↦ (err e, blocked, mem)
  | ok _ ↦ exchange oldset set (change_mask how blocked) blocked mem
]

-- `*set.get_as_mut()? = pending`
unfoldable pub sys_rt_sigpending :
    ℕ → ℕ → SignalSet → UserData SignalSet → LinuxResult ℕ × UserData SignalSet
sys_rt_sigpending set sigsetsize pending mem = elim (check_sigset_size sigsetsize) [
  | err e ↦ (err e, mem)
  | ok _ ↦ elim (mem set) [
    | none ↦ (err efault, mem)
    | some _ ↦ (ok 0, λ a. if set == a then some pending else mem a)
  ]
]

-- `SignalStack`
pub record SignalStack : Type 0 where
  pub sp : ℕ
  pub flags : ℕ
  pub size : ℕ

abbrev pub minsigstksz : ℕ
minsigstksz = 2048

-- The tests of a new stack; `readable` says which areas can be read.
unfoldable pub check_stack : (ℕ → ℕ → Bool) → SignalStack → LinuxResult SignalStack
check_stack readable ss =
    if leb ss.size minsigstksz
    then err enomem
    else if readable ss.sp ss.size
    then ok ss
    else err efault

unfoldable pub sys_sigaltstack :
    (ℕ → ℕ → Bool) → ℕ → ℕ → SignalStack → UserData SignalStack → Exchanged SignalStack
sys_sigaltstack readable ss old_ss stack mem = exchange old_ss ss (check_stack readable) stack mem

abbrev pub sigkill : ℕ
sigkill = 9

abbrev pub sigstop : ℕ
sigstop = 19

-- `kernel_sigaction` and what `try_into` makes of it, which may be an error, are parameters. The
-- actions of the process are in the form that `to_ctype` gives.
module _ {Action : Type 0} (from_repr : ℕ → Option ℕ) (try_into : Action → LinuxResult Action) where
  unfoldable pub sys_rt_sigaction :
      ℕ
      → ℕ
      → ℕ
      → ℕ
      → (ℕ → Action)
      → UserData Action
      → LinuxResult ℕ × (ℕ → Action) × UserData Action
  sys_rt_sigaction signo act oldact sigsetsize actions mem = elim (check_sigset_size sigsetsize) [
    | err e ↦ (err e, actions, mem)
    | ok _ ↦ elim (parse_signo from_repr signo) [
      | err e ↦ (err e, actions, mem)
      | ok valid ↦
          if valid == sigkill || valid == sigstop
          then (err einval, actions, mem)
          else (let (r, action, mem') = exchange oldact act try_into (actions valid) mem in
              (r, λ s. if valid == s then action else actions s, mem'))
    ]
  ]
