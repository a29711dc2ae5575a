-- ===== src/Dispatch/Handler.antt =====
-- `handle_syscall` of src/syscall.rs: the time statistics of the task are switched to kernel mode, the
-- call is made, its result becomes the value of a register, and the statistics are switched back.
use vegar.Prelude.{
  ℕ, ◌-◌, ◌^◌, ◌≤◌, ◌<◌, ◌≡◌, Bool, none, some, LinuxError, LinuxResult, ok, err, enosys, as_u32,
}
use vegar.TimeStat.{TimeStat, switch_into_kernel_mode, switch_into_user_mode}
use vegar.Dispatch.Numbers.{Sysno, Registers, Call, dispatch}

-- `LinuxError::code`, the numbers of the C headers.
pub record Codes : Type 0 where
  pub code : LinuxError → ℕ
  pub code-pos : (e : LinuxError) → 0 < code e
  pub code-le : (e : LinuxError) → code e ≤ 133
  pub code_injective : (e e' : LinuxError) → code e ≡ code e' → e ≡ e'

-- What a task and the kernel around it are: the time statistics of the task, and all else. `perform`
-- makes a call, and `from_number` is `Sysno::from` of the syscalls crate.
pub record Kernel : Type 1 where
  pub State : Type 0
  pub perform : Call → TimeStat × State → LinuxResult ℕ × (TimeStat × State)
  pub from_number : ℕ → Sysno
  pub x86_64 : Bool

module _ (C : Codes) where
  -- `unwrap_or_else(|err| -err.code() as _)`, a word.
  unfoldable pub answer : LinuxResult ℕ → ℕ
  answer (ok v) = v
  answer (err e) = 2 ^ 64 - C.code e

module _ (C : Codes) (K : Kernel) where
  -- The `match`.
  unfoldable pub make_call :
      Sysno → Registers → TimeStat × K.State → LinuxResult ℕ × (TimeStat × K.State)
  make_call sysno regs s = elim (dispatch K.x86_64 sysno regs) [
    | none ↦ (err enosys, s)
    | some call ↦ K.perform call s
  ]

  -- `entered` and `left` are what the clock shows at the two switches.
  unfoldable pub handle_syscall :
      (entered left : ℕ) → Registers → ℕ → TimeStat × K.State → ℕ × (TimeStat × K.State)
  handle_syscall entered left regs syscall_num (time, s) =
      let (result, (time', s')) =
        make_call (K.from_number (as_u32 syscall_num)) regs
          (switch_into_kernel_mode entered time, s) in
      (answer C result, (switch_into_user_mode left time', s'))
