-- ===== src/Dispatch/Answers.antt =====
-- What a caller can tell from the answer of `handle_syscall` of src/syscall.rs, and what the call adds
-- to the time statistics.
use mathlib.Core.Path.{subst}
use vegar.Prelude.{
  ℕ, ◌+◌, ◌-◌, ◌^◌, ◌≤◌, ◌<◌, ◌≡◌, refl, sym, ap, ◌∙◌, List, [], ◌∷◌, Option-cases, inl, inr, arith,
  LinuxResult, ok, err, usize_mod, as_u32,
}
use vegar.TimeStat.{TimeStat, switch_into_kernel_mode, switch_into_user_mode, update_timer}
use vegar.Dispatch.Numbers.{Registers, Call, dispatch}
use vegar.Dispatch.Handler.{Codes, Kernel, answer, make_call, handle_syscall}

-- A value that is no answer for an error.
abbrev pub IsPlain : LinuxResult ℕ → Type 0
IsPlain (ok v) = v < 2 ^ 64 - 133
IsPlain (err e) = Unit {0}

module _ (C : Codes) where
  -- Results with values below `2 ^ 64 - 133` have different answers if they differ: from the register
  -- a caller can tell whether the call failed, with which error, and what it returned.
  pub answer_injective :
      (r r' : LinuxResult ℕ) → IsPlain r → IsPlain r' → answer C r ≡ answer C r' → r ≡ r'
  unfolding answer
  answer_injective (ok v) (ok w) p q same = ap ok same
  answer_injective (ok v) (err e) p q same =
      absurd (omega (arith, C.code-le e, C.code-pos e, same, p))
  answer_injective (err e) (ok w) p q same =
      absurd (omega (arith, C.code-le e, C.code-pos e, same, q))
  answer_injective (err e) (err e') p q same = ap err (
      C.code_injective e e'
        (omega (arith, C.code-le e, C.code-pos e, C.code-le e', C.code-pos e', same)))

  into_kernel_lem :
      (now : ℕ) (s : TimeStat)
      → s.kernel_timestamp ≤ now
      → now < usize_mod
      → s.utime_ns + (now - s.kernel_timestamp) < usize_mod
      → ((switch_into_kernel_mode now s).utime_ns ≡ s.utime_ns + (now - s.kernel_timestamp))
        × ((switch_into_kernel_mode now s).stime_ns ≡ s.stime_ns)
        × ((switch_into_kernel_mode now s).kernel_timestamp ≡ now)
  unfolding switch_into_kernel_mode update_timer
  into_kernel_lem now s past small sum = ground arith

  into_user_lem :
      (now : ℕ) (s : TimeStat)
      → s.kernel_timestamp ≤ now
      → now < usize_mod
      → s.stime_ns + (now - s.kernel_timestamp) < usize_mod
      → ((switch_into_user_mode now s).utime_ns ≡ s.utime_ns)
        × ((switch_into_user_mode now s).stime_ns ≡ s.stime_ns + (now - s.kernel_timestamp))
        × ((switch_into_user_mode now s).kernel_timestamp ≡ s.kernel_timestamp)
  unfolding switch_into_user_mode update_timer
  into_user_lem now s past small sum = ground arith

module _ (C : Codes) (K : Kernel) where
  -- The call itself leaves the statistics alone: the task is not switched out while it runs.
  abbrev pub KeepsTime : Type 0
  KeepsTime = (call : Call) (s : TimeStat × K.State) → (K.perform call s).1.0 ≡ s.0

  make_call_time :
      (number : ℕ) (regs : Registers) (s : TimeStat × K.State)
      → KeepsTime
      → (make_call C K (K.from_number number) regs s).1.0 ≡ s.0
  unfolding make_call
  make_call_time number regs s keeps =
      elim (Option-cases (dispatch K.x86_64 (K.from_number number) regs)) [
        | inl unknown ↦ rw (make_call, unknown) refl
        | inr (call, known) ↦ rw (make_call, known) (keeps call s)
      ]

  -- What one call adds; the timestamp that times are taken from is that of its entry.
  handle_syscall_accounts :
      (entered left : ℕ) (regs : Registers) (syscall_num : ℕ) (time : TimeStat) (s : K.State)
      → KeepsTime
      → time.kernel_timestamp ≤ entered
      → entered ≤ left
      → left < usize_mod
      → time.utime_ns + (entered - time.kernel_timestamp) < usize_mod
      → time.stime_ns + (left - entered) < usize_mod
      → ((handle_syscall C K entered left regs syscall_num (time, s)).1.0.utime_ns
          ≡ time.utime_ns + (entered - time.kernel_timestamp))
        × ((handle_syscall C K entered left regs syscall_num (time, s)).1.0.stime_ns
            ≡ time.stime_ns + (left - entered))
        × ((handle_syscall C K entered left regs syscall_num (time, s)).1.0.kernel_timestamp
            ≡ entered)
  unfolding handle_syscall
  handle_syscall_accounts entered left regs syscall_num time s keeps past order clock user system =
      let (user', system', stamp) = into_kernel_lem C entered time past (omega arith) user in
      let kept =
        make_call_time (as_u32 syscall_num) regs (switch_into_kernel_mode entered time, s) keeps in
      let inside = switch_into_kernel_mode entered time in
      let (user'', system'', stamp') =
        into_user_lem C left inside (omega (arith, stamp)) (omega arith)
          (omega (arith, system', system)) in
      rw kept (user'' ∙ user', omega (arith, system'', system', stamp), stamp' ∙ stamp)

  -- The calls of a task, one after the other, in user mode between them: the arguments of the handler.
  pub record Entry : Type 0 where
    pub entered : ℕ
    pub left : ℕ
    pub regs : Registers
    pub syscall_num : ℕ

  abbrev pub handle_all : List Entry → TimeStat × K.State → TimeStat × K.State
  handle_all [] s = s
  handle_all (e ∷ es) s =
      handle_all es (handle_syscall C K e.entered e.left e.regs e.syscall_num s).1

  -- The clock does not run backwards from `now` on.
  abbrev pub IsRising : ℕ → List Entry → Type 0
  IsRising now [] = Unit {0}
  IsRising now (e ∷ es) = (now ≤ e.entered) × (e.entered ≤ e.left) × IsRising e.left es

  -- When the last call was entered and left, and the time between the two over all calls.
  abbrev pub last_entered : ℕ → List Entry → ℕ
  last_entered now [] = now
  last_entered now (e ∷ es) = last_entered e.entered es

  abbrev pub last_left : ℕ → List Entry → ℕ
  last_left now [] = now
  last_left now (e ∷ es) = last_left e.left es

  abbrev pub kernel_time : List Entry → ℕ
  kernel_time [] = 0
  kernel_time (e ∷ es) = (e.left - e.entered) + kernel_time es

  IsRising-mono :
      (now before : ℕ) (es : List Entry) → before ≤ now → IsRising now es → IsRising before es
  IsRising-mono now before [] le r = tt
  IsRising-mono now before (e ∷ es) le r = (omega (arith, le, r.0), r.1, r.2)

  last-bounds :
      (now : ℕ) (es : List Entry)
      → IsRising now es
      → (now ≤ last_left now es) × (now ≤ last_entered now es)
  last-bounds now [] r = (omega arith, omega arith)
  last-bounds now (e ∷ es) r =
      let left = last-bounds e.left es r.2 in
      let entered = last-bounds e.entered es (IsRising-mono e.left e.entered es r.1 r.2) in
      (omega (arith, left.0, r.0, r.1), omega (arith, entered.1, r.0))

  last_left_mono :
      (now before : ℕ) (es : List Entry) → before ≤ now → last_left before es ≤ last_left now es
  last_left_mono now before [] le = le
  last_left_mono now before (e ∷ es) le = omega arith

  -- One after the other, with a clock that does not run backwards, sums of times below `2 ^ 64` and
  -- calls that leave the statistics of the task alone, system calls add the time between their entry
  -- and their end to the system time. To the user time they add all the time from `kernel_timestamp`,
  -- which an entry sets and a return to user mode does not, to the entry of the last call: what the
  -- calls before the last one took counts as user time too.
  pub handle_all_accounts :
      (es : List Entry) (time : TimeStat) (s : K.State)
      → KeepsTime
      → IsRising time.kernel_timestamp es
      → last_left time.kernel_timestamp es < usize_mod
      → time.utime_ns + (last_left time.kernel_timestamp es - time.kernel_timestamp) < usize_mod
      → time.stime_ns + kernel_time es < usize_mod
      → ((handle_all es (time, s)).0.utime_ns
          ≡ time.utime_ns + (last_entered time.kernel_timestamp es - time.kernel_timestamp))
        × ((handle_all es (time, s)).0.stime_ns ≡ time.stime_ns + kernel_time es)
  handle_all_accounts [] time s keeps rising clock user system = (omega arith, omega arith)
  handle_all_accounts (e ∷ es) time s keeps rising clock user system =
      let after = (handle_syscall C K e.entered e.left e.regs e.syscall_num (time, s)).1 in
      let past = last-bounds e.left es rising.2 in
      let (user', system', stamp) =
        handle_syscall_accounts e.entered e.left e.regs e.syscall_num time s keeps rising.0 rising.1
          (omega (arith, past.0, clock)) (omega (arith, past.0, rising.0, rising.1, user))
          (omega (arith, system)) in
      let rising' : IsRising e.entered es = IsRising-mono e.left e.entered es rising.1 rising.2 in
      let end = ap (λ k. last_left k es) stamp in
      let entry = ap (λ k. last_entered k es) stamp in
      let within = last_left_mono e.left e.entered es rising.1 in
      let past' = last-bounds e.entered es rising' in
      let (user'', system'') =
        handle_all_accounts es after.0 after.1 keeps
          (subst (λ k. IsRising k es) (sym stamp) rising') (omega (arith, end, within, clock))
          (omega (arith, end, within, stamp, user, user', past'.0, rising.0))
          (omega (arith, system, system')) in
      (
        omega (arith, user'', user', entry, stamp, past'.1, rising.0),
        omega (arith, system'', system'),
      )
