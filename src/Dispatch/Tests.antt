-- ===== src/Dispatch/Tests.antt =====
-- Runs of the handler of system calls, and the theorems about it at concrete inputs.
use vegar.Prelude.{
  ℕ, ◌+◌, ◌-◌, ◌^◌, ◌≤◌, ◌<◌, ◌≡◌, refl, sym, ap, ◌∙◌, true, List, [], ◌∷◌, arith, ◌==◌,
  if◌then◌else◌, LinuxError, LinuxResult, ok, eperm, enoent, esrch, eintr, ebadf, echild, eagain,
  enomem, efault, eexist, enotdir, eisdir, einval, emfile, epipe, erange, enosys, eilseq,
  eafnosupport, eisconn, eopnotsupp, enodev,
}
use vegar.TimeStat
use vegar.TimeStat.{TimeStat, switch_into_kernel_mode, switch_into_user_mode}
use vegar.Dispatch.Numbers.{getpid, other, Registers, dispatch}
use vegar.Dispatch.Handler.{Codes, Kernel, answer, make_call, handle_syscall}
use vegar.Dispatch.Answers.{answer_injective, KeepsTime, Entry, handle_all, handle_all_accounts}

abbrev number : LinuxError → ℕ
number eperm = 1
number enoent = 2
number esrch = 3
number eintr = 4
number ebadf = 9
number echild = 10
number eagain = 11
number enomem = 12
number efault = 14
number eexist = 17
number enotdir = 20
number eisdir = 21
number einval = 22
number emfile = 24
number epipe = 32
number erange = 34
number enosys = 38
number eilseq = 84
number eafnosupport = 97
number eisconn = 106
number eopnotsupp = 95
number enodev = 19

-- The error with a number.
abbrev error : ℕ → LinuxError
error n =
    if n == 1
    then eperm
    else if n == 2
    then enoent
    else if n == 3
    then esrch
    else if n == 4
    then eintr
    else if n == 9
    then ebadf
    else if n == 10
    then echild
    else if n == 11
    then eagain
    else if n == 12
    then enomem
    else if n == 14
    then efault
    else if n == 17
    then eexist
    else if n == 20
    then enotdir
    else if n == 21
    then eisdir
    else if n == 22
    then einval
    else if n == 24
    then emfile
    else if n == 32
    then epipe
    else if n == 34
    then erange
    else if n == 38
    then enosys
    else if n == 84
    then eilseq
    else if n == 97
    then eafnosupport
    else if n == 106
    then eisconn
    else if n == 95
    then eopnotsupp
    else enodev

error-number : (e : LinuxError) → error (number e) ≡ e
error-number eperm = refl
error-number enoent = refl
error-number esrch = refl
error-number eintr = refl
error-number ebadf = refl
error-number echild = refl
error-number eagain = refl
error-number enomem = refl
error-number efault = refl
error-number eexist = refl
error-number enotdir = refl
error-number eisdir = refl
error-number einval = refl
error-number emfile = refl
error-number epipe = refl
error-number erange = refl
error-number enosys = refl
error-number eilseq = refl
error-number eafnosupport = refl
error-number eisconn = refl
error-number eopnotsupp = refl
error-number enodev = refl

number_pos : (e : LinuxError) → 0 < number e
number_pos eperm = omega arith
number_pos enoent = omega arith
number_pos esrch = omega arith
number_pos eintr = omega arith
number_pos ebadf = omega arith
number_pos echild = omega arith
number_pos eagain = omega arith
number_pos enomem = omega arith
number_pos efault = omega arith
number_pos eexist = omega arith
number_pos enotdir = omega arith
number_pos eisdir = omega arith
number_pos einval = omega arith
number_pos emfile = omega arith
number_pos epipe = omega arith
number_pos erange = omega arith
number_pos enosys = omega arith
number_pos eilseq = omega arith
number_pos eafnosupport = omega arith
number_pos eisconn = omega arith
number_pos eopnotsupp = omega arith
number_pos enodev = omega arith

number_le : (e : LinuxError) → number e ≤ 133
number_le eperm = omega arith
number_le enoent = omega arith
number_le esrch = omega arith
number_le eintr = omega arith
number_le ebadf = omega arith
number_le echild = omega arith
number_le eagain = omega arith
number_le enomem = omega arith
number_le efault = omega arith
number_le eexist = omega arith
number_le enotdir = omega arith
number_le eisdir = omega arith
number_le einval = omega arith
number_le emfile = omega arith
number_le epipe = omega arith
number_le erange = omega arith
number_le enosys = omega arith
number_le eilseq = omega arith
number_le eafnosupport = omega arith
number_le eisconn = omega arith
number_le eopnotsupp = omega arith
number_le enodev = omega arith

abbrev codes : Codes
codes = record {
  code = number;
  code-pos = number_pos;
  code-le = number_le;
  code_injective = λ e e' same. sym (error-number e) ∙ ap error same ∙ error-number e';
}

-- Number 39 is `getpid`, and each call answers 7.
abbrev kernel : Kernel
kernel = record {
  State = Unit {0};
  perform = λ call s. (ok 7, s);
  from_number = λ n. if n == 39 then getpid else other;
  x86_64 = true;
}

abbrev regs : Registers
regs = record { arg0 = 0; arg1 = 0; arg2 = 0; arg3 = 0; arg4 = 0; arg5 = 0 }

known_call : (handle_syscall codes kernel 10 15 regs 39 (TimeStat.new, tt)).0 ≡ 7
unfolding handle_syscall make_call dispatch answer
known_call = refl

-- An unknown call gives minus ENOSYS.
unknown_call : (handle_syscall codes kernel 10 15 regs 1000 (TimeStat.new, tt)).0 ≡ 2 ^ 64 - 38
unfolding handle_syscall make_call dispatch answer
unknown_call = refl

answer_injective_example : ◌≡◌ {A = LinuxResult ℕ} (ok 7) (ok 7)
answer_injective_example = answer_injective codes (ok 7) (ok 7) (omega arith) (omega arith) refl

kernel_keeps : KeepsTime codes kernel
kernel_keeps call s = refl

-- Two calls of 5 ns each, 20 ns apart.
abbrev two_calls : List (Entry codes kernel)
two_calls =
    record { entered = 10; left = 15; regs = regs; syscall_num = 39 }
    ∷ record { entered = 35; left = 40; regs = regs; syscall_num = 39 }
    ∷ []

-- The user time is 35 ns, though 5 of them were spent in the first call.
handle_all_accounts_example :
    ((handle_all codes kernel two_calls (TimeStat.new, tt)).0.utime_ns ≡ 0 + (35 - 0))
    × ((handle_all codes kernel two_calls (TimeStat.new, tt)).0.stime_ns ≡ 0 + 10)
unfolding TimeStat.new
handle_all_accounts_example =
    handle_all_accounts codes kernel two_calls TimeStat.new tt kernel_keeps
      (omega arith, omega arith, (omega arith, omega arith, tt)) (omega arith) (omega arith)
      (omega arith)
