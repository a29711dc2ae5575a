-- ===== src/Dispatch/Numbers.antt =====
-- The numbers and the calls that `handle_syscall` of src/syscall.rs chooses among.
use vegar.Prelude.{ℕ, Bool, Option, none, some, as_u32, if◌then◌else◌}

-- `syscalls::Sysno` as far as the handler names it. `fstatat` is so named on targets other than x86_64.
pub data Sysno : Type 0 where
  ioctl chdir mkdirat getdents64 linkat link unlinkat unlink getcwd openat «open» close dup dup2 :
      Sysno
  dup3 fcntl read readv write writev lseek mount umount2 pipe2 pipe stat fstat lstat newfstatat :
      Sysno
  fstatat statx brk mmap munmap mprotect getpid getppid gettid sched_yield nanosleep execve : Sysno
  set_tid_address arch_prctl clone fork exit exit_group wait4 rt_sigprocmask rt_sigaction : Sysno
  rt_sigpending rt_sigreturn rt_sigtimedwait rt_sigsuspend kill tkill tgkill rt_sigqueueinfo : Sysno
  rt_tgsigqueueinfo sigaltstack futex getuid geteuid getgid getegid uname gettimeofday times : Sysno
  clock_gettime other : Sysno

-- The registers of the trap frame that hold arguments.
pub record Registers : Type 0 where
  pub arg0 : ℕ
  pub arg1 : ℕ
  pub arg2 : ℕ
  pub arg3 : ℕ
  pub arg4 : ℕ
  pub arg5 : ℕ

-- A call with its arguments. Calls that get the trap frame besides read and write the registers.
pub data Call : Type 0 where
  sys_getpid sys_getppid sys_gettid sys_sched_yield sys_fork sys_rt_sigreturn sys_getuid : Call
  sys_geteuid sys_getgid sys_getegid : Call
  sys_chdir sys_unlink sys_close sys_dup sys_brk sys_set_tid_address sys_exit : ℕ → Call
  sys_exit_group sys_uname sys_gettimeofday sys_times : ℕ → Call
  sys_link sys_getcwd sys_dup2 sys_umount2 sys_pipe2 sys_stat sys_fstat sys_lstat : ℕ → ℕ → Call
  sys_munmap sys_nanosleep sys_arch_prctl sys_rt_sigpending sys_rt_sigsuspend : ℕ → ℕ → Call
  sys_kill sys_tkill sys_sigaltstack sys_clock_gettime : ℕ → ℕ → Call
  sys_ioctl sys_mkdirat sys_getdents64 sys_unlinkat sys_open sys_fcntl : ℕ → ℕ → ℕ → Call
  sys_read sys_readv sys_write sys_writev sys_lseek sys_mprotect sys_execve : ℕ → ℕ → ℕ → Call
  sys_waitpid sys_tgkill : ℕ → ℕ → ℕ → Call
  sys_openat sys_fstatat sys_rt_sigprocmask sys_rt_sigaction : ℕ → ℕ → ℕ → ℕ → Call
  sys_rt_sigtimedwait sys_rt_sigqueueinfo : ℕ → ℕ → ℕ → ℕ → Call
  sys_linkat sys_mount sys_statx sys_clone sys_rt_tgsigqueueinfo : ℕ → ℕ → ℕ → ℕ → ℕ → Call
  sys_mmap sys_futex : ℕ → ℕ → ℕ → ℕ → ℕ → ℕ → Call

-- The calls of the handler. An argument of 32 bits is the low half of its register. `x86_64` tells
-- for which target the kernel is built.
unfoldable pub dispatch : (x86_64 : Bool) → Sysno → Registers → Option Call
dispatch x86_64 ioctl r = some (sys_ioctl (as_u32 r.arg0) r.arg1 r.arg2)
dispatch x86_64 chdir r = some (sys_chdir r.arg0)
dispatch x86_64 mkdirat r = some (sys_mkdirat (as_u32 r.arg0) r.arg1 (as_u32 r.arg2))
dispatch x86_64 getdents64 r = some (sys_getdents64 (as_u32 r.arg0) r.arg1 r.arg2)
dispatch x86_64 linkat r =
    some (sys_linkat (as_u32 r.arg0) r.arg1 (as_u32 r.arg2) r.arg3 (as_u32 r.arg4))
dispatch x86_64 link r = if x86_64 then some (sys_link r.arg0 r.arg1) else none
dispatch x86_64 unlinkat r = some (sys_unlinkat (as_u32 r.arg0) r.arg1 (as_u32 r.arg2))
dispatch x86_64 unlink r = if x86_64 then some (sys_unlink r.arg0) else none
dispatch x86_64 getcwd r = some (sys_getcwd r.arg0 r.arg1)
dispatch x86_64 openat r = some (sys_openat (as_u32 r.arg0) r.arg1 (as_u32 r.arg2) (as_u32 r.arg3))
dispatch x86_64 «open» r =
    if x86_64 then some (sys_open r.arg0 (as_u32 r.arg1) (as_u32 r.arg2)) else none
dispatch x86_64 close r = some (sys_close (as_u32 r.arg0))
dispatch x86_64 dup r = some (sys_dup (as_u32 r.arg0))
dispatch x86_64 dup2 r = if x86_64 then some (sys_dup2 (as_u32 r.arg0) (as_u32 r.arg1)) else none
dispatch x86_64 dup3 r = some (sys_dup2 (as_u32 r.arg0) (as_u32 r.arg1))
dispatch x86_64 fcntl r = some (sys_fcntl (as_u32 r.arg0) (as_u32 r.arg1) r.arg2)
dispatch x86_64 read r = some (sys_read (as_u32 r.arg0) r.arg1 r.arg2)
dispatch x86_64 readv r = some (sys_readv (as_u32 r.arg0) r.arg1 r.arg2)
dispatch x86_64 write r = some (sys_write (as_u32 r.arg0) r.arg1 r.arg2)
dispatch x86_64 writev r = some (sys_writev (as_u32 r.arg0) r.arg1 r.arg2)
dispatch x86_64 lseek r = some (sys_lseek (as_u32 r.arg0) r.arg1 (as_u32 r.arg2))
dispatch x86_64 mount r = some (sys_mount r.arg0 r.arg1 r.arg2 (as_u32 r.arg3) r.arg4)
dispatch x86_64 umount2 r = some (sys_umount2 r.arg0 (as_u32 r.arg1))
dispatch x86_64 pipe2 r = some (sys_pipe2 r.arg0 (as_u32 r.arg1))
dispatch x86_64 pipe r = if x86_64 then some (sys_pipe2 r.arg0 0) else none
dispatch x86_64 stat r = if x86_64 then some (sys_stat r.arg0 r.arg1) else none
dispatch x86_64 fstat r = some (sys_fstat (as_u32 r.arg0) r.arg1)
dispatch x86_64 lstat r = if x86_64 then some (sys_lstat r.arg0 r.arg1) else none
dispatch x86_64 newfstatat r =
    if x86_64 then some (sys_fstatat (as_u32 r.arg0) r.arg1 r.arg2 (as_u32 r.arg3)) else none
dispatch x86_64 fstatat r =
    if x86_64 then none else some (sys_fstatat (as_u32 r.arg0) r.arg1 r.arg2 (as_u32 r.arg3))
dispatch x86_64 statx r =
    some (sys_statx (as_u32 r.arg0) r.arg1 (as_u32 r.arg2) (as_u32 r.arg3) r.arg4)
dispatch x86_64 brk r = some (sys_brk r.arg0)
dispatch x86_64 mmap r =
    some (sys_mmap r.arg0 r.arg1 (as_u32 r.arg2) (as_u32 r.arg3) (as_u32 r.arg4) r.arg5)
dispatch x86_64 munmap r = some (sys_munmap r.arg0 r.arg1)
dispatch x86_64 mprotect r = some (sys_mprotect r.arg0 r.arg1 (as_u32 r.arg2))
dispatch x86_64 getpid r = some sys_getpid
dispatch x86_64 getppid r = some sys_getppid
dispatch x86_64 gettid r = some sys_gettid
dispatch x86_64 sched_yield r = some sys_sched_yield
dispatch x86_64 nanosleep r = some (sys_nanosleep r.arg0 r.arg1)
dispatch x86_64 execve r = some (sys_execve r.arg0 r.arg1 r.arg2)
dispatch x86_64 set_tid_address r = some (sys_set_tid_address r.arg0)
dispatch x86_64 arch_prctl r = if x86_64 then some (sys_arch_prctl (as_u32 r.arg0) r.arg1) else none
dispatch x86_64 clone r = some (sys_clone (as_u32 r.arg0) r.arg1 r.arg2 r.arg3 r.arg4)
dispatch x86_64 fork r = if x86_64 then some sys_fork else none
dispatch x86_64 exit r = some (sys_exit (as_u32 r.arg0))
dispatch x86_64 exit_group r = some (sys_exit_group (as_u32 r.arg0))
dispatch x86_64 wait4 r = some (sys_waitpid (as_u32 r.arg0) r.arg1 (as_u32 r.arg2))
dispatch x86_64 rt_sigprocmask r = some (sys_rt_sigprocmask (as_u32 r.arg0) r.arg1 r.arg2 r.arg3)
dispatch x86_64 rt_sigaction r = some (sys_rt_sigaction (as_u32 r.arg0) r.arg1 r.arg2 r.arg3)
dispatch x86_64 rt_sigpending r = some (sys_rt_sigpending r.arg0 r.arg1)
dispatch x86_64 rt_sigreturn r = some sys_rt_sigreturn
dispatch x86_64 rt_sigtimedwait r = some (sys_rt_sigtimedwait r.arg0 r.arg1 r.arg2 r.arg3)
dispatch x86_64 rt_sigsuspend r = some (sys_rt_sigsuspend r.arg0 r.arg1)
dispatch x86_64 kill r = some (sys_kill (as_u32 r.arg0) (as_u32 r.arg1))
dispatch x86_64 tkill r = some (sys_tkill (as_u32 r.arg0) (as_u32 r.arg1))
dispatch x86_64 tgkill r = some (sys_tgkill (as_u32 r.arg0) (as_u32 r.arg1) (as_u32 r.arg2))
dispatch x86_64 rt_sigqueueinfo r =
    some (sys_rt_sigqueueinfo (as_u32 r.arg0) (as_u32 r.arg1) r.arg2 r.arg3)
dispatch x86_64 rt_tgsigqueueinfo r =
    some (sys_rt_tgsigqueueinfo (as_u32 r.arg0) (as_u32 r.arg1) (as_u32 r.arg2) r.arg3 r.arg4)
dispatch x86_64 sigaltstack r = some (sys_sigaltstack r.arg0 r.arg1)
dispatch x86_64 futex r =
    some (sys_futex r.arg0 (as_u32 r.arg1) (as_u32 r.arg2) r.arg3 r.arg4 (as_u32 r.arg5))
dispatch x86_64 getuid r = some sys_getuid
dispatch x86_64 geteuid r = some sys_geteuid
dispatch x86_64 getgid r = some sys_getgid
dispatch x86_64 getegid r = some sys_getegid
dispatch x86_64 uname r = some (sys_uname r.arg0)
dispatch x86_64 gettimeofday r = some (sys_gettimeofday r.arg0)
dispatch x86_64 times r = some (sys_times r.arg0)
dispatch x86_64 clock_gettime r = some (sys_clock_gettime (as_u32 r.arg0) r.arg1)
dispatch x86_64 other r = none
