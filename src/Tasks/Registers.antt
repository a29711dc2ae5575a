-- ===== src/Tasks/Registers.antt =====
-- api/src/imp/task/thread.rs: the numbers of the running task, `set_tid_address`, and `arch_prctl`
-- with the registers that it changes. Beside it api/src/imp/sys.rs: the names of the system.
use vegar.Prelude.{
  ℕ, ◌-◌, ◌≤◌, ◌≡◌, refl, Option, none, some, List, ◌++◌, arith, ◌==◌, if◌then◌else◌, LinuxResult,
  ok, err, einval, enodev, as_u32, length, replicate, length-append, length-replicate,
}

-- `Thread` and its process as a task sees itself.
pub record Running : Type 0 where
  pub pid : ℕ
  pub parent_pid : ℕ
  pub tid : ℕ
  pub clear_child_tid : ℕ

unfoldable pub sys_getpid : Running → LinuxResult ℕ
sys_getpid t = ok t.pid

unfoldable pub sys_getppid : Running → LinuxResult ℕ
sys_getppid t = ok t.parent_pid

unfoldable pub sys_gettid : Running → LinuxResult ℕ
sys_gettid t = ok t.tid

unfoldable pub sys_set_tid_address : ℕ → Running → LinuxResult ℕ × Running
sys_set_tid_address clear_child_tid t = (ok t.tid, record t { clear_child_tid = clear_child_tid })

pub data ArchPrctlCode : Type 0 where
  set_gs set_fs get_fs get_gs get_cpuid set_cpuid : ArchPrctlCode

-- `ArchPrctlCode::try_from`
unfoldable pub to_code : ℕ → Option ArchPrctlCode
to_code code =
    if code == 0x1001
    then some set_gs
    else if code == 0x1002
    then some set_fs
    else if code == 0x1003
    then some get_fs
    else if code == 0x1004
    then some get_gs
    else if code == 0x1011
    then some get_cpuid
    else if code == 0x1012
    then some set_cpuid
    else none

-- The base of FS in the trap frame, and that of GS in a register of the processor.
pub record Bases : Type 0 where
  pub tls : ℕ
  pub kernel_gsbase : ℕ

-- `*UserPtr::from(addr).get_as_mut()? = value; Ok(0)`: the result, and what is written.
abbrev pub write_base : LinuxResult (Unit {0}) → ℕ → Bases → LinuxResult ℕ × Bases × Option ℕ
write_base (ok _) value b = (ok 0, b, some value)
write_base (err e) value b = (err e, b, none)

-- `access` is what the check of the address as a user pointer gives.
unfoldable pub run_code :
    ArchPrctlCode → ℕ → LinuxResult (Unit {0}) → Bases → LinuxResult ℕ × Bases × Option ℕ
run_code get_fs addr access b = write_base access b.tls b
run_code set_fs addr access b = (ok 0, record b { tls = addr }, none)
run_code get_gs addr access b = write_base access b.kernel_gsbase b
run_code set_gs addr access b = (ok 0, record b { kernel_gsbase = addr }, none)
run_code get_cpuid addr access b = (ok 0, b, none)
run_code set_cpuid addr access b = (err enodev, b, none)

unfoldable pub sys_arch_prctl :
    ℕ → ℕ → LinuxResult (Unit {0}) → Bases → LinuxResult ℕ × Bases × Option ℕ
sys_arch_prctl code addr access b = elim (to_code (as_u32 code)) [
  | none ↦ (err einval, b, none)
  | some c ↦ run_code c addr access b
]

-- What is set by one call is what the next one reads: FS after ARCH_SET_FS and GS after ARCH_SET_GS,
-- each with the other base as it was.
pub arch_prctl_reads_back :
    (addr at : ℕ) (b : Bases)
    → (sys_arch_prctl 0x1003 at (ok tt) (sys_arch_prctl 0x1002 addr (ok tt) b).1
        ≡ (ok 0, record b { tls = addr }, some addr))
      × (sys_arch_prctl 0x1004 at (ok tt) (sys_arch_prctl 0x1001 addr (ok tt) b).1
          ≡ (ok 0, record b { kernel_gsbase = addr }, some addr))
unfolding sys_arch_prctl to_code run_code
arch_prctl_reads_back addr at b = (refl, refl)

unfoldable pub sys_getuid : LinuxResult ℕ
sys_getuid = ok 0

unfoldable pub sys_geteuid : LinuxResult ℕ
sys_geteuid = ok 1

unfoldable pub sys_getgid : LinuxResult ℕ
sys_getgid = ok 0

unfoldable pub sys_getegid : LinuxResult ℕ
sys_getegid = ok 1

-- `pad_str`, for a text that fits: the copy does not look at the length of its target.
unfoldable pub pad_str : List ℕ → List ℕ
pad_str info = info ++ replicate (65 - length info) 0

pub length-pad_str : (info : List ℕ) → length info ≤ 65 → length (pad_str info) ≡ 65
unfolding pad_str
length-pad_str info h = omega (
  arith,
  h,
  length-append info (replicate (65 - length info) 0),
  length-replicate {A = ℕ} (65 - length info) 0,
)
