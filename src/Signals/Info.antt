-- ===== src/Signals/Info.antt =====
-- Signal numbers and `SignalInfo`, for api/src/imp/signal.rs.
use vegar.Prelude.{
  ℕ, ◌-◌, ◌%◌, ◌^◌, ◌&&◌, ◌||◌, not, Option, none, some, ltb, ◌==◌, if◌then◌else◌, LinuxResult, ok,
  err, einval, eperm, ok_or, guard,
}

-- `size_of::<SignalSet>()`
abbrev pub size_of_signal_set : ℕ
size_of_signal_set = 8

unfoldable pub check_sigset_size : ℕ → LinuxResult (Unit {0})
check_sigset_size size = guard (size == size_of_signal_set) einval

-- `SignalInfo`, by the fields that the calls use. The code is the word of an `i32`.
pub record SignalInfo : Type 0 where
  pub signo : ℕ
  pub code : ℕ

abbrev pub si_user : ℕ
si_user = 0

-- -6 as the word of an `i32`.
abbrev pub si_tkill : ℕ
si_tkill = 2 ^ 32 - 6

-- `Signo::from_repr` of axsignal is a parameter.
module _ (from_repr : ℕ → Option ℕ) where
  unfoldable pub parse_signo : ℕ → LinuxResult ℕ
  parse_signo signo = ok_or (from_repr (signo % 2 ^ 8)) einval

  unfoldable pub make_siginfo : ℕ → ℕ → LinuxResult (Option SignalInfo)
  make_siginfo signo code = if signo == 0 then ok none else (elim (parse_signo signo) [
    | err e ↦ err e
    | ok valid ↦ ok (some (record { signo = valid; code = code }))
  ])

  -- `make_queue_signal_info`, for a caller with the pid `own`; `sig` is what the user pointer gives.
  unfoldable pub make_queue_signal_info :
      ℕ → ℕ → ℕ → LinuxResult SignalInfo → LinuxResult SignalInfo
  make_queue_signal_info own tgid signo sig = elim (parse_signo signo) [
    | err e ↦ err e
    | ok valid ↦ elim sig [
      | err e ↦ err e
      | ok s ↦
          if not (own == tgid) && (ltb s.code (2 ^ 31) || s.code == si_tkill)
          then err eperm
          else ok (record s { signo = valid })
    ]
  ]
