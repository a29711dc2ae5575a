-- ===== src/Clocks/Sleep.antt =====
-- What `sys_nanosleep` of api/src/imp/task/schedule.rs returns.
use vegar.Prelude.{
  ℕ, ◌+◌, ◌-◌, ◌%◌, ◌^◌, ◌<◌, ◌≡◌, refl, ◌||◌, ◌∙◌, ◌⊎◌, false, Bool-cases, Option, none, some, inl,
  inr, arith, ltb, leb, LinuxResult, ok, err, einval, eintr,
}
use vegar.Clocks.Values.{
  nanos_per_sec, TimeValue, total_nanos, from_nanos, checked_sub, Timespec,
  timespec_from_time_value, timespec_to_time_value,
}
use vegar.Clocks.Calls.{returns, finish_sleep, sys_nanosleep}
use vegar.Clocks.RoundTrip.{new_duration_proper}

-- The duration that a request means.
abbrev pub requested : Timespec → TimeValue
requested req = record { secs = req.tv_sec; subsec_nanos = req.tv_nsec }

-- What `sys_nanosleep` accepts, with the fields as words.
abbrev pub IsRequest : Timespec → Type 0
IsRequest req = (req.tv_sec < 2 ^ 63) × (req.tv_nsec < nanos_per_sec)

total-from_nanos : (n : ℕ) → total_nanos (from_nanos n) ≡ n
unfolding total_nanos from_nanos
total-from_nanos n = omega arith

checked_sub_cases :
    (a b : TimeValue)
    → ((checked_sub a b ≡ none) × (total_nanos a < total_nanos b))
      ⊎ ((d : TimeValue) × ((checked_sub a b ≡ some d)
            × (total_nanos d + total_nanos b ≡ total_nanos a)))
unfolding checked_sub
checked_sub_cases a b = elim (Bool-cases (ltb (total_nanos a) (total_nanos b))) [
  | inl h ↦ inl (rw h refl, ground arith)
  | inr h ↦ inr (
    from_nanos (total_nanos a - total_nanos b),
    (rw h refl, ground (arith, total-from_nanos (total_nanos a - total_nanos b))),
  )
]

accepted :
    (req : Timespec)
    → IsRequest req
    → leb (2 ^ 63) req.tv_nsec || ltb 999_999_999 req.tv_nsec || leb (2 ^ 63) req.tv_sec ≡ false
accepted req h = ground arith

refused :
    (req : Timespec)
    → leb (2 ^ 63) req.tv_nsec || ltb 999_999_999 req.tv_nsec || leb (2 ^ 63) req.tv_sec ≡ false
    → IsRequest req
refused req h = ground arith

to_time_value_lem :
    (req : Timespec) → IsRequest req → timespec_to_time_value req ≡ some (requested req)
unfolding timespec_to_time_value
to_time_value_lem req h =
    let kept : req.tv_nsec % 2 ^ 32 ≡ req.tv_nsec = omega (arith, h.1) in
    rw kept (new_duration_proper req.tv_sec req.tv_nsec (omega (arith, h.0)) h.1)

sys_nanosleep_accepted :
    (sleep : TimeValue → TimeValue) (req : Timespec) (rem : Option (LinuxResult (Unit {0})))
    → IsRequest req
    → sys_nanosleep sleep (ok req) rem ≡ finish_sleep (requested req) (sleep (requested req)) rem
unfolding sys_nanosleep
sys_nanosleep_accepted sleep req rem h = rw (accepted req h, to_time_value_lem req h) refl

-- With a request and a place for the rest that can be accessed, `sys_nanosleep` does one of three
-- things. It refuses the request with EINVAL if its seconds are below 0 or its nanoseconds are not
-- from 0 to 999999999. It returns 0 if the task slept for longer than was asked for. Else it returns
-- EINTR and writes the time that is left, which with the time slept makes the time asked for; this
-- is so too if that is 0.
pub sys_nanosleep_cases :
    (sleep : TimeValue → TimeValue) (req : Timespec)
    → ((IsRequest req → ⊥)
        × (sys_nanosleep sleep (ok req) (some (ok tt)) ≡ returns (err einval) none))
      ⊎ ((IsRequest req
            × ((total_nanos (requested req) < total_nanos (sleep (requested req)))
                × (sys_nanosleep sleep (ok req) (some (ok tt)) ≡ returns (ok 0) none)))
          ⊎ (IsRequest req
              × ((left : Timespec) × ((total_nanos (requested left)
                        + total_nanos (sleep (requested req))
                      ≡ total_nanos (requested req))
                    × (sys_nanosleep sleep (ok req) (some (ok tt))
                        ≡ returns (err eintr) (some left))))))
unfolding sys_nanosleep finish_sleep total_nanos timespec_from_time_value
sys_nanosleep_cases sleep req =
    elim (Bool-cases
      (leb (2 ^ 63) req.tv_nsec || ltb 999_999_999 req.tv_nsec || leb (2 ^ 63) req.tv_sec)) [
        | inl bad ↦ inl (λ h. ground (arith, bad, accepted req h), rw bad refl)
        | inr good ↦
            let h = refused req good in
            let made = sys_nanosleep_accepted sleep req (some (ok tt)) h in
            elim (checked_sub_cases (requested req) (sleep (requested req))) [
              | inl over ↦ inr (inl (h, (over.1, made ∙ rw (finish_sleep, over.0) refl)))
              | inr (d, rest) ↦ inr (
                  inr (
                    h,
                    (timespec_from_time_value d, (rest.1, made ∙ rw (finish_sleep, rest.0) refl)),
                  ))
            ]
      ]
