-- ===== src/Wait/Reap.antt =====
-- What `sys_waitpid` of api/src/imp/task/wait.rs comes to.
use mathlib.Core.Path.{subst}
use vegar.Prelude.{
  ℕ, ◌≡◌, ◌≢◌, ◌⊎◌, refl, sym, ap, ◌∙◌, inl, inr, Bool, true, false, none, some, List, [], ◌∷◌,
  bit_and, arith, if◌then◌else◌, Bool-cases, Option-cases, LinuxError, LinuxResult, ok, err, echild,
  LinuxResult-cases,
}
use vegar.Wait.Select.{
  Process, wnohang, wnowait, options_all, contains, apply, to_wait_pid, fits_kind, filter,
  filter_panics, select,
}
use vegar.Wait.Calls.{
  Status, Answer, returned, sleeping, panicked, find_zombie, reap, poll, wait_loop, is_empty,
  sys_waitpid,
}

-- A process of the list, by an equation at one of its places.
abbrev pub IsIn : Process → List Process → Type 0
IsIn p [] = ⊥
IsIn p (q ∷ ps) = (q ≡ p) ⊎ IsIn p ps

abbrev pub IsSeen : Status → Status → List Status → Type 0
IsSeen s st [] = st ≡ s
IsSeen s st (st' ∷ later) = (st ≡ s) ⊎ IsSeen s st' later

filter-IsIn :
    (test : Process → Bool) (p : Process) (ps : List Process)
    → IsIn p (filter test ps)
    → IsIn p ps × (test p ≡ true)
filter-IsIn test p [] i = absurd i
filter-IsIn test p (q ∷ ps) i = elim (Bool-cases (test q)) [
  | inr other ↦ let there = filter-IsIn test p ps (rw other at i) in (inr there.0, there.1)
  | inl holds ↦
      let here : (q ≡ p) ⊎ IsIn p (filter test ps) = rw holds at i in
      elim here [
        | inl same ↦ (inl same, rw (sym same) holds)
        | inr k ↦ let there = filter-IsIn test p ps k in (inr there.0, there.1)
      ]
]

find_zombie-some :
    (st : Status) (ps : List Process) (p : Process)
    → find_zombie st ps ≡ some p
    → IsIn p ps × (st.is_zombie p.pid ≡ true)
unfolding find_zombie
find_zombie-some st [] p e = ground arith
find_zombie-some st (q ∷ ps) p e = elim (Bool-cases (st.is_zombie q.pid)) [
  | inl z ↦
      let same : q ≡ p = ground (arith, z) in
      (inl same, ap (λ (x : Process). st.is_zombie x.pid) (sym same) ∙ z)
  | inr z ↦ let there = find_zombie-some st ps p (ground (arith, z)) in (inr there.0, there.1)
]

find_zombie-none :
    (st : Status) (ps : List Process) (p : Process)
    → find_zombie st ps ≡ none
    → IsIn p ps
    → st.is_zombie p.pid ≡ false
unfolding find_zombie
find_zombie-none st [] p e i = absurd i
find_zombie-none st (q ∷ ps) p e (inl same) =
    ground (arith, ap (λ (x : Process). st.is_zombie x.pid) same)
find_zombie-none st (q ∷ ps) p e (inr i) = ground (arith, find_zombie-none st ps p, i)

abbrev pub NoZombie : Status → List Process → Type 0
NoZombie s children = (child : Process) → IsIn child children → s.is_zombie child.pid ≡ false

-- The loop reaps a child that is a zombie in a state that the call saw, or returns 0 at once where no
-- child was one, or sleeps, where none was one in any state.
abbrev pub LoopCases : ℕ → Bool → List Process → Status → List Status → Answer → Type 0
LoopCases options has_ptr children st later answer =
    ((child : Process) × (s : Status) × IsIn child children
      × IsSeen s st later
      × (s.is_zombie child.pid ≡ true)
      × (answer
          ≡ returned (ok child.pid) (if contains options wnowait then none else some child.pid)
              (if has_ptr then some (s.exit_code child.pid) else none)))
    ⊎ (((contains options wnohang ≡ true)
          × NoZombie st children
          × (answer ≡ returned (ok 0) none none))
        ⊎ ((contains options wnohang ≡ false)
            × ((s : Status) → IsSeen s st later → NoZombie s children)
            × (answer ≡ sleeping)))

wait_loop_cases :
    (options : ℕ) (has_ptr : Bool) (children : List Process) (st : Status) (later : List Status)
    → LoopCases options has_ptr children st later (wait_loop options has_ptr children st later)
unfolding wait_loop poll reap
wait_loop_cases options has_ptr children st [] = elim (Option-cases (find_zombie st children)) [
  | inr (child, f) ↦
      let (i, z) = find_zombie-some st children child f in
      inl (child, st, i, refl, z, ground (arith, f))
  | inl f ↦ elim (Bool-cases (contains options wnohang)) [
    | inl h ↦ inr (inl (h, λ child i. find_zombie-none st children child f i, ground (arith, f, h)))
    | inr h ↦ inr (
        inr (
          h,
          λ s seen child i.
              subst (λ (x : Status). x.is_zombie child.pid ≡ false) seen
                (find_zombie-none st children child f i),
          ground (arith, f, h),
        ))
  ]
]
wait_loop_cases options has_ptr children st (st' ∷ later) =
    elim (Option-cases (find_zombie st children)) [
      | inr (child, f) ↦
          let (i, z) = find_zombie-some st children child f in
          inl (child, st, i, inl refl, z, ground (arith, f))
      | inl f ↦ elim (Bool-cases (contains options wnohang)) [
        | inl h ↦
            inr (inl (h, λ child i. find_zombie-none st children child f i, ground (arith, f, h)))
        | inr h ↦
            let step : wait_loop options has_ptr children st (st' ∷ later)
                ≡ wait_loop options has_ptr children st' later =
              ground (arith, f, h) in
            elim (wait_loop_cases options has_ptr children st' later) [
              | inl (child, s, i, seen, z, e) ↦ inl (child, s, i, inr seen, z, step ∙ e)
              | inr (inl (yes_h, n, e)) ↦ cc
              | inr (inr (no_h, n, e)) ↦ inr (
                  inr (
                    h,
                    (λ s seen child i. elim seen [
                      | inl same ↦
                          subst (λ (x : Status). x.is_zombie child.pid ≡ false) same
                            (find_zombie-none st children child f i)
                      | inr more ↦ n s more child i
                    ]),
                    step ∙ e,
                  ))
            ]
      ]
    ]

-- `sys_waitpid` panics where a child that passes the first filter lacks its data, but for `WALL`. Else it
-- gives `ECHILD` where no child passes both filters, and the error of a bad pointer next.
-- Else it reaps a child that passes both filters and is a zombie in a state that the call saw: it
-- returns its pid, frees it unless `WNOWAIT` is set, and writes its exit code if there is a pointer; or,
-- with `WNOHANG`, it returns 0 at once where no such child is a zombie; or, without it, it sleeps where
-- none was one in any state seen.
pub sys_waitpid_cases :
    (own_pgid arg bits : ℕ) (exit_code_ptr : LinuxResult Bool) (processes : List Process)
    (st : Status) (later : List Status)
    → let options = bit_and bits options_all in
      let children = select own_pgid arg options processes in
      let answer = sys_waitpid own_pgid arg bits exit_code_ptr processes st later in
      ((child : Process)
        → IsIn child children
        → IsIn child processes
          × (apply (to_wait_pid own_pgid arg) child ≡ true)
          × (fits_kind options child ≡ true))
      × (((filter_panics own_pgid arg options processes ≡ true) × (answer ≡ panicked))
          ⊎ ((filter_panics own_pgid arg options processes ≡ false)
              × (((is_empty children ≡ true) × (answer ≡ returned (err echild) none none))
                  ⊎ ((is_empty children ≡ false)
                      × (((e : LinuxError) × (exit_code_ptr ≡ err e)
                            × (answer ≡ returned (err e) none none))
                          ⊎ ((has_ptr : Bool) × (exit_code_ptr ≡ ok has_ptr)
                              × LoopCases options has_ptr children st later answer))))))
unfolding sys_waitpid select
sys_waitpid_cases own_pgid arg bits exit_code_ptr processes st later =
    let options = bit_and bits options_all in
    let wanted = filter (apply (to_wait_pid own_pgid arg)) processes in
    let children = select own_pgid arg options processes in
    (
      λ child i.
          let kind = filter-IsIn (fits_kind options) child wanted i in
          let there = filter-IsIn (apply (to_wait_pid own_pgid arg)) child processes kind.0 in
          (there.0, there.1, kind.1),
      elim (Bool-cases (filter_panics own_pgid arg options processes)) [
        | inl lacks ↦ inl (lacks, ground (arith, lacks))
        | inr has ↦ inr (
          has,
          elim (Bool-cases (is_empty children)) [
            | inl e ↦ inl (e, ground (arith, has, e))
            | inr e ↦ inr (
              e,
              elim (LinuxResult-cases exit_code_ptr) [
                | inl (error, p) ↦ inl (error, p, ground (arith, has, e, p))
                | inr (has_ptr, p) ↦ inr (
                  has_ptr,
                  p,
                  subst (LoopCases options has_ptr children st later) (ground (arith, has, e, p))
                      (wait_loop_cases options has_ptr children st later),
                )
              ],
            )
          ],
        )
      ],
    )

-- A call returns, and does not sleep on, if one of the children that it waits for is a zombie in a
-- state that it saw.
pub sys_waitpid_returns :
    (own_pgid arg bits : ℕ) (exit_code_ptr : LinuxResult Bool) (processes : List Process)
    (st s : Status) (later : List Status) (child : Process)
    → IsIn child (select own_pgid arg (bit_and bits options_all) processes)
    → IsSeen s st later
    → s.is_zombie child.pid ≡ true
    → sys_waitpid own_pgid arg bits exit_code_ptr processes st later ≢ sleeping
sys_waitpid_returns own_pgid arg bits exit_code_ptr processes st s later child i seen z asleep =
    elim (sys_waitpid_cases own_pgid arg bits exit_code_ptr processes st later).1 [
      | inl (lacks, answer) ↦ cc
      | inr (has, inl (e, answer)) ↦ cc
      | inr (has, inr (e, inl (error, p, answer))) ↦ cc
      | inr (has, inr (e, inr (has_ptr, p, inl (c, s', c_in, s_seen, c_zombie, answer)))) ↦ cc
      | inr (has, inr (e, inr (has_ptr, p, inr (inl (hang, quiet, answer))))) ↦ cc
      | inr (has, inr (e, inr (has_ptr, p, inr (inr (hang, quiet, answer))))) ↦
          let alive = quiet s seen child i in cc
    ]
