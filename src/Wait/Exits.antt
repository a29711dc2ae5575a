-- ===== src/Wait/Exits.antt =====
-- A child that ends by `do_exit` of api/src/imp/task/exit.rs while its parent sleeps in `sys_waitpid` of
-- api/src/imp/task/wait.rs.
use vegar.Prelude.{
  ℕ, ◌≡◌, ◌∙◌, refl, ap, inl, inr, Bool, true, false, ◌&&◌, not, none, some, List, [], ◌∷◌, ◌++◌,
  bit_and, arith, ◌==◌, if◌then◌else◌, ok, Bool-cases, append_assoc,
}
use vegar.Exit.Calls.{
  Effect, exits_process, notifies_parent, clears_files, exits_task, Exiting, clear_tid,
  signal_parent, wake_parent, tell_parent, exit_last, exit_group, do_exit,
}
use vegar.Exit.Order.{tell_parent_lem, exit_last_done}
use vegar.Wait.Select.{Process, wnohang, wnowait, options_all, contains, filter_panics, select}
use vegar.Wait.Calls.{
  Status, Answer, returned, is_empty, find_zombie, reap, poll, wait_loop, sys_waitpid,
}
use vegar.Wait.Reap.{IsIn, NoZombie}

module _ (x : Exiting) (exit_code : ℕ) where
  -- A process that exits is a zombie. Its code is that of the thread that ends, but the one that it
  -- has where the whole group has exited before.
  abbrev pub after_exit : ℕ → Status → Status
  after_exit pid st = record {
    is_zombie = λ p. if p == pid then true else st.is_zombie p;
    exit_code = λ p. if p == pid && not x.is_group_exited then exit_code else st.exit_code p;
  }

  abbrev pub after : Effect → Status → Status
  after (exits_process pid) st = after_exit pid st
  after _ st = st

  abbrev pub notifies : ℕ → Effect → Bool
  notifies parent (notifies_parent p) = p == parent
  notifies parent _ = false

  -- What a parent sees each time its queue is notified.
  abbrev pub wakes : ℕ → Status → List Effect → List Status
  wakes parent st [] = []
  wakes parent st (e ∷ es) =
      let rest = wakes parent (after e st) es in
      if notifies parent e then after e st ∷ rest else rest

  -- No process exits and nobody is notified.
  abbrev is_quiet : Effect → Bool
  is_quiet (exits_process pid) = false
  is_quiet (notifies_parent p) = false
  is_quiet _ = true

  abbrev AreQuiet : List Effect → Type 0
  AreQuiet [] = Unit {0}
  AreQuiet (e ∷ es) = (is_quiet e ≡ true) × AreQuiet es

  quiet_step :
      (parent : ℕ) (st : Status) (e : Effect) (es : List Effect)
      → is_quiet e ≡ true
      → wakes parent st (e ∷ es) ≡ wakes parent st es
  quiet_step parent st (exits_process pid) es q = ground (arith, q)
  quiet_step parent st (notifies_parent p) es q = ground (arith, q)
  quiet_step parent st _ es q = refl

  wakes-quiet :
      (parent : ℕ) (st : Status) (es fs : List Effect)
      → AreQuiet es
      → wakes parent st (es ++ fs) ≡ wakes parent st fs
  wakes-quiet parent st [] fs q = refl
  wakes-quiet parent st (e ∷ es) fs q =
      quiet_step parent st e (es ++ fs) q.0 ∙ wakes-quiet parent st es fs q.1

  clear_tid-AreQuiet : AreQuiet (clear_tid x)
  unfolding clear_tid
  clear_tid-AreQuiet = ground arith

  signal_parent-AreQuiet : (parent : ℕ) → AreQuiet (signal_parent x parent)
  unfolding signal_parent
  signal_parent-AreQuiet parent = ground arith

  wake_parent-wakes :
      (parent : ℕ) (st : Status) (rest : List Effect)
      → x.has_data parent ≡ true
      → (later : List Status) × (wakes parent st (wake_parent x parent ++ rest) ≡ st ∷ later)
  unfolding wake_parent
  wake_parent-wakes parent st rest has = (wakes parent st rest, ground (arith, has))

  after_exit_code :
      (pid : ℕ) (st : Status)
      → (after_exit pid st).exit_code pid
        ≡ (if x.is_group_exited then st.exit_code pid else exit_code)
  after_exit_code pid st = ground arith

  -- The last thread of a child notifies its parent once the process is a zombie.
  do_exit-wakes :
      (group : Bool) (parent : ℕ) (st : Status)
      → x.is_last ≡ true
      → x.parent ≡ some parent
      → x.has_data parent ≡ true
      → (later : List Status) × (wakes parent st (do_exit exit_code group x)
          ≡ after_exit x.pid st ∷ later)
  unfolding do_exit
  do_exit-wakes group parent st last there has =
      let st' = after_exit x.pid st in
      let end = exit_group x group ++ (exits_task exit_code ∷ []) in
      let mid : List Effect = exits_process x.pid ∷ clears_files ∷ [] in
      let signal = signal_parent x parent in
      let wake = wake_parent x parent in
      let (later, woken) = wake_parent-wakes parent st' (mid ++ end) has in
      let told : (tell_parent x ++ mid) ++ end ≡ signal ++ (wake ++ (mid ++ end)) =
        ap (λ es. (es ++ mid) ++ end) (tell_parent_lem x parent there)
        ∙ append_assoc (signal ++ wake) mid end
        ∙ append_assoc signal wake (mid ++ end) in
      (
        later,
        wakes-quiet parent st (clear_tid x) (exit_last x ++ end) clear_tid-AreQuiet
            ∙ ap (λ es. wakes parent st (es ++ end)) (exit_last_done x last)
            ∙ ap (λ es. wakes parent st' es) told
            ∙ wakes-quiet parent st' signal (wake ++ (mid ++ end)) (signal_parent-AreQuiet parent)
            ∙ woken,
      )

  find-after_exit :
      (pid : ℕ) (st : Status) (children : List Process) (child : Process)
      → NoZombie st children
      → IsIn child children
      → child.pid ≡ pid
      → (c : Process) × (find_zombie (after_exit pid st) children ≡ some c) × (c.pid ≡ pid)
  unfolding find_zombie
  find-after_exit pid st [] child quiet i same = absurd i
  find-after_exit pid st (c ∷ cs) child quiet i same = elim (Bool-cases (c.pid == pid)) [
    | inl e ↦ (c, ground (arith, e), ground (arith, e))
    | inr e ↦
        let there : IsIn child cs = elim i [
          | inl here ↦ absurd (ground (arith, e, same, ap (λ (p : Process). p.pid) here))
          | inr more ↦ more
        ] in
        let (found, f, g) = find-after_exit pid st cs child (λ p k. quiet p (inr k)) there same in
        (found, ground (arith, e, f, quiet c (inl refl)), g)
  ]

find_zombie-quiet : (st : Status) (ps : List Process) → NoZombie st ps → find_zombie st ps ≡ none
unfolding find_zombie
find_zombie-quiet st [] quiet = refl
find_zombie-quiet st (p ∷ ps) quiet =
    ground (arith, quiet p (inl refl), find_zombie-quiet st ps (λ q i. quiet q (inr i)))

IsIn-is_empty : (p : Process) (ps : List Process) → IsIn p ps → is_empty ps ≡ false
IsIn-is_empty p [] i = absurd i
IsIn-is_empty p (q ∷ ps) i = refl

-- A call that sleeps at first answers at the first wake that shows a zombie.
wait_loop-woken :
    (options : ℕ) (has_ptr : Bool) (children : List Process) (c : Process) (st st' : Status)
    (later : List Status)
    → contains options wnohang ≡ false
    → find_zombie st children ≡ none
    → find_zombie st' children ≡ some c
    → wait_loop options has_ptr children st (st' ∷ later) ≡ reap options has_ptr st' c
unfolding wait_loop poll
wait_loop-woken options has_ptr children c st st' [] hang quiet f = ground (arith, hang, quiet, f)
wait_loop-woken options has_ptr children c st st' (s ∷ later) hang quiet f =
    ground (arith, hang, quiet, f)

-- A parent sleeps in `sys_waitpid`, without `WNOHANG` or a panic on a child without data, for children
-- of which none is a zombie. If one of them ends by `do_exit` in its last thread, and the parent has its
-- data, then the call returns the id of that child. It frees it unless `WNOWAIT` is set, and writes the code that `do_exit` was given if
-- there is a pointer, or the code that the process had if the whole group has exited before.
pub do_exit_ends_wait :
    (x : Exiting) (exit_code : ℕ) (group : Bool) (parent own_pgid arg bits : ℕ) (has_ptr : Bool)
    (processes : List Process) (child : Process) (st : Status)
    → let options = bit_and bits options_all in
      let children = select own_pgid arg options processes in
      filter_panics own_pgid arg options processes ≡ false
      → x.is_last ≡ true
      → x.parent ≡ some parent
      → x.has_data parent ≡ true
      → child.pid ≡ x.pid
      → IsIn child children
      → NoZombie st children
      → contains options wnohang ≡ false
      → sys_waitpid own_pgid arg bits
          (ok has_ptr)
          processes
          st
          (wakes x exit_code parent st (do_exit exit_code group x))
        ≡ returned (ok x.pid) (if contains options wnowait then none else some x.pid) (
            if has_ptr
            then some (if x.is_group_exited then st.exit_code x.pid else exit_code)
            else none)
unfolding sys_waitpid reap
do_exit_ends_wait x exit_code group parent own_pgid arg bits has_ptr processes child st proper last
      there has same i quiet hang =
    let options = bit_and bits options_all in
    let children = select own_pgid arg options processes in
    let (later, woken) = do_exit-wakes x exit_code group parent st last there has in
    let (c, f, g) = find-after_exit x exit_code x.pid st children child quiet i same in
    let st' = after_exit x exit_code x.pid st in
    let loop =
      wait_loop-woken options has_ptr children c st st' later hang
        (find_zombie-quiet st children quiet) f in
    let call : sys_waitpid own_pgid arg bits (ok has_ptr) processes st (st' ∷ later)
        ≡ wait_loop options has_ptr children st (st' ∷ later) =
      rw (proper, IsIn-is_empty child children i) refl in
    let result : ℕ → ℕ → Answer = λ pid code.
      returned (ok pid) (if contains options wnowait then none else some pid)
        (if has_ptr then some code else none) in
    rw woken (
      call
      ∙ loop
      ∙ ap (λ pid. result pid (st'.exit_code pid)) g
      ∙ ap (result x.pid) (after_exit_code x exit_code x.pid st))
