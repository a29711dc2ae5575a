-- ===== src/Exit/Order.antt =====
-- The order of what `do_exit` of api/src/imp/task/exit.rs does.
use mathlib.Core.Path.{subst}
use vegar.Prelude.{
  ℕ, ◌≡◌, ◌⊎◌, refl, sym, inl, inr, Bool, true, false, ◌||◌, some, List, [], ◌∷◌, ◌++◌, arith,
  Bool-cases,
}
use vegar.Exit.Calls.{
  Effect, exits_process, notifies_parent, exits_task, signals_parent, clears_files, Exiting,
  clear_tid, signal_parent, wake_parent, tell_parent, exit_last, kill_threads, exit_group, do_exit,
}

-- What shows others that the process is gone.
abbrev pub shows_end : Effect → Bool
shows_end (notifies_parent p) = true
shows_end (signals_parent p s) = true
shows_end clears_files = true
shows_end _ = false

abbrev pub is_exit : Effect → Bool
is_exit (exits_process p) = true
is_exit _ = false

-- It shows only after the process has exited, if it had not before.
abbrev pub IsOrdered : Bool → List Effect → Type 0
IsOrdered exited [] = Unit {0}
IsOrdered exited (e ∷ es) =
    (shows_end e ≡ true → exited ≡ true) × IsOrdered (exited || is_exit e) es

abbrev pub IsIn : Effect → List Effect → Type 0
IsIn e [] = ⊥
IsIn e (f ∷ fs) = (f ≡ e) ⊎ IsIn e fs

abbrev pub IsHidden : List Effect → Type 0
IsHidden [] = Unit {0}
IsHidden (e ∷ es) = (shows_end e ≡ false) × IsHidden es

-- After the exit any order is right.
exited-IsOrdered : (es : List Effect) → IsOrdered true es
exited-IsOrdered [] = tt
exited-IsOrdered (e ∷ es) = (λ h. refl, exited-IsOrdered es)

hidden-IsOrdered :
    (exited : Bool) (es fs : List Effect)
    → IsHidden es
    → ((later : Bool) → IsOrdered later fs)
    → IsOrdered exited (es ++ fs)
hidden-IsOrdered exited [] fs h k = k exited
hidden-IsOrdered exited (e ∷ es) fs h k =
    (λ shown. ground (arith, h.0), hidden-IsOrdered (exited || is_exit e) es fs h.1 k)

append-IsHidden : (es fs : List Effect) → IsHidden es → IsHidden fs → IsHidden (es ++ fs)
append-IsHidden [] fs h k = k
append-IsHidden (e ∷ es) fs h k = (h.0, append-IsHidden es fs h.1 k)

clear_tid-IsHidden : (x : Exiting) → IsHidden (clear_tid x)
unfolding clear_tid
clear_tid-IsHidden x = ground arith

kill_threads-IsHidden : (x : Exiting) (tids : List ℕ) → IsHidden (kill_threads x tids)
unfolding kill_threads
kill_threads-IsHidden x [] = tt
kill_threads-IsHidden x (tid ∷ tids) = ground (arith, kill_threads-IsHidden x tids)

exit_group-IsHidden : (x : Exiting) (group_exit : Bool) → IsHidden (exit_group x group_exit)
unfolding exit_group
exit_group-IsHidden x group_exit = ground (arith, kill_threads-IsHidden x x.threads)

exit_last_more : (x : Exiting) → x.is_last ≡ false → exit_last x ≡ []
unfolding exit_last
exit_last_more x more = rw (exit_last, more) refl

pub exit_last_done :
    (x : Exiting)
    → x.is_last ≡ true
    → exit_last x
      ≡ exits_process x.pid ∷ (tell_parent x ++ (exits_process x.pid ∷ clears_files ∷ []))
unfolding exit_last
exit_last_done x last = ground (arith, last)

exit_then-IsOrdered :
    (pid : ℕ) (exited : Bool) (es : List Effect) → IsOrdered exited (exits_process pid ∷ es)
exit_then-IsOrdered pid exited es =
    let done : (exited || true) ≡ true = ground arith in
    (λ shown. ground arith, subst (λ b. IsOrdered b es) (sym done) (exited-IsOrdered es))

exit_last-IsOrdered :
    (x : Exiting) (exited : Bool) (rest : List Effect)
    → ((later : Bool) → IsOrdered later rest)
    → IsOrdered exited (exit_last x ++ rest)
exit_last-IsOrdered x exited rest k = elim (Bool-cases x.is_last) [
  | inl last ↦
      subst (λ es. IsOrdered exited (es ++ rest)) (sym (exit_last_done x last))
        (exit_then-IsOrdered x.pid exited
          ((tell_parent x ++ (exits_process x.pid ∷ clears_files ∷ [])) ++ rest))
  | inr more ↦ subst (λ es. IsOrdered exited (es ++ rest)) (sym (exit_last_more x more)) (k exited)
]

do_exit-IsOrdered :
    (exit_code : ℕ) (group_exit : Bool) (x : Exiting)
    → IsOrdered false (do_exit exit_code group_exit x)
unfolding do_exit
do_exit-IsOrdered exit_code group_exit x =
    hidden-IsOrdered false (clear_tid x) _ (clear_tid-IsHidden x) (λ b.
      exit_last-IsOrdered x b _ (λ c.
        hidden-IsOrdered c (exit_group x group_exit) (exits_task exit_code ∷ [])
          (exit_group-IsHidden x group_exit) (λ d. (λ shown. ground arith, tt))))

do_exit-IsHidden :
    (exit_code : ℕ) (group_exit : Bool) (x : Exiting)
    → x.is_last ≡ false
    → IsHidden (do_exit exit_code group_exit x)
unfolding do_exit
do_exit-IsHidden exit_code group_exit x more =
    append-IsHidden (clear_tid x) _ (clear_tid-IsHidden x) (
      subst (λ es. IsHidden (es ++ (exit_group x group_exit ++ (exits_task exit_code ∷ []))))
        (sym (exit_last_more x more))
        (append-IsHidden (exit_group x group_exit) (exits_task exit_code ∷ [])
          (exit_group-IsHidden x group_exit) (refl, tt)))

IsIn-append_left : (e : Effect) (es fs : List Effect) → IsIn e es → IsIn e (es ++ fs)
IsIn-append_left e [] fs i = absurd i
IsIn-append_left e (f ∷ es) fs (inl same) = inl same
IsIn-append_left e (f ∷ es) fs (inr i) = inr (IsIn-append_left e es fs i)

IsIn-append_right : (e : Effect) (es fs : List Effect) → IsIn e fs → IsIn e (es ++ fs)
IsIn-append_right e [] fs i = i
IsIn-append_right e (f ∷ es) fs i = inr (IsIn-append_right e es fs i)

wake_parent-IsIn :
    (x : Exiting) (parent : ℕ)
    → x.has_data parent ≡ true
    → IsIn (notifies_parent parent) (wake_parent x parent)
unfolding wake_parent
wake_parent-IsIn x parent has = rw (wake_parent, has) (inl refl)

pub tell_parent_lem :
    (x : Exiting) (parent : ℕ)
    → x.parent ≡ some parent
    → tell_parent x ≡ signal_parent x parent ++ wake_parent x parent
unfolding tell_parent
tell_parent_lem x parent there = ground (arith, there)

exit_last-IsIn :
    (x : Exiting) (parent : ℕ)
    → x.is_last ≡ true
    → x.parent ≡ some parent
    → x.has_data parent ≡ true
    → IsIn (notifies_parent parent) (exit_last x)
exit_last-IsIn x parent last there has =
    let told : IsIn (notifies_parent parent) (tell_parent x) =
      subst (IsIn (notifies_parent parent)) (sym (tell_parent_lem x parent there)) (
        IsIn-append_right (notifies_parent parent) (signal_parent x parent) (wake_parent x parent)
          (wake_parent-IsIn x parent has)) in
    subst (IsIn (notifies_parent parent)) (sym (exit_last_done x last)) (
      inr (
        IsIn-append_left (notifies_parent parent) (tell_parent x)
          (exits_process x.pid ∷ clears_files ∷ []) told))

-- `do_exit` tells the parent, and gives up the files, only after the process has exited; it does neither
-- if another thread of the process is left; and if none is left and there is a parent with its data, the
-- parent's wait queue is notified.
pub do_exit_tells :
    (exit_code : ℕ) (group_exit : Bool) (x : Exiting)
    → let effects = do_exit exit_code group_exit x in
      IsOrdered false effects
      × (x.is_last ≡ false → IsHidden effects)
      × ((parent : ℕ)
          → x.is_last ≡ true
          → x.parent ≡ some parent
          → x.has_data parent ≡ true
          → IsIn (notifies_parent parent) effects)
unfolding do_exit
do_exit_tells exit_code group_exit x = (
  do_exit-IsOrdered exit_code group_exit x,
  do_exit-IsHidden exit_code group_exit x,
  λ parent last there has. IsIn-append_right (notifies_parent parent) (clear_tid x) _ (
      IsIn-append_left (notifies_parent parent) (exit_last x) _
        (exit_last-IsIn x parent last there has)),
)
