-- ===== src/Futex/Requeue.antt =====
-- What the requeues of `sys_futex` in api/src/imp/futex.rs wake and move.
use vegar.Prelude.{
  ℕ, ◌+◌, ◌-◌, ◌≡◌, ◌≢◌, ◌⊎◌, refl, sym, ap, ◌∙◌, inl, inr, Option, none, some, List, [], ◌∷◌, ◌++◌,
  true, min, arith, ◌==◌, if◌then◌else◌, Bool-cases, Option-cases, lookup, lookup-insert, nat_eq,
  ok, as_u32,
}
use vegar.Futex.Queue.{WaitQueue}
use vegar.Futex.Table.{WaitQueueGuard, FutexTable, clone_arc, insert_new, get_or_insert, drop_guard}
use vegar.Futex.Keys.{lookup-Below}
use vegar.Futex.Steps.{
  Reach, next, getting, inserting, queueing, dropping, IsCounted, Reach-IsCounted,
  drop_guard_reached,
}
use vegar.Futex.Wake.{wake_counts, get_absent, get_present}
use vegar.Futex.Calls.{
  UserMemory, Answer, returned, wake, wake_guarded, requeue_on, requeue_guarded, sys_futex,
  command_of, futex_requeue, futex_cmp_requeue, if_word,
}

module _ (W : WaitQueue) where
  open W use {Queue, waiters}

  abbrev pub waiting_in : Option ℕ → (ℕ → Queue) → ℕ
  waiting_in none queues = 0
  waiting_in (some id) queues = waiters (queues id)

  -- How many tasks wait at an address: where the table has no queue for it, none.
  abbrev pub waiting_at : ℕ → FutexTable W → ℕ
  waiting_at addr t = waiting_in (lookup addr t.map) t.queues

  get_or_insert-waiting :
      (addr a : ℕ) (t : FutexTable W) (gs : List WaitQueueGuard)
      → IsCounted W (t, gs)
      → waiting_at a (get_or_insert W addr t).1 ≡ waiting_at a t
  unfolding get_or_insert
  get_or_insert-waiting addr a t gs c = elim (Option-cases (lookup addr t.map)) [
    | inr (id, e) ↦ rw (e, get_or_insert) refl
    | inl e ↦
        rw (e, get_or_insert)
          (ap (λ o. waiting_in o (insert_new W addr t).queues) (lookup-insert addr a t.next t.map)
            ∙ elim (Bool-cases (addr == a)) [
              | inl same ↦
                  let gone : lookup a t.map ≡ none =
                    ap (λ k. lookup k t.map) (ground (arith, same)) ∙ e in
                  rw (same, gone) (ground (arith, W.waiters-new))
              | inr other ↦ rw other (elim (Option-cases (lookup a t.map)) [
                | inl f ↦ rw f refl
                | inr (v, f) ↦
                    let below = lookup-Below a v t.next t.map c.below f in
                    rw f (ground (arith, below))
              ])
            ])
  ]

  -- The move behind the wakes, between two different queues.
  moved_counts :
      (value value2 : ℕ) (g g2 : WaitQueueGuard) (t : FutexTable W)
      → g.inner ≢ g2.inner
      → let w : ℕ = min value (waiters (t.queues g.inner)) in
        let m : ℕ = min value2 (waiters (t.queues g.inner) - w) in
        let woken = wake_guarded W value g t in
        let moved = requeue_guarded W value2 g g2 woken.1 in
        let t' : FutexTable W = if woken.0 == value then moved.1 else woken.1 in
        ((if woken.0 == value then woken.0 + moved.0 else woken.0) ≡ w + m)
        × (waiters (t'.queues g.inner) ≡ waiters (t.queues g.inner) - w - m)
        × (waiters (t'.queues g2.inner) ≡ waiters (t.queues g2.inner) + m)
  moved_counts value value2 g g2 t ne =
      let q : Queue = t.queues g.inner in
      let q2 : Queue = t.queues g2.inner in
      let counts = wake_counts W value q 0 in
      let rest : Queue = (wake W value q 0).1 in
      ground (
        arith,
        counts,
        W.requeue-moved rest q2 value2,
        W.waiters-requeue_from rest q2 value2,
        W.waiters-requeue_to rest q2 value2,
      )

  wake_guarded-Reach :
      (value : ℕ) (g : WaitQueueGuard) (t : FutexTable W) (gs : List WaitQueueGuard)
      → Reach W (t, gs)
      → Reach W ((wake_guarded W value g t).1, gs)
  wake_guarded-Reach value g t gs r =
      next r (queueing g.inner (wake W value (t.queues g.inner) 0).1 refl)

  requeue_guarded_lem :
      (value2 : ℕ) (g g2 : WaitQueueGuard) (t : FutexTable W) (gs : List WaitQueueGuard)
      → g.inner ≢ g2.inner
      → Reach W (t, gs)
      → Reach W ((requeue_guarded W value2 g g2 t).1, gs)
        × ((requeue_guarded W value2 g g2 t).1.map ≡ t.map)
  requeue_guarded_lem value2 g g2 t gs ne r = elim (Bool-cases (g.inner == g2.inner)) [
    | inl e ↦ absurd (ne (ground (arith, e)))
    | inr e ↦
        let moved = W.requeue (t.queues g.inner) value2 (t.queues g2.inner) in
        rw e (next (next r (queueing g.inner moved.1 refl)) (queueing g2.inner moved.2 refl), refl)
  ]

  get_or_insert_key : (a : ℕ) (t : FutexTable W) → (get_or_insert W a t).0.key ≡ a
  unfolding get_or_insert
  get_or_insert_key a t = elim (Option-cases (lookup a t.map)) [
    | inl e ↦ rw (e, get_or_insert) refl
    | inr (id, e) ↦ rw (e, get_or_insert) refl
  ]

  -- What a requeue between two addresses comes to, from a table that the guards `gs` share.
  abbrev pub Requeued : ℕ → ℕ → ℕ → ℕ → FutexTable W → List WaitQueueGuard → Answer W → Type 0
  Requeued addr addr2 value value2 t gs answer =
      let w : ℕ = min value (waiting_at addr t) in
      let m : ℕ = min value2 (waiting_at addr t - w) in
      (t' : FutexTable W) × (answer ≡ returned (ok (w + m)) t')
      × (waiting_at addr t' ≡ waiting_at addr t - w - m)
      × (waiting_at addr2 t' ≡ waiting_at addr2 t + m)
      × Reach W (t', gs)

  drop_guard_lem :
      (g : WaitQueueGuard) (before after : List WaitQueueGuard) (t : FutexTable W)
      → Reach W (t, before ++ g ∷ after)
      → Reach W (drop_guard W g t, before ++ after)
        × ((a : ℕ) → waiting_at a (drop_guard W g t) ≡ waiting_at a t)
  drop_guard_lem g before after t r = (
    next r (dropping before after g refl refl),
    λ a.
        ap (λ u. waiting_at a u)
          (drop_guard_reached W g before after (t, before ++ g ∷ after) r refl),
  )

  -- With a queue for the first address.
  requeue_present :
      (addr addr2 value value2 id : ℕ) (t : FutexTable W) (gs : List WaitQueueGuard)
      → Reach W (t, gs)
      → addr ≢ addr2
      → lookup addr t.map ≡ some id
      → Requeued addr addr2 value value2 t gs (requeue_on W addr addr2 value value2 t)
  requeue_present addr addr2 value value2 id t gs r apart e =
      let g : WaitQueueGuard = record { key = addr; inner = id } in
      let t1 = clone_arc W id t in
      let got = get_present W addr id t e in
      let r1 : Reach W (t1, g ∷ gs) =
        next r (getting addr g (ap (λ x. x.0) got) (ap (λ x. (x.1, g ∷ gs)) (sym got))) in
      let g2 = (get_or_insert W addr2 t1).0 in
      let t2 = (get_or_insert W addr2 t1).1 in
      let r2 : Reach W (t2, g2 ∷ g ∷ gs) = next r1 (inserting addr2 refl) in
      let c1 = Reach-IsCounted W r1 in
      let c2 = Reach-IsCounted W r2 in
      let at2 : lookup addr2 t2.map ≡ some g2.inner =
        ap (λ k. lookup k t2.map) (sym (get_or_insert_key addr2 t1)) ∙ c2.linked.0 in
      let at1 : lookup addr t2.map ≡ some id = c2.linked.1.0 in
      let ne : id ≢ g2.inner =
        λ same. apart (c2.distinct addr addr2 id at1 (at2 ∙ ap some (sym same))) in
      let had1 : waiters (t2.queues id) ≡ waiting_at addr t =
        ap (λ o. waiting_in o t2.queues) (sym at1)
        ∙ get_or_insert-waiting addr2 addr t1 (g ∷ gs) c1 in
      let had2 : waiters (t2.queues g2.inner) ≡ waiting_at addr2 t =
        ap (λ o. waiting_in o t2.queues) (sym at2)
        ∙ get_or_insert-waiting addr2 addr2 t1 (g ∷ gs) c1 in
      let counts = moved_counts value value2 g g2 t2 ne in
      let woken = wake_guarded W value g t2 in
      let moved = requeue_guarded W value2 g g2 woken.1 in
      let count : ℕ = if woken.0 == value then woken.0 + moved.0 else woken.0 in
      let t3 : FutexTable W = if woken.0 == value then moved.1 else woken.1 in
      let woken_r = wake_guarded-Reach value g t2 (g2 ∷ g ∷ gs) r2 in
      let (moved_r, moved_map) = requeue_guarded_lem value2 g g2 woken.1 (g2 ∷ g ∷ gs) ne woken_r in
      let (r3, map3) : Reach W (t3, g2 ∷ g ∷ gs) × (t3.map ≡ t2.map) =
        elim (Bool-cases (woken.0 == value)) [
          | inl all ↦ rw all (moved_r, moved_map)
          | inr fewer ↦ rw fewer (woken_r, refl)
        ] in
      let (r4, kept4) = drop_guard_lem g (g2 ∷ []) gs t3 r3 in
      let (r5, kept5) = drop_guard_lem g2 [] gs (drop_guard W g t3) r4 in
      let t5 = drop_guard W g2 (drop_guard W g t3) in
      let end1 : waiting_at addr t5 ≡ waiters (t3.queues id) =
        kept5 addr
        ∙ kept4 addr
        ∙ ap (λ o. waiting_in o t3.queues) (ap (λ k. lookup addr k) map3 ∙ at1) in
      let end2 : waiting_at addr2 t5 ≡ waiters (t3.queues g2.inner) =
        kept5 addr2
        ∙ kept4 addr2
        ∙ ap (λ o. waiting_in o t3.queues) (ap (λ k. lookup addr2 k) map3 ∙ at2) in
      (
        t5,
        rw (got, requeue_on)
            (rw got (ap (λ k. returned (ok k) t5) (omega (arith, counts.0, had1)))),
        omega (arith, end1, counts.1, had1),
        omega (arith, end2, counts.2, had1, had2),
        r5,
      )

  -- Without one.
  requeue_absent :
      (addr addr2 value value2 : ℕ) (t : FutexTable W) (gs : List WaitQueueGuard)
      → Reach W (t, gs)
      → lookup addr t.map ≡ none
      → Requeued addr addr2 value value2 t gs (requeue_on W addr addr2 value value2 t)
  requeue_absent addr addr2 value value2 t gs r e =
      let g2 = (get_or_insert W addr2 t).0 in
      let t2 = (get_or_insert W addr2 t).1 in
      let (r3, kept) = drop_guard_lem g2 [] gs t2 (next r (inserting addr2 refl)) in
      let same : (a : ℕ) → waiting_at a (drop_guard W g2 t2) ≡ waiting_at a t =
        λ a. kept a ∙ get_or_insert-waiting addr2 a t gs (Reach-IsCounted W r) in
      let none_wait : waiting_at addr t ≡ 0 = ap (λ o. waiting_in o t.queues) e in
      (
        drop_guard W g2 t2,
        rw (get_absent W addr t e, requeue_on)
            (rw (get_absent W addr t e)
              (ap (λ k. returned (ok k) (drop_guard W g2 t2)) (omega (arith, none_wait)))),
        omega (arith, same addr, none_wait),
        omega (arith, same addr2, none_wait),
        r3,
      )

  requeue_on-Requeued :
      (addr addr2 value value2 : ℕ) (t : FutexTable W) (gs : List WaitQueueGuard)
      → Reach W (t, gs)
      → addr ≢ addr2
      → Requeued addr addr2 value value2 t gs (requeue_on W addr addr2 value value2 t)
  requeue_on-Requeued addr addr2 value value2 t gs r apart =
      elim (Option-cases (lookup addr t.map)) [
        | inl e ↦ requeue_absent addr addr2 value value2 t gs r e
        | inr (id, e) ↦ requeue_present addr addr2 value value2 id t gs r apart e
      ]

  -- `FUTEX_REQUEUE`, and `FUTEX_CMP_REQUEUE` where the word at `uaddr` is `value3`, between two different
  -- addresses, on a table that the guards of a process have led to from an empty one: of the `n` tasks
  -- that wait at `uaddr`, none if the table has no queue for it, `min value n` wake, and at most the low
  -- 32 bits of `timeout` of the others move to `uaddr2`, whether or not the table had a queue for that
  -- before. The call returns the number of both, and has dropped its guards: the tasks that moved are
  -- still found at `uaddr2`.
  pub sys_futex_requeues :
      (M : UserMemory) (uaddr futex_op value timeout uaddr2 value3 : ℕ) (t : FutexTable W)
      (gs : List WaitQueueGuard)
      → (command_of futex_op ≡ futex_requeue)
        ⊎ ((command_of futex_op ≡ futex_cmp_requeue) × (M.word_at uaddr ≡ ok value3))
      → uaddr ≢ uaddr2
      → Reach W (t, gs)
      → let w : ℕ = min value (waiting_at uaddr t) in
        let m : ℕ = min (as_u32 timeout) (waiting_at uaddr t - w) in
        (t' : FutexTable W) × (sys_futex W M uaddr futex_op value timeout uaddr2 value3 t
          ≡ returned (ok (w + m)) t')
        × (waiting_at uaddr t' ≡ waiting_at uaddr t - w - m)
        × (waiting_at uaddr2 t' ≡ waiting_at uaddr2 t + m)
        × Reach W (t', gs)
  unfolding sys_futex
  sys_futex_requeues M uaddr futex_op value timeout uaddr2 value3 t gs (inl c) apart r =
      let (t', call, left, moved, reached) =
        requeue_on-Requeued uaddr uaddr2 value (as_u32 timeout) t gs r apart in
      (t', rw c call, left, moved, reached)
  sys_futex_requeues M uaddr futex_op value timeout uaddr2 value3 t gs (inr (c, word)) apart r =
      let (t', call, left, moved, reached) =
        requeue_on-Requeued uaddr uaddr2 value (as_u32 timeout) t gs r apart in
      let equal : (value3 == value3) ≡ true = ground arith in
      (t', rw c (rw (word, if_word, equal) call), left, moved, reached)
