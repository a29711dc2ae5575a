-- ===== src/Futex/Wake.antt =====
-- What the wakes and moves of `sys_futex` in api/src/imp/futex.rs come to.
use vegar.Prelude.{
  ℕ, zero, suc, ◌+◌, ◌-◌, ◌≡◌, ◌≢◌, refl, ap, ◌∙◌, inl, inr, none, some, min, arith, Bool-cases,
  lookup, nat_eq, ok,
}
use vegar.Futex.Queue.{WaitQueue}
use vegar.Futex.Table.{WaitQueueGuard, FutexTable, clone_arc, get, drop_guard}
use vegar.Futex.Calls.{
  UserMemory, returned, wake, wake_on, wake_guarded, sys_futex, command_of, futex_wake,
}

module _ (W : WaitQueue) where
  open W use {Queue, waiters, notify_one}

  pub wake_counts :
      (n : ℕ) (q : Queue) (count : ℕ)
      → ((wake W n q count).0 ≡ count + min n (waiters q))
        × (waiters (wake W n q count).1 ≡ waiters q - min n (waiters q))
  unfolding wake
  wake_counts zero q count = (omega arith, omega arith)
  wake_counts (suc n) q count = elim (Bool-cases (notify_one q).0) [
    | inl e ↦
        let rest = wake_counts n (notify_one q).1 (count + 1) in
        let woke = W.notify_one-woke q in
        let left = W.waiters-notify_one q in rw (e, wake) (ground (arith, rest, woke, left, e))
    | inr e ↦
        let woke = W.notify_one-woke q in
        let left = W.waiters-notify_one q in rw (e, wake) (ground (arith, woke, left, e))
  ]

  pub drop_guard-queues :
      (g : WaitQueueGuard) (t : FutexTable W) → (drop_guard W g t).queues ≡ t.queues
  unfolding drop_guard
  drop_guard-queues g t = ground arith

  pub get_absent :
      (addr : ℕ) (t : FutexTable W) → lookup addr t.map ≡ none → get W addr t ≡ (none, t)
  unfolding get
  get_absent addr t e = rw (e, get)

  pub get_present :
      (addr id : ℕ) (t : FutexTable W)
      → lookup addr t.map ≡ some id
      → get W addr t ≡ (some (record { key = addr; inner = id }), clone_arc W id t)
  unfolding get
  get_present addr id t e = rw (e, get)

  sys_futex_wake_lem :
      (M : UserMemory) (uaddr futex_op value timeout uaddr2 value3 : ℕ) (t : FutexTable W)
      → command_of futex_op ≡ futex_wake
      → sys_futex W M uaddr futex_op value timeout uaddr2 value3 t ≡ wake_on W uaddr value t
  unfolding sys_futex
  sys_futex_wake_lem M uaddr futex_op value timeout uaddr2 value3 t c = rw c refl

  -- `FUTEX_WAKE` with any flags returns. With no queue for the address it returns 0 and changes
  -- nothing; else it returns the smaller of `value` and the number of tasks that wait, that many tasks
  -- leave the queue, and every other queue stays as it is.
  pub sys_futex_wakes :
      (M : UserMemory) (uaddr futex_op value timeout uaddr2 value3 : ℕ) (t : FutexTable W)
      → command_of futex_op ≡ futex_wake
      → ((lookup uaddr t.map ≡ none)
          → sys_futex W M uaddr futex_op value timeout uaddr2 value3 t ≡ returned (ok 0) t)
        × ((id : ℕ)
            → lookup uaddr t.map ≡ some id
            → (t' : FutexTable W) × (sys_futex W M uaddr futex_op value timeout uaddr2 value3 t
                ≡ returned (ok (min value (waiters (t.queues id)))) t')
              × (waiters (t'.queues id) ≡ waiters (t.queues id) - min value (waiters (t.queues id)))
              × ((j : ℕ) → j ≢ id → t'.queues j ≡ t.queues j))
  sys_futex_wakes M uaddr futex_op value timeout uaddr2 value3 t c =
      let call = sys_futex_wake_lem M uaddr futex_op value timeout uaddr2 value3 t c in
      (
        λ e. call ∙ rw (get_absent uaddr t e, wake_on) (rw (get_absent uaddr t e)),
        λ id e.
            let g : WaitQueueGuard = record { key = uaddr; inner = id } in
            let woken = wake_guarded W value g (clone_arc W id t) in
            let counts = wake_counts value (t.queues id) 0 in
            let same = drop_guard-queues g woken.1 in
            (
              drop_guard W g woken.1,
              call
                  ∙ rw (get_present uaddr id t e, wake_on)
                      (rw (get_present uaddr id t e) (
                        ap (λ k. returned (ok k) (drop_guard W g woken.1))
                          (omega (arith, counts.0)))),
              ground (arith, counts, ap (λ f. waiters (f id)) same),
              λ j ne. ground (arith, ap (λ f. f j) same),
            ),
      )
