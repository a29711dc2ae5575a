-- ===== src/Futex/Calls.antt =====
-- `sys_futex` of api/src/imp/futex.rs. User memory is a parameter: a word, and the duration of a
-- `timespec`, at an address, or the error of a bad address.
use vegar.Prelude.{
  ℕ, zero, suc, ◌+◌, true, false, Option, none, some, bit_and, ◌==◌, if◌then◌else◌, LinuxResult, ok,
  err, eagain, enosys, as_u32,
}
use vegar.Futex.Queue.{WaitQueue}
use vegar.Futex.Table.{WaitQueueGuard, FutexTable, get, get_or_insert, drop_guard, set_queue}

pub record UserMemory : Type 0 where
  pub word_at : ℕ → LinuxResult ℕ
  pub timeout_at : ℕ → LinuxResult ℕ

abbrev pub futex_wait : ℕ
futex_wait = 0

abbrev pub futex_wake : ℕ
futex_wake = 1

abbrev pub futex_requeue : ℕ
futex_requeue = 3

abbrev pub futex_cmp_requeue : ℕ
futex_cmp_requeue = 4

-- `FUTEX_CMD_MASK as u32`: all bits but those of 128 and 256.
abbrev pub futex_cmd_mask : ℕ
futex_cmd_mask = 4294966911

abbrev pub command_of : ℕ → ℕ
command_of futex_op = bit_and futex_op futex_cmd_mask

-- `nullable!`
abbrev pub nullable : {A : Type 0} → ℕ → (ℕ → LinuxResult A) → LinuxResult (Option A)
nullable addr read =
    if addr == 0 then ok none else (elim (read addr) [ ok a ↦ ok (some a) | err e ↦ err e ])

module _ (W : WaitQueue) where
  open W use {Queue, notify_one, requeue, requeue_self}

  -- A call returns, or its task waits in the queue of a guard.
  pub data Answer : Type 0 where
    returned : LinuxResult ℕ → FutexTable W → Answer
    waiting : WaitQueueGuard → Option ℕ → FutexTable W → Answer

  -- The loop of `notify_one`.
  unfoldable pub wake : ℕ → Queue → ℕ → ℕ × Queue
  wake zero q count = (count, q)
  wake (suc n) q count = elim (notify_one q).0 [
    | false ↦ (count, (notify_one q).1)
    | true ↦ wake n (notify_one q).1 (count + 1)
  ]

  -- The loop on the queue of a guard.
  abbrev pub wake_guarded : ℕ → WaitQueueGuard → FutexTable W → ℕ × FutexTable W
  wake_guarded value g t =
      let woken = wake value (t.queues g.inner) 0 in (woken.0, set_queue W g.inner woken.1 t)

  -- `wq.requeue(value2, &wq2)`
  abbrev pub requeue_guarded : ℕ → WaitQueueGuard → WaitQueueGuard → FutexTable W → ℕ × FutexTable W
  requeue_guarded value2 g g2 t =
      if g.inner == g2.inner
      then (let moved = requeue_self (t.queues g.inner) value2 in
          (moved.0, set_queue W g.inner moved.1 t))
      else (let moved = requeue (t.queues g.inner) value2 (t.queues g2.inner) in
          (moved.0, set_queue W g2.inner moved.2 (set_queue W g.inner moved.1 t)))

  -- The arm of `FUTEX_WAIT` behind the test of the value.
  abbrev pub wait_on : UserMemory → ℕ → ℕ → FutexTable W → Answer
  wait_on M addr timeout t =
      let wq = get_or_insert W addr t in
      elim (nullable timeout M.timeout_at) [
        | ok limit ↦ waiting wq.0 limit wq.1
        | err e ↦ returned (err e) (drop_guard W wq.0 wq.1)
      ]

  abbrev pub wake_on : ℕ → ℕ → FutexTable W → Answer
  wake_on addr value t =
      let wq = get W addr t in
      elim wq.0 [
        | none ↦ returned (ok 0) wq.1
        | some g ↦
            let woken = wake_guarded value g wq.1 in returned (ok woken.0) (drop_guard W g woken.1)
      ]

  abbrev pub requeue_on : ℕ → ℕ → ℕ → ℕ → FutexTable W → Answer
  requeue_on addr addr2 value value2 t =
      let wq = get W addr t in
      let wq2 = get_or_insert W addr2 wq.1 in
      elim wq.0 [
        | none ↦ returned (ok 0) (drop_guard W wq2.0 wq2.1)
        | some g ↦
            let woken = wake_guarded value g wq2.1 in
            let moved = requeue_guarded value2 g wq2.0 woken.1 in
            let count : ℕ = if woken.0 == value then woken.0 + moved.0 else woken.0 in
            let t' : FutexTable W = if woken.0 == value then moved.1 else woken.1 in
            returned (ok count) (drop_guard W wq2.0 (drop_guard W g t'))
      ]

  -- `*uaddr.get_as_ref()? != value`, which returns `EAGAIN`.
  abbrev pub if_word : UserMemory → ℕ → ℕ → FutexTable W → Answer → Answer
  if_word M addr value t k = elim (M.word_at addr) [
    | ok word ↦ if word == value then k else returned (err eagain) t
    | err e ↦ returned (err e) t
  ]

  unfoldable pub sys_futex : UserMemory → ℕ → ℕ → ℕ → ℕ → ℕ → ℕ → FutexTable W → Answer
  sys_futex M uaddr futex_op value timeout uaddr2 value3 t =
      let command : ℕ = command_of futex_op in
      if command == futex_wait
      then if_word M uaddr value t (wait_on M uaddr timeout t)
      else if command == futex_wake
      then wake_on uaddr value t
      else if command == futex_cmp_requeue
      then if_word M uaddr value3 t (requeue_on uaddr uaddr2 value (as_u32 timeout) t)
      else if command == futex_requeue
      then requeue_on uaddr uaddr2 value (as_u32 timeout) t
      else returned (err enosys) t

  -- The end of `FUTEX_WAIT`, when its task runs again.
  abbrev pub resume : WaitQueueGuard → FutexTable W → Answer
  resume g t = returned (ok 0) (drop_guard W g t)
