-- ===== src/Futex/Queue.antt =====
-- `axtask::WaitQueue`, as far as the futex code relies on it: a queue of waiting tasks, of which
-- only the number matters here.
use vegar.Prelude.{ℕ, ◌+◌, ◌-◌, ◌≡◌, Bool, min, ltb}

pub record WaitQueue : Type 1 where
  pub Queue : Type 0
  pub new : Queue
  pub waiters : Queue → ℕ
  -- `notify_one` wakes a task if one waits, and says so.
  pub notify_one : Queue → Bool × Queue
  -- `requeue` moves at most so many tasks to another queue, and gives their number.
  pub requeue : Queue → ℕ → Queue → ℕ × Queue × Queue
  -- The same with the queue itself as the target.
  pub requeue_self : Queue → ℕ → ℕ × Queue
  pub waiters-new : waiters new ≡ 0
  pub notify_one-woke : (q : Queue) → (notify_one q).0 ≡ ltb 0 (waiters q)
  pub waiters-notify_one : (q : Queue) → waiters (notify_one q).1 ≡ waiters q - 1
  pub requeue-moved : (q p : Queue) (n : ℕ) → (requeue q n p).0 ≡ min n (waiters q)
  pub waiters-requeue_from :
      (q p : Queue) (n : ℕ) → waiters (requeue q n p).1 ≡ waiters q - min n (waiters q)
  pub waiters-requeue_to :
      (q p : Queue) (n : ℕ) → waiters (requeue q n p).2 ≡ waiters p + min n (waiters q)
