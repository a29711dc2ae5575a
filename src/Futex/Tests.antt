-- ===== src/Futex/Tests.antt =====
-- Runs of core/src/futex.rs and api/src/imp/futex.rs, and the theorems about them at concrete inputs. A
-- wait queue is the number of its tasks here.
use vegar.Prelude.{
  ℕ, zero, suc, ◌+◌, ◌-◌, ◌≤◌, ◌≡◌, refl, inr, none, some, [], ◌∷◌, min, arith, ltb, lookup, insert,
  nat_eq, ok, err, efault,
}
use vegar.Futex.Queue.{WaitQueue}
use vegar.Futex.Table.{WaitQueueGuard, FutexTable, new_table, get_or_insert, drop_guard, set_queue}
use vegar.Futex.Steps.{
  State, inserting, queueing, dropping, Reach, start, next, Steps, none_yet, more, Reach-keeps,
}
use vegar.Futex.Calls.{UserMemory, returned, sys_futex}
use vegar.Futex.Wake.{sys_futex_wakes}
use vegar.Futex.Requeue.{waiting_at, sys_futex_requeues}

abbrev counter : WaitQueue
counter = record {
  Queue = ℕ;
  new = 0;
  waiters = λ q. q;
  notify_one = λ q. (ltb 0 q, q - 1);
  requeue = λ q n p. (min n q, q - min n q, p + min n q);
  requeue_self = λ q n. (min n q, q);
  waiters-new = refl;
  notify_one-woke = λ q. refl;
  waiters-notify_one = λ q. refl;
  requeue-moved = λ q p n. refl;
  waiters-requeue_from = λ q p n. refl;
  waiters-requeue_to = λ q p n. refl;
}

abbrev memory : UserMemory
memory = record { word_at = λ a. ok 7; timeout_at = λ a. err efault }

-- Three tasks wait at 40 and one at 80.
abbrev busy : FutexTable counter
busy = record {
  map = (40, 0) ∷ (80, 1) ∷ [];
  queues = λ j. elim j [ zero ↦ 3 | suc k ↦ 1 ];
  strong = λ j. 1;
  next = 2;
}

-- One guard, just taken.
abbrev guarded : State counter
guarded = (
  (get_or_insert counter 40 (new_table counter)).1,
  (get_or_insert counter 40 (new_table counter)).0 ∷ [],
)

guarded-Reach : Reach counter guarded
unfolding new_table
guarded-Reach = next start (inserting 40 refl)

guarded_strong : guarded.0.strong 0 ≡ 2
unfolding get_or_insert new_table lookup
guarded_strong = refl

sys_futex_wakes_example :
    ((lookup 40 busy.map ≡ none)
      → sys_futex counter memory 40 129 2 0 0 0 busy ≡ returned (ok 0) busy)
    × ((id : ℕ)
        → lookup 40 busy.map ≡ some id
        → (t' : FutexTable counter) × (sys_futex counter memory 40 129 2 0 0 0 busy
            ≡ returned (ok (min 2 (busy.queues id))) t')
          × (t'.queues id ≡ busy.queues id - min 2 (busy.queues id))
          × ((j : ℕ) → ¬ (j ≡ id) → t'.queues j ≡ busy.queues j))
sys_futex_wakes_example = sys_futex_wakes counter memory 40 129 2 0 0 0 busy refl

-- Three tasks wait at 40.
abbrev parked : State counter
parked = (set_queue counter 0 3 guarded.0, guarded.1)

parked-Reach : Reach counter parked
parked-Reach = next guarded-Reach (queueing 0 3 refl)

-- One wakes and two move to 80, for which there was no queue.
sys_futex_requeues_example :
    (t' : FutexTable counter) × (sys_futex counter memory 40 4 1 5 80 7 parked.0
      ≡ returned (ok 3) t')
    × (waiting_at counter 40 t' ≡ 0)
    × (waiting_at counter 80 t' ≡ 2)
    × Reach counter (t', parked.1)
unfolding lookup insert get_or_insert new_table
sys_futex_requeues_example =
    sys_futex_requeues counter memory 40 4 1 5 80 7 parked.0 parked.1 (inr (refl, refl))
      (ground arith) parked-Reach

-- The last guard of the queue is dropped.
abbrev unguarded : State counter
unguarded = (drop_guard counter (record { key = 40; inner = 0 }) guarded.0, [])

guards_drop : Steps counter guarded unguarded
unfolding get_or_insert new_table lookup
guards_drop = more none_yet (dropping [] [] (record { key = 40; inner = 0 }) refl refl)

has_queue : lookup 40 guarded.0.map ≡ some 0
unfolding get_or_insert new_table lookup insert
has_queue = refl

Reach-keeps_example :
    (lookup 40 unguarded.0.map ≡ some 0)
    × ((g : WaitQueueGuard) (u : FutexTable counter)
        → 1 ≤ u.queues g.inner
        → (drop_guard counter g u).map ≡ u.map)
Reach-keeps_example = Reach-keeps counter 40 0 guarded-Reach guards_drop has_queue
