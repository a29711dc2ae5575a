-- ===== src/Futex/Table.antt =====
-- `FutexTable` and `WaitQueueGuard` of core/src/futex.rs.
use vegar.Prelude.{
  ℕ, ◌+◌, ◌-◌, ◌&&◌, Option, none, some, List, [], ◌==◌, if◌then◌else◌, lookup, insert, remove,
  nat_eq,
}
use vegar.Futex.Queue.{WaitQueue}

-- `WaitQueueGuard`, with the number of its queue.
pub record WaitQueueGuard : Type 0 where
  pub key : ℕ
  pub inner : ℕ

module _ (W : WaitQueue) where
  open W use {Queue, waiters}

  pub record FutexTable : Type 0 where
    pub map : List (ℕ × ℕ)
    pub queues : ℕ → Queue
    pub strong : ℕ → ℕ
    pub next : ℕ

  unfoldable pub new_table : FutexTable
  new_table = record { map = []; queues = λ i. W.new; strong = λ i. 0; next = 0 }

  -- One more, or one less, clone of the `Arc` of a queue.
  abbrev pub clone_arc : ℕ → FutexTable → FutexTable
  clone_arc id t = record t { strong = λ j. if id == j then t.strong j + 1 else t.strong j }

  abbrev pub drop_arc : ℕ → FutexTable → FutexTable
  drop_arc id t = record t { strong = λ j. if id == j then t.strong j - 1 else t.strong j }

  -- `FutexTable::get`
  unfoldable pub get : ℕ → FutexTable → Option WaitQueueGuard × FutexTable
  get addr t = elim (lookup addr t.map) [
    | none ↦ (none, t)
    | some id ↦ (some (record { key = addr; inner = id }), clone_arc id t)
  ]

  -- A new queue, which the map holds once.
  abbrev pub insert_new : ℕ → FutexTable → FutexTable
  insert_new addr t = record {
    map = insert addr t.next t.map;
    queues = λ j. if t.next == j then W.new else t.queues j;
    strong = λ j. if t.next == j then 1 else t.strong j;
    next = t.next + 1;
  }

  -- `FutexTable::get_or_insert`
  unfoldable pub get_or_insert : ℕ → FutexTable → WaitQueueGuard × FutexTable
  get_or_insert addr t = elim (lookup addr t.map) [
    | none ↦ (record { key = addr; inner = t.next }, clone_arc t.next (insert_new addr t))
    | some id ↦ (record { key = addr; inner = id }, clone_arc id t)
  ]

  -- `Drop` of a guard: first its own code, then that of the `Arc` in it.
  unfoldable pub drop_guard : WaitQueueGuard → FutexTable → FutexTable
  drop_guard g t =
      let t' : FutexTable =
        if t.strong g.inner == 1 && waiters (t.queues g.inner) == 0
        then drop_arc g.inner (record t { map = remove g.key t.map })
        else t in
      drop_arc g.inner t'

  -- A change of the queue behind a guard.
  abbrev pub set_queue : ℕ → Queue → FutexTable → FutexTable
  set_queue id q t = record t { queues = λ j. if id == j then q else t.queues j }
