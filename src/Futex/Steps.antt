-- ===== src/Futex/Steps.antt =====
-- The steps that the guards of a process take on the table in core/src/futex.rs. No step takes a key out.
use mathlib.Core.Path.{subst}
use vegar.Prelude.{
  ℕ, ◌+◌, ◌≤◌, ◌≡◌, refl, ap, ◌∙◌, inl, inr, none, some, List, [], ◌∷◌, ◌++◌, arith, ◌==◌,
  Bool-cases, Option-cases, lookup, insert, lookup-insert, count_value, count_value-insert, nat_eq,
}
use vegar.Futex.Queue.{WaitQueue}
use vegar.Futex.Table.{
  WaitQueueGuard, FutexTable, new_table, clone_arc, drop_arc, get, insert_new, get_or_insert,
  drop_guard, set_queue,
}
use vegar.Futex.Keys.{
  held, held-append, Linked, Below, Linked-append, append-Linked, lookup-count_value,
  count_value_fresh, held_fresh, insert-Below, insert-Linked, insert-distinct,
}

module _ (W : WaitQueue) where
  open W use {Queue, waiters}

  -- A table and the guards that are alive.
  abbrev pub State : Type 0
  State = FutexTable W × List WaitQueueGuard

  pub data Step (s t : State) : Type 0 where
    getting :
        (addr : ℕ) (g : WaitQueueGuard)
        → (get W addr s.0).0 ≡ some g
        → t ≡ ((get W addr s.0).1, g ∷ s.1)
        → Step s t
    inserting :
        (addr : ℕ)
        → t ≡ ((get_or_insert W addr s.0).1, (get_or_insert W addr s.0).0 ∷ s.1)
        → Step s t
    queueing : (id : ℕ) (q : Queue) → t ≡ (set_queue W id q s.0, s.1) → Step s t
    dropping :
        (before after : List WaitQueueGuard) (g : WaitQueueGuard)
        → s.1 ≡ before ++ g ∷ after
        → t ≡ (drop_guard W g s.0, before ++ after)
        → Step s t

  pub data Reach : State → Type 0 where
    start : Reach (new_table W, [])
    next : {s t : State} → Reach s → Step s t → Reach t

  pub record IsCounted (s : State) : Type 0 where
    pub counts : (id : ℕ) → s.0.strong id ≡ count_value id s.0.map + held id s.1
    pub linked : Linked s.0.map s.1
    pub below : Below s.0.next s.0.map
    pub distinct : (k j v : ℕ) → lookup k s.0.map ≡ some v → lookup j s.0.map ≡ some v → k ≡ j

  clone_arc-IsCounted :
      (addr id : ℕ) (s : State)
      → lookup addr s.0.map ≡ some id
      → IsCounted s
      → IsCounted (clone_arc W id s.0, record { key = addr; inner = id } ∷ s.1)
  clone_arc-IsCounted addr id s h c = record {
    counts = λ j. ground (arith, c.counts j);
    linked = (h, c.linked);
    below = c.below;
    distinct = c.distinct;
  }

  insert_new-IsCounted :
      (addr : ℕ) (s : State)
      → lookup addr s.0.map ≡ none
      → IsCounted s
      → IsCounted (insert_new W addr s.0, s.1)
  insert_new-IsCounted addr s h c = record {
    counts = λ j. ground (
      arith,
      c.counts j,
      count_value-insert j addr s.0.next s.0.map,
      count_value_fresh s.0.next s.0.map c.below,
      held_fresh s.0.next s.0.map s.1 c.below c.linked,
    );
    linked = insert-Linked addr s.0.next s.0.map s.1 h c.linked;
    below = insert-Below addr s.0.next s.0.map c.below;
    distinct = insert-distinct addr s.0.next s.0.map c.below c.distinct;
  }

  get-IsCounted :
      (addr : ℕ) (g : WaitQueueGuard) (s : State)
      → (get W addr s.0).0 ≡ some g
      → IsCounted s
      → IsCounted ((get W addr s.0).1, g ∷ s.1)
  unfolding get
  get-IsCounted addr g s h c = elim (Option-cases (lookup addr s.0.map)) [
    | inl e ↦ cc
    | inr (id, e) ↦
        let same : record { key = addr; inner = id } ≡ g = ground (arith, e) in
        rw (e, get)
          (subst (λ x. IsCounted (clone_arc W id s.0, x ∷ s.1)) same
            (clone_arc-IsCounted addr id s e c))
  ]

  get_or_insert-IsCounted :
      (addr : ℕ) (s : State)
      → IsCounted s
      → IsCounted ((get_or_insert W addr s.0).1, (get_or_insert W addr s.0).0 ∷ s.1)
  unfolding get_or_insert
  get_or_insert-IsCounted addr s c = elim (Option-cases (lookup addr s.0.map)) [
    | inl e ↦
        let here : lookup addr (insert addr s.0.next s.0.map) ≡ some s.0.next =
          ground (arith, lookup-insert addr addr s.0.next s.0.map) in
        rw (e, get_or_insert)
          (clone_arc-IsCounted addr s.0.next (insert_new W addr s.0, s.1) here
            (insert_new-IsCounted addr s e c))
    | inr (id, e) ↦ rw (e, get_or_insert) (clone_arc-IsCounted addr id s e c)
  ]

  -- While a guard is alive the `Arc` of its queue has two clones.
  guard_shares :
      (g : WaitQueueGuard) (before after : List WaitQueueGuard) (s : State)
      → IsCounted s
      → s.1 ≡ before ++ g ∷ after
      → 2 ≤ s.0.strong g.inner
  guard_shares g before after s c e =
      let linked : Linked s.0.map (before ++ g ∷ after) = rw e at c.linked in
      ground (
        arith,
        c.counts g.inner,
        e,
        held-append g.inner before (g ∷ after),
        lookup-count_value g.key g.inner s.0.map
            (Linked-append s.0.map before (g ∷ after) linked).1.0,
      )

  drop_guard_shared :
      (g : WaitQueueGuard) (t : FutexTable W)
      → 2 ≤ t.strong g.inner
      → drop_guard W g t ≡ drop_arc W g.inner t
  unfolding drop_guard
  drop_guard_shared g t h = elim (Bool-cases (t.strong g.inner == 1)) [
    | inl e ↦ ground arith
    | inr e ↦ rw e
  ]

  drop_guard-IsCounted :
      (g : WaitQueueGuard) (before after : List WaitQueueGuard) (s : State)
      → IsCounted s
      → s.1 ≡ before ++ g ∷ after
      → IsCounted (drop_guard W g s.0, before ++ after)
  drop_guard-IsCounted g before after s c e =
      let shared = guard_shares g before after s c e in
      let linked : Linked s.0.map (before ++ g ∷ after) = subst (Linked s.0.map) e c.linked in
      let parts = Linked-append s.0.map before (g ∷ after) linked in
      rw (drop_guard_shared g s.0 shared) (record {
        counts = λ j. ground (
          arith,
          c.counts j,
          shared,
          e,
          held-append j before (g ∷ after),
          held-append j before after,
        );
        linked = append-Linked s.0.map before after parts.0 parts.1.1;
        below = c.below;
        distinct = c.distinct;
      })

  Step-IsCounted : {s t : State} → Step s t → IsCounted s → IsCounted t
  Step-IsCounted {s} (getting addr g h e) c = rw e (get-IsCounted addr g s h c)
  Step-IsCounted {s} (inserting addr e) c = rw e (get_or_insert-IsCounted addr s c)
  Step-IsCounted {s} (queueing id q e) c =
      rw e (record { counts = c.counts; linked = c.linked; below = c.below; distinct = c.distinct })
  Step-IsCounted {s} (dropping before after g e h) c =
      rw h (drop_guard-IsCounted g before after s c e)

  -- However guards of the process are taken and dropped, the strong count of each queue is the number
  -- of keys that have it in the map and of the guards that hold it, and no two keys have one queue.
  pub Reach-IsCounted : {s : State} → Reach s → IsCounted s
  unfolding new_table count_value lookup
  Reach-IsCounted start = record {
    counts = λ id. refl;
    linked = tt;
    below = tt;
    distinct = λ k j v e f. ground (arith, e);
  }
  Reach-IsCounted (next r step) = Step-IsCounted step (Reach-IsCounted r)

  -- In a reached state the drop of a guard changes no more than the count of its queue.
  pub drop_guard_reached :
      (g : WaitQueueGuard) (before after : List WaitQueueGuard) (s : State)
      → Reach s
      → s.1 ≡ before ++ g ∷ after
      → drop_guard W g s.0 ≡ drop_arc W g.inner s.0
  drop_guard_reached g before after s r e =
      drop_guard_shared g s.0 (guard_shares g before after s (Reach-IsCounted r) e)

  -- The code of the drop itself leaves alone the key of a queue in which tasks wait.
  drop_guard_waited :
      (g : WaitQueueGuard) (t : FutexTable W)
      → 1 ≤ waiters (t.queues g.inner)
      → (drop_guard W g t).map ≡ t.map
  unfolding drop_guard
  drop_guard_waited g t some_wait = elim (Bool-cases (t.strong g.inner == 1)) [
    | inl e ↦ ground (arith, some_wait, e)
    | inr e ↦ rw e refl
  ]

  get_keeps :
      (addr k v : ℕ) (t : FutexTable W)
      → lookup k t.map ≡ some v
      → lookup k (get W addr t).1.map ≡ some v
  unfolding get
  get_keeps addr k v t h = elim (Option-cases (lookup addr t.map)) [
    | inl e ↦ rw (e, get) h
    | inr (id, e) ↦ rw (e, get) h
  ]

  get_or_insert_keeps :
      (addr k v : ℕ) (t : FutexTable W)
      → lookup k t.map ≡ some v
      → lookup k (get_or_insert W addr t).1.map ≡ some v
  unfolding get_or_insert
  get_or_insert_keeps addr k v t h = elim (Option-cases (lookup addr t.map)) [
    | inl e ↦
        rw (e, get_or_insert)
          (lookup-insert addr k t.next t.map ∙ elim (Bool-cases (addr == k)) [
            | inl same ↦ absurd (ground (arith, same, e, h, ap (λ i. lookup i t.map)))
            | inr other ↦ rw other h
          ])
    | inr (id, e) ↦ rw (e, get_or_insert) h
  ]

  Step-keeps :
      (k v : ℕ) {s t : State}
      → Reach s
      → Step s t
      → lookup k s.0.map ≡ some v
      → lookup k t.0.map ≡ some v
  Step-keeps k v {s} r (getting addr g f e) h = rw e (get_keeps addr k v s.0 h)
  Step-keeps k v {s} r (inserting addr e) h = rw e (get_or_insert_keeps addr k v s.0 h)
  Step-keeps k v {s} r (queueing id q e) h = rw e h
  Step-keeps k v {s} r (dropping before after g e f) h =
      rw (f, drop_guard_reached g before after s r e) h

  -- The steps from one state to another.
  pub data Steps (s : State) : State → Type 0 where
    none_yet : Steps s s
    more : {t u : State} → Steps s t → Step t u → Steps s u

  Steps-Reach : {s t : State} → Reach s → Steps s t → Reach t
  Steps-Reach r none_yet = r
  Steps-Reach r (more steps step) = next (Steps-Reach r steps) step

  Steps-keep :
      (k v : ℕ) {s t : State}
      → Reach s
      → Steps s t
      → lookup k s.0.map ≡ some v
      → lookup k t.0.map ≡ some v
  Steps-keep k v r none_yet h = h
  Steps-keep k v r (more steps step) h =
      Step-keeps k v (Steps-Reach r steps) step (Steps-keep k v r steps h)

  -- In a table that the guards of a process have led to from an empty one, an address that has a queue
  -- has the same queue after any further steps: no drop of a guard ever removes it, though no guard
  -- may be left and no task may wait in it. Whatever the counts of a table are, a drop leaves every
  -- key where tasks wait in the queue of the guard.
  pub Reach-keeps :
      (addr id : ℕ) {s t : State}
      → Reach s
      → Steps s t
      → lookup addr s.0.map ≡ some id
      → (lookup addr t.0.map ≡ some id)
        × ((g : WaitQueueGuard) (u : FutexTable W)
            → 1 ≤ waiters (u.queues g.inner)
            → (drop_guard W g u).map ≡ u.map)
  Reach-keeps addr id r steps h = (Steps-keep addr id r steps h, drop_guard_waited)
