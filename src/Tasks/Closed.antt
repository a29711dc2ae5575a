-- ===== src/Tasks/Closed.antt =====
-- `add_thread_to_table` of core/src/task.rs returns as soon as an entry is there. What it leaves out
-- is in the tables already, as long as they are closed.
use vegar.Prelude.{
  ℕ, ◌≡◌, refl, ap, ◌∙◌, ◌⊎◌, inl, inr, true, false, none, some, ◌==◌, ==_iff, Bool-cases,
  Option-cases, arith,
}
use vegar.Tasks.Tables.{
  is_some, WeakMap, ProcessGroup, Process, Thread, Tables, add_session, add_group, add_process,
  add_thread_to_table,
}

module _ (W : WeakMap) where
  -- Each thread of the table has its process in the table, but for the threads of `p`.
  abbrev pub ThreadsBelongBut : Process → Tables W → Type 0
  ThreadsBelongBut p t =
      (k : ℕ) (th : Thread)
      → W.get t.threads k ≡ some th
      → (th.process ≡ p) ⊎ (W.get t.processes_by_pid th.process.pid ≡ some th.process)

  abbrev pub ProcessesBelongBut : ProcessGroup → Tables W → Type 0
  ProcessesBelongBut g t =
      (k : ℕ) (p : Process)
      → W.get t.processes_by_pid k ≡ some p
      → (p.group ≡ g) ⊎ (W.get t.groups p.group.pgid ≡ some p.group)

  abbrev pub GroupsBelongBut : ℕ → Tables W → Type 0
  GroupsBelongBut s t =
      (k : ℕ) (g : ProcessGroup)
      → W.get t.groups k ≡ some g
      → (g.session ≡ s) ⊎ (W.get t.sessions g.session ≡ some g.session)

  abbrev pub ThreadsBelong : Tables W → Type 0
  ThreadsBelong t =
      (k : ℕ) (th : Thread)
      → W.get t.threads k ≡ some th
      → W.get t.processes_by_pid th.process.pid ≡ some th.process

  abbrev pub ProcessesBelong : Tables W → Type 0
  ProcessesBelong t =
      (k : ℕ) (p : Process)
      → W.get t.processes_by_pid k ≡ some p
      → W.get t.groups p.group.pgid ≡ some p.group

  abbrev pub GroupsBelong : Tables W → Type 0
  GroupsBelong t =
      (k : ℕ) (g : ProcessGroup)
      → W.get t.groups k ≡ some g
      → W.get t.sessions g.session ≡ some g.session

  -- What is in a table has what it belongs to in the next one.
  pub record IsClosed (t : Tables W) : Type 0 where
    pub of_thread : ThreadsBelong t
    pub of_process : ProcessesBelong t
    pub of_group : GroupsBelong t

  -- What is there under a number of the thread is what the thread belongs to.
  pub record Fits (t : Tables W) (th : Thread) : Type 0 where
    pub same_process :
        (q : Process) → W.get t.processes_by_pid th.process.pid ≡ some q → q ≡ th.process
    pub same_group :
        (g : ProcessGroup) → W.get t.groups th.process.group.pgid ≡ some g → g ≡ th.process.group
    pub same_session :
        (s : ℕ) → W.get t.sessions th.process.group.session ≡ some s → s ≡ th.process.group.session

module _ (W : WeakMap) {V : Type 0} where
  contains_none : (m : W.Map V) (k : ℕ) → W.contains_key m k ≡ false → W.get m k ≡ none
  contains_none m k h = elim (Option-cases (W.get m k)) [
    | inl e ↦ e
    | inr (v, e) ↦ ground (arith, W.contains_key_lem m k, ap is_some e)
  ]

  contains_some : (m : W.Map V) (k : ℕ) → W.contains_key m k ≡ true → (v : V) × (W.get m k ≡ some v)
  contains_some m k h = elim (Option-cases (W.get m k)) [
    | inl e ↦ absurd (ground (arith, W.contains_key_lem m k, ap is_some e))
    | inr found ↦ found
  ]

  get-insert_self : (m : W.Map V) (k : ℕ) (v : V) → W.get (W.insert m k v) k ≡ some v
  get-insert_self m k v = ground (arith, W.get-insert m k v k)

  -- An entry under a number that was free hides none.
  get-insert_free :
      (m : W.Map V) (k j : ℕ) (v w : V)
      → W.get m k ≡ none
      → W.get m j ≡ some w
      → W.get (W.insert m k v) j ≡ some w
  get-insert_free m k j v w free there = elim (Bool-cases (k == j)) [
    | inl e ↦ absurd (ground (arith, ap (W.get m) ((==_iff k j).0 e)))
    | inr e ↦ W.get-insert m k v j ∙ rw e there
  ]

  -- A value that an insertion makes is the new one or an old one.
  get-insert_cases :
      (m : W.Map V) (k j : ℕ) (v w : V)
      → W.get (W.insert m k v) j ≡ some w
      → (w ≡ v) ⊎ (W.get m j ≡ some w)
  get-insert_cases m k j v w there = ground (arith, W.get-insert m k v j)

module _ (W : WeakMap) where
  add_session-IsClosed :
      (s : ℕ) (t : Tables W)
      → ThreadsBelong W t
      → ProcessesBelong W t
      → GroupsBelongBut W s t
      → ((x : ℕ) → W.get t.sessions s ≡ some x → x ≡ s)
      → IsClosed W (add_session W s t)
  unfolding add_session
  add_session-IsClosed s t th pr gr same = elim (Bool-cases (W.contains_key t.sessions s)) [
    | inl h ↦
        let (x, there) = contains_some W t.sessions s h in
        rw h (record {
          of_thread = th;
          of_process = pr;
          of_group = λ k g e. elim (gr k g e) [
            | inl new ↦ rw (new, there, same x there) refl
            | inr old ↦ old
          ];
        })
    | inr h ↦
        let free = contains_none W t.sessions s h in
        rw h (record {
          of_thread = th;
          of_process = pr;
          of_group = λ k g e. elim (gr k g e) [
            | inl new ↦ rw new (get-insert_self W t.sessions s s)
            | inr old ↦ get-insert_free W t.sessions s g.session s g.session free old
          ];
        })
  ]

  add_group-IsClosed :
      (g : ProcessGroup) (t : Tables W)
      → ThreadsBelong W t
      → ProcessesBelongBut W g t
      → GroupsBelong W t
      → ((x : ProcessGroup) → W.get t.groups g.pgid ≡ some x → x ≡ g)
      → ((x : ℕ) → W.get t.sessions g.session ≡ some x → x ≡ g.session)
      → IsClosed W (add_group W g t)
  unfolding add_group
  add_group-IsClosed g t th pr gr same_g same_s =
      elim (Bool-cases (W.contains_key t.groups g.pgid)) [
        | inl h ↦
            let (x, there) = contains_some W t.groups g.pgid h in
            rw h (record {
              of_thread = th;
              of_process = λ k p e. elim (pr k p e) [
                | inl new ↦ rw (new, there, same_g x there) refl
                | inr old ↦ old
              ];
              of_group = gr;
            })
        | inr h ↦
            let free = contains_none W t.groups g.pgid h in
            rw h (
              add_session-IsClosed g.session (record t { groups = W.insert t.groups g.pgid g }) th
                (λ k p e. elim (pr k p e) [
                  | inl new ↦ rw new (get-insert_self W t.groups g.pgid g)
                  | inr old ↦ get-insert_free W t.groups g.pgid p.group.pgid g p.group free old
                ])
                (λ k x e. elim (get-insert_cases W t.groups g.pgid k g x e) [
                  | inl new ↦ inl (ap (λ (y : ProcessGroup). y.session) new)
                  | inr old ↦ inr (gr k x old)
                ])
                same_s)
      ]

  add_process-IsClosed :
      (p : Process) (t : Tables W)
      → ThreadsBelongBut W p t
      → ProcessesBelong W t
      → GroupsBelong W t
      → ((q : Process) → W.get t.processes_by_pid p.pid ≡ some q → q ≡ p)
      → ((x : ProcessGroup) → W.get t.groups p.group.pgid ≡ some x → x ≡ p.group)
      → ((x : ℕ) → W.get t.sessions p.group.session ≡ some x → x ≡ p.group.session)
      → IsClosed W (add_process W p t)
  unfolding add_process
  add_process-IsClosed p t th pr gr same_p same_g same_s =
      elim (Bool-cases (W.contains_key t.processes_by_pid p.pid)) [
        | inl h ↦
            let (x, there) = contains_some W t.processes_by_pid p.pid h in
            rw h (record {
              of_thread = λ k y e. elim (th k y e) [
                | inl new ↦ rw (new, there, same_p x there) refl
                | inr old ↦ old
              ];
              of_process = pr;
              of_group = gr;
            })
        | inr h ↦
            let free = contains_none W t.processes_by_pid p.pid h in
            rw h (
              add_group-IsClosed p.group
                (record t { processes_by_pid = W.insert t.processes_by_pid p.pid p })
                (λ k y e. elim (th k y e) [
                  | inl new ↦ rw new (get-insert_self W t.processes_by_pid p.pid p)
                  | inr old ↦
                      get-insert_free W t.processes_by_pid p.pid y.process.pid p y.process free old
                ])
                (λ k x e. elim (get-insert_cases W t.processes_by_pid p.pid k p x e) [
                  | inl new ↦ inl (ap (λ (y : Process). y.group) new)
                  | inr old ↦ inr (pr k x old)
                ])
                gr same_g same_s)
      ]

  -- With tables that are closed, and a thread whose numbers nothing else has, `add_thread_to_table`
  -- keeps the tables closed.
  pub add_thread_to_table-IsClosed :
      (th : Thread) (t : Tables W)
      → Fits W t th
      → IsClosed W t
      → IsClosed W (add_thread_to_table W th t)
  unfolding add_thread_to_table
  add_thread_to_table-IsClosed th t fits closed =
      add_process-IsClosed th.process (record t { threads = W.insert t.threads th.tid th })
        (λ k y e. elim (get-insert_cases W t.threads th.tid k th y e) [
          | inl new ↦ inl (ap (λ (x : Thread). x.process) new)
          | inr old ↦ inr (closed.of_thread k y old)
        ])
        closed.of_process closed.of_group fits.same_process fits.same_group fits.same_session
