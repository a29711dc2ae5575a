-- ===== src/FdTable/Copies.antt =====
-- Whole tables: the copy for a forked process, the cleared table of an exiting one, and the first.
use vegar.Prelude.{
  ℕ, ◌≤◌, ◌<◌, ◌≡◌, ◌⊎◌, refl, ap, ◌∙◌, inl, inr, none, some, List, [], ◌∷◌, arith, ltb, ◌==◌,
  if◌then◌else◌, Bool-cases, Option-cases,
}
use vegar.FdTable.Objects.{FlattenObjects, elem}
use vegar.FdTable.Calls.{copy_ids, copy_inner, remove_ids, clear, init_stdio}

module _ {A : Type 0} (O : FlattenObjects A) where
  open O use {Table, cap, new, get, add, add_at, remove, ids}

  used-lt-cap : (t : Table) (i : ℕ) (a : A) → get t i ≡ some a → i < cap
  used-lt-cap t i a e = elim (Bool-cases (ltb i cap)) [
    | inl h ↦ ground arith
    | inr h ↦ ground (arith, O.get-out t i)
  ]

  -- One round of the copy.
  abbrev copied : Table → ℕ → Table → Table
  copied t i s = elim (get t i) [
    | none ↦ s
    | some f ↦ elim (add_at s i f) [ none ↦ s | some s' ↦ s' ]
  ]

  -- The copy so far holds nothing but what the table holds.
  abbrev Within : Table → Table → Type 0
  Within s t = (j : ℕ) → (get s j ≡ none) ⊎ (get s j ≡ get t j)

  get-copied :
      (t s : Table) (i : ℕ)
      → Within s t
      → (j : ℕ) → get (copied t i s) j ≡ (if i == j then get t i else get s j)
  get-copied t s i w j = elim (Option-cases (get t i)) [
    | inl e ↦ ground (arith, e, w i, ap (get s))
    | inr (f, e) ↦ elim (Option-cases (get s i)) [
      | inl free ↦
          let (s', a, now) = O.add_at-free s i f (used-lt-cap t i f e) free in
          ground (arith, e, a, now j)
      | inr (g, used) ↦ ground (arith, e, O.add_at-used s i f g used, w i, ap (get s))
    ]
  ]

  copied-Within : (t s : Table) (i : ℕ) → Within s t → Within (copied t i s) t
  copied-Within t s i w j = ground (arith, get-copied t s i w j, w j, ap (get t))

  get-copy_ids :
      (t : Table) (is : List ℕ) (s : Table)
      → Within s t
      → (j : ℕ) → get (copy_ids O t is s) j ≡ (if elem j is then get t j else get s j)
  unfolding copy_ids elem
  get-copy_ids t [] s w j = refl
  get-copy_ids t (i ∷ is) s w j = ground (
    arith,
    get-copy_ids t is (copied t i s) (copied-Within t s i w) j,
    get-copied t s i w j,
    ap (get t),
  )

  -- The copied table of a fork has the same file under every descriptor as the table it copies.
  pub get-copy_inner : (t : Table) (j : ℕ) → get (copy_inner O t) j ≡ get t j
  unfolding copy_inner
  get-copy_inner t j = elim (Bool-cases (elem j (ids t))) [
    | inl used ↦ ground (arith, used, get-copy_ids t (ids t) new (λ i. inl (O.get-new i)) j)
    | inr free ↦ ground (
      arith,
      free,
      get-copy_ids t (ids t) new (λ i. inl (O.get-new i)) j,
      O.ids-used t j free,
      O.get-new j,
    )
  ]

  get-remove_ids :
      (is : List ℕ) (t : Table) (j : ℕ)
      → get (remove_ids O is t) j ≡ (if elem j is then none else get t j)
  unfolding remove_ids elem
  get-remove_ids [] t j = refl
  get-remove_ids (i ∷ is) t j =
      ground (arith, get-remove_ids is (remove t i).1 j, O.get-remove t i j)

  -- After `clear` no descriptor is open.
  pub get-clear : (t : Table) (j : ℕ) → get (clear O t) j ≡ none
  unfolding clear
  get-clear t j = elim (Bool-cases (elem j (ids t))) [
    | inl used ↦ ground (arith, used, get-remove_ids (ids t) t j)
    | inr free ↦ ground (arith, free, get-remove_ids (ids t) t j, O.ids-used t j free)
  ]

  -- With room for three descriptors `init_stdio` does not panic, and opens exactly 0, 1 and 2, on
  -- standard input, standard output and the standard error stream.
  pub init_stdio_lem :
      (stdin stdout stderr : A)
      → 3 ≤ cap
      → (t : Table) × (init_stdio O stdin stdout stderr ≡ some t)
        × (get t 0 ≡ some stdin)
        × (get t 1 ≡ some stdout)
        × (get t 2 ≡ some stderr)
        × ((j : ℕ) → 3 ≤ j → get t j ≡ none)
  unfolding init_stdio
  init_stdio_lem stdin stdout stderr room =
      let (t0, e0, now0) = O.add_at-free new 0 stdin (omega arith) (O.get-new 0) in
      let (t1, e1, now1) = O.add_at-free t0 1 stdout (omega arith) (now0 1 ∙ O.get-new 1) in
      let (t2, e2, now2) =
        O.add_at-free t1 2 stderr (omega arith) (now1 2 ∙ now0 2 ∙ O.get-new 2) in
      (
        t2,
        ground (arith, e0, e1, e2),
        ground (arith, now2 0, now1 0, now0 0),
        ground (arith, now2 1, now1 1),
        ground (arith, now2 2),
        λ j h. ground (arith, now2 j, now1 j, now0 j, O.get-new j),
      )
