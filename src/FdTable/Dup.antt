-- ===== src/FdTable/Dup.antt =====
-- What duplicating, closing and making descriptors does to the table.
use vegar.Prelude.{
  ℕ, ◌≤◌, ◌<◌, ◌≡◌, ◌≢◌, ◌⊎◌, refl, ap, ◌∙◌, inl, inr, false, none, some, arith, ltb, ◌==◌,
  if◌then◌else◌, Bool-cases, Option-cases, ok, err, ebadf, emfile,
}
use vegar.FdTable.Objects.{FlattenObjects}
use vegar.FdTable.Calls.{as_usize, returns, panics, sys_close, sys_dup, replace, sys_dup2}

module _ {A : Type 0} (O : FlattenObjects A) where
  open O use {Table, cap, new, get, add, add_at, remove, ids}

  -- Every descriptor below the capacity is in use.
  abbrev pub IsFull : Table → Type 0
  IsFull t = (i : ℕ) → i < cap → (b : A) × (get t i ≡ some b)

  add_cases :
      (t : Table) (a : A) → (add t a ≡ none) ⊎ ((i : ℕ) × (t' : Table) × (add t a ≡ some (i, t')))
  add_cases t a = elim (Option-cases (add t a)) [
    | inl e ↦ inl e
    | inr ((i, t'), e) ↦ inr (i, t', e)
  ]

  -- `sys_dup` gives `EBADF` for a descriptor that is not open, `EMFILE` only if the table is full,
  -- and changes nothing then; else it gives an unused descriptor below the capacity, under which
  -- the same file is open, and every other descriptor is as it was.
  pub sys_dup_cases :
      (t : Table) (fd : ℕ)
      → let (out, t') = sys_dup O t fd in
        ((get t (as_usize fd) ≡ none) × (out ≡ err ebadf) × (t' ≡ t))
        ⊎ ((out ≡ err emfile) × (t' ≡ t) × IsFull t)
        ⊎ ((i : ℕ) × (f : A) × (get t (as_usize fd) ≡ some f)
            × (out ≡ ok i)
            × (i < cap)
            × (get t i ≡ none)
            × ((j : ℕ) → get t' j ≡ (if i == j then some f else get t j)))
  unfolding sys_dup
  sys_dup_cases t fd = elim (Option-cases (get t (as_usize fd))) [
    | inl e ↦ inl (e, ground (arith, e), ground (arith, e))
    | inr (f, e) ↦ elim (add_cases t f) [
      | inl full ↦ inr (inl (ground (arith, e, full), ground (arith, e, full), O.add-none t f full))
      | inr (i, t', a) ↦
          let (lt, free, now) = O.add-some t t' f i a in
          inr (inr (i, f, e, ground (arith, e, a), lt, free, λ j. ground (arith, e, a, now j)))
    ]
  ]

  removed : (t : Table) (i : ℕ) → get (remove t i).1 i ≡ none
  removed t i = ground (arith, O.get-remove t i i)

  replace_fits :
      (t : Table) (new_fd : ℕ) (f : A)
      → as_usize new_fd < cap
      → (t' : Table) × (replace O t new_fd f ≡ (returns (ok new_fd), t'))
        × ((j : ℕ) → get t' j ≡ (if as_usize new_fd == j then some f else get t j))
  unfolding replace
  replace_fits t new_fd f h =
      let i = as_usize new_fd in
      let (t', e, now) = O.add_at-free (remove t i).1 i f h (removed t i) in
      (t', rw (e, replace) refl, λ j. now j ∙ hidden i j t f)
    where
      hidden :
          (i j : ℕ) (s : Table) (g : A)
          → (if i == j then some g else get (remove s i).1 j) ≡ (if i == j then some g else get s j)
      hidden i j s g = ground (arith, O.get-remove s i j)

  replace_out :
      (t : Table) (new_fd : ℕ) (f : A) → cap ≤ as_usize new_fd → (replace O t new_fd f).0 ≡ panics
  unfolding replace
  replace_out t new_fd f h =
      rw (O.add_at-out (remove t (as_usize new_fd)).1 (as_usize new_fd) f h, replace) refl

  sys_dup2-replace :
      (t : Table) (old_fd new_fd : ℕ) (f : A)
      → get t (as_usize old_fd) ≡ some f
      → old_fd ≢ new_fd
      → sys_dup2 O t old_fd new_fd ≡ replace O t new_fd f
  unfolding sys_dup2
  sys_dup2-replace t old_fd new_fd f e ne =
      let other : (old_fd == new_fd) ≡ false = ground arith in rw (e, sys_dup2) (rw other refl)

  fitting :
      (t : Table) (old_fd new_fd : ℕ) (f : A)
      → get t (as_usize old_fd) ≡ some f
      → old_fd ≢ new_fd
      → as_usize new_fd < cap
      → let (out, t') = sys_dup2 O t old_fd new_fd in
        (old_fd ≢ new_fd)
        × (as_usize new_fd < cap)
        × (out ≡ returns (ok new_fd))
        × ((j : ℕ) → get t' j ≡ (if as_usize new_fd == j then some f else get t j))
  fitting t old_fd new_fd f e ne h =
      let (t', r, now) = replace_fits t new_fd f h in
      let d = sys_dup2-replace t old_fd new_fd f e ne ∙ r in
      (ne, h, ap (λ p. p.0) d, λ j. ap (λ p. get p.1 j) d ∙ now j)

  past :
      (t : Table) (old_fd new_fd : ℕ) (f : A)
      → get t (as_usize old_fd) ≡ some f
      → old_fd ≢ new_fd
      → cap ≤ as_usize new_fd
      → (sys_dup2 O t old_fd new_fd).0 ≡ panics
  past t old_fd new_fd f e ne h =
      ap (λ p. p.0) (sys_dup2-replace t old_fd new_fd f e ne) ∙ replace_out t new_fd f h

  -- `sys_dup2` gives `EBADF` and changes nothing if the old descriptor is not open; with equal
  -- descriptors it changes nothing; with a new one below the capacity, the same file is open under
  -- it, whatever was open there before, and every other descriptor is as it was. With a new one
  -- past the capacity the kernel panics.
  pub sys_dup2_cases :
      (t : Table) (old_fd new_fd : ℕ)
      → let (out, t') = sys_dup2 O t old_fd new_fd in
        ((get t (as_usize old_fd) ≡ none) × (out ≡ returns (err ebadf)) × (t' ≡ t))
        ⊎ ((f : A) × (get t (as_usize old_fd) ≡ some f)
            × (((old_fd ≡ new_fd) × (out ≡ returns (ok new_fd)) × (t' ≡ t))
                ⊎ (((old_fd ≢ new_fd)
                      × (as_usize new_fd < cap)
                      × (out ≡ returns (ok new_fd))
                      × ((j : ℕ) → get t' j ≡ (if as_usize new_fd == j then some f else get t j)))
                    ⊎ ((old_fd ≢ new_fd) × (cap ≤ as_usize new_fd) × (out ≡ panics)))))
  unfolding sys_dup2
  sys_dup2_cases t old_fd new_fd = elim (Option-cases (get t (as_usize old_fd))) [
    | inl e ↦ inl (e, ground (arith, e), ground (arith, e))
    | inr (f, e) ↦ inr (
      f,
      e,
      elim (Bool-cases (old_fd == new_fd)) [
        | inl same ↦ inl (ground arith, ground (arith, e), ground (arith, e))
        | inr other ↦ inr (elim (Bool-cases (ltb (as_usize new_fd) cap)) [
          | inl fits ↦ inl (fitting t old_fd new_fd f e (ground arith) (ground arith))
          | inr out ↦
              inr
                (ground arith, ground arith, past t old_fd new_fd f e (ground arith) (ground arith))
        ])
      ],
    )
  ]

  -- After `sys_close` of an open descriptor it is not open, and every other one is as it was; of a
  -- descriptor that is not open, the result is `EBADF` and every descriptor is as it was.
  pub sys_close_cases :
      (t : Table) (fd : ℕ)
      → let (out, t') = sys_close O t fd in
        (((get t (as_usize fd) ≡ none) × (out ≡ err ebadf))
          ⊎ ((f : A) × (get t (as_usize fd) ≡ some f) × (out ≡ ok 0)))
        × ((j : ℕ) → get t' j ≡ (if as_usize fd == j then none else get t j))
  unfolding sys_close
  sys_close_cases t fd =
      let got = O.remove-got t (as_usize fd) in
      (
        elim (Option-cases (get t (as_usize fd))) [
          | inl e ↦ inl (e, ground (arith, e, got))
          | inr (f, e) ↦ inr (f, e, ground (arith, e, got))
        ],
        λ j. elim (Option-cases (remove t (as_usize fd)).0) [
          | inl e ↦ ground (arith, e, O.get-remove t (as_usize fd) j)
          | inr (f, e) ↦ ground (arith, e, O.get-remove t (as_usize fd) j)
        ],
      )
