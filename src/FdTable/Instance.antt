-- ===== src/FdTable/Instance.antt =====
-- A container of the behaviour that `FlattenObjects` is assumed to have: a function that is searched
-- below the capacity.
use vegar.Prelude.{
  ℕ, zero, suc, ◌≤◌, ◌<◌, ◌≡◌, refl, ap, inl, inr, Bool, true, false, ◌&&◌, Option, none, some,
  List, [], ◌∷◌, arith, ltb, ◌==◌, if◌then◌else◌, Option-cases,
}
use vegar.FdTable.Objects.{FlattenObjects, elem}

abbrev pub Slots : Type 0 → Type 0
Slots A = ℕ → Option A

abbrev put : {A : Type 0} → Slots A → ℕ → Option A → Slots A
put t i v j = if i == j then v else t j

abbrev is_used : {A : Type 0} → Option A → Bool
is_used none = false
is_used (some a) = true

abbrev free_below : {A : Type 0} → ℕ → Slots A → Option ℕ
free_below zero t = none
free_below (suc n) t = elim (free_below n t) [
  | some i ↦ some i
  | none ↦ if is_used (t n) then none else some n
]

free_below-some :
    {A : Type 0} (n : ℕ) (t : Slots A) (i : ℕ) → free_below n t ≡ some i → (i < n) × (t i ≡ none)
free_below-some zero t i e = cc
free_below-some (suc n) t i e = elim (Option-cases (free_below n t)) [
  | inl h ↦ ground (arith, h, ap t)
  | inr (k, h) ↦ ground (arith, h, free_below-some n t k h, ap t)
]

free_below-none :
    {A : Type 0} (n : ℕ) (t : Slots A)
    → free_below n t ≡ none
    → (i : ℕ) → i < n
    → is_used (t i) ≡ true
free_below-none zero t e i h = absurd (omega arith)
free_below-none (suc n) t e i h = elim (Option-cases (free_below n t)) [
  | inl f ↦ ground (arith, f, free_below-none n t f i, ap t)
  | inr (k, f) ↦ ground (arith, f)
]

used-some : {A : Type 0} (o : Option A) → is_used o ≡ true → (a : A) × (o ≡ some a)
used-some none h = cc
used-some (some a) h = (a, refl)

abbrev used_below : {A : Type 0} → ℕ → Slots A → List ℕ
used_below zero t = []
used_below (suc n) t = if is_used (t n) then n ∷ used_below n t else used_below n t

elem-used_below :
    {A : Type 0} (n : ℕ) (t : Slots A) (i : ℕ)
    → elem i (used_below n t) ≡ (ltb i n && is_used (t i))
unfolding elem
elem-used_below zero t i = ground arith
elem-used_below (suc n) t i = ground (arith, elem-used_below n t i, ap t)

module _ {A : Type 0} (c : ℕ) where
  abbrev get_at : Slots A → ℕ → Option A
  get_at t i = if ltb i c then t i else none

  abbrev add_to : Slots A → A → Option (ℕ × Slots A)
  add_to t a = elim (free_below c t) [ none ↦ none | some i ↦ some (i, put t i (some a)) ]

  abbrev add_to_at : Slots A → ℕ → A → Option (Slots A)
  add_to_at t i a =
      if ltb i c then (if is_used (t i) then none else some (put t i (some a))) else none

  pub add-some_lem :
      (t t' : Slots A) (a : A) (i : ℕ)
      → add_to t a ≡ some (i, t')
      → (i < c)
        × (get_at t i ≡ none)
        × ((j : ℕ) → get_at t' j ≡ (if i == j then some a else get_at t j))
  add-some_lem t t' a i e = elim (Option-cases (free_below c t)) [
    | inl f ↦ ground (arith, f)
    | inr (k, f) ↦
        let (lt, free) = free_below-some c t k f in
        let index : k ≡ i = ground (arith, f) in
        let table : put t k (some a) ≡ t' = ground (arith, f) in
        (ground arith, ground (arith, ap t index), λ j. rw (← table) (ground (arith, ap t index)))
  ]

  pub add-none_lem :
      (t : Slots A) (a : A) → add_to t a ≡ none → (i : ℕ) → i < c → (b : A) × (get_at t i ≡ some b)
  add-none_lem t a e i h =
      let f : free_below c t ≡ none = ground arith in
      let (b, u) = used-some (t i) (free_below-none c t f i h) in (b, ground arith)

  pub add_at-free_lem :
      (t : Slots A) (i : ℕ) (a : A)
      → i < c
      → get_at t i ≡ none
      → (t' : Slots A) × (add_to_at t i a ≡ some t')
        × ((j : ℕ) → get_at t' j ≡ (if i == j then some a else get_at t j))
  add_at-free_lem t i a h free = (put t i (some a), ground arith, λ j. ground arith)

  pub new_lem : (i : ℕ) → get_at (λ j. none) i ≡ none
  new_lem i = ground arith

  pub out_lem : (t : Slots A) (i : ℕ) → c ≤ i → get_at t i ≡ none
  out_lem t i h = ground arith

  pub used_lem : (t : Slots A) (i : ℕ) (a b : A) → get_at t i ≡ some b → add_to_at t i a ≡ none
  used_lem t i a b e = ground arith

  pub past_lem : (t : Slots A) (i : ℕ) (a : A) → c ≤ i → add_to_at t i a ≡ none
  past_lem t i a h = ground arith

  pub remove_lem :
      (t : Slots A) (i j : ℕ) → get_at (put t i none) j ≡ (if i == j then none else get_at t j)
  remove_lem t i j = ground arith

  pub ids-used_lem : (t : Slots A) (i : ℕ) → elem i (used_below c t) ≡ false → get_at t i ≡ none
  ids-used_lem t i e = ground (arith, elem-used_below c t i)

  pub used-ids_lem :
      (t : Slots A) (i : ℕ) → elem i (used_below c t) ≡ true → (a : A) × (get_at t i ≡ some a)
  used-ids_lem t i e =
      let (a, h) = used-some (t i) (ground (arith, elem-used_below c t i)) in
      (a, ground (arith, elem-used_below c t i))

  abbrev pub flatten : FlattenObjects A
  flatten = record {
    Table = Slots A;
    cap = c;
    new = λ i. none;
    get = get_at;
    add = add_to;
    add_at = add_to_at;
    remove = λ t i. (get_at t i, put t i none);
    ids = used_below c;
    get-new = λ i. new_lem i;
    get-out = out_lem;
    add-some = add-some_lem;
    add-none = add-none_lem;
    add_at-free = add_at-free_lem;
    add_at-used = used_lem;
    add_at-out = past_lem;
    remove-got = λ t i. refl;
    get-remove = remove_lem;
    ids-used = ids-used_lem;
    used-ids = used-ids_lem;
  }
