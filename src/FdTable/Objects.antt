-- ===== src/FdTable/Objects.antt =====
-- `flatten_objects::FlattenObjects`, a container that hands out ids below a capacity: the operations
-- that the kernel calls, with their documented behaviour.
use vegar.Prelude.{
  ℕ, ◌≤◌, ◌<◌, ◌≡◌, Bool, true, false, ◌||◌, Option, none, some, List, [], ◌∷◌, ◌==◌, if◌then◌else◌,
}

-- Is the number in the list?
unfoldable pub elem : ℕ → List ℕ → Bool
elem i [] = false
elem i (j ∷ js) = i == j || elem i js

pub record FlattenObjects (A : Type 0) : Type 1 where
  pub Table : Type 0
  pub cap : ℕ
  pub new : Table
  pub get : Table → ℕ → Option A
  pub add : Table → A → Option (ℕ × Table)
  pub add_at : Table → ℕ → A → Option Table
  pub remove : Table → ℕ → Option A × Table
  pub ids : Table → List ℕ
  -- A new container is empty, and no id is past the capacity.
  pub get-new : (i : ℕ) → get new i ≡ none
  pub get-out : (t : Table) (i : ℕ) → cap ≤ i → get t i ≡ none
  -- `add` takes an unused id below the capacity, and fails only if there is none.
  pub add-some :
      (t t' : Table) (a : A) (i : ℕ)
      → add t a ≡ some (i, t')
      → (i < cap) × (get t i ≡ none) × ((j : ℕ) → get t' j ≡ (if i == j then some a else get t j))
  pub add-none :
      (t : Table) (a : A) → add t a ≡ none → (i : ℕ) → i < cap → (b : A) × (get t i ≡ some b)
  -- `add_at` succeeds exactly at an unused id below the capacity.
  pub add_at-free :
      (t : Table) (i : ℕ) (a : A)
      → i < cap
      → get t i ≡ none
      → (t' : Table) × (add_at t i a ≡ some t')
        × ((j : ℕ) → get t' j ≡ (if i == j then some a else get t j))
  pub add_at-used : (t : Table) (i : ℕ) (a b : A) → get t i ≡ some b → add_at t i a ≡ none
  pub add_at-out : (t : Table) (i : ℕ) (a : A) → cap ≤ i → add_at t i a ≡ none
  -- `remove` gives what was there, and frees the id.
  pub remove-got : (t : Table) (i : ℕ) → (remove t i).0 ≡ get t i
  pub get-remove : (t : Table) (i j : ℕ) → get (remove t i).1 j ≡ (if i == j then none else get t j)
  -- `ids` lists the ids in use.
  pub ids-used : (t : Table) (i : ℕ) → elem i (ids t) ≡ false → get t i ≡ none
  pub used-ids : (t : Table) (i : ℕ) → elem i (ids t) ≡ true → (a : A) × (get t i ≡ some a)
