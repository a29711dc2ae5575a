-- ===== src/Futex/Keys.antt =====
-- What the keys of the table in core/src/futex.rs have to do with the guards that are alive.
use vegar.Prelude.{
  ℕ, ◌+◌, ◌≤◌, ◌<◌, ◌≡◌, refl, sym, ap, ◌∙◌, inl, inr, Bool-cases, none, some, List, [], ◌∷◌, ◌++◌,
  arith, ◌==◌, if◌then◌else◌, lookup, insert, lookup-insert, count_value, nat_eq,
}
use vegar.Futex.Table.{WaitQueueGuard}

-- How many of the guards hold a queue.
abbrev pub held : ℕ → List WaitQueueGuard → ℕ
held id [] = 0
held id (g ∷ gs) = (if g.inner == id then 1 else 0) + held id gs

pub held-append :
    (id : ℕ) (gs hs : List WaitQueueGuard) → held id (gs ++ hs) ≡ held id gs + held id hs
held-append id [] hs = omega arith
held-append id (g ∷ gs) hs = omega (arith, held-append id gs hs)

-- Each guard's queue is the one that the map has for its key.
abbrev pub Linked : List (ℕ × ℕ) → List WaitQueueGuard → Type 0
Linked m [] = Unit {0}
Linked m (g ∷ gs) = (lookup g.key m ≡ some g.inner) × Linked m gs

abbrev pub Below : ℕ → List (ℕ × ℕ) → Type 0
Below n [] = Unit {0}
Below n ((k, v) ∷ m) = (v < n) × Below n m

pub Below-suc : (n : ℕ) (m : List (ℕ × ℕ)) → Below n m → Below (n + 1) m
Below-suc n [] b = tt
Below-suc n ((k, v) ∷ m) b = ground (arith, Below-suc n m b.1)

pub Linked-append :
    (m : List (ℕ × ℕ)) (gs hs : List WaitQueueGuard)
    → Linked m (gs ++ hs)
    → Linked m gs × Linked m hs
Linked-append m [] hs l = (tt, l)
Linked-append m (g ∷ gs) hs l =
    ((l.0, (Linked-append m gs hs l.1).0), (Linked-append m gs hs l.1).1)

pub append-Linked :
    (m : List (ℕ × ℕ)) (gs hs : List WaitQueueGuard)
    → Linked m gs
    → Linked m hs
    → Linked m (gs ++ hs)
append-Linked m [] hs l r = r
append-Linked m (g ∷ gs) hs l r = (l.0, append-Linked m gs hs l.1 r)

-- What a step without a removal does to the counts.
pub lookup-count_value : (k v : ℕ) (m : List (ℕ × ℕ)) → lookup k m ≡ some v → 1 ≤ count_value v m
unfolding lookup count_value
lookup-count_value k v [] h = ground arith
lookup-count_value k v ((j, w) ∷ m) h = ground (arith, lookup-count_value k v m)

pub lookup-Below : (k v n : ℕ) (m : List (ℕ × ℕ)) → Below n m → lookup k m ≡ some v → v < n
unfolding lookup
lookup-Below k v n [] b h = ground arith
lookup-Below k v n ((j, w) ∷ m) b h = ground (arith, lookup-Below k v n m b.1)

pub count_value_fresh : (n : ℕ) (m : List (ℕ × ℕ)) → Below n m → count_value n m ≡ 0
unfolding count_value
count_value_fresh n [] b = refl
count_value_fresh n ((j, w) ∷ m) b = ground (arith, count_value_fresh n m b.1)

pub held_fresh :
    (n : ℕ) (m : List (ℕ × ℕ)) (gs : List WaitQueueGuard) → Below n m → Linked m gs → held n gs ≡ 0
held_fresh n m [] b l = refl
held_fresh n m (g ∷ gs) b l =
    ground (arith, held_fresh n m gs b l.1, lookup-Below g.key g.inner n m b l.0)

pub insert-Below : (k n : ℕ) (m : List (ℕ × ℕ)) → Below n m → Below (n + 1) (insert k n m)
unfolding insert
insert-Below k n [] b = ground arith
insert-Below k n ((j, w) ∷ m) b = ground (arith, insert-Below k n m b.1, Below-suc n m)

pub insert-Linked :
    (k v : ℕ) (m : List (ℕ × ℕ)) (gs : List WaitQueueGuard)
    → lookup k m ≡ none
    → Linked m gs
    → Linked (insert k v m) gs
insert-Linked k v m [] h l = tt
insert-Linked k v m (g ∷ gs) h l =
    ground
      (arith, insert-Linked k v m gs h l.1, lookup-insert k g.key v m, ap (λ (i : ℕ). lookup i m))

-- A new number keeps the queues of different keys apart.
pub insert-distinct :
    (k n : ℕ) (m : List (ℕ × ℕ))
    → Below n m
    → ((i j v : ℕ) → lookup i m ≡ some v → lookup j m ≡ some v → i ≡ j)
    → (i j v : ℕ) → lookup i (insert k n m) ≡ some v
    → lookup j (insert k n m) ≡ some v
    → i ≡ j
insert-distinct k n m b d i j v e f =
    let e' : (if k == i then some n else lookup i m) ≡ some v = sym (lookup-insert k i n m) ∙ e in
    let f' : (if k == j then some n else lookup j m) ≡ some v = sym (lookup-insert k j n m) ∙ f in
    elim (Bool-cases (k == i)) [
      | inl here ↦ elim (Bool-cases (k == j)) [
        | inl there ↦ ground (arith, here, there)
        | inr away ↦
            let fresh = lookup-Below j v n m b (ground (arith, away, f')) in
            absurd (ground (arith, here, e', fresh))
      ]
      | inr off ↦ elim (Bool-cases (k == j)) [
        | inl there ↦
            let fresh = lookup-Below i v n m b (ground (arith, off, e')) in
            absurd (ground (arith, there, f', fresh))
        | inr away ↦ d i j v (ground (arith, off, e')) (ground (arith, away, f'))
      ]
    ]
