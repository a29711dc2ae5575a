-- ===== src/Tasks/Kept.antt =====
-- A weak map whose values are kept until `expire`: what the runs of the tables stand on.
use vegar.Prelude.{
  ℕ, ◌≡◌, refl, List, [], ◌∷◌, none, nat_eq, lookup, insert, remove, lookup-insert, lookup-remove,
}
use vegar.Tasks.Tables.{is_some, WeakMap}

abbrev pub values : {V : Type 0} → List (ℕ × V) → List V
values [] = []
values ((k, v) ∷ m) = v ∷ values m

pub lookup_nil : {V : Type 0} (k : ℕ) → lookup {V = V} k [] ≡ none
unfolding lookup
lookup_nil k = refl

-- A map whose values are kept until `expire`.
abbrev pub kept : WeakMap
kept = record {
  Map = λ V. List (ℕ × V);
  empty = [];
  get = λ m k. lookup k m;
  contains_key = λ m k. is_some (lookup k m);
  insert = λ m k v. insert k v m;
  values = values;
  expire = λ m k. remove k m;
  get-empty = λ k. lookup_nil k;
  contains_key_lem = λ m k. refl;
  get-insert = λ m k v j. lookup-insert k j v m;
  get-expire = λ m k j. lookup-remove k j m;
}
