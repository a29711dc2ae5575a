-- ===== src/Memory/Flat.antt =====
-- A simple address space that meets the interface: what the runs of the calls stand on.
use vegar.Prelude.{
  ℕ, zero, suc, ◌+◌, ◌≤◌, ◌<◌, ◌≡◌, refl, ap, ◌∙◌, inl, inr, Bool, true, false, ◌&&◌, Bool-cases,
  Option, none, some, Option-cases, arith, ◌==◌, if◌then◌else◌, ok,
}
use vegar.Memory.AddrSpace.{MappingFlags, AddrSpace, within}

-- A space is a function here, and an area is free where it is so at each address.
abbrev pub Mappings : Type 0
Mappings = ℕ → Option MappingFlags

abbrev is_none : {A : Type 0} → Option A → Bool
is_none none = true
is_none (some a) = false

unfoldable pub is_free : Mappings → ℕ → ℕ → Bool
is_free s a zero = true
is_free s a (suc n) = is_none (s (a + n)) && is_free s a n

is_free_lem : (s : Mappings) (a n x : ℕ) → is_free s a n ≡ true → a ≤ x → x < a + n → s x ≡ none
unfolding is_free
is_free_lem s a zero x h l u = ground arith
is_free_lem s a (suc n) x h l u = elim (Bool-cases (x == a + n)) [
  | inl e ↦
      let same : x ≡ a + n = ground arith in
      elim (Option-cases (s (a + n))) [
        | inl there ↦ ap s same ∙ there
        | inr (f, there) ↦ ground (arith, there)
      ]
  | inr e ↦ is_free_lem s a n x (ground arith) l (ground arith)
]

unfoldable pub find : Mappings → ℕ → ℕ → ℕ → Option ℕ
find s hint size page = if is_free s hint size then some hint else none

pub find_lem :
    (s : Mappings) (hint size page a x : ℕ)
    → find s hint size page ≡ some a
    → a ≤ x
    → x < a + size
    → s x ≡ none
unfolding find
find_lem s hint size page a x e l u = elim (Bool-cases (is_free s hint size)) [
  | inl h ↦ ground (arith, h, is_free_lem s hint size x h)
  | inr h ↦ ground (arith, h)
]

abbrev pub flat : AddrSpace
flat = record {
  Space = Mappings;
  flags_at = λ s x. s x;
  base = λ s. 0x1000;
  find_free_area = find;
  map_alloc = λ s a size f populate page. (ok tt, λ x. if within a size x then some f else s x);
  unmap = λ s a size. (ok tt, λ x. if within a size x then none else s x);
  protect = λ s a size f. (ok tt, λ x. if within a size x then some f else s x);
  write = λ s a page bytes. (ok tt, s);
  find_free_area-free = find_lem;
  flags_at-map_alloc = λ s a size f populate page x e. refl;
  flags_at-unmap = λ s a size x e. refl;
  flags_at-write = λ s a page bytes x. refl;
}
