-- ===== src/Loader/Segments.antt =====
-- The segments that core/src/mm.rs maps, and chains of calls on an address space.
use mathlib.Core.Path.{subst}
use vegar.Prelude.{
  ℕ, ◌+◌, ◌%◌, ◌≤◌, ◌<◌, ◌≡◌, refl, sym, ◌∙◌, ◌≢◌, inl, inr, Bool, true, false, Bool-cases, none,
  Option-cases, List, [], ◌∷◌, arith, ◌==◌, LinuxResult, ok, err, usize_mod, add_usize,
}
use vegar.Memory.AddrSpace.{AddrSpace, MappingFlags}
use vegar.Pointers.Checks.{align_down_4k, page_size_4k}
use vegar.Loader.Text.{Text, get_range}
use vegar.Loader.Elf.{
  Load, loaded, failed, panicked, Segment, then_with, and_then, finish, seg_align_size,
  write_segment, map_segment, map_segments,
}

abbrev pub is_loaded : {B : Type 0} → Load B → Bool
is_loaded (loaded b) = true
is_loaded _ = false

-- The loop of a segment does not wrap around.
abbrev pub IsSmall : Segment → Type 0
IsSmall seg = seg.memsz + 8192 < usize_mod

-- What holds of each segment.
abbrev pub All : (Segment → Type 0) → List Segment → Type 0
All Q [] = Unit {0}
All Q (seg ∷ segs) = Q seg × All Q segs

All-map :
    (Q R : Segment → Type 0) (segs : List Segment)
    → ((seg : Segment) → Q seg → R seg)
    → All Q segs
    → All R segs
All-map Q R [] f h = tt
All-map Q R (seg ∷ segs) f h = (f seg h.0, All-map Q R segs f h.1)

module _ (A : AddrSpace) where
  -- The addresses from `a` on, `size` of them, are mapped.
  abbrev pub IsMapped : A.Space → ℕ → ℕ → Type 0
  IsMapped s a size = (x : ℕ) → a ≤ x → x < a + size → A.flags_at s x ≢ none

  -- What is mapped stays mapped.
  abbrev pub Grows : A.Space → A.Space → Type 0
  Grows s s' = (x : ℕ) → A.flags_at s x ≢ none → A.flags_at s' x ≢ none

  pub map_alloc_lem :
      (s : A.Space) (a size : ℕ) (f : MappingFlags) (page : ℕ)
      → (A.map_alloc s a size f true page).0 ≡ ok tt
      → Grows s (A.map_alloc s a size f true page).1
        × IsMapped (A.map_alloc s a size f true page).1 a size
  map_alloc_lem s a size f page done =
      let law = A.flags_at-map_alloc s a size f true page in
      ((λ x there. ground (arith, law x done)), (λ x lo hi. ground (arith, law x done)))

  -- A chain of calls that ends well has done its first one.
  then_with-loaded :
      {B : Type 0} (r : LinuxResult (Unit {0}) × A.Space) (f : A.Space → Load B × A.Space)
      → is_loaded (then_with A r f).0 ≡ true
      → (r.0 ≡ ok tt) × (then_with A r f ≡ f r.1)
  then_with-loaded (ok tt, s) f h = (refl, refl)
  then_with-loaded (err e, s) f h = ground (arith, h)

  pub then_with-ends_well :
      {B : Type 0} (r : LinuxResult (Unit {0}) × A.Space) (f : A.Space → Load B × A.Space)
      (Q : Load B × A.Space → Type 0)
      → is_loaded (then_with A r f).0 ≡ true
      → (r.0 ≡ ok tt → is_loaded (f r.1).0 ≡ true → Q (f r.1))
      → Q (then_with A r f)
  then_with-ends_well (ok tt, s) f Q h k = k refl h
  then_with-ends_well (err e, s) f Q h k = ground (arith, h)

  and_then-loaded :
      {B C : Type 0} (r : Load B × A.Space) (f : B → A.Space → Load C × A.Space)
      → is_loaded (and_then A r f).0 ≡ true
      → (b : B) × ((r.0 ≡ loaded b) × (and_then A r f ≡ f b r.1))
  and_then-loaded (loaded b, s) f h = (b, (refl, refl))
  and_then-loaded (failed e, s) f h = ground (arith, h)
  and_then-loaded (panicked, s) f h = ground (arith, h)

  pub and_then-ends_well :
      {B C : Type 0} (r : Load B × A.Space) (f : B → A.Space → Load C × A.Space)
      (Q : Load C × A.Space → Type 0)
      → is_loaded (and_then A r f).0 ≡ true
      → ((b : B) → r.0 ≡ loaded b → is_loaded (f b r.1).0 ≡ true → Q (f b r.1))
      → Q (and_then A r f)
  and_then-ends_well (loaded b, s) f Q h k = k b refl h
  and_then-ends_well (failed e, s) f Q h k = ground (arith, h)
  and_then-ends_well (panicked, s) f Q h k = ground (arith, h)

  pub and_then_assoc :
      {B C D : Type 0} (r : Load B × A.Space) (f : B → A.Space → Load C × A.Space)
      (g : C → A.Space → Load D × A.Space)
      → and_then A (and_then A r f) g ≡ and_then A r (λ b s. and_then A (f b s) g)
  and_then_assoc (loaded b, s) f g = refl
  and_then_assoc (failed e, s) f g = refl
  and_then_assoc (panicked, s) f g = refl

  finish-loaded : (r : LinuxResult (Unit {0}) × A.Space) → (finish A r).1 ≡ r.1
  finish-loaded (ok tt, s) = refl
  finish-loaded (err e, s) = refl

  pub write-Grows : (s : A.Space) (a page : ℕ) (bytes : Text) → Grows s (A.write s a page bytes).1
  write-Grows s a page bytes x there e = there (sym (A.flags_at-write s a page bytes x) ∙ e)

  -- Whole pages from the page of the first byte cover the segment.
  segment_covered :
      (seg : Segment) (x : ℕ)
      → IsSmall seg
      → seg.vaddr ≤ x
      → x < seg.vaddr + seg.memsz
      → (align_down_4k seg.vaddr ≤ x) × (x < align_down_4k seg.vaddr + seg_align_size A seg)
  segment_covered seg x small lo hi =
      let sum : (seg.memsz + seg.vaddr % 4096) % usize_mod ≡ seg.memsz + seg.vaddr % 4096 =
        omega (arith, small) in
      let all : (seg.memsz + seg.vaddr % 4096 + 4095) % usize_mod
          ≡ seg.memsz + seg.vaddr % 4096 + 4095 =
        omega (arith, small) in
      (omega (arith, lo), omega (arith, small, lo, hi, sum, all))

  write_segment-Grows :
      (input : Text) (seg : Segment) (s : A.Space) → Grows s (write_segment A input seg s).1
  unfolding write_segment
  write_segment-Grows input seg s =
      elim (Option-cases (get_range input seg.offset (add_usize seg.offset seg.filesz))) [
        | inl e ↦ rw (write_segment, e) (λ x there. there)
        | inr (bytes, e) ↦
            rw (write_segment, e, finish-loaded (A.write s seg.vaddr page_size_4k bytes))
              (write-Grows s seg.vaddr page_size_4k bytes)
      ]

  -- What `map_alloc` makes of the address space for a segment.
  abbrev alloc_segment : Segment → A.Space → LinuxResult (Unit {0}) × A.Space
  alloc_segment seg s =
      A.map_alloc s (align_down_4k seg.vaddr) (seg_align_size A seg) seg.flags true page_size_4k

  map_segment-loaded :
      (input : Text) (seg : Segment) (s : A.Space)
      → IsSmall seg
      → is_loaded (map_segment A input seg s).0 ≡ true
      → Grows s (map_segment A input seg s).1
        × IsMapped (map_segment A input seg s).1 seg.vaddr seg.memsz
  unfolding map_segment
  map_segment-loaded input seg s small h =
      elim (Bool-cases (seg.vaddr % 4096 == seg.offset % 4096)) [
        | inr off ↦ absurd (ground (arith, h, off))
        | inl on ↦
            let same : map_segment A input seg s
                ≡ then_with A (alloc_segment seg s) (write_segment A input seg) =
              rw on refl in
            let (done, end) =
              then_with-loaded (alloc_segment seg s) (write_segment A input seg)
                (subst (λ (r : Load (Unit {0}) × A.Space). is_loaded r.0 ≡ true) same h) in
            let (grows, there) =
              map_alloc_lem s (align_down_4k seg.vaddr) (seg_align_size A seg) seg.flags
                page_size_4k done in
            let keeps = write_segment-Grows input seg (alloc_segment seg s).1 in
            subst
              (λ (r : Load (Unit {0}) × A.Space). Grows s r.1 × IsMapped r.1 seg.vaddr seg.memsz)
              (sym (same ∙ end))
              (
                (λ x e. keeps x (grows x e)),
                (λ x lo hi.
                    let (lo', hi') = segment_covered seg x small lo hi in
                    keeps x (there x lo' hi')),
              )
      ]

  abbrev pub AreMapped : A.Space → List Segment → Type 0
  AreMapped s segs = All (λ seg. IsMapped s seg.vaddr seg.memsz) segs

  pub grow_mapped :
      (s s' : A.Space) (segs : List Segment) → Grows s s' → AreMapped s segs → AreMapped s' segs
  grow_mapped s s' segs g h =
      All-map (λ seg. IsMapped s seg.vaddr seg.memsz) (λ seg. IsMapped s' seg.vaddr seg.memsz) segs
        (λ seg m x lo hi. g x (m x lo hi)) h

  pub map_segments-loaded :
      (input : Text) (segs : List Segment) (s : A.Space)
      → All IsSmall segs
      → is_loaded (map_segments A input segs s).0 ≡ true
      → Grows s (map_segments A input segs s).1 × AreMapped (map_segments A input segs s).1 segs
  unfolding map_segments
  map_segments-loaded input [] s small h = ((λ x there. there), tt)
  map_segments-loaded input (seg ∷ segs) s small h =
      let (_, (first, end)) =
        and_then-loaded (map_segment A input seg s) (λ _ s'. map_segments A input segs s') h in
      let s' = (map_segment A input seg s).1 in
      let (grows, there) = map_segment-loaded input seg s small.0 (rw first refl) in
      let (grows', there') =
        map_segments-loaded input segs s' small.1
          (subst (λ (r : Load (Unit {0}) × A.Space). is_loaded r.0 ≡ true) end h) in
      subst (λ (r : Load (Unit {0}) × A.Space). Grows s r.1 × AreMapped r.1 (seg ∷ segs)) (sym end)
        ((λ x e. grows' x (grows x e)), ((λ x lo hi. grows' x (there x lo hi)), there'))
