-- ===== src/Memory/Mapped.antt =====
-- What `sys_mmap` of api/src/imp/mm/mmap.rs does to the mappings of a space.
use vegar.Prelude.{
  ℕ, ◌+◌, ◌*◌, ◌%◌, ◌^◌, ◌≤◌, ◌<◌, ◌≡◌, ◌≢◌, ◌⊎◌, ap, inl, inr, Bool, true, false, ◌&&◌, none, some,
  arith, if◌then◌else◌, Bool-cases, Option-cases, ok, LinuxResult-cases,
}
use vegar.Memory.AddrSpace.{AddrSpace, Files, within}
use vegar.Memory.Flags.{
  prot_all, map_private, map_shared, map_fixed, map_all, contains, from_bits_truncate,
  to_mapping_flags, size_4k, size_2m, size_1g, page_size,
}
use vegar.Memory.Calls.{
  align_down, aligned_length, find_area, choose_start, read_file, fill, populates, map_area,
  sys_mmap,
}

page_size_cases :
    (f : ℕ) → (page_size f ≡ size_4k) ⊎ ((page_size f ≡ size_2m) ⊎ (page_size f ≡ size_1g))
unfolding page_size
page_size_cases f = ground arith

-- The area of whole pages that `sys_mmap` works on has the requested one in it, is less than two
-- pages longer, and begins and ends at pages, if its end does not reach that of the address space.
pub aligned_length_covers :
    (addr length map_flags : ℕ)
    → addr + length + size_1g < 2 ^ 64
    → let page = page_size map_flags in
      let start = align_down addr page in
      let size = aligned_length addr length page in
      (start ≤ addr)
      × (addr + length ≤ start + size)
      × (size < length + 2 * page)
      × (start % page ≡ 0)
      × (size % page ≡ 0)
unfolding aligned_length
aligned_length_covers addr length map_flags small = elim (page_size_cases map_flags) [
  | inl e ↦ rw e (ground arith)
  | inr (inl e) ↦ rw e (ground arith)
  | inr (inr e) ↦ rw e (ground arith)
]

module _ (A : AddrSpace) (F : Files) where
  open A use {Space, flags_at}

  find_area-free :
      (s : Space) (start size page a x : ℕ)
      → find_area A F s start size page ≡ some a
      → within a size x ≡ true
      → flags_at s x ≡ none
  unfolding find_area
  find_area-free s start size page a x e i =
      elim (Option-cases (A.find_free_area s start size page)) [
        | inl none_there ↦
            let found : A.find_free_area s (A.base s) size page ≡ some a =
              ground (arith, none_there) in
            A.find_free_area-free s (A.base s) size page a x found (ground arith) (ground arith)
        | inr (b, there) ↦
            let found : A.find_free_area s start size page ≡ some a = ground (arith, there) in
            A.find_free_area-free s start size page a x found (ground arith) (ground arith)
      ]

  -- What is mapped before `map_alloc`.
  choose_start_lem :
      (map_flags start size page a x : ℕ) (s : Space)
      → (choose_start A F map_flags start size page s).0 ≡ ok a
      → let s' = (choose_start A F map_flags start size page s).1 in
        (flags_at s' x
          ≡ (if contains map_flags map_fixed && within start size x then none else flags_at s x))
        × (contains map_flags map_fixed ≡ true → (a ≡ start) × (start ≢ 0))
        × (contains map_flags map_fixed ≡ false → within a size x ≡ true → flags_at s x ≡ none)
  unfolding choose_start
  choose_start_lem map_flags start size page a x s e =
      elim (Bool-cases (contains map_flags map_fixed)) [
        | inl fixed ↦ elim (LinuxResult-cases (A.unmap s start size).0) [
          | inl (error, u) ↦ ground (arith, u)
          | inr (_, u) ↦ ground (arith, u, A.flags_at-unmap s start size x u)
        ]
        | inr free ↦ elim (Option-cases (find_area A F s start size page)) [
          | inl f ↦ ground (arith, f)
          | inr (b, f) ↦ ground (arith, f, find_area-free s start size page b x f)
        ]
      ]

  write_keeps :
      (fd offset length start page x : ℕ) (s : Space)
      → flags_at (fill A F fd offset length start page s).1 x ≡ flags_at s x
  unfolding fill
  write_keeps fd offset length start page x s =
      elim (LinuxResult-cases (read_file A F fd offset length)) [
        | inl (error, r) ↦ ground (arith, r)
        | inr (buf, r) ↦ elim (LinuxResult-cases (A.write s start page buf).0) [
          | inl (error, w) ↦ ground (arith, r, w, A.flags_at-write s start page buf x)
          | inr (_, w) ↦ ground (arith, r, w, A.flags_at-write s start page buf x)
        ]
      ]

  fill_start :
      (fd offset length start page a : ℕ) (s : Space)
      → (fill A F fd offset length start page s).0 ≡ ok a
      → a ≡ start
  unfolding fill
  fill_start fd offset length start page a s e =
      elim (LinuxResult-cases (read_file A F fd offset length)) [
        | inl (error, r) ↦ ground (arith, r)
        | inr (buf, r) ↦ elim (LinuxResult-cases (A.write s start page buf).0) [
          | inl (error, w) ↦ ground (arith, r, w)
          | inr (_, w) ↦ ground (arith, r, w)
        ]
      ]

  map_area_lem :
      (start size prot map_flags length fd offset a x : ℕ) (s : Space)
      → (map_area A F start size prot map_flags length fd offset s).0 ≡ ok a
      → (a ≡ start)
        × (flags_at (map_area A F start size prot map_flags length fd offset s).1 x
            ≡ (if within start size x then some (to_mapping_flags prot) else flags_at s x))
  unfolding map_area
  map_area_lem start size prot map_flags length fd offset a x s e =
      let page = page_size map_flags in
      let populate : Bool = populates A F fd map_flags in
      let mapped = A.map_alloc s start size (to_mapping_flags prot) populate page in
      elim (LinuxResult-cases mapped.0) [
        | inl (error, m) ↦ ground (arith, m)
        | inr (_, m) ↦
            let at = A.flags_at-map_alloc s start size (to_mapping_flags prot) populate page x m in
            let kept = write_keeps fd offset length start page x mapped.1 in
            elim (Bool-cases populate) [
              | inl p ↦
                  ground (arith, m, at, kept, p, fill_start fd offset length start page a mapped.1)
              | inr p ↦ ground (arith, m, at, p)
            ]
      ]

  -- A successful `sys_mmap` maps exactly the area of whole pages at the address that it returns, with
  -- the requested permission, and no other address changes. Without `MAP_FIXED` no address of that
  -- area was mapped before; with it the area begins at the page of `addr`, which is not page 0.
  pub sys_mmap_maps :
      (addr length prot flags fd offset a x : ℕ) (s : Space)
      → (sys_mmap A F addr length prot flags fd offset s).0 ≡ ok a
      → let map_flags = from_bits_truncate map_all flags in
        let page = page_size map_flags in
        let size = aligned_length addr length page in
        let permission = to_mapping_flags (from_bits_truncate prot_all prot) in
        (flags_at (sys_mmap A F addr length prot flags fd offset s).1 x
          ≡ (if within a size x then some permission else flags_at s x))
        × (contains map_flags map_fixed ≡ false → within a size x ≡ true → flags_at s x ≡ none)
        × (contains map_flags map_fixed ≡ true → (a ≡ align_down addr page) × (a ≢ 0))
  unfolding sys_mmap
  sys_mmap_maps addr length prot flags fd offset a x s e =
      let map_flags = from_bits_truncate map_all flags in
      let page = page_size map_flags in
      let size = aligned_length addr length page in
      let start = align_down addr page in
      let permission = from_bits_truncate prot_all prot in
      let chosen = choose_start A F map_flags start size page s in
      elim (Bool-cases (contains map_flags (map_private + map_shared))) [
        | inl both ↦ ground (arith, both)
        | inr fine ↦ elim (LinuxResult-cases chosen.0) [
          | inl (error, c) ↦ ground (arith, fine, c)
          | inr (b, c) ↦
              let before = choose_start_lem map_flags start size page b x s c in
              let area = map_area A F b size permission map_flags length fd offset chosen.1 in
              let result : area.0 ≡ ok a = ground (arith, fine, c) in
              let state : (sys_mmap A F addr length prot flags fd offset s).1 ≡ area.1 =
                ground (arith, fine, c) in
              let after =
                map_area_lem b size permission map_flags length fd offset a x chosen.1 result in
              ground (arith, before, after, ap (λ t. flags_at t x) state)
        ]
      ]
