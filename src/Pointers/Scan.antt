-- ===== src/Pointers/Scan.antt =====
-- What `check_null_terminated` of api/src/ptr.rs reads, and that it ends.
use mathlib.Core.Path.{subst}
use vegar.Prelude.{
  ℕ, zero, suc, ◌+◌, ◌-◌, ◌*◌, ◌%◌, ◌^◌, ◌≤◌, ◌<◌, ◌≡◌, ◌≢◌, ◌⊎◌, refl, sym, ap, ◌∙◌, inl, inr,
  true, false, Option, some, arith, leb, ◌==◌, Bool-cases, bit_and, LinuxResult, ok, err, efault,
  add_usize,
}
use vegar.Pointers.Checks.{
  UserSpace, page_size_4k, align_down_4k, check_pages, scan, check_null_terminated,
}

mul-suc_left : (n s : ℕ) → (n + 1) * s ≡ n * s + s
mul-suc_left n s = omega arith

le_mul : (n s : ℕ) → 0 < s → n ≤ n * s
le_mul zero s pos = omega arith
le_mul (suc n) s pos = omega (arith, le_mul n s pos, mul-suc_left n s)

module _ (U : UserSpace) where
  -- The page of an address may be accessed.
  abbrev pub IsChecked : ℕ → Type 0
  IsChecked a = U.check_region_access (align_down_4k a) page_size_4k ≡ true

  -- No page from `limit` on may be accessed, and there is room behind it.
  abbrev pub IsLimit : ℕ → Type 0
  IsLimit limit =
      (limit + 8192 ≤ 2 ^ 64)
      × ((page : ℕ) → limit ≤ page → U.check_region_access page page_size_4k ≡ false)

  -- The state between two elements: the page counter is at a page, behind checked addresses.
  abbrev pub Behind : ℕ → ℕ → Type 0
  Behind start page = (page % 4096 ≡ 0) × ((a : ℕ) → start ≤ a → a < page → IsChecked a)

  below_limit :
      (limit a : ℕ) → IsLimit limit → U.check_region_access a page_size_4k ≡ true → a < limit
  below_limit limit a l granted = elim (Bool-cases (leb limit a)) [
    | inl above ↦ let refused = l.1 a (ground arith) in cc
    | inr below ↦ ground arith
  ]

  -- One more page is checked.
  page_next :
      (start page a : ℕ)
      → Behind start page
      → U.check_region_access page page_size_4k ≡ true
      → start ≤ a
      → a < page + 4096
      → IsChecked a
  page_next start page a b granted s lt = elim (Bool-cases (leb page a)) [
    | inl here ↦
        let same : align_down_4k a ≡ page = ground (arith, b.0) in
        ap (λ p. U.check_region_access p page_size_4k) same ∙ granted
    | inr before ↦ b.1 a s (ground arith)
  ]

  check_pages_lem :
      (limit start ptr page : ℕ)
      → IsLimit limit
      → Behind start page
      → ptr < page + 4096
      → start ≤ ptr
      → (check_pages U 1 ptr page ≡ some (err efault))
        ⊎ ((page' : ℕ) × (check_pages U 1 ptr page ≡ some (ok page'))
            × Behind start page'
            × (ptr < page'))
  unfolding check_pages
  check_pages_lem limit start ptr page l b near low = elim (Bool-cases (leb page ptr)) [
    | inr below ↦ inr (page, ground (arith, below), b, ground arith)
    | inl there ↦ elim (Bool-cases (U.check_region_access page page_size_4k)) [
      | inr refused ↦ inl (ground (arith, there, refused))
      | inl granted ↦
          let small : page < limit = below_limit limit page l granted in
          let next : add_usize page page_size_4k ≡ page + 4096 = ground (arith, l.0) in
          let above : leb (page + 4096) ptr ≡ false = ground arith in
          inr (
            page + 4096,
            ground (arith, there, granted, next, above),
            (ground (arith, b.0), λ a s lt. page_next start page a b granted s lt),
            near,
          )
    ]
  ]

  -- A result of the scan from the element `len` on: a length at which the first default element
  -- stands, with the page of each element up to it checked, or `EFAULT`.
  abbrev pub ScanCases : ℕ → ℕ → ℕ → Option (LinuxResult ℕ) → Type 0
  ScanCases size start len out =
      (out ≡ some (err efault))
      ⊎ ((n : ℕ) × (out ≡ some (ok n))
          × (len ≤ n)
          × (U.is_default (start + n * size) ≡ true)
          × ((k : ℕ) → len ≤ k → k ≤ n → IsChecked (start + k * size))
          × ((k : ℕ) → len ≤ k → k < n → U.is_default (start + k * size) ≡ false))

  scan_refused :
      (fuel size start len page : ℕ)
      → start + len * size < 2 ^ 64
      → check_pages U 1 (start + len * size) page ≡ some (err efault)
      → scan U (suc fuel) size start len page ≡ some (err efault)
  unfolding scan
  scan_refused fuel size start len page wrap e =
      let whole : add_usize start (len * size) ≡ start + len * size = ground arith in
      rw (scan, whole, e) refl

  scan_found :
      (fuel size start len page page' : ℕ)
      → start + len * size < 2 ^ 64
      → check_pages U 1 (start + len * size) page ≡ some (ok page')
      → U.is_default (start + len * size) ≡ true
      → scan U (suc fuel) size start len page ≡ some (ok len)
  unfolding scan
  scan_found fuel size start len page page' wrap e z =
      let whole : add_usize start (len * size) ≡ start + len * size = ground arith in
      rw (scan, whole, e) (rw (whole, z) refl)

  scan_next :
      (fuel size start len page page' : ℕ)
      → start + len * size < 2 ^ 64
      → check_pages U 1 (start + len * size) page ≡ some (ok page')
      → U.is_default (start + len * size) ≡ false
      → scan U (suc fuel) size start len page ≡ scan U fuel size start (len + 1) page'
  unfolding scan
  scan_next fuel size start len page page' wrap e z =
      let whole : add_usize start (len * size) ≡ start + len * size = ground arith in
      rw (scan, whole, e) (rw (whole, z) refl)

  -- The result for the element `len`, from that for the next one.
  next_cases :
      (size start len : ℕ) (out : Option (LinuxResult ℕ))
      → IsChecked (start + len * size)
      → U.is_default (start + len * size) ≡ false
      → ScanCases size start (len + 1) out
      → ScanCases size start len out
  next_cases size start len out here other (inl refused) = inl refused
  next_cases size start len out here other (inr (n, e, le, z, checked, before)) = inr (
    n,
    e,
    omega arith,
    z,
    λ k lo hi. elim (Bool-cases (k == len)) [
      | inl same ↦ subst (λ j. IsChecked (start + j * size)) (ground arith) here
      | inr more ↦ checked k (ground arith) hi
    ],
    λ k lo hi. elim (Bool-cases (k == len)) [
      | inl same ↦ subst (λ j. U.is_default (start + j * size) ≡ false) (ground arith) other
      | inr more ↦ before k (ground arith) hi
    ],
  )

  scan_cases :
      (limit fuel size start len page : ℕ)
      → IsLimit limit
      → 0 < size
      → size ≤ 4096
      → start + len * size < 2 ^ 64
      → Behind start page
      → start + len * size < page + 4096
      → len ≤ limit + 4096
      → limit + 4096 < len + fuel
      → ScanCases size start len (scan U fuel size start len page)
  scan_cases limit zero size start len page l pos small wrap b near le enough = absurd (omega arith)
  scan_cases limit (suc fuel) size start len page l pos small wrap b near le enough =
      let ptr = start + len * size in
      elim (check_pages_lem limit start ptr page l b near (omega arith)) [
        | inl refused ↦ inl (scan_refused fuel size start len page wrap refused)
        | inr (page', done, b', above) ↦
            let here = b'.1 ptr (omega arith) above in
            let low = below_limit limit (align_down_4k ptr) l here in
            let more = mul-suc_left len size in
            let many = le_mul len size pos in
            elim (Bool-cases (U.is_default ptr)) [
              | inl zero_here ↦ inr (
                len,
                scan_found fuel size start len page page' wrap done zero_here,
                omega arith,
                zero_here,
                λ k lo hi. subst (λ j. IsChecked (start + j * size)) (omega arith) here,
                λ k lo hi. absurd (omega arith),
              )
              | inr other ↦
                  subst (ScanCases size start len)
                    (sym (scan_next fuel size start len page page' wrap done other))
                    (next_cases size start len (scan U fuel size start (len + 1) page') here other (
                      scan_cases limit fuel size start (len + 1) page' l pos small (omega arith) b'
                        (omega arith) (omega arith) (omega arith)))
            ]
      ]

  -- For elements of 1 to 4096 bytes, where no page from some `limit` on may be accessed and 8192
  -- bytes of addresses are left behind it, more fuel than `limit + 4096` is enough, and
  -- `check_null_terminated` gives `EFAULT` for a wrong alignment, or `EFAULT`, or the number of
  -- elements before the first default one; then the page of each of these elements, and of the
  -- default one, may be accessed.
  pub check_null_terminated_cases :
      (limit fuel start size align : ℕ)
      → IsLimit limit
      → 0 < size
      → size ≤ 4096
      → start < 2 ^ 64
      → limit + 4096 < fuel
      → let out = check_null_terminated U fuel start size align in
        ((bit_and start (align - 1) ≢ 0) × (out ≡ some (err efault)))
        ⊎ ((bit_and start (align - 1) ≡ 0) × ScanCases size start 0 out)
  unfolding check_null_terminated
  check_null_terminated_cases limit fuel start size align l pos small wrap enough =
      elim (Bool-cases (bit_and start (align - 1) == 0)) [
        | inr odd ↦ inl (ground arith, rw (odd, check_null_terminated))
        | inl even ↦ inr (
          ground arith,
          rw (even, check_null_terminated)
              (scan_cases limit fuel size start 0 (align_down_4k start) l pos small (omega arith)
                (omega arith, λ a lo hi. absurd (omega arith)) (omega arith) (omega arith)
                (omega arith)),
        )
      ]
