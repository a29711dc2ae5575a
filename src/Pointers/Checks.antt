-- ===== src/Pointers/Checks.antt =====
-- `check_region`, `check_null_terminated` and `get_as_str` of api/src/ptr.rs. The address space is a
-- parameter: which areas a task may access, what happens when an area is populated, and where an
-- element of user memory is the default value.
use vegar.Prelude.{
  ℕ, zero, suc, ◌+◌, ◌-◌, ◌*◌, ◌%◌, Bool, true, false, Option, none, some, bit_and, leb, ◌==◌,
  if◌then◌else◌, LinuxResult, ok, err, efault, eilseq, add_usize, guard, ◌>>=◌, ◌>>◌,
}

pub record UserSpace : Type 0 where
  pub check_region_access : ℕ → ℕ → Bool
  pub populate_area : ℕ → ℕ → LinuxResult (Unit {0})
  pub is_default : ℕ → Bool

abbrev pub page_size_4k : ℕ
page_size_4k = 4096

abbrev pub align_down_4k : ℕ → ℕ
align_down_4k a = a - a % 4096

abbrev pub align_up_4k : ℕ → ℕ
align_up_4k a = align_down_4k (add_usize a 4095)

-- `start & (align - 1) != 0` is an error.
abbrev pub check_align : ℕ → ℕ → LinuxResult (Unit {0})
check_align start align = guard (bit_and start (align - 1) == 0) efault

module _ (U : UserSpace) where
  unfoldable pub check_region : ℕ → ℕ → ℕ → LinuxResult (Unit {0})
  check_region start size align =
      let page_start = align_down_4k start in
      let page_end = align_up_4k (add_usize start size) in
      check_align start align
      >> guard (U.check_region_access start size) efault
      >> U.populate_area page_start (page_end - page_start)

  -- The inner loop: it checks pages until `page` is above `ptr`. None: out of fuel.
  unfoldable pub check_pages : ℕ → ℕ → ℕ → Option (LinuxResult ℕ)
  check_pages zero ptr page = if leb page ptr then none else some (ok page)
  check_pages (suc fuel) ptr page =
      let rest = check_pages fuel ptr (add_usize page page_size_4k) in
      if leb page ptr
      then (if U.check_region_access page page_size_4k then rest else some (err efault))
      else some (ok page)

  -- The loop on elements of `size` bytes. One page is enough for a step to the next element.
  unfoldable pub scan : ℕ → ℕ → ℕ → ℕ → ℕ → Option (LinuxResult ℕ)
  scan zero size start len page = none
  scan (suc fuel) size start len page =
      let ptr = add_usize start (len * size) in
      elim (check_pages 1 ptr page) [
        | none ↦ none
        | some (err e) ↦ some (err e)
        | some (ok page') ↦ elim (U.is_default ptr) [
          | true ↦ some (ok len)
          | false ↦ scan fuel size start (len + 1) page'
        ]
      ]

  unfoldable pub check_null_terminated : ℕ → ℕ → ℕ → ℕ → Option (LinuxResult ℕ)
  check_null_terminated fuel start size align = elim (check_align start align) [
    | err e ↦ some (err e)
    | ok _ ↦ scan fuel size start 0 (align_down_4k start)
  ]

  -- `get_as_str`: the length of a string; `is_utf8` says whether the bytes of one are UTF-8.
  unfoldable pub get_as_str : (ℕ → ℕ → Bool) → ℕ → ℕ → Option (LinuxResult ℕ)
  get_as_str is_utf8 fuel start = elim (check_null_terminated fuel start 1 1) [
    | none ↦ none
    | some r ↦ some (r >>= λ len. if is_utf8 start len then ok len else err eilseq)
  ]
