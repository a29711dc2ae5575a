-- ===== src/Pointers/Tests.antt =====
-- Runs of api/src/ptr.rs, and the theorems about it at concrete inputs.
use vegar.Prelude.{
  ℕ, ◌-◌, ◌^◌, ◌≡◌, ◌⊎◌, refl, true, ◌&&◌, some, bit_and, arith, ltb, leb, ◌==◌, ok, err, efault,
}
use vegar.Pointers.Checks.{
  UserSpace, check_region, check_pages, scan, check_null_terminated, get_as_str,
}
use vegar.Pointers.Access.{Layout, layout_array, get_as_slice, panics}
use vegar.Pointers.Scan.{IsLimit, ScanCases, check_null_terminated_cases}

-- The pages at 4096 and 8192 may be accessed, and 0 stands at 8193.
abbrev two_pages : UserSpace
two_pages = record {
  check_region_access = λ start size. leb 4096 start && ltb start 12288;
  populate_area = λ start size. ok tt;
  is_default = λ a. a == 8193;
}

-- A string across the border of the pages.
string_across : get_as_str two_pages (λ start len. true) 20 8190 ≡ some (ok 3)
unfolding get_as_str check_null_terminated scan check_pages
string_across = refl

odd_pointer : check_region two_pages 4097 8 8 ≡ err efault
unfolding check_region
odd_pointer = refl

two_pages-IsLimit : IsLimit two_pages 12288
two_pages-IsLimit = (ground arith, λ page h. ground arith)

check_null_terminated_cases_example :
    let out = check_null_terminated two_pages 20000 8190 1 1 in
    ((¬ ◌≡◌ {A = ℕ} (bit_and 8190 0) 0) × (out ≡ some (err efault)))
    ⊎ ((bit_and 8190 0 ≡ 0) × ScanCases two_pages 1 8190 0 out)
check_null_terminated_cases_example =
    check_null_terminated_cases two_pages 12288 20000 8190 1 1 two_pages-IsLimit (ground arith)
      (ground arith) (ground arith) (ground arith)

abbrev byte : Layout
byte = record { size = 1; align = 1 }

-- A slice of bytes at `0x1000`, with the length -1.
longest_slice_panics : get_as_slice two_pages byte 0x1000 (2 ^ 64 - 1) ≡ panics
unfolding get_as_slice layout_array
longest_slice_panics = refl
