-- ===== src/Memory/Calls.antt =====
-- `sys_mmap`, `sys_munmap` and `sys_mprotect` of api/src/imp/mm/mmap.rs.
use vegar.Prelude.{
  ℕ, ◌+◌, ◌-◌, ◌%◌, ◌^◌, Bool, false, ◌||◌, not, Option, none, some, List, min, leb, ◌==◌,
  if◌then◌else◌, LinuxResult, ok, err, einval, enomem, add_usize, sub_usize,
}
use vegar.Memory.AddrSpace.{AddrSpace, Files}
use vegar.Memory.Flags.{
  prot_all, prot_growsdown, prot_growsup, map_shared, map_private, map_fixed, map_anonymous,
  map_all, contains, from_bits_truncate, from_bits, to_mapping_flags, size_4k, page_size,
}

-- `align_down` and `align_up` of `memory_addr`, for a power of two.
abbrev pub align_down : ℕ → ℕ → ℕ
align_down a page = a - a % page

abbrev pub align_up : ℕ → ℕ → ℕ
align_up a page = align_down (add_usize a (page - 1)) page

-- `aligned_length`
unfoldable pub aligned_length : ℕ → ℕ → ℕ → ℕ
aligned_length addr length page =
    sub_usize (align_up (add_usize addr length) page) (align_down addr page)

-- `fd == -1`, for the word of an `i32`.
abbrev pub no_fd : ℕ
no_fd = 2 ^ 32 - 1

-- `offset < 0`, for the word of an `isize`.
abbrev pub is_negative : ℕ → Bool
is_negative offset = leb (2 ^ 63) offset

module _ (A : AddrSpace) (F : Files) where
  open A use {Space}

  -- `find_free_area` from the wish, then from the base.
  unfoldable pub find_area : Space → ℕ → ℕ → ℕ → Option ℕ
  find_area s start size page = elim (A.find_free_area s start size page) [
    | some a ↦ some a
    | none ↦ A.find_free_area s (A.base s) size page
  ]

  -- `start_addr`
  unfoldable pub choose_start : ℕ → ℕ → ℕ → ℕ → Space → LinuxResult ℕ × Space
  choose_start map_flags start size page s =
      if contains map_flags map_fixed
      then (if start == 0
          then (err einval, s)
          else (let (r, s') = A.unmap s start size in
              elim r [ err e ↦ (err e, s') | ok _ ↦ (ok start, s') ]))
      else (elim (find_area s start size page) [ none ↦ (err enomem, s) | some a ↦ (ok a, s) ])

  -- The content of the file, from `offset`, at most `length` bytes.
  unfoldable pub read_file : ℕ → ℕ → ℕ → LinuxResult (List ℕ)
  read_file fd offset length = elim (F.from_fd fd) [
    | err e ↦ err e
    | ok file ↦ elim (F.size file) [
      | err e ↦ err e
      | ok file_size ↦
          if is_negative offset || leb file_size offset
          then err einval
          else F.read_at file offset (min length (file_size - offset))
    ]
  ]

  -- The block `if populate`.
  unfoldable pub fill : ℕ → ℕ → ℕ → ℕ → ℕ → Space → LinuxResult ℕ × Space
  fill fd offset length start_addr page s = elim (read_file fd offset length) [
    | err e ↦ (err e, s)
    | ok buf ↦
        let (r, s') = A.write s start_addr page buf in
        elim r [ err e ↦ (err e, s') | ok _ ↦ (ok start_addr, s') ]
  ]

  -- `populate`
  abbrev pub populates : ℕ → ℕ → Bool
  populates fd map_flags = if fd == no_fd then false else not (contains map_flags map_anonymous)

  -- `map_alloc` and what follows.
  unfoldable pub map_area : ℕ → ℕ → ℕ → ℕ → ℕ → ℕ → ℕ → Space → LinuxResult ℕ × Space
  map_area start_addr size prot map_flags length fd offset s =
      let page = page_size map_flags in
      let (r, s') =
        A.map_alloc s start_addr size (to_mapping_flags prot) (populates fd map_flags) page in
      elim r [
        | err e ↦ (err e, s')
        | ok _ ↦
            if populates fd map_flags
            then fill fd offset length start_addr page s'
            else (ok start_addr, s')
      ]

  unfoldable pub sys_mmap : ℕ → ℕ → ℕ → ℕ → ℕ → ℕ → Space → LinuxResult ℕ × Space
  sys_mmap addr length prot flags fd offset s =
      let permission_flags = from_bits_truncate prot_all prot in
      let map_flags = from_bits_truncate map_all flags in
      let page = page_size map_flags in
      let size = aligned_length addr length page in
      if contains map_flags (map_private + map_shared)
      then (err einval, s)
      else (let (start, s') = choose_start map_flags (align_down addr page) size page s in
          elim start [
            | err e ↦ (err e, s')
            | ok start_addr ↦
                map_area start_addr size permission_flags map_flags length fd offset s'
          ])

  unfoldable pub sys_munmap : ℕ → ℕ → Space → LinuxResult ℕ × Space
  sys_munmap addr length s =
      let (r, s') = A.unmap s addr (align_up length size_4k) in
      elim r [ err e ↦ (err e, s') | ok _ ↦ (ok 0, s') ]

  unfoldable pub sys_mprotect : ℕ → ℕ → ℕ → Space → LinuxResult ℕ × Space
  sys_mprotect addr length prot s = elim (from_bits prot_all prot) [
    | none ↦ (err einval, s)
    | some permission_flags ↦
        if contains permission_flags (prot_growsdown + prot_growsup)
        then (err einval, s)
        else (let (r, s') =
              A.protect s addr (align_up length size_4k) (to_mapping_flags permission_flags) in
            elim r [ err e ↦ (err e, s') | ok _ ↦ (ok 0, s') ])
  ]
