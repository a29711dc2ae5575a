-- ===== src/Memory/Leak.antt =====
-- The error path of `sys_mmap` in api/src/imp/mm/mmap.rs behind `map_alloc`.
use vegar.Prelude.{ℕ, ◌+◌, ◌≡◌, ◌≢◌, true, false, ◌||◌, some, arith, leb, ok, err, einval}
use vegar.Memory.AddrSpace.{AddrSpace, Files, within}
use vegar.Memory.Flags.{
  prot_all, map_private, map_shared, map_fixed, map_anonymous, map_all, contains,
  from_bits_truncate, to_mapping_flags, page_size,
}
use vegar.Memory.Calls.{
  align_down, aligned_length, no_fd, is_negative, find_area, choose_start, read_file, fill,
  map_area, sys_mmap,
}

module _ (A : AddrSpace) (F : Files) where
  open A use {Space, flags_at}

  -- An offset that is negative or behind the end of the file.
  abbrev pub IsOutside : ℕ → ℕ → Type 0
  IsOutside fd offset =
      (file : F.File) × (file_size : ℕ) × (F.from_fd fd ≡ ok file)
      × (F.size file ≡ ok file_size)
      × ((is_negative offset || leb file_size offset) ≡ true)

  read_file_outside :
      (fd offset length : ℕ) → IsOutside fd offset → read_file A F fd offset length ≡ err einval
  unfolding read_file
  read_file_outside fd offset length (file, file_size, f, n, out) = ground (arith, f, n, out)

  -- A `sys_mmap` of a file without `MAP_FIXED`, from an offset outside the file, where there is room and
  -- `map_alloc` succeeds, returns `EINVAL` and leaves the new area mapped.
  pub sys_mmap_error_stays_mapped :
      (addr length prot flags fd offset a x : ℕ) (s : Space)
      → let map_flags = from_bits_truncate map_all flags in
        let page = page_size map_flags in
        let size = aligned_length addr length page in
        let permission = to_mapping_flags (from_bits_truncate prot_all prot) in
        contains map_flags (map_private + map_shared) ≡ false
        → contains map_flags map_fixed ≡ false
        → contains map_flags map_anonymous ≡ false
        → fd ≢ no_fd
        → find_area A F s (align_down addr page) size page ≡ some a
        → (A.map_alloc s a size permission true page).0 ≡ ok tt
        → IsOutside fd offset
        → within a size x ≡ true
        → ((sys_mmap A F addr length prot flags fd offset s).0 ≡ err einval)
          × (flags_at (sys_mmap A F addr length prot flags fd offset s).1 x ≡ some permission)
  unfolding sys_mmap choose_start map_area fill
  sys_mmap_error_stays_mapped addr length prot flags fd offset a x s both fixed anon ne f m out i =
      let page = page_size (from_bits_truncate map_all flags) in
      let size = aligned_length addr length page in
      let permission = to_mapping_flags (from_bits_truncate prot_all prot) in
      let at = A.flags_at-map_alloc s a size permission true page x m in
      let bad = read_file_outside fd offset length out in
      ground (arith, both, fixed, anon, f, m, at, bad)
