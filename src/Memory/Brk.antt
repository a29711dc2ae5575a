-- ===== src/Memory/Brk.antt =====
-- `sys_brk` of api/src/imp/mm/brk.rs.
use vegar.Prelude.{
  ℕ, ◌+◌, ◌≤◌, ◌<◌, ◌^◌, ◌≡◌, ◌≢◌, refl, List, [], ◌∷◌, arith, ◌&&◌, not, leb, ◌==◌, if◌then◌else◌,
  LinuxResult, ok, add_usize,
}

-- The heap of a process.
pub record Heap : Type 0 where
  pub heap_bottom : ℕ
  pub heap_top : ℕ

-- `axconfig::plat::USER_HEAP_SIZE` is a parameter.
module _ (user_heap_size : ℕ) where
  unfoldable pub sys_brk : ℕ → Heap → LinuxResult ℕ × Heap
  sys_brk addr h =
      if not (addr == 0)
        && leb h.heap_bottom addr
        && leb addr (add_usize h.heap_bottom user_heap_size)
      then (ok addr, record h { heap_top = addr })
      else (ok h.heap_top, h)

  -- The break of a heap stays in its area.
  abbrev pub IsBounded : Heap → Type 0
  IsBounded h = (h.heap_bottom ≤ h.heap_top) × (h.heap_top ≤ h.heap_bottom + user_heap_size)

  abbrev pub brks : List ℕ → Heap → Heap
  brks [] h = h
  brks (addr ∷ addrs) h = brks addrs (sys_brk addr h).1

  -- On a heap within bounds, a call returns the new break and leaves it within bounds, and it moves
  -- the break exactly to an address that is in the area and not 0; the bottom stays. The area must not
  -- reach the end of the address space.
  pub sys_brk_moves :
      (addr : ℕ) (h : Heap)
      → IsBounded h
      → h.heap_bottom + user_heap_size < 2 ^ 64
      → let h' = (sys_brk addr h).1 in
        ((sys_brk addr h).0 ≡ ok h'.heap_top)
        × IsBounded h'
        × (h'.heap_bottom ≡ h.heap_bottom)
        × (addr ≢ 0
            → h.heap_bottom ≤ addr
            → addr ≤ h.heap_bottom + user_heap_size
            → h'.heap_top ≡ addr)
        × (h'.heap_top ≢ addr → h'.heap_top ≡ h.heap_top)
  unfolding sys_brk
  sys_brk_moves addr h b small = ground arith

  -- Any sequence of calls keeps a heap within bounds, at its bottom.
  pub brks-IsBounded :
      (addrs : List ℕ) (h : Heap)
      → IsBounded h
      → h.heap_bottom + user_heap_size < 2 ^ 64
      → IsBounded (brks addrs h) × ((brks addrs h).heap_bottom ≡ h.heap_bottom)
  brks-IsBounded [] h b small = (b, refl)
  brks-IsBounded (addr ∷ addrs) h b small =
      let one = sys_brk_moves addr h b small in
      ground (arith, one, brks-IsBounded addrs (sys_brk addr h).1)
