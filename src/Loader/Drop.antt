-- ===== src/Loader/Drop.antt =====
-- The part of the kernel in an address space: `copy_from_kernel` of core/src/mm.rs puts it in, and the
-- drop of `ProcessData` in core/src/task.rs takes it out.
use vegar.Prelude.{ℕ, ◌≡◌, refl, inl, inr, none, arith, Bool-cases, if◌then◌else◌, ok}
use vegar.Memory.AddrSpace.{AddrSpace, within}
use vegar.Loader.Exec.{UserSpaces, copy_from_kernel, drop_process_data}

module _ (A : AddrSpace) (U : UserSpaces A) where
  -- What a new address space gets from the kernel is gone after the drop, and every other address is
  -- mapped as it was before the copy.
  pub drop_process_data-copy_from_kernel :
      (s : A.Space) (x : ℕ)
      → (copy_from_kernel A U s).0 ≡ ok tt
      → A.flags_at (drop_process_data A U (copy_from_kernel A U s).1) x ≡ (
          if U.own_table
          then A.flags_at s x
          else if within U.kernel_base U.kernel_size x
          then none
          else A.flags_at s x)
  unfolding copy_from_kernel drop_process_data
  drop_process_data-copy_from_kernel s x done = elim (Bool-cases U.own_table) [
    | inl own ↦ rw own refl
    | inr common ↦
        let filled = (U.copy_mappings_from s U.kernel).1 in
        ground (
          arith,
          common,
          U.flags_at-clear_mappings filled U.kernel_base U.kernel_size x,
          U.flags_at-copy_mappings_from s x (ground (arith, common, done)),
        )
  ]
