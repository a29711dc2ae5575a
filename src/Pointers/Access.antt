-- ===== src/Pointers/Access.antt =====
-- `UserPtr`, `UserConstPtr` and the macro `nullable` of api/src/ptr.rs. Both kinds of pointer have the
-- same functions; they differ in the flags that the checks of the address space ask for. A reference
-- to user memory is its address, a slice its address and its length.
use vegar.Prelude.{
  ℕ, ◌-◌, ◌*◌, ◌^◌, Option, none, some, leb, ◌==◌, if◌then◌else◌, LinuxResult, ok, err, ◌>>◌,
}
use vegar.Pointers.Checks.{UserSpace, check_region, check_null_terminated}

-- `core::alloc::Layout` of a type.
pub record Layout : Type 0 where
  pub size : ℕ
  pub align : ℕ

-- The largest size of a layout with an alignment: rounded up, it is at most `isize::MAX`.
abbrev pub max_size : ℕ → ℕ
max_size align = 2 ^ 63 - align

-- `Layout::array::<T>(len)`
unfoldable pub layout_array : Layout → ℕ → Option Layout
layout_array t len =
    if leb (t.size * len) (max_size t.align)
    then some (record { size = t.size * len; align = t.align })
    else none

pub data Access (A : Type 0) : Type 0 where
  returns : LinuxResult A → Access A
  panics : Access A

module _ (U : UserSpace) where
  unfoldable pub get_as_ref : Layout → ℕ → LinuxResult ℕ
  get_as_ref t address = check_region U address t.size t.align >> ok address

  unfoldable pub get_as_slice : Layout → ℕ → ℕ → Access (ℕ × ℕ)
  get_as_slice t address len = elim (layout_array t len) [
    | none ↦ panics
    | some whole ↦ returns (check_region U address whole.size whole.align >> ok (address, len))
  ]

  -- None: out of fuel.
  unfoldable pub get_as_null_terminated : ℕ → Layout → ℕ → Option (LinuxResult (ℕ × ℕ))
  get_as_null_terminated fuel t address =
      elim (check_null_terminated U fuel address t.size t.align) [
        | none ↦ none
        | some (err e) ↦ some (err e)
        | some (ok len) ↦ some (ok (address, len))
      ]

  -- `nullable!(ptr.get_as_ref())`
  unfoldable pub nullable_ref : Layout → ℕ → LinuxResult (Option ℕ)
  nullable_ref t address =
      if address == 0
      then ok none
      else (elim (get_as_ref t address) [ err e ↦ err e | ok r ↦ ok (some r) ])
