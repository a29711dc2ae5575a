-- ===== src/Prelude/Words.antt =====
-- Machine words. `usize` has 64 bits; the arithmetic wraps, as it does in a release build.
use Prim.Native.Nat.{ℕ, ◌+◌, ◌-◌, ◌%◌, ◌^◌}

abbrev pub usize_mod : ℕ
usize_mod = 2 ^ 64

abbrev pub add_usize : ℕ → ℕ → ℕ
add_usize a b = (a + b) % usize_mod

abbrev pub sub_usize : ℕ → ℕ → ℕ
sub_usize a b = (a + usize_mod - b) % usize_mod

-- `as u32` and `as i32` of a word: its low bits, the sign read off the highest one.
abbrev pub as_u32 : ℕ → ℕ
as_u32 a = a % 2 ^ 32
