-- ===== src/Base/Words.antt =====
-- Machine words: a `u64` is a number below `u64_mod`, a `u128` one below `u128_mod`. An operation
-- of a release build wraps; the `saturating_*` methods stop at the ends of the range.
use Prim.Native.Nat.{ℕ, ◌+◌, ◌-◌, ◌*◌, ◌%◌, ◌^◌, min}

abbrev pub u8_mod : ℕ
u8_mod = 2 ^ 8

abbrev pub u64_mod : ℕ
u64_mod = 2 ^ 64

abbrev pub u128_mod : ℕ
u128_mod = 2 ^ 128

abbrev pub u8_max : ℕ
u8_max = 255

abbrev pub u64_max : ℕ
u64_max = 0xffff_ffff_ffff_ffff

abbrev pub u128_max : ℕ
u128_max = 0xffff_ffff_ffff_ffff_ffff_ffff_ffff_ffff

abbrev pub add_u64 : ℕ → ℕ → ℕ
add_u64 a b = (a + b) % u64_mod

abbrev pub mul_u128 : ℕ → ℕ → ℕ
mul_u128 a b = (a * b) % u128_mod

abbrev pub saturating_add_u64 : ℕ → ℕ → ℕ
saturating_add_u64 a b = min (a + b) u64_max

abbrev pub saturating_mul_u64 : ℕ → ℕ → ℕ
saturating_mul_u64 a b = min (a * b) u64_max

abbrev pub saturating_add_u128 : ℕ → ℕ → ℕ
saturating_add_u128 a b = min (a + b) u128_max

abbrev pub saturating_mul_u128 : ℕ → ℕ → ℕ
saturating_mul_u128 a b = min (a * b) u128_max

-- `saturating_sub` of an unsigned type is subtraction that stops at 0.
abbrev pub saturating_sub : ℕ → ℕ → ℕ
saturating_sub a b = a - b
