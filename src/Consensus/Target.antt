-- ===== src/Consensus/Target.antt =====
-- Scaling a 256-bit difficulty target by a fraction, byte by byte
-- (crates/blq-consensus/src/lib.rs). The loops run over a list of bytes of any length.
pub mod Divide
pub mod Multiply
pub mod Scale
use blq_node.Base.{
  ℕ, ◌+◌, ◌*◌, ◌/◌, ◌%◌, Bool, List, [], ◌∷◌, ltb, ◌==◌, if◌then◌else◌, u8_mod, u64_mod, u128_mod,
}
use blq_node.Primitives.{Hash256, hash_max}

-- The loop of `divide_hash_with_remainder`, from the first byte, with `remainder`.
pub divide_loop : ℕ → ℕ → List ℕ → List ℕ × ℕ
divide_loop divisor remainder [] = ([], remainder)
divide_loop divisor remainder (byte ∷ bytes) =
    let value = (remainder * 256 + byte) % u128_mod in
    let (out, rest) = divide_loop divisor (value % divisor) bytes in
    ((value / divisor % u8_mod) ∷ out, rest)

pub divide_hash_with_remainder : Hash256 → ℕ → Hash256 × ℕ
divide_hash_with_remainder hash divisor =
    let (out, remainder) = divide_loop divisor 0 hash in (out, remainder % u64_mod)

-- The loop of `multiply_hash_u64`, from the last byte: the bytes and the carry that is left.
pub multiply_loop : ℕ → List ℕ → List ℕ × ℕ
multiply_loop multiplier [] = ([], 0)
multiply_loop multiplier (byte ∷ bytes) =
    let (out, carry) = multiply_loop multiplier bytes in
    let value = (byte * multiplier + carry) % u128_mod in ((value % 256) ∷ out, value / 256)

pub multiply_hash_u64 : Hash256 → ℕ → Hash256
multiply_hash_u64 hash multiplier =
    let (out, carry) = multiply_loop multiplier hash in if ltb 0 carry then hash_max else out

-- The loop that adds a carry, from the last byte.
pub carry_loop : ℕ → List ℕ → List ℕ × ℕ
carry_loop carry [] = ([], carry)
carry_loop carry (byte ∷ bytes) =
    let (out, carry') = carry_loop carry bytes in
    let value = byte + carry' % 256 in ((value % 256) ∷ out, carry' / 256 + value / 256)

pub add_carry : Hash256 → ℕ → Hash256
add_carry hash carry =
    let (out, carry') = carry_loop carry hash in if ltb 0 carry' then hash_max else out

pub scale_target_fraction : Hash256 → ℕ → ℕ → Hash256
scale_target_fraction target numerator denominator =
    let (quotient, remainder) = divide_hash_with_remainder target denominator in
    add_carry (multiply_hash_u64 quotient numerator)
      (remainder * numerator % u128_mod / denominator)

pub scale_target : Hash256 → ℕ → ℕ → Hash256
scale_target target numerator denominator =
    let (quotient, remainder) = divide_hash_with_remainder target denominator in
    let scaled =
      add_carry (multiply_hash_u64 quotient numerator)
        (remainder * numerator % u128_mod / denominator % u64_mod) in
    if denominator == 0 then hash_max else scaled
