-- ===== src/Consensus/Target/Scale.antt =====
-- Scaling a target is exact rational scaling, rounded down, that stops at the largest target.
use native.Mathlib.Nat.{add-mul-div_right, mul-le-mul_right, div-le_of_le-mul}
use blq_node.Base.{
  ℕ, zero, suc, ltb, lt→ltb, ◌==◌, false, if◌then◌else◌, ◌+◌, ◌-◌, ◌*◌, ◌/◌, ◌%◌, ◌^◌, ◌<◌, ◌≤◌,
  ◌≡◌, ◌∙◌, refl, arith, length, ap, min, u64_mod, u128_mod,
}
use blq_node.Base.Bytes.{weight, be_value, weight-eq-pow, be_value-lt-weight}
use blq_node.Externals.{IsHash}
use blq_node.Primitives.{Hash256, hash_max}
use blq_node.Consensus.Target.{
  divide_loop, divide_hash_with_remainder, multiply_loop, multiply_hash_u64, carry_loop, add_carry,
  scale_target_fraction, scale_target,
}
use blq_node.Consensus.Target.Divide.{divide_loop_lem}
use blq_node.Consensus.Target.Multiply.{multiply_loop_lem, carry_loop_lem}

-- The largest 256-bit number.
abbrev pub max_target : ℕ
max_target = 2 ^ 256 - 1

pub weight_of_IsHash : (h : Hash256) → length h ≡ 32 → weight h ≡ 2 ^ 256
weight_of_IsHash h e = weight-eq-pow h ∙ ap (λ (n : ℕ). 256 ^ n) e

pub be_value-le-max_target : (h : Hash256) → IsHash h → be_value h ≤ max_target
be_value-le-max_target h (e, b) = omega (arith, be_value-lt-weight h b, weight_of_IsHash h e)

pub hash_max-IsHash : IsHash hash_max
hash_max-IsHash = omega arith

pub be_value-hash_max : be_value hash_max ≡ max_target
unfolding be_value weight
be_value-hash_max = refl

-- What a carry out of the first byte means.
saturate_lem :
    (out : Hash256) (carry total : ℕ)
    → IsHash out
    → total ≡ carry * 2 ^ 256 + be_value out
    → (be_value (if ltb 0 carry then hash_max else out) ≡ min total max_target)
      × IsHash (if ltb 0 carry then hash_max else out)
saturate_lem out zero total h e = (omega (arith, be_value-le-max_target out h), h)
saturate_lem out (suc carry) total h e =
    rw (lt→ltb 0 (suc carry) (omega arith)) (omega (arith, be_value-hash_max), hash_max-IsHash)

-- The quotient and the remainder of the division of a target.
pub divide_hash_with_remainder_lem :
    (t : Hash256) (d : ℕ)
    → IsHash t
    → 0 < d
    → d < u64_mod
    → let (q, r) = divide_hash_with_remainder t d in
      (be_value t ≡ be_value q * d + r) × (r < d) × IsHash q
unfolding divide_hash_with_remainder
divide_hash_with_remainder_lem t d (len, b) pos small =
    let (e, lt, bytes, same) = divide_loop_lem d 0 t pos (omega arith) b in
    let fits : (divide_loop d 0 t).1 % u64_mod ≡ (divide_loop d 0 t).1 = omega arith in
    rw fits (omega arith, lt, (same ∙ len, bytes))

pub multiply_hash_u64_lem :
    (t : Hash256) (m : ℕ)
    → IsHash t
    → m < u64_mod
    → (be_value (multiply_hash_u64 t m) ≡ min (be_value t * m) max_target)
      × IsHash (multiply_hash_u64 t m)
unfolding multiply_hash_u64
multiply_hash_u64_lem t m (len, b) small =
    let (e, le, bytes, same) = multiply_loop_lem m t small b in
    saturate_lem (multiply_loop m t).0 (multiply_loop m t).1 _ (same ∙ len, bytes)
      (rw (weight_of_IsHash t len) at e)

pub add_carry_lem :
    (t : Hash256) (c : ℕ)
    → IsHash t
    → (be_value (add_carry t c) ≡ min (be_value t + c) max_target) × IsHash (add_carry t c)
unfolding add_carry
add_carry_lem t c (len, b) =
    let (e, bytes, same) = carry_loop_lem c t b in
    saturate_lem (carry_loop c t).0 (carry_loop c t).1 _ (same ∙ len, bytes)
      (rw (weight_of_IsHash t len) at e)

-- Scaling a quotient and a remainder apart loses nothing.
scale_parts : (v q r n d : ℕ) → 0 < d → v ≡ q * d + r → v * n / d ≡ q * n + r * n / d
scale_parts v q r n d pos e =
    let whole : v * n ≡ (q * d + r) * n = ap (λ (t : ℕ). t * n) e in
    let sum : v * n ≡ r * n + q * n * d = grind arith in
    rw (sum, add-mul-div_right (r * n) (q * n) pos) (omega arith)

-- A fraction of a remainder is below the numerator, so no intermediate value is cut.
remainder_fits :
    (r n d : ℕ)
    → 0 < d
    → r < d
    → d < u64_mod
    → n < u64_mod
    → (r * n % u128_mod ≡ r * n) × (r * n / d ≤ n)
remainder_fits r n d pos lt small fits =
    let below : r * n ≤ d * n = mul-le-mul_right n (omega arith) in
    let word : d * n ≤ u64_mod * n = mul-le-mul_right n (omega arith) in
    (omega arith, div-le_of_le-mul d below)

-- Scaling a digest by a fraction of two words, byte by byte, gives a digest that spells the exact
-- quotient rounded down, or the largest target where that is more.
pub scale_target_fraction_lem :
    (t : Hash256) (n d : ℕ)
    → IsHash t
    → 0 < d
    → d < u64_mod
    → n < u64_mod
    → (be_value (scale_target_fraction t n d) ≡ min (be_value t * n / d) max_target)
      × IsHash (scale_target_fraction t n d)
unfolding scale_target_fraction
scale_target_fraction_lem t n d h pos small fits =
    let (e, lt, hq) = divide_hash_with_remainder_lem t d h pos small in
    let (q, r) = divide_hash_with_remainder t d in
    let (exact, _) = remainder_fits r n d pos lt small fits in
    let (em, hm) = multiply_hash_u64_lem q n hq fits in
    let (ea, ha) = add_carry_lem (multiply_hash_u64 q n) (r * n / d) hm in
    rw exact (omega (arith, ea, em, scale_parts (be_value t) (be_value q) r n d pos e), ha)

nonzero : (d : ℕ) → 0 < d → (d == 0) ≡ false
nonzero d h = ground arith

-- The other scaling routine, which cuts its carry to a word, is as exact: the digest that it gives
-- spells the quotient rounded down, or the largest target where that is more.
pub scale_target_lem :
    (t : Hash256) (n d : ℕ)
    → IsHash t
    → 0 < d
    → d < u64_mod
    → n < u64_mod
    → (be_value (scale_target t n d) ≡ min (be_value t * n / d) max_target)
      × IsHash (scale_target t n d)
unfolding scale_target
scale_target_lem t n d h pos small fits =
    let (e, lt, hq) = divide_hash_with_remainder_lem t d h pos small in
    let (q, r) = divide_hash_with_remainder t d in
    let (exact, le) = remainder_fits r n d pos lt small fits in
    let cut : r * n / d % u64_mod ≡ r * n / d = omega arith in
    let (em, hm) = multiply_hash_u64_lem q n hq fits in
    let (ea, ha) = add_carry_lem (multiply_hash_u64 q n) (r * n / d) hm in
    rw (exact, cut, nonzero d pos)
      (omega (arith, ea, em, scale_parts (be_value t) (be_value q) r n d pos e), ha)
