-- ===== src/Node/Rlp/Scalars.antt =====
-- Integers, words and recipients: each is read back as it was written.
use blq_node.Base.{
  ℕ, suc, ◌+◌, ◌-◌, ◌*◌, ◌%◌, ◌≤◌, ◌<◌, ◌≡◌, refl, ap, ◌∙◌, false, ltb, ◌==◌, ◌&&◌, arith, List, [],
  ◌∷◌, ◌++◌, some, length, drop, replicate, u64_max, u64_mod, u128_mod, Bool-cases, inl, inr,
}
use blq_node.Base.Bytes.{be_value, weight, weight_pos, be_bytes, length-be_bytes, be_value-be_bytes}
use blq_node.Primitives.Rlp.{
  first_nonzero, from_first_nonzero, eip1559_rlp_bytes, eip1559_rlp_u64, eip1559_rlp_u128,
}
use blq_node.Node.Rlp.{value_loop, starts_with_zero, rlp_take_u128, rlp_take_u64}
use blq_node.Node.Rlp.Items.{rlp_take_bytes-rlp_bytes}

value_loop_lem :
    (v : ℕ) (bs : List ℕ)
    → v * weight bs + be_value bs < u128_mod
    → value_loop v bs ≡ v * weight bs + be_value bs
unfolding value_loop weight be_value
value_loop_lem v [] h = omega arith
value_loop_lem v (b ∷ bs) h =
    let pos : 0 < weight bs = weight_pos bs in
    let expand : (v * 256 + b) * weight bs ≡ v * (256 * weight bs) + b * weight bs = grind arith in
    let below : v * 256 ≤ v * (256 * weight bs) = grind arith in
    let exact : v * 256 % u128_mod + b ≡ v * 256 + b = omega arith in
    rw exact (value_loop_lem (v * 256 + b) bs (omega arith) ∙ omega arith)

-- What is cut off in front is zeros.
pub record IsTrimmed (bs cut : List ℕ) : Type 0 where
  pub value : be_value cut ≡ be_value bs
  pub size : length cut ≤ length bs
  pub some_byte : 0 < length cut
  pub leading : starts_with_zero cut ≡ false
  pub padded : replicate (length bs - length cut) 0 ++ cut ≡ bs

trim_behind : (b : ℕ) (bs cut : List ℕ) → b ≡ 0 → IsTrimmed bs cut → IsTrimmed (b ∷ bs) cut
unfolding be_value
trim_behind b bs cut e t =
    let more : suc (length bs) - length cut ≡ suc (length bs - length cut) =
      omega (arith, t.size) in
    let nothing : b * weight bs ≡ 0 = ap (λ n. n * weight bs) e ∙ omega arith in
    record {
      value = omega (arith, t.value);
      size = omega (arith, t.size);
      some_byte = t.some_byte;
      leading = t.leading;
      padded = rw (more, e) (ap (λ xs. 0 ∷ xs) t.padded);
    }

trim_at : (b : ℕ) (bs : List ℕ) → (b == 0) ≡ false → IsTrimmed (b ∷ bs) (b ∷ bs)
trim_at b bs h =
    let none_cut : suc (length bs) - suc (length bs) ≡ 0 = omega arith in
    record {
      value = refl;
      size = omega arith;
      some_byte = omega arith;
      leading = h;
      padded = rw none_cut refl;
    }

first_nonzero-some :
    (bs : List ℕ)
    → 0 < be_value bs
    → (i : ℕ) × (first_nonzero bs ≡ some i) × IsTrimmed bs (drop i bs)
unfolding first_nonzero be_value
first_nonzero-some [] h = absurd (omega arith)
first_nonzero-some (b ∷ bs) h = elim (Bool-cases (b == 0)) [
  | inl zero_byte ↦
      let none_there : b ≡ 0 = ground arith in
      let nothing : b * weight bs ≡ 0 = ap (λ n. n * weight bs) none_there ∙ omega arith in
      let left : 0 < be_value bs = omega arith in
      let (i, e, t) = first_nonzero-some bs left in
      let found : first_nonzero (b ∷ bs) ≡ some (suc i) = rw (first_nonzero, zero_byte, e) refl in
      (suc i, found, trim_behind b bs (drop i bs) none_there t)
  | inr here ↦
      let found : first_nonzero (b ∷ bs) ≡ some 0 = rw (first_nonzero, here) refl in
      (0, found, trim_at b bs here)
]

pub from_first_nonzero-IsTrimmed :
    (d : ℕ) (bs : List ℕ) → 0 < be_value bs → IsTrimmed bs (from_first_nonzero d bs)
unfolding from_first_nonzero
from_first_nonzero-IsTrimmed d bs h =
    let (i, e, t) = first_nonzero-some bs h in rw (from_first_nonzero, e) t

-- An integer of at most 16 bytes, written without leading zeros.
take_trimmed :
    (bs rest : List ℕ)
    → 0 < be_value bs
    → length bs ≤ 16
    → be_value bs < u128_mod
    → (d : ℕ)
    → rlp_take_u128 (eip1559_rlp_bytes (from_first_nonzero d bs) ++ rest) ≡ some (be_value bs, rest)
unfolding rlp_take_u128
take_trimmed bs rest pos size word d =
    let cut : List ℕ = from_first_nonzero d bs in
    let t = from_first_nonzero-IsTrimmed d bs pos in
    let short : ltb 16 (length cut) ≡ false = ground (arith, t.size) in
    let strict : (ltb 1 (length cut) && starts_with_zero cut) ≡ false = ground (arith, t.leading) in
    let read : value_loop 0 cut ≡ be_value bs =
      value_loop_lem 0 cut (omega (arith, t.value)) ∙ omega (arith, t.value) in
    rw (rlp_take_bytes-rlp_bytes cut rest (omega (arith, t.size)), short, strict, read) refl

take_nothing : (rest : List ℕ) → rlp_take_u128 (eip1559_rlp_bytes [] ++ rest) ≡ some (0, rest)
unfolding rlp_take_u128 value_loop
take_nothing rest = rw (rlp_take_bytes-rlp_bytes [] rest (omega arith)) refl

-- Every `u128` is read back from its encoding, whatever follows it.
pub rlp_take_u128-rlp_u128 :
    (v : ℕ) (rest : List ℕ)
    → v < u128_mod
    → rlp_take_u128 (eip1559_rlp_u128 v ++ rest) ≡ some (v, rest)
unfolding eip1559_rlp_u128
rlp_take_u128-rlp_u128 v rest h = elim (Bool-cases (v == 0)) [
  | inl none_there ↦ let same : v ≡ 0 = ground arith in rw (none_there, same) (take_nothing rest)
  | inr some_there ↦
      let value : be_value (be_bytes 16 v) ≡ v = be_value-be_bytes 16 v (omega arith) in
      let read =
        take_trimmed (be_bytes 16 v) rest (ground arith) (omega (arith, length-be_bytes 16 v))
          (omega arith) 15 in
      rw some_there (read ∙ ap (λ n. some (n, rest)) value)
]

pub rlp_take_u64-rlp_u64 :
    (v : ℕ) (rest : List ℕ)
    → v < u64_mod
    → rlp_take_u64 (eip1559_rlp_u64 v ++ rest) ≡ some (v, rest)
unfolding eip1559_rlp_u64 rlp_take_u64
rlp_take_u64-rlp_u64 v rest h = elim (Bool-cases (v == 0)) [
  | inl none_there ↦
      let same : v ≡ 0 = ground arith in rw (none_there, same, take_nothing rest) refl
  | inr some_there ↦
      let value : be_value (be_bytes 8 v) ≡ v = be_value-be_bytes 8 v (omega arith) in
      let read =
        take_trimmed (be_bytes 8 v) rest (ground arith) (omega (arith, length-be_bytes 8 v))
          (omega arith) 7 in
      let small : ltb u64_max v ≡ false = ground arith in rw (some_there, read, value, small) refl
]
