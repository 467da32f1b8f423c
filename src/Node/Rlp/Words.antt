-- ===== src/Node/Rlp/Words.antt =====
-- The words of a signature and the recipient: each is read back as it was written.
use blq_node.Base.{
  ℕ, ◌-◌, ◌*◌, ◌≤◌, ◌<◌, ◌≡◌, refl, sym, ap, ◌∙◌, true, false, ltb, ◌==◌, arith, List, [], ◌∷◌,
  ◌++◌, Option, some, none, length, all, replicate, u64_max, u64_mod, u128_mod, Bool-cases, inl,
  inr,
}
use blq_node.Base.Bytes.{be_value, weight, weight_pos, be_bytes, length-be_bytes, be_value-be_bytes}
use blq_node.Primitives.{Hash256, Address}
use blq_node.Primitives.Rlp.{
  from_first_nonzero, eip1559_rlp_bytes, eip1559_rlp_word, eip1559_rlp_u64, eip1559_rlp_u128,
  recipient_bytes,
}
use blq_node.Node.Rlp.{rlp_take_raw, rlp_take_word, rlp_take_optional_address}
use blq_node.Node.Rlp.Items.{rlp_take_bytes-rlp_bytes, take_bytes_item}
use blq_node.Node.Rlp.Whole.{take_raw_item}
use blq_node.Node.Rlp.Scalars.{from_first_nonzero-IsTrimmed}

all_zero : (bs : List ℕ) → all (λ b. b == 0) bs ≡ true → bs ≡ replicate (length bs) 0
all_zero [] h = refl
all_zero (b ∷ bs) h =
    let here : b ≡ 0 = ground arith in
    let rest : all (λ b. b == 0) bs ≡ true = ground arith in cc (here, all_zero bs rest)

not_all_zero : (bs : List ℕ) → all (λ b. b == 0) bs ≡ false → 0 < be_value bs
unfolding be_value
not_all_zero [] h = cc
not_all_zero (b ∷ bs) h = elim (Bool-cases (b == 0)) [
  | inl zero_byte ↦
      let rest : all (λ b. b == 0) bs ≡ false = ground arith in omega (arith, not_all_zero bs rest)
  | inr here ↦
      let some_there : 0 < b = ground arith in
      let pos : 0 < weight bs = weight_pos bs in
      let product : 0 < b * weight bs = grind arith in omega arith
]

-- Every 32 bytes are read back from their encoding, whatever follows it.
pub rlp_take_word-rlp_word :
    (w : Hash256) (rest : List ℕ)
    → length w ≡ 32
    → rlp_take_word (eip1559_rlp_word w ++ rest) ≡ some (w, rest)
unfolding eip1559_rlp_word rlp_take_word
rlp_take_word-rlp_word w rest h = elim (Bool-cases (all (λ b. b == 0) w)) [
  | inl zeros ↦
      let same : w ≡ replicate 32 0 = all_zero w zeros ∙ ap (λ n. replicate n 0) h in
      rw (zeros, rlp_take_bytes-rlp_bytes [] rest (omega arith), same) refl
  | inr some_there ↦
      let cut : List ℕ = from_first_nonzero 31 w in
      let t = from_first_nonzero-IsTrimmed 31 w (not_all_zero w some_there) in
      let short : ltb 32 (length cut) ≡ false = ground (arith, t.size) in
      let padded : replicate (32 - length cut) 0 ++ cut ≡ w =
        ap (λ n. replicate (n - length cut) 0 ++ cut) (sym h) ∙ t.padded in
      rw (some_there, rlp_take_bytes-rlp_bytes cut rest (omega (arith, t.size)), short, padded) refl
]

unfoldable pub IsRecipient : Option Address → Type 0
IsRecipient none = Unit
IsRecipient (some to) = length to ≡ 20

pub rlp_take_optional_address-recipient :
    (to : Option Address) (rest : List ℕ)
    → IsRecipient to
    → rlp_take_optional_address (eip1559_rlp_bytes (recipient_bytes to) ++ rest) ≡ some (to, rest)
unfolding IsRecipient rlp_take_optional_address
rlp_take_optional_address-recipient none rest h =
    rw (rlp_take_bytes-rlp_bytes [] rest (omega arith)) refl
rlp_take_optional_address-recipient (some []) rest h = absurd (omega arith)
rlp_take_optional_address-recipient (some (b ∷ bs)) rest h =
    let exact : (length (b ∷ bs) == 20) ≡ true = ground arith in
    rw (rlp_take_bytes-rlp_bytes (b ∷ bs) rest (omega arith), exact) refl

-- The raw bytes of a string, and of an integer.
pub take_raw-rlp_bytes :
    (p rest : List ℕ)
    → length p ≤ u64_max
    → rlp_take_raw (eip1559_rlp_bytes p ++ rest) ≡ some (eip1559_rlp_bytes p, rest)
take_raw-rlp_bytes p rest h =
    take_raw_item (eip1559_rlp_bytes p) rest false p (take_bytes_item p rest h)

pub take_raw-rlp_u64 :
    (v : ℕ) (rest : List ℕ)
    → v < u64_mod
    → rlp_take_raw (eip1559_rlp_u64 v ++ rest) ≡ some (eip1559_rlp_u64 v, rest)
unfolding eip1559_rlp_u64
take_raw-rlp_u64 v rest h = elim (Bool-cases (v == 0)) [
  | inl none_there ↦ rw none_there (take_raw-rlp_bytes [] rest (omega arith))
  | inr some_there ↦
      let value : be_value (be_bytes 8 v) ≡ v = be_value-be_bytes 8 v (omega arith) in
      let t = from_first_nonzero-IsTrimmed 7 (be_bytes 8 v) (ground arith) in
      rw some_there (
        take_raw-rlp_bytes (from_first_nonzero 7 (be_bytes 8 v)) rest
          (omega (arith, t.size, length-be_bytes 8 v)))
]

pub take_raw-rlp_u128 :
    (v : ℕ) (rest : List ℕ)
    → v < u128_mod
    → rlp_take_raw (eip1559_rlp_u128 v ++ rest) ≡ some (eip1559_rlp_u128 v, rest)
unfolding eip1559_rlp_u128
take_raw-rlp_u128 v rest h = elim (Bool-cases (v == 0)) [
  | inl none_there ↦ rw none_there (take_raw-rlp_bytes [] rest (omega arith))
  | inr some_there ↦
      let value : be_value (be_bytes 16 v) ≡ v = be_value-be_bytes 16 v (omega arith) in
      let t = from_first_nonzero-IsTrimmed 15 (be_bytes 16 v) (ground arith) in
      rw some_there (
        take_raw-rlp_bytes (from_first_nonzero 15 (be_bytes 16 v)) rest
          (omega (arith, t.size, length-be_bytes 16 v)))
]
