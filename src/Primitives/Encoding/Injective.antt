-- ===== src/Primitives/Encoding/Injective.antt =====
-- The canonical bytes of a header determine the header.
use mathlib.Core.List.{append_assoc}
use blq_node.Base.{
  ℕ, ◌≡◌, ◌<◌, ◌%◌, refl, arith, length, List, [], ◌∷◌, ◌++◌, u64_mod, u128_mod, ap, sym, ◌∙◌,
}
use blq_node.Base.Bytes.{be_value, be_value-be_bytes}
use blq_node.Primitives.Types.{BlockHeader, IsHeader}
use blq_node.Primitives.Encoding.{
  put_u64, put_u128, put_bytes, header_prefix, header_bytes, pow_preimage_bytes,
}
use blq_node.Primitives.Encoding.Lengths.{length-put_u64, length-put_u128}

-- Two texts that begin with parts of one length split into equal parts.
pub split_append :
    (xs ys : List ℕ) {us vs : List ℕ}
    → length xs ≡ length ys
    → xs ++ us ≡ ys ++ vs
    → (xs ≡ ys) × (us ≡ vs)
split_append [] [] h e = (refl, e)
split_append [] (y ∷ ys) h e = absurd (omega arith)
split_append (x ∷ xs) [] h e = absurd (omega arith)
split_append (x ∷ xs) (y ∷ ys) {us} {vs} h e =
    let (p, q) = split_append xs ys {us = us} {vs = vs} (omega arith) (cc) in (cc, q)

pub put_u64-injective : (a b : ℕ) → a < u64_mod → b < u64_mod → put_u64 a ≡ put_u64 b → a ≡ b
unfolding put_u64
put_u64-injective a b h k e =
    sym (be_value-be_bytes 8 a h) ∙ (ap be_value e ∙ be_value-be_bytes 8 b k)

pub put_u128-injective : (a b : ℕ) → a < u128_mod → b < u128_mod → put_u128 a ≡ put_u128 b → a ≡ b
unfolding put_u128
put_u128-injective a b h k e =
    sym (be_value-be_bytes 16 a h) ∙ (ap be_value e ∙ be_value-be_bytes 16 b k)

-- A number in front.
pub split_u64 :
    (a b : ℕ) {us vs : List ℕ}
    → a < u64_mod
    → b < u64_mod
    → put_u64 a ++ us ≡ put_u64 b ++ vs
    → (a ≡ b) × (us ≡ vs)
split_u64 a b {us} {vs} h k e =
    let (p, q) =
      split_append (put_u64 a) (put_u64 b) {us = us} {vs = vs} (omega (arith, length-put_u64)) e in
    (put_u64-injective a b h k p, q)

pub split_u128 :
    (a b : ℕ) {us vs : List ℕ}
    → a < u128_mod
    → b < u128_mod
    → put_u128 a ++ us ≡ put_u128 b ++ vs
    → (a ≡ b) × (us ≡ vs)
split_u128 a b {us} {vs} h k e =
    let (p, q) =
      split_append (put_u128 a) (put_u128 b) {us = us} {vs = vs} (omega (arith, length-put_u128))
        e in
    (put_u128-injective a b h k p, q)

-- A text behind its length.
pub split_bytes :
    (xs ys : List ℕ) {us vs : List ℕ}
    → length xs < u64_mod
    → length ys < u64_mod
    → put_bytes xs ++ us ≡ put_bytes ys ++ vs
    → (xs ≡ ys) × (us ≡ vs)
unfolding put_bytes
split_bytes xs ys {us} {vs} h k e =
    let (same, rest) =
      split_u64 (length xs % u64_mod) (length ys % u64_mod) {us = xs ++ us} {vs = ys ++ vs}
        (omega arith) (omega arith) (simp append_assoc at e) in
    split_append xs ys {us = us} {vs = vs} (omega arith) rest

-- The fields that both encodings of a header begin with, all of them equal.
pub SamePrefix : BlockHeader → BlockHeader → Type 0
SamePrefix a b =
    (a.parent_hash ≡ b.parent_hash)
    × (a.number ≡ b.number)
    × (a.state_root ≡ b.state_root)
    × (a.transactions_root ≡ b.transactions_root)
    × (a.receipts_root ≡ b.receipts_root)
    × (a.beneficiary ≡ b.beneficiary)
    × (a.difficulty_target ≡ b.difficulty_target)
    × (a.base_fee_per_gas ≡ b.base_fee_per_gas)
    × (a.gas_limit ≡ b.gas_limit)
    × (a.gas_used ≡ b.gas_used)
    × (a.timestamp_seconds ≡ b.timestamp_seconds)
    × (a.pow_algorithm ≡ b.pow_algorithm)
    × (a.pow_epoch ≡ b.pow_epoch)
    × (a.extra_nonce ≡ b.extra_nonce)

pub split_prefix :
    (a b : BlockHeader) {us vs : List ℕ}
    → IsHeader a
    → IsHeader b
    → header_prefix a ++ us ≡ header_prefix b ++ vs
    → SamePrefix a b × (us ≡ vs)
unfolding header_prefix SamePrefix
split_prefix a b h k e =
    let e0 = simp append_assoc at e in
    let (p0, e1) =
      split_append a.parent_hash b.parent_hash (h.parent_hash.0 ∙ sym k.parent_hash.0) e0 in
    let (p1, e2) = split_u64 a.number b.number h.number k.number e1 in
    let (p2, e3) =
      split_append a.state_root b.state_root (h.state_root.0 ∙ sym k.state_root.0) e2 in
    let (p3, e4) =
      split_append a.transactions_root b.transactions_root
        (h.transactions_root.0 ∙ sym k.transactions_root.0) e3 in
    let (p4, e5) =
      split_append a.receipts_root b.receipts_root (h.receipts_root.0 ∙ sym k.receipts_root.0) e4 in
    let (p5, e6) =
      split_append a.beneficiary b.beneficiary (h.beneficiary.0 ∙ sym k.beneficiary.0) e5 in
    let (p6, e7) =
      split_append a.difficulty_target b.difficulty_target
        (h.difficulty_target.0 ∙ sym k.difficulty_target.0) e6 in
    let (p7, e8) =
      split_u128 a.base_fee_per_gas b.base_fee_per_gas h.base_fee_per_gas k.base_fee_per_gas e7 in
    let (p8, e9) = split_u64 a.gas_limit b.gas_limit h.gas_limit k.gas_limit e8 in
    let (p9, e10) = split_u64 a.gas_used b.gas_used h.gas_used k.gas_used e9 in
    let (p10, e11) =
      split_u64 a.timestamp_seconds b.timestamp_seconds h.timestamp_seconds k.timestamp_seconds
        e10 in
    let (p11, e12) =
      split_bytes a.pow_algorithm b.pow_algorithm h.pow_algorithm k.pow_algorithm e11 in
    let (p12, e13) = split_u64 a.pow_epoch b.pow_epoch h.pow_epoch k.pow_epoch e12 in
    let (p13, e14) = split_u64 a.extra_nonce b.extra_nonce h.extra_nonce k.extra_nonce e13 in
    ((p0, p1, p2, p3, p4, p5, p6, p7, p8, p9, p10, p11, p12, p13), e14)

-- Two headers whose fields are in range have the same canonical bytes only if they are equal.
pub header_bytes-injective :
    (a b : BlockHeader) → IsHeader a → IsHeader b → header_bytes a ≡ header_bytes b → a ≡ b
unfolding header_bytes SamePrefix
header_bytes-injective a b h k e =
    let (same, rest) = split_prefix a b h k e in
    let (mix, last) = split_append a.mix_hash b.mix_hash (h.mix_hash.0 ∙ sym k.mix_hash.0) rest in
    let nonce = put_u64-injective a.nonce b.nonce h.nonce k.nonce last in
    λ i. record {
      parent_hash = same.0 i;
      number = same.1 i;
      state_root = same.2 i;
      transactions_root = same.3 i;
      receipts_root = same.4 i;
      beneficiary = same.5 i;
      difficulty_target = same.6 i;
      base_fee_per_gas = same.7 i;
      gas_limit = same.8 i;
      gas_used = same.9 i;
      timestamp_seconds = same.10 i;
      pow_algorithm = same.11 i;
      pow_epoch = same.12 i;
      extra_nonce = same.13 i;
      mix_hash = mix i;
      nonce = nonce i;
    }

-- Two headers are mined over the same bytes only if they agree on every field but the mix hash.
pub pow_preimage-injective :
    (a b : BlockHeader)
    → IsHeader a
    → IsHeader b
    → pow_preimage_bytes a ≡ pow_preimage_bytes b
    → record a { mix_hash = b.mix_hash } ≡ b
unfolding pow_preimage_bytes SamePrefix
pow_preimage-injective a b h k e =
    let (same, rest) = split_prefix a b h k e in
    let nonce = put_u64-injective a.nonce b.nonce h.nonce k.nonce rest in
    λ i. record {
      parent_hash = same.0 i;
      number = same.1 i;
      state_root = same.2 i;
      transactions_root = same.3 i;
      receipts_root = same.4 i;
      beneficiary = same.5 i;
      difficulty_target = same.6 i;
      base_fee_per_gas = same.7 i;
      gas_limit = same.8 i;
      gas_used = same.9 i;
      timestamp_seconds = same.10 i;
      pow_algorithm = same.11 i;
      pow_epoch = same.12 i;
      extra_nonce = same.13 i;
      mix_hash = b.mix_hash;
      nonce = nonce i;
    }
