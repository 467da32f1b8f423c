-- ===== src/Node/Rlp/Lengths.antt =====
-- Lengths: the bytes that the encoder writes are those that the decoder reads.
use native.Mathlib.Nat.{pow-suc}
use blq_node.Base.{
  ℕ, zero, suc, ◌+◌, ◌*◌, ◌/◌, ◌%◌, ◌^◌, ◌≤◌, ◌<◌, ◌≡◌, refl, ap, ◌∙◌, false, ltb, ◌==◌, ◌||◌,
  arith, List, [], ◌∷◌, ◌++◌, some, length, length-append, take, drop, u64_max,
}
use blq_node.Base.Bytes.{be_value, weight, weight_pos, be_value_snoc}
use blq_node.Primitives.Rlp.{len_bytes}
use blq_node.Node.Rlp.{checked_length, rlp_decode_length}

pub take-length : (xs ys : List ℕ) → take (length xs) (xs ++ ys) ≡ xs
take-length [] ys = refl
take-length (x ∷ xs) ys = ap (λ zs. x ∷ zs) (take-length xs ys)

pub drop-length : (xs ys : List ℕ) → drop (length xs) (xs ++ ys) ≡ ys
drop-length [] ys = refl
drop-length (x ∷ xs) ys = drop-length xs ys

-- The bytes of a length spell it, and there are no more of them than steps.
pub len_bytes_lem :
    (fuel v : ℕ)
    → v < 256 ^ fuel
    → (be_value (len_bytes fuel v) ≡ v)
      × (length (len_bytes fuel v) ≤ fuel)
      × (0 < v → 0 < length (len_bytes fuel v))
unfolding len_bytes be_value
len_bytes_lem zero v h = (omega arith, omega arith, λ p. absurd (omega arith))
len_bytes_lem (suc fuel) v h =
    let (value, size, some_byte) = len_bytes_lem fuel (v / 256) (omega (arith, pow-suc 256 fuel)) in
    ground (
      arith,
      be_value_snoc (len_bytes fuel (v / 256)) (v % 256),
      length-append (len_bytes fuel (v / 256)) ((v % 256) ∷ []),
    )

checked_length_lem :
    (len : ℕ) (bs : List ℕ)
    → len * weight bs + be_value bs ≤ u64_max
    → checked_length len bs ≡ some (len * weight bs + be_value bs)
unfolding checked_length weight be_value
checked_length_lem len [] h = ap some (omega arith)
checked_length_lem len (b ∷ bs) h =
    let expand : (len * 256 + b) * weight bs ≡ len * (256 * weight bs) + b * weight bs =
      grind arith in
    let pos : 0 < weight bs = weight_pos bs in
    let below : len * 256 + b ≤ (len * 256 + b) * weight bs = grind arith in
    let rest = checked_length_lem (len * 256 + b) bs (omega arith) in
    let whole : (len * 256 + b) * weight bs + be_value bs
        ≡ len * (256 * weight bs) + (b * weight bs + be_value bs) =
      omega arith in
    ground (arith, rest ∙ ap some whole)

-- The decoder reads a length from the bytes that the encoder wrote.
pub decode_length_lem :
    (len : ℕ) (rest : List ℕ)
    → 0 < len
    → len ≤ u64_max
    → rlp_decode_length (len_bytes 8 len ++ rest) (length (len_bytes 8 len)) ≡ some (len, rest)
unfolding rlp_decode_length
decode_length_lem len rest pos h =
    let (value, size, some_byte) = len_bytes_lem 8 len (omega arith) in
    let bytes : List ℕ = len_bytes 8 len in
    let read : checked_length 0 bytes ≡ some len =
      checked_length_lem 0 bytes (omega arith) ∙ ap some (omega arith) in
    let fits : ((length bytes == 0)
          || (ltb 8 (length bytes) || ltb (length (bytes ++ rest)) (length bytes)))
        ≡ false =
      ground (arith, length-append bytes rest, some_byte pos) in
    rw (fits, take-length bytes rest, read, drop-length bytes rest) refl
