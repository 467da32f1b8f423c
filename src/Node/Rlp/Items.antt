-- ===== src/Node/Rlp/Items.antt =====
-- Items: what the encoder writes as a string or a list, the decoder takes off again.
use mathlib.Core.List.{append_assoc}
use blq_node.Base.{
  ℕ, ◌+◌, ◌-◌, ◌%◌, ◌≤◌, ◌<◌, ◌≡◌, refl, ◌∙◌, Bool, true, false, ltb, arith, List, [], ◌∷◌, ◌++◌,
  some, length, length-append, u64_max, Bool-cases, inl, inr,
}
use blq_node.Primitives.Rlp.{
  len_bytes, eip1559_rlp_header, eip1559_rlp_bytes, eip1559_rlp_list_payload,
}
use blq_node.Node.Rlp.{split_payload, split_long, rlp_take_item, rlp_take_bytes}
use blq_node.Node.Rlp.Lengths.{take-length, drop-length, len_bytes_lem, decode_length_lem}

split_payload_lem :
    (list : Bool) (p rest : List ℕ)
    → split_payload list (length p) (p ++ rest) ≡ some (list, p, rest)
unfolding split_payload
split_payload_lem list p rest =
    let room : ltb (length (p ++ rest)) (length p) ≡ false = ground (arith, length-append p rest) in
    rw (room, take-length p rest, drop-length p rest) refl

split_long_lem :
    (list : Bool) (p rest : List ℕ)
    → 0 < length p
    → length p ≤ u64_max
    → split_long list (length (len_bytes 8 (length p))) (len_bytes 8 (length p) ++ (p ++ rest))
      ≡ some (list, p, rest)
unfolding split_long
split_long_lem list p rest pos h =
    rw (decode_length_lem (length p) (p ++ rest) pos h) (split_payload_lem list p rest)

-- The first byte of an item, by the kind of its header.
take_short_string :
    (n : ℕ) (rest : List ℕ)
    → n < 56
    → rlp_take_item ((0x80 + n) ∷ rest) ≡ split_payload false n rest
unfolding rlp_take_item
take_short_string n rest h =
    let back : 0x80 + n - 0x80 ≡ n = omega arith in
    let a : ltb (0x80 + n) 0x80 ≡ false = ground arith in
    let b : ltb (0x80 + n) 0xb8 ≡ true = ground arith in rw (a, b, back) refl

take_long_string :
    (n : ℕ) (rest : List ℕ)
    → 0 < n
    → n ≤ 8
    → rlp_take_item ((0x80 + 55 + n) ∷ rest) ≡ split_long false n rest
unfolding rlp_take_item
take_long_string n rest h k =
    let back : 0x80 + 55 + n - 0xb7 ≡ n = omega arith in
    let a : ltb (0x80 + 55 + n) 0x80 ≡ false = ground arith in
    let b : ltb (0x80 + 55 + n) 0xb8 ≡ false = ground arith in
    let c : ltb (0x80 + 55 + n) 0xc0 ≡ true = ground arith in rw (a, b, c, back) refl

take_short_list :
    (n : ℕ) (rest : List ℕ) → n < 56 → rlp_take_item ((0xc0 + n) ∷ rest) ≡ split_payload true n rest
unfolding rlp_take_item
take_short_list n rest h =
    let back : 0xc0 + n - 0xc0 ≡ n = omega arith in
    let a : ltb (0xc0 + n) 0x80 ≡ false = ground arith in
    let b : ltb (0xc0 + n) 0xb8 ≡ false = ground arith in
    let c : ltb (0xc0 + n) 0xc0 ≡ false = ground arith in
    let d : ltb (0xc0 + n) 0xf8 ≡ true = ground arith in rw (a, b, c, d, back) refl

take_long_list :
    (n : ℕ) (rest : List ℕ)
    → 0 < n
    → n ≤ 8
    → rlp_take_item ((0xc0 + 55 + n) ∷ rest) ≡ split_long true n rest
unfolding rlp_take_item
take_long_list n rest h k =
    let back : 0xc0 + 55 + n - 0xf7 ≡ n = omega arith in
    let a : ltb (0xc0 + 55 + n) 0x80 ≡ false = ground arith in
    let b : ltb (0xc0 + 55 + n) 0xb8 ≡ false = ground arith in
    let c : ltb (0xc0 + 55 + n) 0xc0 ≡ false = ground arith in
    let d : ltb (0xc0 + 55 + n) 0xf8 ≡ false = ground arith in rw (a, b, c, d, back) refl

header_short :
    (offset n : ℕ) → n < 56 → offset ≤ 0xc0 → eip1559_rlp_header offset n ≡ (offset + n) ∷ []
unfolding eip1559_rlp_header
header_short offset n h k =
    let low : ltb n 56 ≡ true = ground arith in
    let word : (offset + n % 256) % 256 ≡ offset + n = omega arith in rw (low, word) refl

header_long :
    (offset n : ℕ)
    → 56 ≤ n
    → n ≤ u64_max
    → offset ≤ 0xc0
    → eip1559_rlp_header offset n ≡ (offset + 55 + length (len_bytes 8 n)) ∷ len_bytes 8 n
unfolding eip1559_rlp_header
header_long offset n h k o =
    let (value, size, some_byte) = len_bytes_lem 8 n (omega arith) in
    let high : ltb n 56 ≡ false = ground arith in
    let word : (offset + 55 + length (len_bytes 8 n) % 256) % 256
        ≡ offset + 55 + length (len_bytes 8 n) =
      omega arith in
    rw (high, word) refl

take_string :
    (p rest : List ℕ)
    → length p ≤ u64_max
    → rlp_take_item (eip1559_rlp_header 0x80 (length p) ++ (p ++ rest)) ≡ some (false, p, rest)
take_string p rest h = elim (Bool-cases (ltb (length p) 56)) [
  | inl short ↦
      let low : length p < 56 = ground arith in
      rw (header_short 0x80 (length p) low (omega arith))
        (take_short_string (length p) (p ++ rest) low ∙ split_payload_lem false p rest)
  | inr long ↦
      let high : 56 ≤ length p = ground arith in
      let (value, size, some_byte) = len_bytes_lem 8 (length p) (omega arith) in
      rw (header_long 0x80 (length p) high h (omega arith)) (
        take_long_string (length (len_bytes 8 (length p))) _ (some_byte (omega arith)) size
        ∙ split_long_lem false p rest (omega arith) h)
]

-- A list comes off with its payload, whatever follows it.
pub take_list :
    (p rest : List ℕ)
    → length p ≤ u64_max
    → rlp_take_item (eip1559_rlp_list_payload p ++ rest) ≡ some (true, p, rest)
unfolding eip1559_rlp_list_payload
take_list p rest h = elim (Bool-cases (ltb (length p) 56)) [
  | inl short ↦
      let low : length p < 56 = ground arith in
      rw (header_short 0xc0 (length p) low (omega arith))
        (take_short_list (length p) (p ++ rest) low ∙ split_payload_lem true p rest)
  | inr long ↦
      let high : 56 ≤ length p = ground arith in
      let (value, size, some_byte) = len_bytes_lem 8 (length p) (omega arith) in
      rw (header_long 0xc0 (length p) high h (omega arith), append_assoc)
        (take_long_list (length (len_bytes 8 (length p))) _ (some_byte (omega arith)) size
          ∙ split_long_lem true p rest (omega arith) h)
]

single_byte :
    (b : ℕ) (rest : List ℕ) → b < 0x80 → rlp_take_item (b ∷ rest) ≡ some (false, b ∷ [], rest)
unfolding rlp_take_item
single_byte b rest h = let low : ltb b 0x80 ≡ true = ground arith in rw low refl

-- A string comes off as it was, whatever follows it.
pub take_bytes_item :
    (p rest : List ℕ)
    → length p ≤ u64_max
    → rlp_take_item (eip1559_rlp_bytes p ++ rest) ≡ some (false, p, rest)
unfolding eip1559_rlp_bytes
take_bytes_item [] rest h = take_string [] rest h
take_bytes_item (b ∷ []) rest h = elim (Bool-cases (ltb b 0x80)) [
  | inl low ↦ rw low (single_byte b rest (ground arith))
  | inr high ↦
      rw (high, append_assoc (eip1559_rlp_header 0x80 1) (b ∷ []) rest)
        (take_string (b ∷ []) rest h)
]
take_bytes_item (b ∷ c ∷ bs) rest h =
    rw (append_assoc (eip1559_rlp_header 0x80 (length (b ∷ c ∷ bs))) (b ∷ c ∷ bs) rest)
      (take_string (b ∷ c ∷ bs) rest h)

pub rlp_take_bytes-rlp_bytes :
    (p rest : List ℕ)
    → length p ≤ u64_max
    → rlp_take_bytes (eip1559_rlp_bytes p ++ rest) ≡ some (p, rest)
unfolding rlp_take_bytes
rlp_take_bytes-rlp_bytes p rest h = rw (take_bytes_item p rest h) refl
