-- ===== src/Node/Rlp/Shrink.antt =====
-- What an item leaves of the input is shorter than the input.
use blq_node.Base.{
  ℕ, zero, suc, ◌-◌, ◌≤◌, ◌≡◌, ap, Bool, true, false, ltb, ◌||◌, ◌==◌, arith, List, [], ◌∷◌, Option,
  some, length, take, drop, if◌then◌else◌,
}
use blq_node.Node.Rlp.{
  checked_length, rlp_decode_length, split_payload, split_long, rlp_take_bytes, rlp_take_raw,
  rlp_take_item,
}
use blq_node.Node.Rlp.Chains.{bind_some, guarded-some, some_injective}

drop_le : (n : ℕ) (xs : List ℕ) → length (drop n xs) ≤ length xs
drop_le zero xs = omega arith
drop_le (suc n) [] = omega arith
drop_le (suc n) (x ∷ xs) = omega (arith, drop_le n xs)

-- What is left of the input.
abbrev tail_of : Bool × List ℕ × List ℕ → List ℕ
tail_of item = item.2

split_payload_le :
    (list : Bool) (len : ℕ) (rest : List ℕ) {item : Bool × List ℕ × List ℕ}
    → split_payload list len rest ≡ some item
    → length (tail_of item) ≤ length rest
unfolding split_payload
split_payload_le list len rest h =
    let (room, last) = guarded-some (ltb (length rest) len) _ h in
    let e = ap (λ item. length (tail_of item)) (some_injective last) in
    omega (arith, e, drop_le len rest)

split_long_le :
    (list : Bool) (len_of_len : ℕ) (rest : List ℕ) {item : Bool × List ℕ × List ℕ}
    → split_long list len_of_len rest ≡ some item
    → length (tail_of item) ≤ length rest
unfolding split_long rlp_decode_length
split_long_le list len_of_len rest h =
    let (found, p, g) = bind_some (rlp_decode_length rest len_of_len) _ h in
    let (fine, k) =
      guarded-some ((len_of_len == 0) || (ltb 8 len_of_len || ltb (length rest) len_of_len)) _ p in
    let (len, q, last) = bind_some (checked_length 0 (take len_of_len rest)) _ k in
    let e = ap (λ found. length found.1) (some_injective last) in
    omega (arith, e, drop_le len_of_len rest, split_payload_le list found.0 found.1 g)

branches :
    {B : Type 0} {P : B → Type 0} (c : Bool) (x o : Option B)
    → ((b : B) → x ≡ some b → P b)
    → ((b : B) → o ≡ some b → P b)
    → (b : B) → (if c then x else o) ≡ some b
    → P b
branches true x o p q b h = p b h
branches false x o p q b h = q b h

-- An item takes a byte at least.
take_item_lt :
    (prefix : ℕ) (rest : List ℕ) (item : Bool × List ℕ × List ℕ)
    → rlp_take_item (prefix ∷ rest) ≡ some item
    → length (tail_of item) ≤ length rest
unfolding rlp_take_item
take_item_lt prefix rest =
    branches (ltb prefix 0x80) _ _
      (λ item h. let e = ap (λ item. length (tail_of item)) (some_injective h) in omega (arith, e))
      (branches (ltb prefix 0xb8) _ _ (λ item h. split_payload_le false (prefix - 0x80) rest h)
        (branches (ltb prefix 0xc0) _ _ (λ item h. split_long_le false (prefix - 0xb7) rest h)
          (branches (ltb prefix 0xf8) _ _ (λ item h. split_payload_le true (prefix - 0xc0) rest h)
            (λ item h. split_long_le true (prefix - 0xf7) rest h))))

pub take_bytes_lt :
    (prefix : ℕ) (rest : List ℕ) (taken : List ℕ × List ℕ)
    → rlp_take_bytes (prefix ∷ rest) ≡ some taken
    → length taken.1 ≤ length rest
unfolding rlp_take_bytes
take_bytes_lt prefix rest taken h =
    let (item, p, g) = bind_some (rlp_take_item (prefix ∷ rest)) _ h in
    let (kind, last) = guarded-some item.0 _ g in
    let e = ap (λ taken. length taken.1) (some_injective last) in
    omega (arith, e, take_item_lt prefix rest item p)

pub take_raw_lt :
    (prefix : ℕ) (rest : List ℕ) (taken : List ℕ × List ℕ)
    → rlp_take_raw (prefix ∷ rest) ≡ some taken
    → length taken.1 ≤ length rest
unfolding rlp_take_raw
take_raw_lt prefix rest taken h =
    let (item, p, last) = bind_some (rlp_take_item (prefix ∷ rest)) _ h in
    let e = ap (λ taken. length taken.1) (some_injective last) in
    omega (arith, e, take_item_lt prefix rest item p)
