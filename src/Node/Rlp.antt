-- ===== src/Node/Rlp.antt =====
-- crates/blq-node/src/main.rs: the RLP decoder. A `&mut &[u8]` is the input before and after; an
-- error is `none`, since its text has no effect.
pub mod Chains
pub mod Shrink
pub mod Lengths
pub mod Items
pub mod Whole
pub mod Scalars
pub mod Words
use blq_node.Base.{
  ℕ, zero, suc, ◌+◌, ◌-◌, ◌*◌, ◌%◌, Bool, true, false, not, ◌&&◌, ◌||◌, ltb, leb, ◌==◌,
  if◌then◌else◌, List, [], ◌∷◌, ◌++◌, Option, none, some, length, take, drop, replicate, u64_max,
  u128_mod,
}
use blq_node.Primitives.{Hash256, Address, is_empty}

-- What a test lets through.
abbrev pub guarded : {A : Type 0} → Bool → Option A → Option A
guarded c o = if c then none else o

infixl 5 ◌>>=◌
abbrev pub ◌>>=◌ : {A B : Type 0} → Option A → (A → Option B) → Option B
o >>= next = elim o [ none ↦ none | some a ↦ next a ]

-- `checked_mul(256)` and `checked_add(byte)` over the bytes.
pub checked_length : ℕ → List ℕ → Option ℕ
checked_length len [] = some len
checked_length len (byte ∷ bytes) =
    let rest = checked_length (len * 256 + byte) bytes in
    if ltb u64_max (len * 256) || ltb u64_max (len * 256 + byte) then none else rest

pub rlp_decode_length : List ℕ → ℕ → Option (ℕ × List ℕ)
rlp_decode_length input len_of_len =
    guarded ((len_of_len == 0) || (ltb 8 len_of_len || ltb (length input) len_of_len))
      (checked_length 0 (take len_of_len input) >>= λ len. some (len, drop len_of_len input))

-- The payload of a known length: whether the item is a list, the payload and the tail.
pub split_payload : Bool → ℕ → List ℕ → Option (Bool × List ℕ × List ℕ)
split_payload list len rest =
    guarded (ltb (length rest) len) (some (list, take len rest, drop len rest))

pub split_long : Bool → ℕ → List ℕ → Option (Bool × List ℕ × List ℕ)
split_long list len_of_len rest =
    rlp_decode_length rest len_of_len >>= λ found. split_payload list found.0 found.1

pub rlp_take_item : List ℕ → Option (Bool × List ℕ × List ℕ)
rlp_take_item [] = none
rlp_take_item (prefix ∷ rest) =
    if ltb prefix 0x80
    then some (false, prefix ∷ [], rest)
    else if ltb prefix 0xb8
    then split_payload false (prefix - 0x80) rest
    else if ltb prefix 0xc0
    then split_long false (prefix - 0xb7) rest
    else if ltb prefix 0xf8
    then split_payload true (prefix - 0xc0) rest
    else split_long true (prefix - 0xf7) rest

pub rlp_take_raw : List ℕ → Option (List ℕ × List ℕ)
rlp_take_raw input =
    rlp_take_item input >>= λ item. some (take (length input - length item.2) input, item.2)

pub decode_rlp_list : List ℕ → Option (List ℕ)
decode_rlp_list bytes = rlp_take_item bytes >>= λ item.
    guarded (not (is_empty item.2)) (guarded (not item.0) (some item.1))

pub rlp_take_bytes : List ℕ → Option (List ℕ × List ℕ)
rlp_take_bytes input = rlp_take_item input >>= λ item. guarded item.0 (some (item.1, item.2))

-- `(value << 8) | byte`, where the eight low bits of the shifted value are free.
pub value_loop : ℕ → List ℕ → ℕ
value_loop value [] = value
value_loop value (byte ∷ bytes) = value_loop (value * 256 % u128_mod + byte) bytes

abbrev pub starts_with_zero : List ℕ → Bool
starts_with_zero [] = false
starts_with_zero (b ∷ bs) = b == 0

pub rlp_take_u128 : List ℕ → Option (ℕ × List ℕ)
rlp_take_u128 input = rlp_take_bytes input >>= λ taken. guarded (ltb 16 (length taken.0)) (
    guarded (ltb 1 (length taken.0) && starts_with_zero taken.0)
      (some (value_loop 0 taken.0, taken.1)))

pub rlp_take_u64 : List ℕ → Option (ℕ × List ℕ)
rlp_take_u64 input = rlp_take_u128 input >>= λ taken. guarded (ltb u64_max taken.0) (some taken)

pub rlp_take_word : List ℕ → Option (Hash256 × List ℕ)
rlp_take_word input = rlp_take_bytes input >>= λ taken.
    guarded (ltb 32 (length taken.0)) (some (replicate (32 - length taken.0) 0 ++ taken.0, taken.1))

pub rlp_take_optional_address : List ℕ → Option (Option Address × List ℕ)
rlp_take_optional_address input = rlp_take_bytes input >>= λ taken.
    if is_empty taken.0
    then some (none, taken.1)
    else guarded (not (length taken.0 == 20)) (some (some taken.0, taken.1))
