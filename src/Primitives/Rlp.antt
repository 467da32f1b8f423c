-- ===== src/Primitives/Rlp.antt =====
-- crates/blq-primitives/src/lib.rs: the RLP encoding of EIP-1559 transactions, as it is signed and
-- sent. What a function appends to `out` is its value here.
use blq_node.Base.{
  ℕ, zero, suc, ◌+◌, ◌/◌, ◌%◌, not, ltb, ◌==◌, if◌then◌else◌, List, [], ◌∷◌, ◌++◌, Option, none,
  some, length, all, map, drop, concat, u8_mod, Result, ok, err,
}
use blq_node.Base.Bytes.{be_bytes}
use blq_node.Primitives.Types.{
  Hash256, Address, Transaction, TransactionAccessListItem, TransactionSignature,
}
use blq_node.Primitives.Encoding.{u8_from}

-- The loop that collects the bytes of a length, reversed; 8 bytes are enough for a `usize`.
unfoldable pub len_bytes : ℕ → ℕ → List ℕ
len_bytes zero value = []
len_bytes (suc fuel) value =
    let rest = len_bytes fuel (value / 256) in
    if value == 0 then [] else rest ++ ((value % 256) ∷ [])

unfoldable pub eip1559_rlp_header : ℕ → ℕ → List ℕ
eip1559_rlp_header offset len =
    let bytes = len_bytes 8 len in
    if ltb len 56
    then ((offset + len % u8_mod) % u8_mod) ∷ []
    else ((offset + 55 + length bytes % u8_mod) % u8_mod) ∷ bytes

unfoldable pub eip1559_rlp_bytes : List ℕ → List ℕ
eip1559_rlp_bytes [] = eip1559_rlp_header 0x80 0
eip1559_rlp_bytes (b ∷ []) = if ltb b 0x80 then b ∷ [] else eip1559_rlp_header 0x80 1 ++ (b ∷ [])
eip1559_rlp_bytes (b ∷ c ∷ bs) = eip1559_rlp_header 0x80 (length (b ∷ c ∷ bs)) ++ (b ∷ c ∷ bs)

-- `position(|byte| *byte != 0)`.
unfoldable pub first_nonzero : List ℕ → Option ℕ
first_nonzero [] = none
first_nonzero (b ∷ bs) =
    let rest = first_nonzero bs in
    if b == 0 then (elim rest [ none ↦ none | some i ↦ some (suc i) ]) else some 0

-- `bytes[first..]`, from the first byte that is not 0, or from the default.
unfoldable pub from_first_nonzero : ℕ → List ℕ → List ℕ
from_first_nonzero default bytes = elim (first_nonzero bytes) [
  | none ↦ drop default bytes
  | some i ↦ drop i bytes
]

unfoldable pub eip1559_rlp_u64 : ℕ → List ℕ
eip1559_rlp_u64 value =
    if value == 0
    then eip1559_rlp_bytes []
    else eip1559_rlp_bytes (from_first_nonzero 7 (be_bytes 8 value))

unfoldable pub eip1559_rlp_u128 : ℕ → List ℕ
eip1559_rlp_u128 value =
    if value == 0
    then eip1559_rlp_bytes []
    else eip1559_rlp_bytes (from_first_nonzero 15 (be_bytes 16 value))

unfoldable pub eip1559_rlp_word : Hash256 → List ℕ
eip1559_rlp_word value =
    if all (λ byte. byte == 0) value
    then eip1559_rlp_bytes []
    else eip1559_rlp_bytes (from_first_nonzero 31 value)

unfoldable pub eip1559_rlp_list_payload : List ℕ → List ℕ
eip1559_rlp_list_payload payload = eip1559_rlp_header 0xc0 (length payload) ++ payload

unfoldable pub eip1559_rlp_list : List (List ℕ) → List ℕ
eip1559_rlp_list fields = eip1559_rlp_list_payload (concat fields)

unfoldable pub eip1559_typed_rlp : List ℕ → List ℕ
eip1559_typed_rlp payload = 0x02 ∷ eip1559_rlp_list_payload payload

-- One entry of an access list.
unfoldable pub encode_item : TransactionAccessListItem → List ℕ
encode_item item = eip1559_rlp_list (
    eip1559_rlp_bytes item.address
    ∷ eip1559_rlp_list (map eip1559_rlp_bytes item.storage_keys)
    ∷ [])

unfoldable pub eip1559_encode_access_list : List TransactionAccessListItem → List ℕ
eip1559_encode_access_list access_list = eip1559_rlp_list (map encode_item access_list)

abbrev pub recipient_bytes : Option Address → List ℕ
recipient_bytes none = []
recipient_bytes (some to) = to

-- The nine fields that are signed.
unfoldable pub eip1559_fields : Transaction → List ℕ
eip1559_fields t =
    eip1559_rlp_u64 t.chain_id
    ++ (eip1559_rlp_u64 t.nonce
        ++ (eip1559_rlp_u128 t.max_priority_fee_per_gas
            ++ (eip1559_rlp_u128 t.max_fee_per_gas
                ++ (eip1559_rlp_u64 t.gas_limit
                    ++ (eip1559_rlp_bytes (recipient_bytes t.to)
                        ++ (eip1559_rlp_u128 t.value
                            ++ (eip1559_rlp_bytes t.payload
                                ++ eip1559_encode_access_list t.access_list)))))))

pub data SigningError : Type 0 where
  wrong_type : ℕ → SigningError
  signature_required : SigningError

unfoldable pub eip1559_signing_payload : Transaction → Result (List ℕ) SigningError
eip1559_signing_payload t =
    if not (t.transaction_type == 2)
    then err (wrong_type t.transaction_type)
    else ok (eip1559_typed_rlp (eip1559_fields t))

unfoldable pub signature_fields : TransactionSignature → List ℕ
signature_fields signature =
    eip1559_rlp_u64 (u8_from signature.y_parity)
    ++ (eip1559_rlp_word signature.r ++ eip1559_rlp_word signature.s)

unfoldable pub eip1559_signed_bytes : Transaction → Result (List ℕ) SigningError
eip1559_signed_bytes t =
    if not (t.transaction_type == 2)
    then err (wrong_type t.transaction_type)
    else elim t.signature [
      | none ↦ err signature_required
      | some signature ↦ ok (eip1559_typed_rlp (eip1559_fields t ++ signature_fields signature))
    ]
