-- ===== src/Node/Decode/Fields.antt =====
-- The fields of a raw transaction, and the bytes that were signed.
use mathlib.Core.Path.{subst}
use mathlib.Core.List.{append_assoc}
use blq_node.Base.{
  ℕ, ◌≤◌, ◌<◌, ◌≡◌, refl, Bool, true, false, ltb, ◌==◌, arith, List, [], ◌++◌, some, length, All,
  sum_of, u64_max, u64_mod, u128_mod,
}
use blq_node.Primitives.{Transaction, TransactionSignature, u8_from}
use blq_node.Primitives.Rlp.{
  eip1559_rlp_u64, eip1559_rlp_u128, eip1559_rlp_bytes, eip1559_rlp_word, recipient_bytes,
  eip1559_encode_access_list, eip1559_fields, signature_fields,
}
use blq_node.Node.Rlp.{rlp_take_word}
use blq_node.Node.Rlp.Whole.{append_nil}
use blq_node.Node.Rlp.Items.{rlp_take_bytes-rlp_bytes}
use blq_node.Node.Rlp.Scalars.{rlp_take_u64-rlp_u64, rlp_take_u128-rlp_u128}
use blq_node.Node.Rlp.Words.{
  rlp_take_word-rlp_word, IsRecipient, rlp_take_optional_address-recipient,
}
use blq_node.Node.Decode.{RawFields, decode_fields}
use blq_node.Node.Decode.AccessList.{IsEntry, decode_access_list-encode}

-- The ranges that the field types give, the chain, and the limits on a transaction's size.
pub record IsSendable (t : Transaction) (signature : TransactionSignature) : Type 0 where
  pub chain : t.chain_id ≡ 707_070
  pub nonce : t.nonce < u64_mod
  pub tip : t.max_priority_fee_per_gas < u128_mod
  pub fee : t.max_fee_per_gas < u128_mod
  pub gas : t.gas_limit < u64_mod
  pub to : IsRecipient t.to
  pub value : t.value < u128_mod
  pub payload : length t.payload ≤ 131_072
  pub entries : length t.access_list ≤ 256
  pub keys : sum_of (λ item. length item.storage_keys) t.access_list ≤ 4_096
  pub shape : All IsEntry t.access_list
  pub list_size : length (eip1559_encode_access_list t.access_list) ≤ u64_max
  pub r : length signature.r ≡ 32
  pub s : length signature.s ≡ 32

-- The nine fields, and what follows them.
abbrev pub fields_then : Transaction → List ℕ → List ℕ
fields_then t rest =
    eip1559_rlp_u64 t.chain_id
    ++ (eip1559_rlp_u64 t.nonce
        ++ (eip1559_rlp_u128 t.max_priority_fee_per_gas
            ++ (eip1559_rlp_u128 t.max_fee_per_gas
                ++ (eip1559_rlp_u64 t.gas_limit
                    ++ (eip1559_rlp_bytes (recipient_bytes t.to)
                        ++ (eip1559_rlp_u128 t.value
                            ++ (eip1559_rlp_bytes t.payload
                                ++ (eip1559_encode_access_list t.access_list ++ rest))))))))

pub fields_append :
    (t : Transaction) (rest : List ℕ) → eip1559_fields t ++ rest ≡ fields_then t rest
unfolding eip1559_fields
fields_append t rest = simp append_assoc

abbrev pub raw_of : Transaction → TransactionSignature → RawFields
raw_of t signature = record {
  chain_id = t.chain_id;
  nonce = t.nonce;
  max_priority_fee_per_gas = t.max_priority_fee_per_gas;
  max_fee_per_gas = t.max_fee_per_gas;
  gas_limit = t.gas_limit;
  to = t.to;
  value = t.value;
  input = t.payload;
  access_list = t.access_list;
  y_parity = u8_from signature.y_parity;
  r = signature.r;
  s = signature.s;
}

parity_small : (b : Bool) → u8_from b ≤ 1
parity_small true = omega arith
parity_small false = omega arith

take_last_word : (w : List ℕ) → length w ≡ 32 → rlp_take_word (eip1559_rlp_word w) ≡ some (w, [])
take_last_word w h =
    subst (λ xs. rlp_take_word xs ≡ some (w, [])) (append_nil (eip1559_rlp_word w))
      (rlp_take_word-rlp_word w [] h)

pub decode_fields_lem :
    (t : Transaction) (signature : TransactionSignature)
    → IsSendable t signature
    → decode_fields (eip1559_fields t ++ signature_fields signature) ≡ some (raw_of t signature)
unfolding decode_fields signature_fields
decode_fields_lem t signature v =
    let parity = parity_small signature.y_parity in
    let on_chain : (t.chain_id == 707_070) ≡ true = ground (arith, v.chain) in
    let small : ltb 131_072 (length t.payload) ≡ false = ground (arith, v.payload) in
    let bit : ltb 1 (u8_from signature.y_parity) ≡ false = ground arith in
    rw
      (
        fields_append t (signature_fields signature),
        rlp_take_u64-rlp_u64 t.chain_id _ (omega (arith, v.chain)),
        on_chain,
        rlp_take_u64-rlp_u64 t.nonce _ v.nonce,
        rlp_take_u128-rlp_u128 t.max_priority_fee_per_gas _ v.tip,
        rlp_take_u128-rlp_u128 t.max_fee_per_gas _ v.fee,
        rlp_take_u64-rlp_u64 t.gas_limit _ v.gas,
        rlp_take_optional_address-recipient t.to _ v.to,
        rlp_take_u128-rlp_u128 t.value _ v.value,
        rlp_take_bytes-rlp_bytes t.payload _ (omega (arith, v.payload)),
        small,
        decode_access_list-encode t.access_list _ v.entries v.keys v.shape v.list_size,
        rlp_take_u64-rlp_u64 (u8_from signature.y_parity) _ (omega arith),
        bit,
        rlp_take_word-rlp_word signature.r _ v.r,
        take_last_word signature.s v.s,
      )
      refl
