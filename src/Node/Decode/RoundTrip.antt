-- ===== src/Node/Decode/RoundTrip.antt =====
-- A transaction that was signed and sent is decoded to itself.
use blq_node.Base.{
  ℕ, ◌≤◌, ◌≡◌, refl, sym, ap, ◌∙◌, Bool, true, false, ◌==◌, arith, List, ◌++◌, Option, some, none,
  length, drop, u64_max, ok,
}
use blq_node.Base.Bytes.{be_bytes}
use blq_node.Externals.{Signer}
use blq_node.Primitives.{Transaction, TransactionSignature, is_empty, u8_from, Hash256, Address}
use blq_node.Primitives.Rlp.{
  eip1559_rlp_header, eip1559_rlp_u64, eip1559_rlp_bytes, eip1559_rlp_list_payload,
  from_first_nonzero, first_nonzero, eip1559_typed_rlp, eip1559_fields, signature_fields,
  eip1559_signed_bytes, eip1559_signing_payload, recipient_bytes, eip1559_encode_access_list,
}
use blq_node.Node.Rlp.Whole.{append_nil, decode_list_payload, length-list_payload}
use blq_node.Node.Rlp.Words.{take_raw-rlp_bytes, take_raw-rlp_u64, take_raw-rlp_u128, IsRecipient}
use blq_node.Node.Decode.{
  take_fields, encode_typed_rlp, rlp_encode_list_payload, rlp_encode_header,
  encode_typed_signing_payload, assemble, decode_eip1559_transaction,
}
use blq_node.Node.Decode.AccessList.{take_raw-access_list}
use blq_node.Node.Decode.Fields.{IsSendable, raw_of, decode_fields_lem, fields_then, fields_append}

recipient_size : (to : Option Address) → IsRecipient to → length (recipient_bytes to) ≤ u64_max
unfolding IsRecipient
recipient_size none h = omega arith
recipient_size (some to) h = omega arith

take_fields_lem :
    (t : Transaction) (signature : TransactionSignature) (rest : List ℕ)
    → IsSendable t signature
    → take_fields 9 (fields_then t rest) ≡ some (eip1559_fields t, rest)
unfolding take_fields eip1559_fields
take_fields_lem t signature rest v =
    rw
      (
        take_raw-rlp_u64 t.chain_id _ (omega (arith, v.chain)),
        take_raw-rlp_u64 t.nonce _ v.nonce,
        take_raw-rlp_u128 t.max_priority_fee_per_gas _ v.tip,
        take_raw-rlp_u128 t.max_fee_per_gas _ v.fee,
        take_raw-rlp_u64 t.gas_limit _ v.gas,
        take_raw-rlp_bytes (recipient_bytes t.to) _ (recipient_size t.to v.to),
        take_raw-rlp_u128 t.value _ v.value,
        take_raw-rlp_bytes t.payload _ (omega (arith, v.payload)),
        take_raw-access_list t.access_list _ v.list_size,
        append_nil (eip1559_encode_access_list t.access_list),
      )
      refl

-- The node's copy of the encoder writes what the original writes.
encode_typed_rlp-eip1559 : (p : List ℕ) → encode_typed_rlp 2 p ≡ eip1559_typed_rlp p
unfolding encode_typed_rlp rlp_encode_list_payload rlp_encode_header eip1559_typed_rlp
    eip1559_rlp_list_payload eip1559_rlp_header
encode_typed_rlp-eip1559 p = refl

parity_there : (b : Bool) (rest : List ℕ) → is_empty (eip1559_rlp_u64 (u8_from b) ++ rest) ≡ false
unfolding eip1559_rlp_u64 eip1559_rlp_bytes eip1559_rlp_header from_first_nonzero first_nonzero
    be_bytes
parity_there true rest = refl
parity_there false rest = refl

signature_there : (signature : TransactionSignature) → is_empty (signature_fields signature) ≡ false
unfolding signature_fields
signature_there signature = parity_there signature.y_parity _

signing_payload_lem :
    (t : Transaction) (signature : TransactionSignature)
    → IsSendable t signature
    → encode_typed_signing_payload (eip1559_fields t ++ signature_fields signature) 9 2
      ≡ some (eip1559_typed_rlp (eip1559_fields t))
unfolding encode_typed_signing_payload
signing_payload_lem t signature v =
    rw
      (
        fields_append t (signature_fields signature),
        take_fields_lem t signature (signature_fields signature) v,
        signature_there signature,
        encode_typed_rlp-eip1559 (eip1559_fields t),
      )
      refl

parity_back : (b : Bool) → (u8_from b == 1) ≡ b
parity_back true = refl
parity_back false = refl

assembled :
    (t : Transaction) (signature : TransactionSignature) (hash : Hash256)
    → t.transaction_type ≡ 2
    → t.signature ≡ some signature
    → assemble (raw_of t signature) t.from hash ≡ record t { external_hash = some hash }
unfolding assemble
assembled t signature hash kind signed =
    let kept : some (record signature { y_parity = u8_from signature.y_parity == 1 })
        ≡ t.signature =
      ap (λ b. some (record signature { y_parity = b })) (parity_back signature.y_parity)
      ∙ sym signed in
    λ i. record t { transaction_type = sym kind i; signature = kept i; external_hash = some hash }

signed_bytes_ok :
    (t : Transaction) (signature : TransactionSignature)
    → t.transaction_type ≡ 2
    → t.signature ≡ some signature
    → eip1559_signed_bytes t
      ≡ ok (eip1559_typed_rlp (eip1559_fields t ++ signature_fields signature))
unfolding eip1559_signed_bytes eip1559_fields
signed_bytes_ok t signature kind has =
    let test : (t.transaction_type == 2) ≡ true = ground (arith, kind) in rw (test, has) refl

signing_payload_ok :
    (t : Transaction)
    → t.transaction_type ≡ 2
    → eip1559_signing_payload t ≡ ok (eip1559_typed_rlp (eip1559_fields t))
unfolding eip1559_signing_payload
signing_payload_ok t kind =
    let test : (t.transaction_type == 2) ≡ true = ground (arith, kind) in rw test refl

typed_payload : (p : List ℕ) → drop 1 (eip1559_typed_rlp p) ≡ eip1559_rlp_list_payload p
unfolding eip1559_typed_rlp
typed_payload p = refl

typed_size : (p : List ℕ) → length p ≤ length (eip1559_typed_rlp p)
unfolding eip1559_typed_rlp
typed_size p = omega (arith, length-list_payload p)

module _ ⦃signer : Signer⦄ where
  pub decode-signed_bytes :
      (t : Transaction) (signature : TransactionSignature) {raw signed : List ℕ}
      → t.transaction_type ≡ 2
      → t.signature ≡ some signature
      → eip1559_signed_bytes t ≡ ok raw
      → eip1559_signing_payload t ≡ ok signed
      → IsSendable t signature
      → length raw ≤ u64_max
      → signer.is_high_s signature.y_parity signature.r signature.s ≡ false
      → signer.recover_address signature.y_parity signature.r signature.s (signer.keccak256 signed)
        ≡ some t.from
      → decode_eip1559_transaction raw
        ≡ some (record t { external_hash = some (signer.keccak256 raw) })
  unfolding decode_eip1559_transaction
  decode-signed_bytes t signature {raw} {signed} kind has sent asked v size low recovered =
      let p = eip1559_fields t ++ signature_fields signature in
      let raw_lem : raw ≡ eip1559_typed_rlp p =
        let e = signed_bytes_ok t signature kind has in cc in
      let signed_lem : eip1559_typed_rlp (eip1559_fields t) ≡ signed =
        let e = signing_payload_ok t kind in cc in
      let fits : length p ≤ u64_max =
        let e = typed_size p in let f = ap length raw_lem in omega arith in
      let body : drop 1 raw ≡ eip1559_rlp_list_payload p = ap (drop 1) raw_lem ∙ typed_payload p in
      rw
        (
          body,
          decode_list_payload p fits,
          decode_fields_lem t signature v,
          signing_payload_lem t signature v,
          signed_lem,
          parity_back signature.y_parity,
          low,
          recovered,
          assembled t signature (signer.keccak256 raw) kind has,
        )
        refl
