-- ===== src/Node/Examples.antt =====
-- A signed payment, encoded and decoded.
use blq_node.Base.{
  ℕ, ◌≡◌, refl, arith, true, List, [], ◌∷◌, ◌++◌, some, ok, replicate, length, ◌≤◌, u64_max,
}
use blq_node.Base.Bytes.{be_bytes}
use blq_node.Primitives.{Transaction, TransactionSignature, TransactionAccessListItem}
use blq_node.Primitives.Rlp.{
  len_bytes, eip1559_rlp_header, eip1559_rlp_list, eip1559_rlp_list_payload, eip1559_rlp_bytes,
  encode_item, eip1559_rlp_u64, eip1559_rlp_u128, eip1559_rlp_word, from_first_nonzero,
  first_nonzero, eip1559_encode_access_list, eip1559_typed_rlp, eip1559_fields, signature_fields,
  eip1559_signed_bytes, eip1559_signing_payload,
}
use blq_node.Node.Rlp.Words.{IsRecipient}
use blq_node.Node.Decode.{rlp_decode_access_list, decode_eip1559_transaction}
use blq_node.Node.Decode.AccessList.{IsEntry, decode_access_list-encode}
use blq_node.Node.Decode.Fields.{IsSendable}
use blq_node.Node.Decode.RoundTrip.{decode-signed_bytes}
use blq_node.Node.Decode.Sound.{IsDecodedFrom, decode-IsDecodedFrom}
use blq_node.Samples.{checksum, sample_signer, alice, bob, target, payment}

abbrev signature : TransactionSignature
signature = record { y_parity = true; r = replicate 32 200; s = replicate 32 0 }

abbrev entry : TransactionAccessListItem
entry = record { address = bob; storage_keys = target ∷ replicate 32 0 ∷ [] }

entry-IsEntry : IsEntry entry
entry-IsEntry = record { address = refl; keys = (refl, (refl, tt)); few = omega arith }

abbrev signed : Transaction
signed = record (payment alice 300 7 target) {
  access_list = entry ∷ [];
  signature = some signature;
}

list_size : length (eip1559_encode_access_list (entry ∷ [])) ≤ u64_max
unfolding eip1559_encode_access_list encode_item eip1559_rlp_list eip1559_rlp_list_payload
    eip1559_rlp_bytes eip1559_rlp_header len_bytes
list_size = omega arith

signed-IsSendable : IsSendable signed signature
unfolding IsRecipient
signed-IsSendable = record {
  chain = refl;
  nonce = omega arith;
  tip = omega arith;
  fee = omega arith;
  gas = omega arith;
  to = refl;
  value = omega arith;
  payload = omega arith;
  entries = omega arith;
  keys = omega arith;
  shape = (entry-IsEntry, tt);
  list_size = list_size;
  r = refl;
  s = refl;
}

abbrev payload : List ℕ
payload = eip1559_typed_rlp (eip1559_fields signed)

abbrev raw : List ℕ
raw = eip1559_typed_rlp (eip1559_fields signed ++ signature_fields signature)

sent : eip1559_signed_bytes signed ≡ ok raw
unfolding eip1559_signed_bytes
sent = refl

asked : eip1559_signing_payload signed ≡ ok payload
unfolding eip1559_signing_payload
asked = refl

raw_size : length raw ≤ u64_max
unfolding eip1559_typed_rlp eip1559_fields signature_fields eip1559_encode_access_list encode_item
    eip1559_rlp_list eip1559_rlp_list_payload eip1559_rlp_bytes eip1559_rlp_header len_bytes
    eip1559_rlp_u64 eip1559_rlp_u128 eip1559_rlp_word from_first_nonzero first_nonzero be_bytes
raw_size = omega arith

decode_access_list-encode_example :
    rlp_decode_access_list (eip1559_encode_access_list (entry ∷ []) ++ (9 ∷ []))
    ≡ some (entry ∷ [], 9 ∷ [])
decode_access_list-encode_example =
    decode_access_list-encode (entry ∷ []) (9 ∷ []) (omega arith) (omega arith) (entry-IsEntry, tt)
      list_size

decoded :
    decode_eip1559_transaction ⦃signer = sample_signer⦄ raw
    ≡ some (record signed { external_hash = some (checksum raw) })
decoded =
    decode-signed_bytes ⦃signer = sample_signer⦄ signed signature refl refl sent asked
      signed-IsSendable raw_size refl refl

decode-IsDecodedFrom_example :
    IsDecodedFrom ⦃signer = sample_signer⦄ raw
      (record signed { external_hash = some (checksum raw) })
decode-IsDecodedFrom_example = decode-IsDecodedFrom ⦃signer = sample_signer⦄ raw decoded
