-- ===== src/Node/Decode.antt =====
-- crates/blq-node/src/main.rs: `decode_eip1559_transaction` and what it calls.
pub mod AccessList
pub mod Fields
pub mod RoundTrip
pub mod Limits
pub mod Sound
pub mod Turns
use blq_node.Base.{
  ℕ, zero, suc, ◌+◌, ◌%◌, Bool, true, false, not, ◌||◌, ltb, leb, ◌==◌, if◌then◌else◌, List, [],
  ◌∷◌, ◌++◌, Option, none, some, length, drop, concat, u8_mod,
}
use blq_node.Externals.{Signer}
use blq_node.Primitives.{
  Hash256, Address, Transaction, TransactionAccessListItem, is_empty, mainnet_chain_id,
  max_transaction_payload_bytes, max_access_list_entries, max_access_list_storage_keys_per_entry,
  max_access_list_storage_keys,
}
use blq_node.Primitives.Rlp.{len_bytes}
use blq_node.Node.Rlp.{
  guarded, ◌>>=◌, rlp_take_item, rlp_take_raw, decode_rlp_list, rlp_take_bytes, rlp_take_u64,
  rlp_take_u128, rlp_take_word, rlp_take_optional_address,
}

-- The node's own copy of the encoder.
pub rlp_encode_header : ℕ → ℕ → List ℕ
rlp_encode_header offset len =
    let bytes = len_bytes 8 len in
    if ltb len 56
    then ((offset + len % u8_mod) % u8_mod) ∷ []
    else ((offset + 55 + length bytes % u8_mod) % u8_mod) ∷ bytes

pub rlp_encode_list_payload : List ℕ → List ℕ
rlp_encode_list_payload payload = rlp_encode_header 0xc0 (length payload) ++ payload

pub encode_typed_rlp : ℕ → List ℕ → List ℕ
encode_typed_rlp transaction_type payload = transaction_type ∷ rlp_encode_list_payload payload

-- The first `n` items as they stand, joined, and the rest.
pub take_fields : ℕ → List ℕ → Option (List ℕ × List ℕ)
take_fields zero rest = some ([], rest)
take_fields (suc n) rest = rlp_take_raw rest >>= λ field.
    take_fields n field.1 >>= λ fields. some (field.0 ++ fields.0, fields.1)

pub encode_typed_signing_payload : List ℕ → ℕ → ℕ → Option (List ℕ)
encode_typed_signing_payload payload field_count transaction_type =
    take_fields field_count payload >>= λ fields.
    guarded (is_empty fields.1) (some (encode_typed_rlp transaction_type fields.0))

-- The inner `while`: with the keys of this entry and of all entries so far. Each turn takes a byte
-- at least, so there are enough turns where there are as many as bytes.
pub decode_keys : ℕ → ℕ → ℕ → List ℕ → Option (List Hash256)
decode_keys zero count total keys = if is_empty keys then some [] else none
decode_keys (suc turns) count total keys =
    if is_empty keys
    then some []
    else guarded
        (leb max_access_list_storage_keys_per_entry count || leb max_access_list_storage_keys total)
        (rlp_take_bytes keys >>= λ key.
          guarded (not (length key.0 == 32))
            (decode_keys turns (count + 1) (total + 1) key.1 >>= λ rest. some (key.0 ∷ rest)))

-- One entry.
pub decode_entry : ℕ → List ℕ → Option TransactionAccessListItem
decode_entry total entry = decode_rlp_list entry >>= λ payload.
    rlp_take_bytes payload >>= λ address. guarded (not (length address.0 == 20)) (
      rlp_take_item address.1 >>= λ storage. guarded (not storage.0 || not (is_empty storage.2)) (
        decode_keys (length storage.1) 0 total storage.1 >>= λ keys.
        some (record { address = address.0; storage_keys = keys })))

-- The outer `while`, with the entries and the keys so far.
pub decode_entries : ℕ → ℕ → ℕ → List ℕ → Option (List TransactionAccessListItem)
decode_entries zero count total entries = if is_empty entries then some [] else none
decode_entries (suc turns) count total entries =
    if is_empty entries
    then some []
    else guarded (leb max_access_list_entries count) (
        rlp_take_raw entries >>= λ entry. decode_entry total entry.0 >>= λ item.
        decode_entries turns (count + 1) (total + length item.storage_keys) entry.1 >>= λ rest.
        some (item ∷ rest))

pub rlp_decode_access_list : List ℕ → Option (List TransactionAccessListItem × List ℕ)
rlp_decode_access_list input = rlp_take_item input >>= λ list.
    guarded (not list.0)
      (decode_entries (length list.1) 0 0 list.1 >>= λ entries. some (entries, list.2))

-- What the fields of a raw transaction hold before the signer is known.
pub record RawFields : Type 0 where
  pub chain_id : ℕ
  pub nonce : ℕ
  pub max_priority_fee_per_gas : ℕ
  pub max_fee_per_gas : ℕ
  pub gas_limit : ℕ
  pub to : Option Address
  pub value : ℕ
  pub input : List ℕ
  pub access_list : List TransactionAccessListItem
  pub y_parity : ℕ
  pub r : Hash256
  pub s : Hash256

-- The chain of `rlp_take_*`, with the checks that stand between them.
pub decode_fields : List ℕ → Option RawFields
decode_fields payload = rlp_take_u64 payload >>= λ chain_id.
    guarded (not (chain_id.0 == mainnet_chain_id)) (
      rlp_take_u64 chain_id.1 >>= λ nonce. rlp_take_u128 nonce.1 >>= λ tip.
      rlp_take_u128 tip.1 >>= λ fee. rlp_take_u64 fee.1 >>= λ gas_limit.
      rlp_take_optional_address gas_limit.1 >>= λ to. rlp_take_u128 to.1 >>= λ value.
      rlp_take_bytes value.1 >>= λ input.
      guarded (ltb max_transaction_payload_bytes (length input.0)) (
        rlp_decode_access_list input.1 >>= λ access_list. rlp_take_u64 access_list.1 >>= λ y_parity.
        guarded (ltb 1 y_parity.0) (
          rlp_take_word y_parity.1 >>= λ r. rlp_take_word r.1 >>= λ s.
          guarded (not (is_empty s.1)) (
            some (record {
              chain_id = chain_id.0;
              nonce = nonce.0;
              max_priority_fee_per_gas = tip.0;
              max_fee_per_gas = fee.0;
              gas_limit = gas_limit.0;
              to = to.0;
              value = value.0;
              input = input.0;
              access_list = access_list.0;
              y_parity = y_parity.0;
              r = r.0;
              s = s.0;
            })))))

pub assemble : RawFields → Address → Hash256 → Transaction
assemble f from raw_hash = record {
  chain_id = f.chain_id;
  transaction_type = 2;
  nonce = f.nonce;
  from = from;
  to = f.to;
  value = f.value;
  gas_limit = f.gas_limit;
  max_fee_per_gas = f.max_fee_per_gas;
  max_priority_fee_per_gas = f.max_priority_fee_per_gas;
  payload = f.input;
  access_list = f.access_list;
  signature = some (record { y_parity = f.y_parity == 1; r = f.r; s = f.s });
  external_hash = some raw_hash;
}

module _ ⦃signer : Signer⦄ where
  -- `&raw_bytes[1..]` of an empty input cannot occur: the caller has read the first byte.
  pub decode_eip1559_transaction : List ℕ → Option Transaction
  decode_eip1559_transaction raw_bytes = decode_rlp_list (drop 1 raw_bytes) >>= λ payload.
      encode_typed_signing_payload payload 9 0x02 >>= λ signing_payload.
      decode_fields payload >>= λ f. guarded (signer.is_high_s (f.y_parity == 1) f.r f.s) (
        signer.recover_address (f.y_parity == 1) f.r f.s (signer.keccak256 signing_payload)
        >>= λ from. some (assemble f from (signer.keccak256 raw_bytes)))
