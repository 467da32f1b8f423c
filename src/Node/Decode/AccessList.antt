-- ===== src/Node/Decode/AccessList.antt =====
-- Access lists are read back as they were written.
use mathlib.Core.Path.{subst}
use blq_node.Base.{
  ℕ, zero, suc, ◌+◌, ◌≤◌, ◌≡◌, refl, true, false, ◌||◌, leb, ◌==◌, arith, List, [], ◌∷◌, ◌++◌, some,
  length, length-append, map, concat, All, sum_of, u64_max,
}
use blq_node.Primitives.{Hash256, TransactionAccessListItem, is_empty}
use blq_node.Primitives.Rlp.{
  eip1559_rlp_bytes, eip1559_rlp_list_payload, eip1559_rlp_list, encode_item,
  eip1559_encode_access_list,
}
use blq_node.Node.Rlp.{rlp_take_item, rlp_take_raw}
use blq_node.Node.Rlp.Whole.{
  take_raw_item, taken_nonempty, length_of_taken, decode_list_payload, length-list_payload,
}
use blq_node.Node.Rlp.Items.{take_list, take_bytes_item, rlp_take_bytes-rlp_bytes}
use blq_node.Node.Decode.{decode_keys, decode_entry, decode_entries, rlp_decode_access_list}

abbrev encode_keys : List Hash256 → List ℕ
encode_keys ks = concat (map eip1559_rlp_bytes ks)

length-encode_keys :
    (ks : List Hash256) → All (λ k. length k ≡ 32) ks → length ks ≤ length (encode_keys ks)
length-encode_keys [] h = omega arith
length-encode_keys (k ∷ ks) h = omega (
  arith,
  length-append (eip1559_rlp_bytes k) (encode_keys ks),
  length-encode_keys ks h.1,
  length_of_taken (eip1559_rlp_bytes k) (take_bytes_item k [] (omega (arith, h.0))),
)

decode_keys_lem :
    (turns count total : ℕ) (ks : List Hash256)
    → length ks ≤ turns
    → count + length ks ≤ 1_024
    → total + length ks ≤ 4_096
    → All (λ k. length k ≡ 32) ks
    → decode_keys turns count total (encode_keys ks) ≡ some ks
unfolding decode_keys
decode_keys_lem zero count total [] few each all shape = refl
decode_keys_lem (suc turns) count total [] few each all shape = refl
decode_keys_lem zero count total (k ∷ ks) few each all shape = absurd (omega arith)
decode_keys_lem (suc turns) count total (k ∷ ks) few each all shape =
    let there : is_empty (eip1559_rlp_bytes k ++ encode_keys ks) ≡ false =
      taken_nonempty _ (take_bytes_item k (encode_keys ks) (omega (arith, shape.0))) in
    let room : (leb 1_024 count || leb 4_096 total) ≡ false = ground arith in
    let exact : (length k == 32) ≡ true = ground (arith, shape.0) in
    rw
      (
        there,
        room,
        rlp_take_bytes-rlp_bytes k (encode_keys ks) (omega (arith, shape.0)),
        exact,
        decode_keys_lem turns (count + 1) (total + 1) ks (omega arith) (omega arith) (omega arith)
            shape.1,
      )
      refl

-- The shape that the type of an entry gives, and the limit on its keys.
pub record IsEntry (item : TransactionAccessListItem) : Type 0 where
  pub address : length item.address ≡ 20
  pub keys : All (λ k. length k ≡ 32) item.storage_keys
  pub few : length item.storage_keys ≤ 1_024

abbrev key_list : TransactionAccessListItem → List ℕ
key_list item = eip1559_rlp_list_payload (encode_keys item.storage_keys)

abbrev entry_payload : TransactionAccessListItem → List ℕ
entry_payload item = eip1559_rlp_bytes item.address ++ (key_list item ++ [])

encode_item-payload :
    (item : TransactionAccessListItem)
    → encode_item item ≡ eip1559_rlp_list_payload (entry_payload item)
unfolding encode_item eip1559_rlp_list
encode_item-payload item = refl

decode_entry_lem :
    (total : ℕ) (item : TransactionAccessListItem)
    → IsEntry item
    → total + length item.storage_keys ≤ 4_096
    → length (encode_item item) ≤ u64_max
    → decode_entry total (encode_item item) ≡ some item
unfolding decode_entry
decode_entry_lem total item v all size =
    let whole : length (eip1559_rlp_list_payload (entry_payload item)) ≤ u64_max =
      subst (λ xs. length xs ≤ u64_max) (encode_item-payload item) size in
    let payload_fits : length (entry_payload item) ≤ u64_max =
      omega (arith, length-list_payload (entry_payload item)) in
    let keys : List ℕ = encode_keys item.storage_keys in
    let keys_fit : length keys ≤ u64_max = omega (
      arith,
      length-append (eip1559_rlp_bytes item.address) (key_list item ++ []),
      length-append (key_list item) [],
      length-list_payload keys,
    ) in
    let exact : (length item.address == 20) ≡ true = ground (arith, v.address) in
    rw
      (
        encode_item-payload item,
        decode_list_payload (entry_payload item) payload_fits,
        rlp_take_bytes-rlp_bytes item.address (key_list item ++ []) (omega (arith, v.address)),
        exact,
        take_list keys [] keys_fit,
        decode_keys_lem (length keys) 0 total item.storage_keys
            (length-encode_keys item.storage_keys v.keys) (omega (arith, v.few)) all v.keys,
      )
      refl

abbrev encode_items : List TransactionAccessListItem → List ℕ
encode_items items = concat (map encode_item items)

take_encoded :
    (item : TransactionAccessListItem) (rest : List ℕ)
    → length (encode_item item) ≤ u64_max
    → rlp_take_item (encode_item item ++ rest) ≡ some (true, entry_payload item, rest)
take_encoded item rest h =
    let whole : length (eip1559_rlp_list_payload (entry_payload item)) ≤ u64_max =
      subst (λ xs. length xs ≤ u64_max) (encode_item-payload item) h in
    rw (encode_item-payload item) (
      take_list (entry_payload item) rest (omega (arith, length-list_payload (entry_payload item))))

decode_entries_lem :
    (turns count total : ℕ) (items : List TransactionAccessListItem)
    → length items ≤ turns
    → count + length items ≤ 256
    → total + sum_of (λ item. length item.storage_keys) items ≤ 4_096
    → All IsEntry items
    → length (encode_items items) ≤ u64_max
    → decode_entries turns count total (encode_items items) ≡ some items
unfolding decode_entries
decode_entries_lem zero count total [] few each all v size = refl
decode_entries_lem (suc turns) count total [] few each all v size = refl
decode_entries_lem zero count total (x ∷ xs) few each all v size = absurd (omega arith)
decode_entries_lem (suc turns) count total (x ∷ xs) few each all v size =
    let parts = length-append (encode_item x) (encode_items xs) in
    let fits : length (encode_item x) ≤ u64_max = omega arith in
    let taken = take_encoded x (encode_items xs) fits in
    let there : is_empty (encode_item x ++ encode_items xs) ≡ false = taken_nonempty _ taken in
    let room : leb 256 count ≡ false = ground arith in
    rw
      (
        there,
        room,
        take_raw_item (encode_item x) (encode_items xs) true (entry_payload x) taken,
        decode_entry_lem total x v.0 (omega arith) fits,
        decode_entries_lem turns (count + 1) (total + length x.storage_keys) xs (omega arith)
            (omega arith) (omega arith) v.1 (omega arith),
      )
      refl

length-encode_items :
    (items : List TransactionAccessListItem)
    → length (encode_items items) ≤ u64_max
    → length items ≤ length (encode_items items)
length-encode_items [] h = omega arith
length-encode_items (x ∷ xs) h =
    let parts = length-append (encode_item x) (encode_items xs) in
    omega (
      arith,
      length-encode_items xs (omega arith),
      length_of_taken (encode_item x) (take_encoded x [] (omega arith)),
    )

-- An access list that keeps the limits is read back as it was written, whatever follows it.
pub decode_access_list-encode :
    (items : List TransactionAccessListItem) (rest : List ℕ)
    → length items ≤ 256
    → sum_of (λ item. length item.storage_keys) items ≤ 4_096
    → All IsEntry items
    → length (eip1559_encode_access_list items) ≤ u64_max
    → rlp_decode_access_list (eip1559_encode_access_list items ++ rest) ≡ some (items, rest)
unfolding rlp_decode_access_list eip1559_encode_access_list eip1559_rlp_list
decode_access_list-encode items rest each all v size =
    let fits : length (encode_items items) ≤ u64_max =
      omega (arith, length-list_payload (encode_items items)) in
    rw
      (
        take_list (encode_items items) rest fits,
        decode_entries_lem (length (encode_items items)) 0 0 items (length-encode_items items fits)
            (omega arith) (omega arith) v fits,
      )
      refl

pub take_raw-access_list :
    (items : List TransactionAccessListItem) (rest : List ℕ)
    → length (eip1559_encode_access_list items) ≤ u64_max
    → rlp_take_raw (eip1559_encode_access_list items ++ rest)
      ≡ some (eip1559_encode_access_list items, rest)
unfolding eip1559_encode_access_list eip1559_rlp_list
take_raw-access_list items rest size =
    take_raw_item (eip1559_rlp_list_payload (encode_items items)) rest true (encode_items items) (
      take_list (encode_items items) rest (omega (arith, length-list_payload (encode_items items))))
