-- ===== src/Node/Decode/Limits.antt =====
-- The limits that a decoded access list keeps, whatever the bytes were.
use mathlib.Core.Path.{subst}
use blq_node.Base.{
  ℕ, zero, suc, ◌+◌, ◌≤◌, ◌≡◌, Bool, true, false, not, leb, ◌||◌, ◌==◌, arith, List, [], Option,
  some, none, length, All, sum_of, if◌then◌else◌, ◌⊎◌, inl, inr,
}
use blq_node.Primitives.{TransactionAccessListItem, Hash256, is_empty}
use blq_node.Node.Rlp.Chains.{bind_some, guarded-some, some_injective}
use blq_node.Node.Rlp.{rlp_take_bytes, rlp_take_raw, rlp_take_item, decode_rlp_list}
use blq_node.Node.Decode.{decode_keys, decode_entry, decode_entries, rlp_decode_access_list}
use blq_node.Node.Decode.AccessList.{IsEntry}

either_some :
    {B : Type 0} (c : Bool) (x o : Option B) {b : B}
    → (if c then x else o) ≡ some b
    → (x ≡ some b) ⊎ (o ≡ some b)
either_some true x o h = inl h
either_some false x o h = inr h

-- Keys of 32 bytes, after `count` of this entry and `total` of all entries.
abbrev AreKeys : ℕ → ℕ → List Hash256 → Type 0
AreKeys count total keys =
    All (λ k. length k ≡ 32) keys × (count + length keys ≤ 1_024) × (total + length keys ≤ 4_096)

decode_keys-AreKeys :
    (turns count total : ℕ) (bytes : List ℕ) {keys : List Hash256}
    → decode_keys turns count total bytes ≡ some keys
    → count ≤ 1_024
    → total ≤ 4_096
    → AreKeys count total keys
unfolding decode_keys
decode_keys-AreKeys zero count total bytes h a b =
    elim (either_some (is_empty bytes) (some []) none h) [
      | inl done ↦ subst (AreKeys count total) (some_injective done) (tt, omega arith, omega arith)
      | inr none_left ↦ absurd (ground (arith, none_left))
    ]
decode_keys-AreKeys (suc turns) count total bytes h a b =
    elim (either_some (is_empty bytes) (some []) _ h) [
      | inl done ↦ subst (AreKeys count total) (some_injective done) (tt, omega arith, omega arith)
      | inr more ↦
          let (room, g) = guarded-some (leb 1_024 count || leb 4_096 total) _ more in
          let (key, taken, k) = bind_some (rlp_take_bytes bytes) _ g in
          let (wide, l) = guarded-some (not (length key.0 == 32)) _ k in
          let (rest, found, last) =
            bind_some (decode_keys turns (count + 1) (total + 1) key.1) _ l in
          let below : (count + 1 ≤ 1_024) × (total + 1 ≤ 4_096) = ground (arith, room) in
          let (each, few, all) =
            decode_keys-AreKeys turns (count + 1) (total + 1) key.1 found below.0 below.1 in
          let size : length key.0 ≡ 32 = ground (arith, wide) in
          subst (AreKeys count total) (some_injective last)
            ((size, each), omega (arith, few), omega (arith, all))
    ]

decode_entry-IsEntry :
    (total : ℕ) (entry : List ℕ) {item : TransactionAccessListItem}
    → decode_entry total entry ≡ some item
    → total ≤ 4_096
    → IsEntry item × (total + length item.storage_keys ≤ 4_096)
unfolding decode_entry
decode_entry-IsEntry total entry h b =
    let (payload, p, g) = bind_some (decode_rlp_list entry) _ h in
    let (address, a, k) = bind_some (rlp_take_bytes payload) _ g in
    let (size, l) = guarded-some (not (length address.0 == 20)) _ k in
    let (storage, q, m) = bind_some (rlp_take_item address.1) _ l in
    let (list, n) = guarded-some (not storage.0 || not (is_empty storage.2)) _ m in
    let (keys, found, last) = bind_some (decode_keys (length storage.1) 0 total storage.1) _ n in
    let (each, few, all) =
      decode_keys-AreKeys (length storage.1) 0 total storage.1 found (omega arith) b in
    let twenty : length address.0 ≡ 20 = ground (arith, size) in
    subst (λ item. IsEntry item × (total + length item.storage_keys ≤ 4_096)) (some_injective last)
      (record { address = twenty; keys = each; few = omega (arith, few) }, all)

-- Entries after `count` others, with `total` keys before them.
abbrev pub AreEntries : ℕ → ℕ → List TransactionAccessListItem → Type 0
AreEntries count total items =
    All IsEntry items
    × (count + length items ≤ 256)
    × (total + sum_of (λ item. length item.storage_keys) items ≤ 4_096)

decode_entries-AreEntries :
    (turns count total : ℕ) (bytes : List ℕ) {items : List TransactionAccessListItem}
    → decode_entries turns count total bytes ≡ some items
    → count ≤ 256
    → total ≤ 4_096
    → AreEntries count total items
unfolding decode_entries
decode_entries-AreEntries zero count total bytes h a b =
    elim (either_some (is_empty bytes) (some []) none h) [
      | inl done ↦
          subst (AreEntries count total) (some_injective done) (tt, omega arith, omega arith)
      | inr none_left ↦ absurd (ground (arith, none_left))
    ]
decode_entries-AreEntries (suc turns) count total bytes h a b =
    elim (either_some (is_empty bytes) (some []) _ h) [
      | inl done ↦
          subst (AreEntries count total) (some_injective done) (tt, omega arith, omega arith)
      | inr more ↦
          let (room, g) = guarded-some (leb 256 count) _ more in
          let (entry, taken, k) = bind_some (rlp_take_raw bytes) _ g in
          let (item, read, l) = bind_some (decode_entry total entry.0) _ k in
          let next = total + length item.storage_keys in
          let (shape, keys) = decode_entry-IsEntry total entry.0 read b in
          let (rest, found, last) = bind_some (decode_entries turns (count + 1) next entry.1) _ l in
          let below : count + 1 ≤ 256 = ground (arith, room) in
          let (each, few, all) =
            decode_entries-AreEntries turns (count + 1) next entry.1 found below keys in
          subst (AreEntries count total) (some_injective last)
            ((shape, each), omega (arith, few), omega (arith, all))
    ]

pub decode_access_list-AreEntries :
    (input : List ℕ) {taken : List TransactionAccessListItem × List ℕ}
    → rlp_decode_access_list input ≡ some taken
    → AreEntries 0 0 taken.0
unfolding rlp_decode_access_list
decode_access_list-AreEntries input h =
    let (list, p, g) = bind_some (rlp_take_item input) _ h in
    let (kind, k) = guarded-some (not list.0) _ g in
    let (entries, found, last) = bind_some (decode_entries (length list.1) 0 0 list.1) _ k in
    subst (λ taken. AreEntries 0 0 taken.0) (some_injective last)
      (decode_entries-AreEntries (length list.1) 0 0 list.1 found (omega arith) (omega arith))
