-- ===== src/Node/Decode/Turns.antt =====
-- The loops over an access list have enough turns: more than one for each byte change nothing.
use blq_node.Base.{
  ℕ, zero, suc, ◌+◌, ◌≤◌, ◌≡◌, refl, ap, not, leb, ◌||◌, ◌==◌, arith, List, [], ◌∷◌, some, length,
}
use blq_node.Node.Rlp.{guarded, ◌>>=◌, rlp_take_bytes, rlp_take_raw}
use blq_node.Node.Rlp.Chains.{bind_same}
use blq_node.Node.Rlp.Shrink.{take_bytes_lt, take_raw_lt}
use blq_node.Node.Decode.{decode_keys, decode_entry, decode_entries}

-- Any number of turns that is not below the number of bytes gives the same keys.
pub decode_keys_turns :
    (n m count total : ℕ) (bytes : List ℕ)
    → length bytes ≤ n
    → length bytes ≤ m
    → decode_keys n count total bytes ≡ decode_keys m count total bytes
unfolding decode_keys
decode_keys_turns zero zero count total bytes a b = refl
decode_keys_turns zero (suc m) count total [] a b = refl
decode_keys_turns (suc n) zero count total [] a b = refl
decode_keys_turns zero (suc m) count total (x ∷ bytes) a b = absurd (omega arith)
decode_keys_turns (suc n) zero count total (x ∷ bytes) a b = absurd (omega arith)
decode_keys_turns (suc n) (suc m) count total [] a b = refl
decode_keys_turns (suc n) (suc m) count total (x ∷ bytes) a b =
    ap (guarded (leb 1_024 count || leb 4_096 total)) (
      bind_same (rlp_take_bytes (x ∷ bytes)) _ _ (λ key e.
        let shorter = take_bytes_lt x bytes key e in
        ap (λ rest. guarded (not (length key.0 == 32)) (rest >>= λ keys. some (key.0 ∷ keys)))
          (decode_keys_turns n m (count + 1) (total + 1) key.1 (omega arith) (omega arith))))

-- Any number of turns that is not below the number of bytes gives the same entries.
pub decode_entries_turns :
    (n m count total : ℕ) (bytes : List ℕ)
    → length bytes ≤ n
    → length bytes ≤ m
    → decode_entries n count total bytes ≡ decode_entries m count total bytes
unfolding decode_entries
decode_entries_turns zero zero count total bytes a b = refl
decode_entries_turns zero (suc m) count total [] a b = refl
decode_entries_turns (suc n) zero count total [] a b = refl
decode_entries_turns zero (suc m) count total (x ∷ bytes) a b = absurd (omega arith)
decode_entries_turns (suc n) zero count total (x ∷ bytes) a b = absurd (omega arith)
decode_entries_turns (suc n) (suc m) count total [] a b = refl
decode_entries_turns (suc n) (suc m) count total (x ∷ bytes) a b = ap (guarded (leb 256 count)) (
    bind_same (rlp_take_raw (x ∷ bytes)) _ _ (λ entry e.
      let shorter = take_raw_lt x bytes entry e in
      bind_same (decode_entry total entry.0) _ _ (λ item f.
        ap (λ rest. rest >>= λ items. some (item ∷ items))
          (decode_entries_turns n m (count + 1) (total + length item.storage_keys) entry.1
            (omega arith) (omega arith)))))
