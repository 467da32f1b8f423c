-- ===== src/Storage/Accounts/Loops.antt =====
-- The keys that the two loops of `put_evm_account` touch, and those that they leave alone.
use blq_node.Base.{
  ℕ, ◌≡◌, refl, sym, ap, ◌∙◌, true, false, List, [], ◌∷◌, Option, none, some, arith, All, All-imp,
  Result, ok, Bool-cases, Option-cases, inl, inr, length, ◌==◌,
}
use blq_node.Base.Bytes.{ascii, bytes_eq, bytes_eq_iff}
use blq_node.Base.Prefixes.{strip_prefix}
use blq_node.Base.Assoc.{lookup}
use blq_node.Externals.{IsHash}
use blq_node.Database.{Hex, Sled}
use blq_node.Primitives.{Hash256, IsAddress, hash_zero}
use blq_node.Storage.Keys.{StorageError, storage_key, balance_key, nonce_key, code_key, array_from}
use blq_node.Storage.Keys.Separation.{
  storage_key_parts, storage_key_prefix, other_key, other_entry, plain_key,
}
use blq_node.Storage.Accounts.{
  evm_storage_at, put_slots, clear_slots, has_slot, existing_keys, put_account, put_code,
}
use blq_node.Storage.Accounts.Slots.{
  Distinct, stored, IsSlotOf, existing_keys_complete, clear_slots-none, clear_slots_apart,
  clear_slots_gone, put_slots_apart, get-put_slots,
}

-- The value of a slot in a map, where an absent slot is zero.
abbrev pub slot_value : Option Hash256 → Hash256
slot_value none = hash_zero
slot_value (some value) = value

-- What is read back of what is stored.
pub read_slot : Option (List ℕ) → Result Hash256 StorageError
read_slot none = ok hash_zero
read_slot (some value) = array_from 32 value

read_none : read_slot none ≡ ok hash_zero
unfolding read_slot
read_none = refl

read_stored : (value : Hash256) → length value ≡ 32 → read_slot (stored value) ≡ ok value
unfolding read_slot array_from
read_stored value h = elim (Bool-cases (bytes_eq value hash_zero)) [
  | inl zero_there ↦ rw zero_there (ap ok (sym ((bytes_eq_iff value hash_zero).0 zero_there)))
  | inr other ↦ let fits : (length value == 32) ≡ true = ground (arith, h) in rw (other, fits) refl
]

has_slot_lem :
    (s : List ℕ) (storage : List (Hash256 × Hash256))
    → lookup s storage ≡ none
    → has_slot s storage ≡ false
unfolding has_slot
has_slot_lem s storage h = rw (h, has_slot) refl

value_length :
    (s v : List ℕ) (storage : List (Hash256 × Hash256))
    → All (λ e. length e.1 ≡ 32) storage
    → lookup s storage ≡ some v
    → length v ≡ 32
unfolding lookup
value_length s v [] h l = absurd (cc)
value_length s v ((t, w) ∷ storage) h l = elim (Bool-cases (bytes_eq t s)) [
  | inl here ↦ let same : some w ≡ some v = rw here at l in let e : w ≡ v = cc in rw (← e) h.0
  | inr there ↦ value_length s v storage h.1 (rw there at l)
]

module _ {Db : Type 0} ⦃sled : Sled Db⦄ ⦃hex : Hex⦄ where
  pub storage_at_lem :
      (a s : List ℕ) (d : Db) → evm_storage_at a s d ≡ read_slot (sled.get (storage_key a s) d)
  unfolding evm_storage_at read_slot
  storage_at_lem a s d = ground arith

  pub coded_slots :
      (a code b s : List ℕ) (bal n : ℕ) (d : Db)
      → sled.get (storage_key b s) (put_code a code (put_account a bal n d))
        ≡ sled.get (storage_key b s) d
  unfolding put_code put_account code_key balance_key nonce_key storage_key bytes_eq
  coded_slots a [] b s bal n d =
      sled.get-remove (storage_key b s) (code_key a) _
      ∙ sled.get-insert (storage_key b s) (nonce_key a) _ _
      ∙ sled.get-insert (storage_key b s) (balance_key a) _ _
  coded_slots a (c ∷ code) b s bal n d =
      sled.get-insert (storage_key b s) (code_key a) _ _
      ∙ sled.get-insert (storage_key b s) (nonce_key a) _ _
      ∙ sled.get-insert (storage_key b s) (balance_key a) _ _

  -- The slots of the account itself, after both loops.
  pub own_slot :
      (a s : List ℕ) (keys : List (List ℕ × Hash256)) (storage : List (Hash256 × Hash256)) (c : Db)
      → IsAddress a
      → IsHash s
      → All (λ e. IsHash e.0) storage
      → All (λ e. length e.1 ≡ 32) storage
      → Distinct storage
      → existing_keys a (sled.scan_prefix (ascii "account:storage:") c) ≡ ok keys
      → evm_storage_at a s (put_slots a storage (clear_slots keys storage c))
        ≡ ok (slot_value (lookup s storage))
  own_slot a s keys storage c va vs slots values apart read =
      let j = storage_key a s in
      let cleared = clear_slots keys storage c in
      let written = get-put_slots a s storage cleared vs slots apart in
      storage_at_lem a s (put_slots a storage cleared)
      ∙ ap read_slot written
      ∙ elim (Option-cases (lookup s storage)) [
        | inr (v, e) ↦ rw e (read_stored v (value_length s v storage values e))
        | inl e ↦
            let gone : sled.get j cleared ≡ none = elim (Option-cases (sled.get j c)) [
              | inl old ↦ clear_slots-none j keys storage c old
              | inr (v, old) ↦
                  let found =
                    sled.get-scan_prefix (ascii "account:storage:") j v c (storage_key_prefix a s)
                      old in
                  let kept =
                    existing_keys_complete a j v s _ keys read found
                      (storage_key_parts a s va vs) in
                  clear_slots_gone j s keys storage c kept (has_slot_lem s storage e)
            ] in
            rw (e, gone) (read_none)
      ]

  -- Those of any other account.
  pub other_slot :
      (a b s : List ℕ) (keys : List (List ℕ × Hash256)) (storage : List (Hash256 × Hash256))
      (c : Db)
      → IsAddress a
      → IsAddress b
      → IsHash s
      → All (λ e. IsHash e.0) storage
      → bytes_eq b a ≡ false
      → All (IsSlotOf a) keys
      → sled.get (storage_key b s) (put_slots a storage (clear_slots keys storage c))
        ≡ sled.get (storage_key b s) c
  other_slot a b s keys storage c va vb vs slots other all =
      put_slots_apart (storage_key b s) a storage (clear_slots keys storage c)
        (All-imp (λ e h. other_key a b e.0 s va vb h vs other) storage slots)
      ∙ clear_slots_apart (storage_key b s) keys storage c
          (All-imp (λ e h. other_entry a b s e.1 e.0 vb vs other h) keys all)

  -- What stands under the key of another family is what stood there before the loops.
  pub plain_slot :
      (j a : List ℕ) (keys : List (List ℕ × Hash256)) (storage : List (Hash256 × Hash256)) (c : Db)
      → strip_prefix (ascii "account:storage:") j ≡ none
      → IsAddress a
      → All (λ e. IsHash e.0) storage
      → All (IsSlotOf a) keys
      → sled.get j (put_slots a storage (clear_slots keys storage c)) ≡ sled.get j c
  plain_slot j a keys storage c apart va slots all =
      put_slots_apart j a storage (clear_slots keys storage c) (
        All-imp
          (λ e h. plain_key (storage_key a e.0) j (a, e.0) apart (storage_key_parts a e.0 va h))
          storage slots)
      ∙ clear_slots_apart j keys storage c
          (All-imp (λ e h. plain_key e.0 j (a, e.1) apart h) keys all)
