-- ===== src/Storage/Accounts/WellFormed.antt =====
-- Stores whose keys of slots can all be read back: kept by every write to an account.
use mathlib.Core.Path.{subst}
use blq_node.Base.{
  ℕ, ◌≡◌, refl, sym, ◌∙◌, true, false, if◌then◌else◌, List, [], ◌∷◌, none, some, All, ok, ◌>>=◌,
  Bool-cases, inl, inr,
}
use blq_node.Base.Bytes.{ascii, bytes_eq, bytes_eq_iff, be_bytes}
use blq_node.Base.Prefixes.{starts_with}
use blq_node.Externals.{IsHash}
use blq_node.Database.{Hex, Sled}
use blq_node.Primitives.{Hash256, Address, IsAddress, hash_zero}
use blq_node.Storage.Keys.{storage_key, balance_key, nonce_key, code_key, address_from_storage_key}
use blq_node.Storage.Keys.Separation.{storage_key_parts}
use blq_node.Storage.Accounts.{
  put_slot, put_slots, clear_slots, has_slot, existing_keys, put_account, put_code, keep,
}

module _ {Db : Type 0} ⦃sled : Sled Db⦄ ⦃hex : Hex⦄ where
  abbrev pub HasReadableSlots : Db → Type 0
  HasReadableSlots d =
      (k v : List ℕ)
      → starts_with (ascii "account:storage:") k ≡ true
      → sled.get k d ≡ some v
      → (parts : Address × Hash256) × (address_from_storage_key k ≡ ok parts)

  remove-HasReadableSlots :
      (k : List ℕ) (d : Db) → HasReadableSlots d → HasReadableSlots (sled.remove k d)
  remove-HasReadableSlots k d v j w p h = elim (Bool-cases (bytes_eq k j)) [
    | inl here ↦
        let bad : none ≡ some w = sym (sled.get-remove j k d ∙ rw here refl) ∙ h in absurd (cc)
    | inr there ↦ v j w p (sym (sled.get-remove j k d ∙ rw there refl) ∙ h)
  ]

  insert-HasReadableSlots :
      (k x : List ℕ) (d : Db)
      → HasReadableSlots d
      → (starts_with (ascii "account:storage:") k ≡ true
          → (parts : Address × Hash256) × (address_from_storage_key k ≡ ok parts))
      → HasReadableSlots (sled.insert k x d)
  insert-HasReadableSlots k x d v new j w p h = elim (Bool-cases (bytes_eq k j)) [
    | inl here ↦
        let same : k ≡ j = (bytes_eq_iff k j).0 here in
        subst (λ i. (parts : Address × Hash256) × (address_from_storage_key i ≡ ok parts)) same
          (new (rw same p))
    | inr there ↦ v j w p (sym (sled.get-insert j k x d ∙ rw there refl) ∙ h)
  ]

  apart_insert :
      (k x : List ℕ) (d : Db)
      → HasReadableSlots d
      → starts_with (ascii "account:storage:") k ≡ false
      → HasReadableSlots (sled.insert k x d)
  apart_insert k x d v apart = insert-HasReadableSlots k x d v (λ p. absurd (cc))

  pub put_account-HasReadableSlots :
      (a : List ℕ) (b n : ℕ) (d : Db) → HasReadableSlots d → HasReadableSlots (put_account a b n d)
  unfolding put_account balance_key nonce_key
  put_account-HasReadableSlots a b n d v =
      apart_insert (nonce_key a) (be_bytes 8 n) _
        (apart_insert (balance_key a) (be_bytes 16 b) d v refl) refl

  pub put_code-HasReadableSlots :
      (a code : List ℕ) (d : Db) → HasReadableSlots d → HasReadableSlots (put_code a code d)
  unfolding put_code code_key
  put_code-HasReadableSlots a [] d v = remove-HasReadableSlots (code_key a) d v
  put_code-HasReadableSlots a (c ∷ code) d v = apart_insert (code_key a) (c ∷ code) d v refl

  pub clear_slots-HasReadableSlots :
      (keys : List (List ℕ × Hash256)) (storage : List (Hash256 × Hash256)) (d : Db)
      → HasReadableSlots d
      → HasReadableSlots (clear_slots keys storage d)
  unfolding clear_slots
  clear_slots-HasReadableSlots [] storage d v = v
  clear_slots-HasReadableSlots (e ∷ keys) storage d v =
      clear_slots-HasReadableSlots keys storage _
        (elim (has_slot e.1 storage)
          as (λ b. HasReadableSlots (if b then d else sled.remove e.0 d)) [
            | true ↦ v
            | false ↦ remove-HasReadableSlots e.0 d v
          ])

  put_slot-HasReadableSlots :
      (a s x : List ℕ) (d : Db)
      → IsAddress a
      → IsHash s
      → HasReadableSlots d
      → HasReadableSlots (put_slot a s x d)
  unfolding put_slot
  put_slot-HasReadableSlots a s x d h k v =
      elim (bytes_eq x hash_zero)
        as (λ b.
          HasReadableSlots
            (if b then sled.remove (storage_key a s) d else sled.insert (storage_key a s) x d)) [
              | true ↦ remove-HasReadableSlots (storage_key a s) d v
              | false ↦
                  insert-HasReadableSlots (storage_key a s) x d v
                    (λ p. ((a, s), storage_key_parts a s h k))
            ]

  pub put_slots-HasReadableSlots :
      (a : List ℕ) (storage : List (Hash256 × Hash256)) (d : Db)
      → IsAddress a
      → All (λ e. IsHash e.0) storage
      → HasReadableSlots d
      → HasReadableSlots (put_slots a storage d)
  unfolding put_slots
  put_slots-HasReadableSlots a [] d h all v = v
  put_slots-HasReadableSlots a ((s, x) ∷ storage) d h all v =
      put_slots-HasReadableSlots a storage (put_slot a s x d) h all.1
        (put_slot-HasReadableSlots a s x d h all.0 v)

  -- The scan of such a store can be read.
  pub existing_keys_total :
      (a : List ℕ) (entries : List (List ℕ × List ℕ)) (d : Db)
      → HasReadableSlots d
      → All
          (λ e. (starts_with (ascii "account:storage:") e.0 ≡ true) × (sled.get e.0 d ≡ some e.1))
          entries
      → (keys : List (List ℕ × Hash256)) × (existing_keys a entries ≡ ok keys)
  unfolding existing_keys
  existing_keys_total a [] d v h = ([], refl)
  existing_keys_total a (e ∷ entries) d v h =
      let (at, p) = v e.0 e.1 h.0.0 h.0.1 in
      let (found, q) = existing_keys_total a entries d v h.1 in
      (keep a e.0 at found, rw (p, q, ◌>>=◌) refl)
