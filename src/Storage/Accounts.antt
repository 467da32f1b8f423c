-- ===== src/Storage/Accounts.antt =====
-- crates/blq-storage/src/lib.rs: balances, nonces, code and storage slots of accounts, and the
-- totals of the supply.
pub mod Slots
pub mod WellFormed
pub mod Loops
pub mod Written
use blq_node.Base.{
  ℕ, zero, suc, ◌+◌, ◌≡◌, Bool, true, false, not, ◌==◌, ltb, if◌then◌else◌, List, [], ◌∷◌, ◌++◌,
  Option, none, some, length, any, min, Result, ok, err, ◌>>=◌, u128_max,
}
use blq_node.Base.Bytes.{ascii, be_bytes, bytes_eq}
use blq_node.Base.Assoc.{lookup}
use blq_node.Database.{Hex, Sled}
use blq_node.Primitives.{Hash256, Address, Bix, is_empty, hash_zero}
use blq_node.Storage.Keys.{
  StorageError, serialization, balance_key, nonce_key, code_key, storage_key,
  address_from_storage_key, int_from_slice, array_from,
}

-- What is stored under a key, or a default.
unfoldable pub int_or_zero : ℕ → Option (List ℕ) → Result ℕ StorageError
int_or_zero size o = elim o [ none ↦ ok 0 | some value ↦ int_from_slice size value ]

unfoldable pub has_slot : Hash256 → List (Hash256 × Hash256) → Bool
has_slot slot storage = elim (lookup slot storage) [ none ↦ false | some value ↦ true ]

-- A key is collected where it is the account's.
unfoldable pub keep :
    Address → List ℕ → Address × Hash256 → List (List ℕ × Hash256) → List (List ℕ × Hash256)
keep address key at found = if bytes_eq at.0 address then (key, at.1) ∷ found else found

module _ ⦃hex : Hex⦄ where
  -- The keys of an account's slots among the entries of a scan, each with its slot.
  unfoldable pub existing_keys :
      Address → List (List ℕ × List ℕ) → Result (List (List ℕ × Hash256)) StorageError
  existing_keys address [] = ok []
  existing_keys address (entry ∷ entries) =
      let rest = existing_keys address entries in
      address_from_storage_key entry.0 >>= λ stored.
      rest >>= λ found. ok (keep address entry.0 stored found)

module _ {Db : Type 0} ⦃sled : Sled Db⦄ ⦃hex : Hex⦄ where
  unfoldable pub balance : Address → Db → Result Bix StorageError
  balance address d = int_or_zero 16 (sled.get (balance_key address) d)

  unfoldable pub nonce : Address → Db → Result ℕ StorageError
  nonce address d = int_or_zero 8 (sled.get (nonce_key address) d)

  unfoldable pub put_account : Address → Bix → ℕ → Db → Db
  put_account address balance nonce d =
      sled.insert (nonce_key address) (be_bytes 8 nonce)
        (sled.insert (balance_key address) (be_bytes 16 balance) d)

  unfoldable pub credit_balance : Address → Bix → Db → Result Db StorageError
  credit_balance address amount d =
      if amount == 0
      then ok d
      else balance address d >>= λ old.
          nonce address d >>= λ kept. ok (put_account address (min (old + amount) u128_max) kept d)

  unfoldable pub evm_code : Address → Db → List ℕ
  evm_code address d = elim (sled.get (code_key address) d) [ none ↦ [] | some value ↦ value ]

  unfoldable pub evm_storage_at : Address → Hash256 → Db → Result Hash256 StorageError
  evm_storage_at address slot d = elim (sled.get (storage_key address slot) d) [
    | none ↦ ok hash_zero
    | some value ↦ array_from 32 value
  ]

  unfoldable pub put_code : Address → List ℕ → Db → Db
  put_code address code d =
      if is_empty code
      then sled.remove (code_key address) d
      else sled.insert (code_key address) code d

  -- The slots that the new storage does not name are removed.
  unfoldable pub clear_slots : List (List ℕ × Hash256) → List (Hash256 × Hash256) → Db → Db
  clear_slots [] storage d = d
  clear_slots (entry ∷ entries) storage d =
      clear_slots entries storage (if has_slot entry.1 storage then d else sled.remove entry.0 d)

  unfoldable pub put_slot : Address → Hash256 → Hash256 → Db → Db
  put_slot address slot value d =
      if bytes_eq value hash_zero
      then sled.remove (storage_key address slot) d
      else sled.insert (storage_key address slot) value d

  unfoldable pub put_slots : Address → List (Hash256 × Hash256) → Db → Db
  put_slots address [] d = d
  put_slots address ((slot, value) ∷ storage) d =
      put_slots address storage (put_slot address slot value d)

  pub put_evm_account :
      Address → Bix → ℕ → List ℕ → List (Hash256 × Hash256) → Db → Result Db StorageError
  put_evm_account address balance nonce code storage d =
      let coded = put_code address code (put_account address balance nonce d) in
      existing_keys address (sled.scan_prefix (ascii "account:storage:") coded) >>= λ keys.
      ok (put_slots address storage (clear_slots keys storage coded))

  pub reward_indexed_to : Db → Result ℕ StorageError
  reward_indexed_to d = int_or_zero 8 (sled.get (ascii "state:rewards:indexed_to") d)

  pub set_reward_indexed_to : ℕ → Db → Db
  set_reward_indexed_to number d =
      sled.insert (ascii "state:rewards:indexed_to") (be_bytes 8 number) d

  pub supply_totals : Db → Result (ℕ × ℕ × ℕ) StorageError
  supply_totals d = int_or_zero 8 (sled.get (ascii "state:supply:indexed_to") d) >>= λ indexed_to.
      int_or_zero 16 (sled.get (ascii "state:supply:total") d) >>= λ total.
      int_or_zero 16 (sled.get (ascii "state:supply:burned") d) >>= λ burned.
      ok (indexed_to, total, burned)

  pub set_supply_totals : ℕ → ℕ → ℕ → Db → Db
  set_supply_totals indexed_to total burned d =
      sled.insert (ascii "state:supply:burned") (be_bytes 16 burned) (
        sled.insert (ascii "state:supply:total") (be_bytes 16 total)
          (sled.insert (ascii "state:supply:indexed_to") (be_bytes 8 indexed_to) d))
