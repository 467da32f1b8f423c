-- ===== src/Storage/Accounts/Written.antt =====
-- What an account reads as after `put_evm_account`, and that other accounts read as before.
use mathlib.Core.Path.{subst}
use blq_node.Base.{
  ℕ, ◌≡◌, ◌<◌, ◌^◌, refl, sym, ap, ◌∙◌, Bool, true, false, if◌then◌else◌, List, [], ◌∷◌, Option,
  none, some, arith, All, Result, ok, ◌>>=◌, Bool-cases, inl, inr, length, u64_mod, u128_mod,
}
use blq_node.Base.Bytes.{ascii, bytes_eq, bytes_eq_iff, bytes_eq_sym, be_bytes}
use blq_node.Base.Assoc.{lookup}
use blq_node.Externals.{IsHash}
use blq_node.Database.{Hex, Sled}
use blq_node.Primitives.{Hash256, Address, Bix, IsAddress}
use blq_node.Storage.Keys.{StorageError, balance_key, nonce_key, code_key}
use blq_node.Storage.Keys.Separation.{
  int_from_slice-be_bytes, balance_key_eq, nonce_key_eq, code_key_eq,
}
use blq_node.Storage.Accounts.{
  int_or_zero, balance, nonce, evm_code, evm_storage_at, put_slots, clear_slots, existing_keys,
  put_account, put_code, put_evm_account,
}
use blq_node.Storage.Accounts.Slots.{Distinct, IsSlotOf, existing_keys-IsSlotOf}
use blq_node.Storage.Accounts.WellFormed.{
  HasReadableSlots, existing_keys_total, put_account-HasReadableSlots, put_code-HasReadableSlots,
  clear_slots-HasReadableSlots, put_slots-HasReadableSlots,
}
use blq_node.Storage.Accounts.Loops.{
  slot_value, read_slot, own_slot, other_slot, plain_slot, coded_slots, storage_at_lem,
}

-- The accounts as the rest of the node sees them: total maps.
pub record View : Type 0 where
  pub balance_of : Address → Result Bix StorageError
  pub nonce_of : Address → Result ℕ StorageError
  pub code_of : Address → List ℕ
  pub slot_of : Address → Hash256 → Result Hash256 StorageError

-- To write an account is to replace what is said of it, its slots included, and of no other.
abbrev pub write_account : Address → Bix → ℕ → List ℕ → List (Hash256 × Hash256) → View → View
write_account a bal n code storage v = record {
  balance_of = λ b. if bytes_eq a b then ok bal else v.balance_of b;
  nonce_of = λ b. if bytes_eq a b then ok n else v.nonce_of b;
  code_of = λ b. if bytes_eq a b then code else v.code_of b;
  slot_of = λ b s. if bytes_eq a b then ok (slot_value (lookup s storage)) else v.slot_of b s;
}

-- Two views agree on every address and every slot.
pub record Agree (v w : View) : Type 0 where
  pub balances : (b : Address) → IsAddress b → v.balance_of b ≡ w.balance_of b
  pub nonces : (b : Address) → IsAddress b → v.nonce_of b ≡ w.nonce_of b
  pub codes : (b : Address) → IsAddress b → v.code_of b ≡ w.code_of b
  pub slots : (b : Address) (s : Hash256) → IsAddress b → IsHash s → v.slot_of b s ≡ w.slot_of b s

-- The ranges that the types of the arguments give.
pub record IsAccount (bal n : ℕ) (storage : List (Hash256 × Hash256)) : Type 0 where
  pub balance : bal < u128_mod
  pub nonce : n < u64_mod
  pub slots : All (λ e. IsHash e.0) storage
  pub values : All (λ e. length e.1 ≡ 32) storage
  pub distinct : Distinct storage

int_of_if :
    (size v : ℕ) (c : Bool) (o : Option (List ℕ))
    → v < 256 ^ size
    → int_or_zero size (if c then some (be_bytes size v) else o)
      ≡ (if c then ok v else int_or_zero size o)
unfolding int_or_zero
int_of_if size v true o h = int_from_slice-be_bytes size v h
int_of_if size v false o h = refl

code_of_option : Option (List ℕ) → List ℕ
code_of_option none = []
code_of_option (some code) = code

code_of_if :
    (c : Bool) (x o : Option (List ℕ))
    → code_of_option (if c then x else o) ≡ (if c then code_of_option x else code_of_option o)
code_of_if true x o = refl
code_of_if false x o = refl

module _ {Db : Type 0} ⦃sled : Sled Db⦄ ⦃hex : Hex⦄ where
  abbrev pub view : Db → View
  view d = record {
    balance_of = λ a. balance a d;
    nonce_of = λ a. nonce a d;
    code_of = λ a. evm_code a d;
    slot_of = λ a s. evm_storage_at a s d;
  }

  coded_balance :
      (a code b : List ℕ) (bal n : ℕ) (d : Db)
      → sled.get (balance_key b) (put_code a code (put_account a bal n d)) ≡ (
          if bytes_eq (balance_key a) (balance_key b)
          then some (be_bytes 16 bal)
          else sled.get (balance_key b) d)
  unfolding put_code put_account code_key nonce_key balance_key bytes_eq
  coded_balance a [] b bal n d =
      sled.get-remove (balance_key b) (code_key a) _
      ∙ sled.get-insert (balance_key b) (nonce_key a) _ _
      ∙ sled.get-insert (balance_key b) (balance_key a) _ _
  coded_balance a (c ∷ code) b bal n d =
      sled.get-insert (balance_key b) (code_key a) _ _
      ∙ sled.get-insert (balance_key b) (nonce_key a) _ _
      ∙ sled.get-insert (balance_key b) (balance_key a) _ _

  coded_nonce :
      (a code b : List ℕ) (bal n : ℕ) (d : Db)
      → sled.get (nonce_key b) (put_code a code (put_account a bal n d)) ≡ (
          if bytes_eq (nonce_key a) (nonce_key b)
          then some (be_bytes 8 n)
          else sled.get (nonce_key b) d)
  unfolding put_code put_account code_key nonce_key balance_key bytes_eq
  coded_nonce a [] b bal n d =
      sled.get-remove (nonce_key b) (code_key a) _
      ∙ sled.get-insert (nonce_key b) (nonce_key a) _ _
      ∙ ap (λ o. if bytes_eq (nonce_key a) (nonce_key b) then some (be_bytes 8 n) else o)
          (sled.get-insert (nonce_key b) (balance_key a) _ _)
  coded_nonce a (c ∷ code) b bal n d =
      sled.get-insert (nonce_key b) (code_key a) _ _
      ∙ sled.get-insert (nonce_key b) (nonce_key a) _ _
      ∙ ap (λ o. if bytes_eq (nonce_key a) (nonce_key b) then some (be_bytes 8 n) else o)
          (sled.get-insert (nonce_key b) (balance_key a) _ _)

  coded_code :
      (a code b : List ℕ) (bal n : ℕ) (d : Db)
      → code_of_option (sled.get (code_key b) (put_code a code (put_account a bal n d))) ≡ (
          if bytes_eq (code_key a) (code_key b)
          then code
          else code_of_option (sled.get (code_key b) d))
  unfolding put_code put_account code_key nonce_key balance_key bytes_eq code_of_option
  coded_code a [] b bal n d =
      let kept =
        sled.get-insert (code_key b) (nonce_key a) _ _
        ∙ sled.get-insert (code_key b) (balance_key a) _ _ in
      ap code_of_option (
        sled.get-remove (code_key b) (code_key a) _
        ∙ ap (λ o. if bytes_eq (code_key a) (code_key b) then none else o) kept)
      ∙ code_of_if (bytes_eq (code_key a) (code_key b)) none (sled.get (code_key b) d)
  coded_code a (c ∷ code) b bal n d =
      let kept =
        sled.get-insert (code_key b) (nonce_key a) _ _
        ∙ sled.get-insert (code_key b) (balance_key a) _ _ in
      ap code_of_option (
        sled.get-insert (code_key b) (code_key a) _ _
        ∙ ap (λ o. if bytes_eq (code_key a) (code_key b) then some (c ∷ code) else o) kept)
      ∙ code_of_if (bytes_eq (code_key a) (code_key b)) (some (c ∷ code)) (sled.get (code_key b) d)

  code_lem : (b : List ℕ) (d : Db) → evm_code b d ≡ code_of_option (sled.get (code_key b) d)
  unfolding evm_code code_of_option
  code_lem b d = ground arith

  module _ (a code : List ℕ) (bal n : ℕ) (storage : List (Hash256 × Hash256)) (d : Db)
      (keys : List (List ℕ × Hash256)) (va : IsAddress a) (acc : IsAccount bal n storage)
      (read : existing_keys a
          (sled.scan_prefix (ascii "account:storage:") (put_code a code (put_account a bal n d)))
        ≡ ok keys) where
    abbrev coded : Db
    coded = put_code a code (put_account a bal n d)

    abbrev written : Db
    written = put_slots a storage (clear_slots keys storage coded)

    kept_keys : All (IsSlotOf a) keys
    kept_keys = existing_keys-IsSlotOf a _ keys read

    written_balance :
        (b : Address)
        → IsAddress b
        → balance b written ≡ (if bytes_eq a b then ok bal else balance b d)
    unfolding balance balance_key
    written_balance b vb =
        ap (int_or_zero 16) (
          plain_slot (balance_key b) a keys storage coded refl va acc.slots kept_keys
          ∙ coded_balance a code b bal n d)
        ∙ int_of_if 16 bal _ _ acc.balance
        ∙ ap (λ c. if c then ok bal else int_or_zero 16 (sled.get (balance_key b) d))
            (balance_key_eq a b va.1 vb.1)

    written_nonce :
        (b : Address) → IsAddress b → nonce b written ≡ (if bytes_eq a b then ok n else nonce b d)
    unfolding nonce nonce_key
    written_nonce b vb =
        ap (int_or_zero 8) (
          plain_slot (nonce_key b) a keys storage coded refl va acc.slots kept_keys
          ∙ coded_nonce a code b bal n d)
        ∙ int_of_if 8 n _ _ acc.nonce
        ∙ ap (λ c. if c then ok n else int_or_zero 8 (sled.get (nonce_key b) d))
            (nonce_key_eq a b va.1 vb.1)

    written_code :
        (b : Address)
        → IsAddress b
        → evm_code b written ≡ (if bytes_eq a b then code else evm_code b d)
    unfolding code_key
    written_code b vb =
        code_lem b written
        ∙ ap code_of_option
            (plain_slot (code_key b) a keys storage coded refl va acc.slots kept_keys)
        ∙ coded_code a code b bal n d
        ∙ ap (λ c. if c then code else code_of_option (sled.get (code_key b) d))
            (code_key_eq a b va.1 vb.1)
        ∙ ap (λ o. if bytes_eq a b then code else o) (sym (code_lem b d))

    written_slot :
        (b : Address) (s : Hash256)
        → IsAddress b
        → IsHash s
        → evm_storage_at b s written
          ≡ (if bytes_eq a b then ok (slot_value (lookup s storage)) else evm_storage_at b s d)
    written_slot b s vb vs = elim (Bool-cases (bytes_eq a b)) [
      | inl own ↦
          let same : a ≡ b = (bytes_eq_iff a b).0 own in
          rw own (
            subst (λ x. evm_storage_at x s written ≡ ok (slot_value (lookup s storage))) same
              (own_slot a s keys storage coded va vs acc.slots acc.values acc.distinct read))
      | inr other ↦
          let apart : bytes_eq b a ≡ false = bytes_eq_sym b a ∙ other in
          rw other (
            storage_at_lem b s written
            ∙ ap read_slot (
                other_slot a b s keys storage coded va vb vs acc.slots apart kept_keys
                ∙ coded_slots a code b s bal n d)
            ∙ sym (storage_at_lem b s d))
    ]

  -- Writing an account to a store whose keys of slots can be read succeeds, keeps the store so, and
  -- shows as the replacement of that account alone: its balance, nonce, code and every slot, where
  -- a slot that the new map does not name is zero, and of no other account anything.
  pub put_evm_account-refines :
      (a code : List ℕ) (bal n : ℕ) (storage : List (Hash256 × Hash256)) (d : Db)
      → IsAddress a
      → IsAccount bal n storage
      → HasReadableSlots d
      → (d' : Db) × (put_evm_account a bal n code storage d ≡ ok d')
        × HasReadableSlots d'
        × Agree (view d') (write_account a bal n code storage (view d))
  unfolding put_evm_account
  put_evm_account-refines a code bal n storage d va acc v =
      let c = put_code a code (put_account a bal n d) in
      let put = put_account a bal n d in
      let readable : HasReadableSlots c =
        put_code-HasReadableSlots {Db = Db} a code put
          (put_account-HasReadableSlots {Db = Db} a bal n d v) in
      let (keys, read) =
        existing_keys_total a _ c readable (sled.scan_prefix-get (ascii "account:storage:") c) in
      (
        put_slots a storage (clear_slots keys storage c),
        rw (read, ◌>>=◌) refl,
        put_slots-HasReadableSlots {Db = Db} a storage (clear_slots keys storage c) va acc.slots
            (clear_slots-HasReadableSlots {Db = Db} keys storage c readable),
        record {
          balances = written_balance a code bal n storage d keys va acc read;
          nonces = written_nonce a code bal n storage d keys va acc read;
          codes = written_code a code bal n storage d keys va acc read;
          slots = written_slot a code bal n storage d keys va acc read;
        },
      )
