-- ===== src/Storage/Roots.antt =====
-- crates/blq-storage/src/lib.rs: the roots of the native and of the EVM accounts.
pub mod Binds
use blq_node.Base.{
  ℕ, ◌%◌, ◌^◌, ◌≡◌, ◌≢◌, ◌⊎◌, inl, inr, refl, sym, ap, ◌∙◌, Bool, true, false, ◌==◌, ◌&&◌, ◌||◌,
  ltb, if◌then◌else◌, List, [], ◌∷◌, ◌++◌, All, length, length-append, filter, arith, Bool-cases,
  u64_mod, u128_mod, ◌<◌,
}
use mathlib.Core.List.{append_assoc}
use blq_node.Base.Bytes.{
  ascii, be_bytes, be_value, be_value-be_bytes, length-be_bytes, bytes_eq, bytes_eq_iff,
}
use blq_node.Externals.{Externals}
use blq_node.Primitives.{Hash256, Address, Bix, IsAddress, hash_bytes, is_empty}
use blq_node.Primitives.Encoding.Injective.{split_append}
use blq_node.Storage.Blocks.{EvmAccountSnapshot}

abbrev pub NativeAccounts : Type 0
NativeAccounts = List (Address × (Bix × ℕ))

-- The accounts that a root is about.
abbrev pub has_funds : Address × (Bix × ℕ) → Bool
has_funds account = ltb 0 account.1.0 || ltb 0 account.1.1

unfoldable pub account_bytes : NativeAccounts → List ℕ
account_bytes [] = []
account_bytes ((address, account) ∷ accounts) =
    address ++ (be_bytes 16 account.0 ++ (be_bytes 8 account.1 ++ account_bytes accounts))

unfoldable pub accounts_preimage : NativeAccounts → List ℕ
accounts_preimage accounts =
    let entries = filter has_funds accounts in
    ascii "BLQ-STATE-v1" ++ (be_bytes 8 (length entries % u64_mod) ++ account_bytes entries)

pub slot_bytes : List (Hash256 × Hash256) → List ℕ
slot_bytes [] = []
slot_bytes ((slot, value) ∷ slots) = slot ++ (value ++ slot_bytes slots)

module _ ⦃env : Externals⦄ where
  unfoldable pub state_root_from_accounts : NativeAccounts → Hash256
  state_root_from_accounts accounts = hash_bytes (accounts_preimage accounts)

  pub evm_account_bytes : List (Address × EvmAccountSnapshot) → List ℕ
  evm_account_bytes [] = []
  evm_account_bytes ((address, account) ∷ accounts) =
      let rest = evm_account_bytes accounts in
      if (account.0 == 0) && ((account.1 == 0) && (is_empty account.2 && is_empty account.3))
      then rest
      else address
        ++ (be_bytes 16 account.0
            ++ (be_bytes 8 account.1 ++ (hash_bytes account.2 ++ (slot_bytes account.3 ++ rest))))

  pub evm_state_root_from_accounts : List (Address × EvmAccountSnapshot) → Hash256
  evm_state_root_from_accounts accounts =
      hash_bytes (ascii "BLQ-EVM-STATE-v1" ++ evm_account_bytes accounts)

-- The ranges that the types of an account give.
abbrev pub AreAccounts : NativeAccounts → Type 0
AreAccounts accounts = All (λ e. IsAddress e.0 × (e.1.0 < u128_mod) × (e.1.1 < u64_mod)) accounts
