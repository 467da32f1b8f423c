-- ===== src/Storage/Snapshot.antt =====
-- crates/blq-storage/src/lib.rs: `account_snapshot`, which reads all native accounts into a sorted
-- map, and the state roots over it.
pub mod Ascending
pub mod Loops
pub mod Held
pub mod Credit
use Prim.Native.Nat.{Ordering}
use blq_node.Base.{
  ℕ, ◌+◌, ◌≡◌, ltb, if◌then◌else◌, List, [], ◌∷◌, Result, ok, err, ◌>>=◌, min, u128_max,
}
use blq_node.Base.Bytes.{ascii, bytes_cmp}
use blq_node.Externals.{Externals}
use blq_node.Database.{Hex, Sled}
use blq_node.Primitives.{Hash256, Address, Bix}
use blq_node.Storage.Keys.{StorageError, address_from_key, int_from_slice}
use blq_node.Storage.Roots.{NativeAccounts, state_root_from_accounts}

-- `entry(address).or_insert((0, 0))` of a `BTreeMap`, and a change of what it holds.
unfoldable pub upsert : Address → (Bix × ℕ → Bix × ℕ) → NativeAccounts → NativeAccounts
upsert address change [] = (address, change (0, 0)) ∷ []
upsert address change ((other, account) ∷ accounts) = elim (bytes_cmp address other) [
  | Ordering.lt ↦ (address, change (0, 0)) ∷ (other, account) ∷ accounts
  | Ordering.eq ↦ (other, change account) ∷ accounts
  | Ordering.gt ↦ (other, account) ∷ upsert address change accounts
]

abbrev pub set_balance : ℕ → Bix × ℕ → Bix × ℕ
set_balance balance account = (balance, account.1)

abbrev pub set_nonce : ℕ → Bix × ℕ → Bix × ℕ
set_nonce nonce account = (account.0, nonce)

abbrev pub add_balance : ℕ → Bix × ℕ → Bix × ℕ
add_balance amount account = (min (account.0 + amount) u128_max, account.1)

module _ ⦃hex : Hex⦄ where
  -- The loop over the balances, at 16 bytes, and the one over the nonces, at 8.
  unfoldable pub read_accounts :
      List ℕ
      → ℕ
      → (ℕ → Bix × ℕ → Bix × ℕ)
      → List (List ℕ × List ℕ)
      → NativeAccounts
      → Result NativeAccounts StorageError
  read_accounts prefix size change [] accounts = ok accounts
  read_accounts prefix size change (entry ∷ entries) accounts =
      address_from_key prefix entry.0 >>= λ address. int_from_slice size entry.1 >>= λ value.
      read_accounts prefix size change entries (upsert address (change value) accounts)

module _ {Db : Type 0} ⦃sled : Sled Db⦄ ⦃hex : Hex⦄ where
  unfoldable pub account_snapshot : Db → Result NativeAccounts StorageError
  account_snapshot d =
      read_accounts (ascii "account:balance:") 16 set_balance
        (sled.scan_prefix (ascii "account:balance:") d) []
      >>= λ accounts.
          read_accounts (ascii "account:nonce:") 8 set_nonce
            (sled.scan_prefix (ascii "account:nonce:") d) accounts

module _ {Db : Type 0} ⦃sled : Sled Db⦄ ⦃hex : Hex⦄ ⦃env : Externals⦄ where
  unfoldable pub state_root : Db → Result Hash256 StorageError
  state_root d = account_snapshot d >>= λ accounts. ok (state_root_from_accounts accounts)

  unfoldable pub projected_credit_state_root : Address → Bix → Db → Result Hash256 StorageError
  projected_credit_state_root credit_address credit_amount d = account_snapshot d >>= λ accounts.
      ok (
        state_root_from_accounts (
          if ltb 0 credit_amount
          then upsert credit_address (add_balance credit_amount) accounts
          else accounts))
