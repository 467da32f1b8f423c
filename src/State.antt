-- ===== src/State.antt =====
-- crates/blq-state/src/lib.rs: accounts in memory, and a transfer between two of them.
pub mod Transfer
mod Examples
use blq_node.Base.{
  ℕ, ◌+◌, ◌-◌, Bool, true, false, not, List, [], ◌∷◌, Option, some, none, ltb, ◌==◌, if◌then◌else◌,
  Result, ok, err, add_u64, saturating_add_u128,
}
use blq_node.Base.Assoc.{lookup, insert}
use blq_node.Primitives.{Hash256, Address, Bix, hash_zero}

pub record Account : Type 0 where
  pub nonce : ℕ
  pub balance : Bix
  pub code_hash : Hash256
  pub storage_root : Hash256
  pub code : List ℕ
  pub storage : List (Hash256 × Hash256)

pub empty_account : Account
empty_account = record {
  nonce = 0;
  balance = 0;
  code_hash = hash_zero;
  storage_root = hash_zero;
  code = [];
  storage = [];
}

pub data StateError : Type 0 where
  insufficient_balance invalid_nonce : StateError

pub record InMemoryState : Type 0 where
  pub accounts : List (Address × Account)

abbrev pub or_empty : Option Account → Account
unfolding empty_account
or_empty none = empty_account
or_empty (some a) = a

pub account : Address → InMemoryState → Account
account address s = or_empty (lookup address s.accounts)

pub put_account : Address → Account → InMemoryState → InMemoryState
put_account address a s = record { accounts = insert address a s.accounts }

-- The sender's account after the payment.
pub debit : Bix → Account → Account
debit total sender = record sender {
  balance = sender.balance - total;
  nonce = add_u64 sender.nonce 1;
}

pub credit : Bix → Account → Account
credit value receiver = record receiver { balance = saturating_add_u128 receiver.balance value }

pub transfer :
    Address → Address → ℕ → Bix → Bix → InMemoryState → InMemoryState × Result Unit StateError
transfer from to nonce value fee s =
    let sender = account from s in
    let total = saturating_add_u128 value fee in
    if not (sender.nonce == nonce)
    then (s, err invalid_nonce)
    else if ltb sender.balance total
    then (s, err insufficient_balance)
    else let receiver = account to s in
      (put_account to (credit value receiver) (put_account from (debit total sender) s), ok tt)
