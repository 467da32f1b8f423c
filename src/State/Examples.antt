-- ===== src/State/Examples.antt =====
-- The theorems of the state at concrete accounts.
use blq_node.Base.{◌+◌, ◌≡◌, refl, arith, [], ◌∷◌}
use blq_node.Base.Bytes.{bytes_eq}
use blq_node.Base.Assoc.{lookup}
use blq_node.State.{InMemoryState, empty_account, or_empty, account, transfer}
use blq_node.State.Transfer.{IsPaid, transfer-IsPaid, transfer_to_self}
use blq_node.Samples.{alice, bob}

abbrev accounts : InMemoryState
accounts = record {
  accounts =
      (
        alice,
        record {
          nonce = 3;
          balance = 1_000;
          code_hash = [];
          storage_root = [];
          code = [];
          storage = [];
        },
      )
      ∷ [];
}

transfer-IsPaid_example : IsPaid alice bob 3 100 7 accounts (transfer alice bob 3 100 7 accounts).0
unfolding transfer account or_empty lookup bytes_eq empty_account
transfer-IsPaid_example =
    transfer-IsPaid alice bob 3 100 7 accounts refl (omega arith) (omega arith) refl

transfer_to_self_example :
    ((account alice (transfer alice alice 3 100 7 accounts).0).balance
      ≡ (account alice accounts).balance + 100)
    × ((account alice (transfer alice alice 3 100 7 accounts).0).nonce ≡ 3)
unfolding transfer account or_empty lookup bytes_eq
transfer_to_self_example = transfer_to_self alice 3 100 7 accounts (omega arith) refl
