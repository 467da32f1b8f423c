-- ===== src/Storage/Snapshot/Credit.antt =====
-- The projected root of a credit is the root that the credit leaves.
use blq_node.Base.{
  ℕ, ◌+◌, ◌<◌, ◌^◌, ◌≡◌, refl, sym, ap, ◌∙◌, true, false, ◌==◌, ltb, if◌then◌else◌, List, ◌++◌,
  none, some, Bool-cases, inl, inr, arith, ok, min, u128_mod, u128_max, u64_mod,
}
use blq_node.Base.Bytes.{ascii, be_bytes, bytes_eq, bytes_eq_iff, bytes_eq_sym}
use blq_node.Base.Prefixes.{prefix_apart}
use blq_node.Base.Assoc.{lookup}
use blq_node.Externals.{Externals}
use blq_node.Database.{Hex, Sled}
use blq_node.Primitives.{Hash256, Address, Bix, IsAddress}
use blq_node.Storage.Keys.{int_from_slice, balance_key, nonce_key}
use blq_node.Storage.Keys.Separation.{balance_key_eq, nonce_key_eq, int_from_slice-be_bytes}
use blq_node.Storage.Accounts.{put_account, credit_balance}
use blq_node.Storage.Roots.{NativeAccounts, state_root_from_accounts}
use blq_node.Storage.Snapshot.{
  upsert, set_balance, set_nonce, add_balance, state_root, projected_credit_state_root,
}
use blq_node.Storage.Snapshot.Ascending.{IsMap, or_zero, lookup-upsert, upsert-IsMap, map_ext}
use blq_node.Storage.Snapshot.Loops.{entered_into, IsEntry, some_same}
use blq_node.Storage.Snapshot.Held.{
  number_or_zero, or_zero_numbers, number_of_bytes, IsWellKeyed, held, snapshot_lem, held_numbers,
}

module _ {Db : Type 0} ⦃sled : Sled Db⦄ ⦃hex : Hex⦄ where
  module _ (a : Address) (va : IsAddress a) (bal n : ℕ) (d : Db) (fits : bal < u128_mod)
      (low : n < u64_mod) where
    put_get :
        (k : List ℕ)
        → sled.get k (put_account a bal n d) ≡ (
            if bytes_eq (nonce_key a) k
            then some (be_bytes 8 n)
            else if bytes_eq (balance_key a) k
            then some (be_bytes 16 bal)
            else sled.get k d)
    unfolding put_account
    put_get k =
        sled.get-insert k (nonce_key a) (be_bytes 8 n) _
        ∙ ap (λ o. if bytes_eq (nonce_key a) k then some (be_bytes 8 n) else o)
            (sled.get-insert k (balance_key a) (be_bytes 16 bal) d)

    pub put_account-IsWellKeyed : IsWellKeyed d → IsWellKeyed (put_account a bal n d)
    unfolding balance_key nonce_key
    put_account-IsWellKeyed w = record {
      balances = λ k v p e.
          let other : bytes_eq (nonce_key a) k ≡ false =
            bytes_eq_sym (nonce_key a) k
            ∙ prefix_apart (ascii "account:balance:") k (nonce_key a) p refl in
          entry_of (ascii "account:balance:") 16 bal (balance_key a) k v refl fits
            (w.balances k v p) (sym (put_get k ∙ rw other refl) ∙ e);
      nonces = λ k v p e.
          let other : bytes_eq (balance_key a) k ≡ false =
            bytes_eq_sym (balance_key a) k
            ∙ prefix_apart (ascii "account:nonce:") k (balance_key a) p refl in
          entry_of (ascii "account:nonce:") 8 n (nonce_key a) k v refl low (w.nonces k v p)
            (sym (put_get k ∙ rw other refl) ∙ e);
    }
      where
        entry_of :
            (p : List ℕ) (size x : ℕ) (key k v : List ℕ)
            → key ≡ p ++ hex.encode a
            → x < 256 ^ size
            → (sled.get k d ≡ some v → IsEntry p size k v)
            → (if bytes_eq key k then some (be_bytes size x) else sled.get k d) ≡ some v
            → IsEntry p size k v
        entry_of p size x key k v at range old e = elim (Bool-cases (bytes_eq key k)) [
          | inl same ↦
              let value : be_bytes size x ≡ v = some_same (rw same at e) in
              record {
                address = a;
                is_address = va;
                key = sym ((bytes_eq_iff key k).0 same) ∙ at;
                amount = x;
                value = ap (int_from_slice size) (sym value) ∙ int_from_slice-be_bytes size x range;
                small = range;
              }
          | inr other ↦ old (rw other at e)
        ]

    held-put_account :
        (b : Address)
        → IsAddress b
        → held b (put_account a bal n d) ≡ (if bytes_eq a b then some (bal, n) else held b d)
    unfolding balance_key nonce_key bytes_eq
    held-put_account b vb =
        let nonces =
          put_get (nonce_key b)
          ∙ ap (λ c. if c then some (be_bytes 8 n) else sled.get (nonce_key b) d)
              (nonce_key_eq a b va.1 vb.1) in
        let balances =
          put_get (balance_key b)
          ∙ ap (λ c. if c then some (be_bytes 16 bal) else sled.get (balance_key b) d)
              (balance_key_eq a b va.1 vb.1) in
        elim (Bool-cases (bytes_eq a b)) [
          | inl same ↦
              ap
                (λ o. entered_into 8 set_nonce o (
                  entered_into 16 set_balance (sled.get (balance_key b) (put_account a bal n d))
                    none))
                (nonces
                  ∙ ap (λ c. if c then some (be_bytes 8 n) else sled.get (nonce_key b) d) same)
              ∙ ap
                  (λ o.
                    entered_into 8 set_nonce (some (be_bytes 8 n))
                      (entered_into 16 set_balance o none))
                  (balances
                    ∙ ap (λ c. if c then some (be_bytes 16 bal) else sled.get (balance_key b) d)
                        same)
              ∙ rw (number_of_bytes 8 n low, number_of_bytes 16 bal fits, same) refl
          | inr other ↦
              ap
                (λ o. entered_into 8 set_nonce o (
                  entered_into 16 set_balance (sled.get (balance_key b) (put_account a bal n d))
                    none))
                (nonces
                  ∙ ap (λ c. if c then some (be_bytes 8 n) else sled.get (nonce_key b) d) other)
              ∙ ap
                  (λ o.
                    entered_into 8 set_nonce (sled.get (nonce_key b) d)
                      (entered_into 16 set_balance o none))
                  (balances
                    ∙ ap (λ c. if c then some (be_bytes 16 bal) else sled.get (balance_key b) d)
                        other)
              ∙ rw other refl
        ]

module _ {Db : Type 0} ⦃sled : Sled Db⦄ ⦃hex : Hex⦄ ⦃env : Externals⦄ where
  credited_map :
      (a : Address) (amount : ℕ) (d : Db) (m m' : NativeAccounts)
      → IsAddress a
      → IsWellKeyed d
      → IsMap m
      → ((b : Address) → IsAddress b → lookup b m ≡ held b d)
      → IsMap m'
      → ((b : Address)
          → IsAddress b
          → lookup b m'
            ≡ held b (
                put_account a
                  (min (number_or_zero 16 (sled.get (balance_key a) d) + amount) u128_max)
                  (number_or_zero 8 (sled.get (nonce_key a) d))
                  d))
      → m' ≡ upsert a (add_balance amount) m
  credited_map a amount d m m' va w v f v' f' =
      let nums = held_numbers a d w in
      let own : or_zero (lookup a m) ≡ (
        number_or_zero 16 (sled.get (balance_key a) d),
        number_or_zero 8 (sled.get (nonce_key a) d),
      ) =
        ap or_zero (f a va)
        ∙ or_zero_numbers (sled.get (balance_key a) d) (sled.get (nonce_key a) d) in
      map_ext m' (upsert a (add_balance amount) m) v' (upsert-IsMap a (add_balance amount) m va v)
        (λ b vb.
          f' b vb
          ∙ held-put_account a va _ _ d (omega arith) nums.2 b vb
          ∙ ap (λ x. if bytes_eq a b then some (add_balance amount x) else held b d) (sym own)
          ∙ ap (λ o. if bytes_eq a b then some (add_balance amount (or_zero (lookup a m))) else o)
              (sym (f b vb))
          ∙ sym (lookup-upsert a b (add_balance amount) m va v))

  -- The projected root of a credit is the state root of the store after the credit, where the keys
  -- and the values of balances and nonces can be read; both are computed without an error.
  pub projected_credit_state_root-credit_balance :
      (a : Address) (amount : Bix) (d : Db)
      → IsAddress a
      → IsWellKeyed d
      → (d' : Db) × (credit_balance a amount d ≡ ok d')
        × (r : Hash256) × (projected_credit_state_root a amount d ≡ ok r)
        × (state_root d' ≡ ok r)
  unfolding credit_balance projected_credit_state_root state_root
  projected_credit_state_root-credit_balance a amount d va w =
      let (m, read, map, found) = snapshot_lem {Db = Db} d w in
      elim (Bool-cases (amount == 0)) [
        | inl none_there ↦
            let zero_there : ltb 0 amount ≡ false = ground (arith, none_there) in
            (
              d,
              rw (none_there, credit_balance) refl,
              state_root_from_accounts m,
              rw (read, zero_there, projected_credit_state_root) refl,
              rw (read, state_root) refl,
            )
        | inr positive ↦
            let more : ltb 0 amount ≡ true = ground (arith, positive) in
            let nums = held_numbers a d w in
            let bal = min (number_or_zero 16 (sled.get (balance_key a) d) + amount) u128_max in
            let n = number_or_zero 8 (sled.get (nonce_key a) d) in
            let kept = put_account-IsWellKeyed a va bal n d (omega arith) nums.2 w in
            let (m', read', map', found') = snapshot_lem {Db = Db} (put_account a bal n d) kept in
            (
              put_account a bal n d,
              rw (positive, nums.0, nums.1, credit_balance) refl,
              state_root_from_accounts (upsert a (add_balance amount) m),
              rw (read, more, projected_credit_state_root) refl,
              rw (read', state_root)
                  (ap (λ x. ok (state_root_from_accounts x))
                    (credited_map a amount d m m' va w map found map' found')),
            )
      ]
