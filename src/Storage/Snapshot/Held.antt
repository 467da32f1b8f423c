-- ===== src/Storage/Snapshot/Held.antt =====
-- What the snapshot of a store says of an address, where its keys and values can be read.
use blq_node.Base.{
  ℕ, ◌<◌, ◌^◌, ◌≡◌, refl, sym, ap, ◌∙◌, true, List, [], Option, none, some, Option-cases, inl, inr,
  All-imp, arith, ok, u64_mod,
}
use blq_node.Base.Bytes.{ascii, be_bytes}
use blq_node.Base.Prefixes.{starts_with}
use blq_node.Base.Assoc.{lookup}
use blq_node.Database.{Hex, Sled}
use blq_node.Primitives.{Address, Bix, IsAddress}
use blq_node.Storage.Keys.{balance_key, nonce_key}
use blq_node.Storage.Keys.Separation.{int_from_slice-be_bytes}
use blq_node.Storage.Accounts.{balance, nonce, int_or_zero}
use blq_node.Storage.Roots.{NativeAccounts}
use blq_node.Storage.Snapshot.{set_balance, set_nonce, account_snapshot}
use blq_node.Storage.Snapshot.Ascending.{IsMap, or_zero}
use blq_node.Storage.Snapshot.Loops.{
  number_in, entered_into, IsEntry, read_accounts_lem, lookup-All,
}

abbrev pub number_or_zero : ℕ → Option (List ℕ) → ℕ
number_or_zero size none = 0
number_or_zero size (some v) = number_in size v

pub or_zero_numbers :
    (b n : Option (List ℕ))
    → or_zero (entered_into 8 set_nonce n (entered_into 16 set_balance b none))
      ≡ (number_or_zero 16 b, number_or_zero 8 n)
or_zero_numbers none none = refl
or_zero_numbers none (some n) = refl
or_zero_numbers (some b) none = refl
or_zero_numbers (some b) (some n) = refl

pub number_of_bytes : (size v : ℕ) → v < 256 ^ size → number_in size (be_bytes size v) ≡ v
number_of_bytes size v h = rw (int_from_slice-be_bytes size v h, number_in) refl

module _ ⦃hex : Hex⦄ where
  read_number :
      (p : List ℕ) (size : ℕ) (k : List ℕ) (o : Option (List ℕ))
      → 0 < 256 ^ size
      → ((v : List ℕ) → o ≡ some v → IsEntry p size k v)
      → (int_or_zero size o ≡ ok (number_or_zero size o)) × (number_or_zero size o < 256 ^ size)
  unfolding int_or_zero
  read_number p size k none pos entry = (refl, pos)
  read_number p size k (some v) pos entry =
      let e = entry v refl in
      let number : number_in size v ≡ e.amount = rw (e.value, number_in) refl in
      (e.value ∙ ap ok (sym number), omega (arith, number, e.small))

module _ {Db : Type 0} ⦃sled : Sled Db⦄ ⦃hex : Hex⦄ where
  -- Every key of a balance or of a nonce is an address's, and its value can be read.
  pub record IsWellKeyed (d : Db) : Type 0 where
    pub balances :
        (k v : List ℕ)
        → starts_with (ascii "account:balance:") k ≡ true
        → sled.get k d ≡ some v
        → IsEntry (ascii "account:balance:") 16 k v
    pub nonces :
        (k v : List ℕ)
        → starts_with (ascii "account:nonce:") k ≡ true
        → sled.get k d ≡ some v
        → IsEntry (ascii "account:nonce:") 8 k v

  scanned :
      (p k : List ℕ) (d : Db)
      → starts_with p k ≡ true
      → lookup k (sled.scan_prefix p d) ≡ sled.get k d
  scanned p k d h = elim (Option-cases (sled.get k d)) [
    | inr (v, e) ↦ sled.get-scan_prefix p k v d h e ∙ sym e
    | inl e ↦ elim (Option-cases (lookup k (sled.scan_prefix p d))) [
      | inl q ↦ q ∙ sym e
      | inr (v, q) ↦
          let there =
            lookup-All k v (λ x y. sled.get x d ≡ some y) _
              (All-imp (λ e r. r.1) _ (sled.scan_prefix-get p d)) q in
          let bad : none ≡ some v = sym e ∙ there in absurd (cc)
    ]
  ]

  abbrev pub held : Address → Db → Option (Bix × ℕ)
  held b d =
      entered_into 8 set_nonce (sled.get (nonce_key b) d)
        (entered_into 16 set_balance (sled.get (balance_key b) d) none)

  pub snapshot_lem :
      (d : Db)
      → IsWellKeyed d
      → (m : NativeAccounts) × (account_snapshot d ≡ ok m)
        × IsMap m
        × ((b : Address) → IsAddress b → lookup b m ≡ held b d)
  unfolding account_snapshot lookup balance_key nonce_key
  snapshot_lem d w =
      let bs = sled.scan_prefix (ascii "account:balance:") d in
      let ns = sled.scan_prefix (ascii "account:nonce:") d in
      let (m1, r1, v1, f1) =
        read_accounts_lem (ascii "account:balance:") 16 set_balance (λ n x. refl) d bs []
          (All-imp (λ e h. (w.balances e.0 e.1 h.0 h.1, h.1)) bs
            (sled.scan_prefix-get (ascii "account:balance:") d))
          (tt, tt) in
      let (m2, r2, v2, f2) =
        read_accounts_lem (ascii "account:nonce:") 8 set_nonce (λ n x. refl) d ns m1
          (All-imp (λ e h. (w.nonces e.0 e.1 h.0 h.1, h.1)) ns
            (sled.scan_prefix-get (ascii "account:nonce:") d))
          v1 in
      (
        m2,
        rw (r1, account_snapshot) r2,
        v2,
        (λ b vb.
            f2 b vb
            ∙ ap (λ o. entered_into 8 set_nonce o (lookup b m1))
                (scanned (ascii "account:nonce:") (nonce_key b) d refl)
            ∙ ap (entered_into 8 set_nonce (sled.get (nonce_key b) d)) (
                f1 b vb
                ∙ ap (λ o. entered_into 16 set_balance o none)
                    (scanned (ascii "account:balance:") (balance_key b) d refl))),
      )

  -- An account that is read has its numbers in range.
  pub held_numbers :
      (a : Address) (d : Db)
      → IsWellKeyed d
      → (balance a d ≡ ok (number_or_zero 16 (sled.get (balance_key a) d)))
        × (nonce a d ≡ ok (number_or_zero 8 (sled.get (nonce_key a) d)))
        × (number_or_zero 8 (sled.get (nonce_key a) d) < u64_mod)
  unfolding balance nonce balance_key nonce_key
  held_numbers a d w =
      let b =
        read_number (ascii "account:balance:") 16 (balance_key a) (sled.get (balance_key a) d)
          (omega arith) (λ v e. w.balances (balance_key a) v refl e) in
      let n =
        read_number (ascii "account:nonce:") 8 (nonce_key a) (sled.get (nonce_key a) d)
          (omega arith) (λ v e. w.nonces (nonce_key a) v refl e) in
      (b.0, n.0, omega (arith, n.1))
