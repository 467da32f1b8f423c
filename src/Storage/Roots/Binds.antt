-- ===== src/Storage/Roots/Binds.antt =====
-- The root of the native accounts commits to the accounts that have funds.
use blq_node.Base.{
  ℕ, ◌^◌, ◌<◌, ◌≡◌, ◌≢◌, ◌⊎◌, inl, inr, refl, sym, ap, ◌∙◌, [], ◌∷◌, length, length-append, filter,
  arith, Bool-cases,
}
use blq_node.Base.Bytes.{
  ascii, be_bytes, be_value, be_value-be_bytes, length-be_bytes, bytes_eq, bytes_eq_iff,
}
use blq_node.Externals.{Externals}
use blq_node.Primitives.{Address, Bix, hash_bytes}
use blq_node.Primitives.Encoding.Injective.{split_append}
use blq_node.Storage.Roots.{
  NativeAccounts, AreAccounts, has_funds, account_bytes, accounts_preimage,
  state_root_from_accounts,
}

account_same :
    {x y : Address × (Bix × ℕ)} {xs ys : NativeAccounts}
    → x.0 ≡ y.0
    → x.1.0 ≡ y.1.0
    → x.1.1 ≡ y.1.1
    → xs ≡ ys
    → ◌≡◌ {A = NativeAccounts} (x ∷ xs) (y ∷ ys)
account_same a b c d = cc

be_bytes_same : (n v w : ℕ) → v < 256 ^ n → w < 256 ^ n → be_bytes n v ≡ be_bytes n w → v ≡ w
be_bytes_same n v w h k e = sym (be_value-be_bytes n v h) ∙ ap be_value e ∙ be_value-be_bytes n w k

account_bytes-injective :
    (xs ys : NativeAccounts)
    → AreAccounts xs
    → AreAccounts ys
    → account_bytes xs ≡ account_bytes ys
    → xs ≡ ys
unfolding account_bytes
account_bytes-injective [] [] h k e = refl
account_bytes-injective [] (y ∷ ys) h k e =
    absurd (omega (arith, ap length e, length-append {0}, length-be_bytes, k.0.0.0))
account_bytes-injective (x ∷ xs) [] h k e =
    absurd (omega (arith, ap length e, length-append {0}, length-be_bytes, h.0.0.0))
account_bytes-injective (x ∷ xs) (y ∷ ys) h k e =
    let (address, e1) = split_append x.0 y.0 (h.0.0.0 ∙ sym k.0.0.0) e in
    let (balance, e2) =
      split_append (be_bytes 16 x.1.0) (be_bytes 16 y.1.0) (omega (arith, length-be_bytes)) e1 in
    let (nonce, e3) =
      split_append (be_bytes 8 x.1.1) (be_bytes 8 y.1.1) (omega (arith, length-be_bytes)) e2 in
    let same_balance = be_bytes_same 16 x.1.0 y.1.0 (omega arith) (omega arith) balance in
    let same_nonce = be_bytes_same 8 x.1.1 y.1.1 (omega arith) (omega arith) nonce in
    let rest = account_bytes-injective xs ys h.1 k.1 e3 in
    account_same address same_balance same_nonce rest

filter-AreAccounts : (xs : NativeAccounts) → AreAccounts xs → AreAccounts (filter has_funds xs)
filter-AreAccounts [] h = tt
filter-AreAccounts (x ∷ xs) h = elim (Bool-cases (has_funds x)) [
  | inl e ↦ rw e (h.0, filter-AreAccounts xs h.1)
  | inr e ↦ rw e (filter-AreAccounts xs h.1)
]

accounts_preimage-injective :
    (xs ys : NativeAccounts)
    → AreAccounts xs
    → AreAccounts ys
    → accounts_preimage xs ≡ accounts_preimage ys
    → filter has_funds xs ≡ filter has_funds ys
unfolding accounts_preimage
accounts_preimage-injective xs ys h k e =
    let (tag, e1) = split_append (ascii "BLQ-STATE-v1") (ascii "BLQ-STATE-v1") refl e in
    let (count, e2) =
      split_append (be_bytes 8 _) (be_bytes 8 _) (omega (arith, length-be_bytes)) e1 in
    account_bytes-injective (filter has_funds xs) (filter has_funds ys) (filter-AreAccounts xs h)
      (filter-AreAccounts ys k) e2

module _ ⦃env : Externals⦄ where
  -- Two preimages with one digest.
  abbrev pub RootsCollide : NativeAccounts → NativeAccounts → Type 0
  RootsCollide xs ys =
      (accounts_preimage xs ≢ accounts_preimage ys)
      × (hash_bytes (accounts_preimage xs) ≡ hash_bytes (accounts_preimage ys))

  -- Two sets of accounts under one state root have the same addresses, balances and nonces, those
  -- with neither balance nor nonce left aside, unless their two preimages collide under SHA-256.
  pub state_root_from_accounts_binds :
      (xs ys : NativeAccounts)
      → AreAccounts xs
      → AreAccounts ys
      → state_root_from_accounts xs ≡ state_root_from_accounts ys
      → (filter has_funds xs ≡ filter has_funds ys) ⊎ RootsCollide xs ys
  unfolding state_root_from_accounts
  state_root_from_accounts_binds xs ys h k e =
      elim (Bool-cases (bytes_eq (accounts_preimage xs) (accounts_preimage ys))) [
        | inl same ↦ inl (accounts_preimage-injective xs ys h k ((bytes_eq_iff _ _).0 same))
        | inr differ ↦
            inr ((λ p. cc ((bytes_eq_iff (accounts_preimage xs) (accounts_preimage ys)).1 p)), e)
      ]
