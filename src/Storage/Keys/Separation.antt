-- ===== src/Storage/Keys/Separation.antt =====
-- Two keys of the store are equal only where they are of one family and name one thing.
use blq_node.Base.{
  ◌++◌, ℕ, ◌^◌, ◌<◌, ◌≡◌, refl, sym, ap, ◌∙◌, true, false, ◌==◌, List, none, length, All-imp,
  Bool-cases, inl, inr, ok_injective, arith, Result, ok, err, u64_mod,
}
use blq_node.Base.Bytes.{
  ascii, bytes_eq, bytes_eq_iff, be_bytes, be_value-be_bytes, length-be_bytes, IsBytes,
}
use blq_node.Base.Prefixes.{
  starts_with, strip_prefix, strip_prefix-append, split_at_byte-append, bytes_eq-append,
}
use blq_node.Base.Decimals.{padded, padded-injective}
use blq_node.Database.{Hex, is_hex_digit}
use blq_node.Externals.{IsHash}
use blq_node.Primitives.{Hash256, Address, IsAddress}
use blq_node.Primitives.Hex.{hash_from_hex, address_from_hex, from_hex-encode, encode-injective}
use blq_node.Storage.Keys.{
  address_from_key, StorageError, serialization, code_key, block_key, header_key, storage_key,
  balance_key, nonce_key, address_from_storage_key, int_from_slice, array_from,
}

pub int_from_slice-be_bytes :
    (size v : ℕ) → v < 256 ^ size → int_from_slice size (be_bytes size v) ≡ ok v
unfolding int_from_slice array_from
int_from_slice-be_bytes size v h =
    let fits : (length (be_bytes size v) == size) ≡ true = ground (arith, length-be_bytes size v) in
    rw fits (ap ok (be_value-be_bytes size v h))

eq_of_injective :
    (xs ys : List ℕ) (n m : ℕ) → (xs ≡ ys → n ≡ m) → (n ≡ m → xs ≡ ys) → bytes_eq xs ys ≡ (n == m)
eq_of_injective xs ys n m f g = ground (arith, bytes_eq_iff xs ys)

padded_eq : (n m : ℕ) → n < u64_mod → m < u64_mod → bytes_eq (padded 20 n) (padded 20 m) ≡ (n == m)
padded_eq n m h k =
    eq_of_injective (padded 20 n) (padded 20 m) n m (padded-injective n m h k) (ap (padded 20))

pub block_key_eq :
    (n m : ℕ) → n < u64_mod → m < u64_mod → bytes_eq (block_key n) (block_key m) ≡ (n == m)
unfolding block_key
block_key_eq n m h k =
    bytes_eq-append (ascii "block:number:") (padded 20 n) (padded 20 m) ∙ padded_eq n m h k

pub header_key_eq :
    (n m : ℕ) → n < u64_mod → m < u64_mod → bytes_eq (header_key n) (header_key m) ≡ (n == m)
unfolding header_key
header_key_eq n m h k =
    bytes_eq-append (ascii "header:number:") (padded 20 n) (padded 20 m) ∙ padded_eq n m h k

no_colon : (b : ℕ) → is_hex_digit b ≡ true → (b == 58) ≡ false
no_colon b h = ground arith

differs : (x y : List ℕ) → (x ≡ y → ⊥) → bytes_eq x y ≡ false
differs x y f = elim (Bool-cases (bytes_eq x y)) [
  | inl same ↦ absurd (f ((bytes_eq_iff x y).0 same))
  | inr other ↦ other
]

ne_of_bytes_eq : (b a : List ℕ) → bytes_eq b a ≡ false → a ≡ b → ⊥
ne_of_bytes_eq b a h e = let t : bytes_eq b a ≡ true = (bytes_eq_iff b a).1 (sym e) in cc

module _ ⦃hex : Hex⦄ where
  pub encode_eq :
      (a b : List ℕ) → IsBytes a → IsBytes b → bytes_eq (hex.encode a) (hex.encode b) ≡ bytes_eq a b
  encode_eq a b h k = ground (
    arith,
    bytes_eq_iff (hex.encode a) (hex.encode b),
    bytes_eq_iff a b,
    λ (e : hex.encode a ≡ hex.encode b). encode-injective a b h k e,
    λ (e : a ≡ b). ap hex.encode e,
  )

  pub storage_key_parts :
      (a s : List ℕ)
      → IsAddress a
      → IsHash s
      → address_from_storage_key (storage_key a s) ≡ ok (a, s)
  unfolding address_from_storage_key storage_key hash_from_hex address_from_hex
  storage_key_parts a s v w =
      let parts =
        split_at_byte-append 58 (hex.encode a) (hex.encode s)
          (All-imp no_colon (hex.encode a) (hex.encode-digits a)) in
      rw
        (
          parts,
          from_hex-encode 20 a v.0 v.1,
          from_hex-encode 32 s w.0 w.1,
          address_from_storage_key,
        )
        refl

  pub storage_key-injective :
      (a b s t : List ℕ)
      → IsAddress a
      → IsAddress b
      → IsHash s
      → IsHash t
      → storage_key a s ≡ storage_key b t
      → (a ≡ b) × (s ≡ t)
  storage_key-injective a b s t va vb vs vt e =
      let x = storage_key_parts a s va vs in
      let y = storage_key_parts b t vb vt in
      let z = ap address_from_storage_key e in
      let left : Result (Address × Hash256) StorageError = ok (a, s) in
      let right : Result (Address × Hash256) StorageError = ok (b, t) in
      let same : left ≡ right = sym x ∙ z ∙ y in (cc, cc)

  pub storage_key_prefix :
      (a s : List ℕ) → starts_with (ascii "account:storage:") (storage_key a s) ≡ true
  unfolding storage_key
  storage_key_prefix a s = refl

  pub other_key :
      (a b t s : List ℕ)
      → IsAddress a
      → IsAddress b
      → IsHash t
      → IsHash s
      → bytes_eq b a ≡ false
      → bytes_eq (storage_key a t) (storage_key b s) ≡ false
  other_key a b t s va vb vt vs other =
      differs _ _ (λ e. ne_of_bytes_eq b a other (storage_key-injective a b t s va vb vt vs e).0)

  pub other_entry :
      (a b s t k : List ℕ)
      → IsAddress b
      → IsHash s
      → bytes_eq b a ≡ false
      → address_from_storage_key k ≡ ok (a, t)
      → bytes_eq k (storage_key b s) ≡ false
  other_entry a b s t k vb vs other h = differs _ _ (λ e. ne_of_bytes_eq b a other (
      ap (λ x. x.0)
        (ok_injective (sym h ∙ ap address_from_storage_key e ∙ storage_key_parts b s vb vs))))

  -- A key of another family than the slots' is none of them.
  pub plain_key :
      (k j : List ℕ) (parts : Address × Hash256)
      → strip_prefix (ascii "account:storage:") j ≡ none
      → address_from_storage_key k ≡ ok parts
      → bytes_eq k j ≡ false
  unfolding address_from_storage_key
  plain_key k j parts none_there h = differs k j (λ e.
      let bad : address_from_storage_key j ≡ err serialization =
        rw (none_there, address_from_storage_key) refl in
      let same : ok parts ≡ err serialization = sym h ∙ ap address_from_storage_key e ∙ bad in cc)

  pub balance_key_eq :
      (a b : List ℕ)
      → IsBytes a
      → IsBytes b
      → bytes_eq (balance_key a) (balance_key b) ≡ bytes_eq a b
  unfolding balance_key
  balance_key_eq a b h k =
      bytes_eq-append (ascii "account:balance:") (hex.encode a) (hex.encode b) ∙ encode_eq a b h k

  pub nonce_key_eq :
      (a b : List ℕ) → IsBytes a → IsBytes b → bytes_eq (nonce_key a) (nonce_key b) ≡ bytes_eq a b
  unfolding nonce_key
  nonce_key_eq a b h k =
      bytes_eq-append (ascii "account:nonce:") (hex.encode a) (hex.encode b) ∙ encode_eq a b h k

  pub code_key_eq :
      (a b : List ℕ) → IsBytes a → IsBytes b → bytes_eq (code_key a) (code_key b) ≡ bytes_eq a b
  unfolding code_key
  code_key_eq a b h k =
      bytes_eq-append (ascii "account:code:") (hex.encode a) (hex.encode b) ∙ encode_eq a b h k

  pub address_of_key : (p a : List ℕ) → IsAddress a → address_from_key p (p ++ hex.encode a) ≡ ok a
  unfolding address_from_key address_from_hex
  address_of_key p a v =
      rw (strip_prefix-append p (hex.encode a), from_hex-encode 20 a v.0 v.1, address_from_key) refl
