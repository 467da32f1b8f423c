-- ===== src/Primitives/Hex.antt =====
-- crates/blq-primitives/src/lib.rs: the hexadecimal texts of hashes and addresses.
mod Examples
use blq_node.Base.{
  ℕ, ◌+◌, ◌≡◌, ◌≢◌, refl, ap, sym, Option-cases, inl, inr, ◌∙◌, Bool, true, false, not, ◌==◌,
  if◌then◌else◌, List, [], ◌∷◌, ◌++◌, Option, none, some, length, arith, All, Result, ok, err,
}
use blq_node.Base.Bytes.{IsBytes, ascii}
use blq_node.Base.Prefixes.{strip_prefix, strip_prefix-append}
use blq_node.Database.{Hex, is_hex_digit}
use blq_node.Externals.{IsHash}
use blq_node.Primitives.Types.{Hash256, Address, IsAddress}
use blq_node.Primitives.Encoding.{to_word}

pub data HexHashError : Type 0 where
  invalid_hex : HexHashError
  invalid_length : ℕ → HexHashError

-- `strip_prefix("0x").unwrap_or(value)`.
unfoldable pub trimmed : List ℕ → List ℕ
trimmed value = elim (strip_prefix (ascii "0x") value) [ none ↦ value | some rest ↦ rest ]

module _ ⦃hex : Hex⦄ where
  -- What `Hash256::from_hex` and `Address::from_hex` share, at 32 and at 20 bytes.
  pub from_hex : ℕ → List ℕ → Result (List ℕ) HexHashError
  from_hex size value = elim (hex.decode (trimmed value)) [
    | none ↦ err invalid_hex
    | some bytes ↦
        if not (length bytes == size) then err (invalid_length (length bytes)) else ok bytes
  ]

  unfoldable pub hash_to_hex : Hash256 → List ℕ
  hash_to_hex hash = hex.encode hash

  unfoldable pub hash_from_hex : List ℕ → Result Hash256 HexHashError
  hash_from_hex value = from_hex 32 value

  unfoldable pub address_to_hex : Address → List ℕ
  address_to_hex address = ascii "0x" ++ hex.encode address

  unfoldable pub address_from_hex : List ℕ → Result Address HexHashError
  address_from_hex value = from_hex 20 value

  -- `none` is the panic of `unreachable!()`.
  pub parse_beneficiary : List ℕ → Option (Result Hash256 HexHashError)
  parse_beneficiary value = elim (address_from_hex value) [
    | ok address ↦ some (ok (to_word address))
    | err e ↦ elim e [
      | invalid_length n ↦ if n == 20 then none else some (hash_from_hex value)
      | invalid_hex ↦ some (hash_from_hex value)
    ]
  ]

  digits_trimmed : (bs : List ℕ) → All (λ b. is_hex_digit b ≡ true) bs → trimmed bs ≡ bs
  unfolding trimmed
  digits_trimmed [] h = refl
  digits_trimmed (x ∷ []) h = ground arith
  digits_trimmed (x ∷ y ∷ ys) h = ground (arith, h.0, h.1.0)

  checked : ℕ → List ℕ → Result (List ℕ) HexHashError
  checked size bytes =
      if not (length bytes == size) then err (invalid_length (length bytes)) else ok bytes

  checked_ok : (size : ℕ) (bs : List ℕ) → length bs ≡ size → checked size bs ≡ ok bs
  unfolding checked
  checked_ok size bs h = ground arith

  from_hex_of_decode :
      (size : ℕ) (value bs : List ℕ)
      → hex.decode (trimmed value) ≡ some bs
      → from_hex size value ≡ checked size bs
  unfolding from_hex checked
  from_hex_of_decode size value bs h = rw (h, from_hex) refl

  decode_digits : (bs : List ℕ) → IsBytes bs → hex.decode (trimmed (hex.encode bs)) ≡ some bs
  decode_digits bs k =
      ap hex.decode (digits_trimmed (hex.encode bs) (hex.encode-digits bs)) ∙ hex.decode-encode bs k

  pub from_hex-encode :
      (size : ℕ) (bs : List ℕ)
      → length bs ≡ size
      → IsBytes bs
      → from_hex size (hex.encode bs) ≡ ok bs
  from_hex-encode size bs h k =
      from_hex_of_decode size (hex.encode bs) bs (decode_digits bs k) ∙ checked_ok size bs h

  pub from_hex_prefixed :
      (size : ℕ) (bs : List ℕ)
      → length bs ≡ size
      → IsBytes bs
      → from_hex size (ascii "0x" ++ hex.encode bs) ≡ ok bs
  unfolding trimmed
  from_hex_prefixed size bs h k =
      from_hex_of_decode size (ascii "0x" ++ hex.encode bs) bs (hex.decode-encode bs k)
      ∙ checked_ok size bs h

  pub encode-injective :
      (a b : List ℕ) → IsBytes a → IsBytes b → hex.encode a ≡ hex.encode b → a ≡ b
  encode-injective a b h k e =
      let x = hex.decode-encode a h in
      let y = hex.decode-encode b k in
      let z = ap hex.decode e in let same : some a ≡ some b = cc in cc

  checked_length : (size : ℕ) (bs : List ℕ) → checked size bs ≢ err (invalid_length size)
  unfolding checked
  checked_length size bs h = ground arith

  undecoded :
      (size : ℕ) (value : List ℕ) {r : Result (List ℕ) HexHashError}
      → hex.decode (trimmed value) ≡ none
      → from_hex size value ≡ r
      → err invalid_hex ≡ r
  unfolding from_hex
  undecoded size value e h = rw (e, from_hex) at h

  checked_short : (h : List ℕ) → length h ≡ 32 → checked 20 h ≡ err (invalid_length 32)
  unfolding checked
  checked_short h e = ground (arith, e)

  -- A length that is refused is not the one that was asked for.
  from_hex_length : (size : ℕ) (value : List ℕ) → from_hex size value ≢ err (invalid_length size)
  from_hex_length size value h = elim (Option-cases (hex.decode (trimmed value))) [
    | inl e ↦ let bad : err invalid_hex ≡ err (invalid_length size) = undecoded size value e h in cc
    | inr (bs, e) ↦ checked_length size bs (sym (from_hex_of_decode size value bs e) ∙ h)
  ]

  -- A beneficiary is parsed without a panic, whatever the text is; the text of an address, with its
  -- prefix, gives the word of the address, and the text of a hash gives the hash.
  pub parse_beneficiary_lem :
      (value : List ℕ) (a : Address) (h : Hash256)
      → IsAddress a
      → IsHash h
      → (parse_beneficiary value ≢ none)
        × (parse_beneficiary (address_to_hex a) ≡ some (ok (to_word a)))
        × (parse_beneficiary (hash_to_hex h) ≡ some (ok h))
  unfolding parse_beneficiary address_from_hex hash_from_hex address_to_hex hash_to_hex
  parse_beneficiary_lem value a h v w =
      let short : from_hex 20 (hex.encode h) ≡ err (invalid_length 32) =
        from_hex_of_decode 20 (hex.encode h) h (decode_digits h w.1) ∙ checked_short h w.0 in
      let whole = from_hex-encode 32 h w.0 w.1 in
      (
        (λ e. ground (arith, from_hex_length 20 value)),
        rw (from_hex_prefixed 20 a v.0 v.1, parse_beneficiary) refl,
        rw (short, parse_beneficiary) (ap some whole),
      )
