-- ===== src/Node/Decode/Sound.antt =====
-- What a decoded transaction keeps to, whatever the bytes were.
use mathlib.Core.Path.{subst}
use blq_node.Base.{
  ℕ, ◌≤◌, ◌≡◌, refl, Bool, true, false, not, ltb, ◌==◌, arith, List, Option, some, none, length,
  drop,
}
use blq_node.Externals.{Signer}
use blq_node.Primitives.{Transaction, TransactionSignature, Address, is_empty}
use blq_node.Node.Rlp.{
  guarded, ◌>>=◌, rlp_take_bytes, decode_rlp_list, rlp_take_u64, rlp_take_u128, rlp_take_word,
  rlp_take_optional_address,
}
use blq_node.Node.Decode.{
  RawFields, rlp_decode_access_list, decode_fields, assemble, encode_typed_signing_payload,
  decode_eip1559_transaction,
}
use blq_node.Node.Rlp.Chains.{bind_some, guarded-some, some_injective}
use blq_node.Node.Decode.Limits.{AreEntries, decode_access_list-AreEntries}

equal_of_test : (a b : ℕ) → not (a == b) ≡ false → a ≡ b
equal_of_test a b h = ground (arith, h)

at_most_of_test : (a b : ℕ) → ltb b a ≡ false → a ≤ b
at_most_of_test a b h = ground (arith, h)

-- The checks that stand between the fields.
record AreChecked (f : RawFields) : Type 0 where
  chain : f.chain_id ≡ 707_070
  input : length f.input ≤ 131_072
  entries : AreEntries 0 0 f.access_list

-- What holds of a result, where there is one.
abbrev Yields : {B : Type 0} → (B → Type 0) → Option B → Type 0
Yields {B} P o = (b : B) → o ≡ some b → P b

after_bind :
    {A B : Type 0} {P : B → Type 0} (o : Option A) (next : A → Option B)
    → ((a : A) → o ≡ some a → Yields P (next a))
    → Yields P (o >>= next)
after_bind none next h b e = absurd (ground arith)
after_bind (some a) next h b e = h a refl b e

after_guarded :
    {B : Type 0} {P : B → Type 0} (c : Bool) (o : Option B)
    → (c ≡ false → Yields P o)
    → Yields P (guarded c o)
after_guarded true o h b e = absurd (ground arith)
after_guarded false o h b e = h refl b e

decode_fields-AreChecked : (payload : List ℕ) → Yields AreChecked (decode_fields payload)
unfolding decode_fields
decode_fields-AreChecked payload = after_bind (rlp_take_u64 payload) _ (λ chain_id e1.
    after_guarded (not (chain_id.0 == 707_070)) _ (λ on_chain.
      after_bind (rlp_take_u64 chain_id.1) _ (λ nonce e2.
        after_bind (rlp_take_u128 nonce.1) _ (λ tip e3.
          after_bind (rlp_take_u128 tip.1) _ (λ fee e4.
            after_bind (rlp_take_u64 fee.1) _ (λ gas_limit e5.
              after_bind (rlp_take_optional_address gas_limit.1) _ (λ to e6.
                after_bind (rlp_take_u128 to.1) _ (λ value e7.
                  after_bind (rlp_take_bytes value.1) _ (λ input e8.
                    after_guarded (ltb 131_072 (length input.0)) _ (λ small.
                      after_bind (rlp_decode_access_list input.1) _ (λ access_list found.
                        after_bind (rlp_take_u64 access_list.1) _ (λ y_parity e9.
                          after_guarded (ltb 1 y_parity.0) _ (λ bit.
                            after_bind (rlp_take_word y_parity.1) _ (λ r e10.
                              after_bind (rlp_take_word r.1) _ (λ s e11.
                                after_guarded (not (is_empty s.1)) _ (λ whole f last.
                                  subst AreChecked (some_injective last) (record {
                                    chain = equal_of_test chain_id.0 707_070 on_chain;
                                    input = at_most_of_test (length input.0) 131_072 small;
                                    entries = decode_access_list-AreEntries input.1 found;
                                  })))))))))))))))))

module _ ⦃signer : Signer⦄ where
  -- What holds of a transaction that is decoded from `raw`.
  pub record IsDecodedFrom (raw : List ℕ) (t : Transaction) : Type 0 where
    pub chain : t.chain_id ≡ 707_070
    pub kind : t.transaction_type ≡ 2
    pub payload : length t.payload ≤ 131_072
    pub entries : AreEntries 0 0 t.access_list
    pub hash : t.external_hash ≡ some (signer.keccak256 raw)
    pub signed :
        (signature : TransactionSignature) × (payload : List ℕ) × (signing : List ℕ) × (t.signature
          ≡ some signature)
        × (decode_rlp_list (drop 1 raw) ≡ some payload)
        × (encode_typed_signing_payload payload 9 2 ≡ some signing)
        × (signer.is_high_s signature.y_parity signature.r signature.s ≡ false)
        × (signer.recover_address signature.y_parity signature.r signature.s
              (signer.keccak256 signing)
            ≡ some t.from)

  assembled-IsDecodedFrom :
      (raw payload signing : List ℕ) (f : RawFields) (from : Address)
      → decode_rlp_list (drop 1 raw) ≡ some payload
      → encode_typed_signing_payload payload 9 2 ≡ some signing
      → AreChecked f
      → signer.is_high_s (f.y_parity == 1) f.r f.s ≡ false
      → signer.recover_address (f.y_parity == 1) f.r f.s (signer.keccak256 signing) ≡ some from
      → IsDecodedFrom raw (assemble f from (signer.keccak256 raw))
  unfolding assemble
  assembled-IsDecodedFrom raw payload signing f from body asked v low sender = record {
    chain = v.chain;
    kind = refl;
    payload = v.input;
    entries = v.entries;
    hash = refl;
    signed = (
      record { y_parity = f.y_parity == 1; r = f.r; s = f.s },
      payload,
      signing,
      refl,
      body,
      asked,
      low,
      sender,
    );
  }

  -- Every transaction that is decoded from any bytes is of type 2 and of the main network, keeps the
  -- limits on its payload, its access list and the keys there, has the digest of the bytes as
  -- its hash, and comes with a signature that is not in the upper half and whose signer, over
  -- the first nine fields of the bytes, is the sender.
  pub decode-IsDecodedFrom :
      (raw : List ℕ) {t : Transaction}
      → decode_eip1559_transaction raw ≡ some t
      → IsDecodedFrom raw t
  unfolding decode_eip1559_transaction
  decode-IsDecodedFrom raw h =
      let (payload, p1, h1) = bind_some (decode_rlp_list (drop 1 raw)) _ h in
      let (signing, p2, h2) = bind_some (encode_typed_signing_payload payload 9 2) _ h1 in
      let (f, p3, h3) = bind_some (decode_fields payload) _ h2 in
      let (low, h4) = guarded-some (signer.is_high_s (f.y_parity == 1) f.r f.s) _ h3 in
      let (from, p5, last) =
        bind_some (signer.recover_address (f.y_parity == 1) f.r f.s (signer.keccak256 signing)) _
          h4 in
      let v = decode_fields-AreChecked payload f p3 in
      subst (IsDecodedFrom raw) (some_injective last)
        (assembled-IsDecodedFrom raw payload signing f from p1 p2 v low p5)
