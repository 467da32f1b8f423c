-- ===== src/Samples/Store.antt =====
-- A store as an association list, and hexadecimal texts by their digits.
use mathlib.Core.Path.{subst}
use blq_node.Base.{
  ◌&&◌, leb, ℕ, ◌+◌, ◌-◌, ◌*◌, ◌/◌, ◌%◌, ◌<◌, ◌≡◌, refl, sym, ap, ◌∙◌, true, Bool-cases, inl, inr,
  ltb, if◌then◌else◌, List, [], ◌∷◌, Option, none, some, Option-cases, All, arith,
}
use blq_node.Base.Bytes.{IsBytes, bytes_eq, bytes_eq_iff}
use blq_node.Base.Prefixes.{starts_with}
use blq_node.Base.Assoc.{lookup, insert, remove, lookup-insert, lookup-remove}
use blq_node.Database.{Sled, Hex, BatchOp, store, delete, pending, is_hex_digit}

-- The entries of a store.
abbrev pub Entries : Type 0
Entries = List (List ℕ × List ℕ)

abbrev apply_batch : List BatchOp → Entries → Entries
apply_batch [] d = d
apply_batch (store k v ∷ ops) d = apply_batch ops (insert k v d)
apply_batch (delete k ∷ ops) d = apply_batch ops (remove k d)

unfoldable pub scan : List ℕ → Entries → Entries → Entries
scan p whole [] = []
scan p whole ((k, w) ∷ d) =
    let rest = scan p whole d in
    elim (lookup k whole) [ none ↦ rest | some v ↦ if starts_with p k then (k, v) ∷ rest else rest ]

pub lookup-apply_batch :
    (j : List ℕ) (ops : List BatchOp) (d : Entries)
    → lookup j (apply_batch ops d) ≡ elim (pending j ops) [ none ↦ lookup j d | some r ↦ r ]
lookup-apply_batch j [] d = refl
lookup-apply_batch j (store k v ∷ ops) d =
    lookup-apply_batch j ops (insert k v d) ∙ ground (arith, lookup-insert k j v d)
lookup-apply_batch j (delete k ∷ ops) d =
    lookup-apply_batch j ops (remove k d) ∙ ground (arith, lookup-remove k j d)

pub scan-All :
    (p : List ℕ) (whole d : Entries)
    → All (λ e. (starts_with p e.0 ≡ true) × (lookup e.0 whole ≡ some e.1)) (scan p whole d)
unfolding scan
scan-All p whole [] = tt
scan-All p whole ((k, w) ∷ d) = elim (Option-cases (lookup k whole)) [
  | inl e ↦ rw (e, scan) (scan-All p whole d)
  | inr (v, e) ↦ elim (Bool-cases (starts_with p k)) [
    | inl h ↦ rw (e, h, scan) ((h, e), scan-All p whole d)
    | inr h ↦ rw (e, h, scan) (scan-All p whole d)
  ]
]

pub scan_found :
    (p k v w : List ℕ) (whole d : Entries)
    → starts_with p k ≡ true
    → lookup k whole ≡ some v
    → lookup k d ≡ some w
    → lookup k (scan p whole d) ≡ some v
unfolding scan lookup
scan_found p k v w whole [] s h e = absurd (cc)
scan_found p k v w whole ((j, x) ∷ d) s h e =
    let ih = scan_found p k v w whole d s h in
    elim (Bool-cases (bytes_eq j k)) [
      | inl same ↦
          let eq : k ≡ j = sym ((bytes_eq_iff j k).0 same) in
          let there : lookup j whole ≡ some v = subst (λ y. lookup y whole ≡ some v) eq h in
          let kept : starts_with p j ≡ true = subst (λ y. starts_with p y ≡ true) eq s in
          rw (there, kept, same, scan) refl
      | inr other ↦
          let rest = ih (rw other at e) in
          elim (Option-cases (lookup j whole)) [
            | inl none_there ↦ rw (none_there, scan) rest
            | inr (y, there) ↦ elim (Bool-cases (starts_with p j)) [
              | inl kept ↦ rw (there, kept, scan) (rw (other, lookup) rest)
              | inr gone ↦ rw (there, gone, scan) rest
            ]
          ]
    ]

instance abbrev pub sample_sled : Sled Entries
sample_sled = record {
  get = lookup;
  insert = insert;
  remove = remove;
  apply_batch = apply_batch;
  scan_prefix = λ p d. scan p d d;
  get-insert = λ j k v d. lookup-insert k j v d;
  get-remove = λ j k d. lookup-remove k j d;
  get-apply_batch = lookup-apply_batch;
  scan_prefix-get = λ p d. scan-All p d d;
  get-scan_prefix = λ p k v d s h. scan_found p k v v d d s h h;
}

abbrev digit : ℕ → ℕ
digit n = if ltb n 10 then 48 + n else 87 + n

abbrev value : ℕ → Option ℕ
value c =
    if leb 48 c && leb c 57
    then some (c - 48)
    else if leb 97 c && leb c 102
    then some (c - 87)
    else none

abbrev encode : List ℕ → List ℕ
encode [] = []
encode (b ∷ bs) = digit (b / 16 % 16) ∷ digit (b % 16) ∷ encode bs

abbrev join : Option ℕ → Option ℕ → Option (List ℕ) → Option (List ℕ)
join (some a) (some b) (some bs) = some ((16 * a + b) ∷ bs)
join a b bs = none

abbrev decode : List ℕ → Option (List ℕ)
decode [] = some []
decode (x ∷ []) = none
decode (x ∷ y ∷ cs) = join (value x) (value y) (decode cs)

digit_lem : (n : ℕ) → n < 16 → is_hex_digit (digit n) ≡ true
digit_lem n h = ground arith

value-digit : (n : ℕ) → n < 16 → value (digit n) ≡ some n
value-digit n h = ground arith

pub encode_digits : (bs : List ℕ) → All (λ b. is_hex_digit b ≡ true) (encode bs)
encode_digits [] = tt
encode_digits (b ∷ bs) =
    (digit_lem (b / 16 % 16) (omega arith), (digit_lem (b % 16) (omega arith), encode_digits bs))

pub decode-encode : (bs : List ℕ) → IsBytes bs → decode (encode bs) ≡ some bs
decode-encode [] h = refl
decode-encode (b ∷ bs) h =
    let whole : 16 * (b / 16 % 16) + b % 16 ≡ b = omega (arith, h.0) in
    rw
      (
        value-digit (b / 16 % 16) (omega arith),
        value-digit (b % 16) (omega arith),
        decode-encode bs h.1,
      )
      (ap (λ n. some (n ∷ bs)) whole)

instance abbrev pub sample_hex : Hex
sample_hex = record {
  encode = encode;
  decode = decode;
  encode-digits = encode_digits;
  decode-encode = decode-encode;
}
