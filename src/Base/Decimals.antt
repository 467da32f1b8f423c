-- ===== src/Base/Decimals.antt =====
-- Decimal texts: `{:020}`, and `str::parse::<u64>`.
use blq_node.Base.{
  ◌==◌, false, ℕ, zero, suc, ◌+◌, ◌-◌, ◌*◌, ◌/◌, ◌%◌, ◌^◌, ◌<◌, ◌≤◌, ◌≡◌, refl, ap, sym, ◌∙◌, ◌&&◌,
  List, [], ◌∷◌, ◌++◌, Option, some, none, arith, leb, if◌then◌else◌, u64_max, u64_mod, length,
  length-append, Bool-cases, inl, inr,
}
use native.Mathlib.Nat.{pow-suc}

-- The last `w` decimal digits, with zeros in front.
unfoldable pub padded : ℕ → ℕ → List ℕ
padded zero n = []
padded (suc w) n = padded w (n / 10) ++ ((48 + n % 10) ∷ [])

-- The loop of `parse`, with its checked arithmetic.
unfoldable pub parse_digits : ℕ → List ℕ → Option ℕ
parse_digits acc [] = some acc
parse_digits acc (b ∷ bs) =
    let rest = parse_digits (acc * 10 + (b - 48)) bs in
    if leb 48 b && (leb b 57 && leb (acc * 10 + (b - 48)) u64_max) then rest else none

unfoldable pub parse_plain : List ℕ → Option ℕ
parse_plain [] = none
parse_plain (b ∷ bs) = parse_digits 0 (b ∷ bs)

-- `str::parse::<u64>`: a plus sign may come first.
unfoldable pub parse_u64 : List ℕ → Option ℕ
parse_u64 [] = none
parse_u64 (b ∷ bs) = if b == 43 then parse_plain bs else parse_digits 0 (b ∷ bs)

parse_digits-append :
    (acc v : ℕ) (xs ys : List ℕ)
    → parse_digits acc xs ≡ some v
    → parse_digits acc (xs ++ ys) ≡ parse_digits v ys
unfolding parse_digits
parse_digits-append acc v [] ys h = let e : acc ≡ v = cc in rw e refl
parse_digits-append acc v (x ∷ xs) ys h =
    let next = acc * 10 + (x - 48) in
    elim (Bool-cases (leb 48 x && (leb x 57 && leb next u64_max))) [
      | inl fits ↦
          let more : parse_digits next xs ≡ some v = rw fits at h in
          rw fits (parse_digits-append next v xs ys more)
      | inr bad ↦ let none_there : none ≡ some v = rw bad at h in cc
    ]

parse_digit :
    (acc d : ℕ)
    → d < 10
    → acc * 10 + d ≤ u64_max
    → parse_digits acc ((48 + d) ∷ []) ≡ some (acc * 10 + d)
unfolding parse_digits
parse_digit acc d h k = ground arith

parse_digits-padded :
    (w acc n : ℕ)
    → n < 10 ^ w
    → acc * 10 ^ w + n ≤ u64_max
    → parse_digits acc (padded w n) ≡ some (acc * 10 ^ w + n)
unfolding padded parse_digits
parse_digits-padded zero acc n h k = let e : acc ≡ acc * 10 ^ 0 + n = omega arith in ap some e
parse_digits-padded (suc w) acc n h k =
    let pow = pow-suc 10 w in
    let front : n / 10 < 10 ^ w = omega arith in
    let scaled : acc * (10 ^ w * 10) ≡ acc * 10 ^ w * 10 = grind arith in
    let whole : acc * 10 ^ suc w ≡ acc * 10 ^ w * 10 = ap (λ (t : ℕ). acc * t) pow ∙ scaled in
    let value : (acc * 10 ^ w + n / 10) * 10 + n % 10 ≡ acc * 10 ^ suc w + n = omega arith in
    parse_digits-append acc (acc * 10 ^ w + n / 10) (padded w (n / 10)) _
      (parse_digits-padded w acc (n / 10) front (omega arith))
    ∙ parse_digit (acc * 10 ^ w + n / 10) (n % 10) (omega arith) (omega arith)
    ∙ ap some value

length-padded : (w n : ℕ) → length (padded w n) ≡ w
unfolding padded
length-padded zero n = refl
length-padded (suc w) n =
    omega (arith, length-padded w (n / 10), length-append (padded w (n / 10)) ((48 + n % 10) ∷ []))

parse_u64_digits :
    (bs : List ℕ) (v : ℕ) → 0 < length bs → parse_digits 0 bs ≡ some v → parse_u64 bs ≡ some v
unfolding parse_u64 parse_digits
parse_u64_digits [] v l h = absurd (omega arith)
parse_u64_digits (b ∷ bs) v l h = elim (Bool-cases (b == 43)) [
  | inl plus ↦
      let low : leb 48 b ≡ false = ground (arith, plus) in
      let bad : none ≡ some v = rw low at h in absurd (cc)
  | inr other ↦ rw other h
]

parse_digits-le :
    (acc v : ℕ) (bs : List ℕ) → acc ≤ u64_max → parse_digits acc bs ≡ some v → v ≤ u64_max
unfolding parse_digits
parse_digits-le acc v [] l h = let e : acc ≡ v = cc in omega arith
parse_digits-le acc v (b ∷ bs) l h =
    let next = acc * 10 + (b - 48) in
    elim (Bool-cases (leb 48 b && (leb b 57 && leb next u64_max))) [
      | inl fits ↦ parse_digits-le next v bs (ground (arith, fits)) (rw fits at h)
      | inr bad ↦ let none_there : none ≡ some v = rw bad at h in absurd (cc)
    ]

-- What is read is a 64-bit number.
pub parse_u64-lt : (v : ℕ) (bs : List ℕ) → parse_u64 bs ≡ some v → v < u64_mod
unfolding parse_u64 parse_plain parse_digits
parse_u64-lt v [] h = absurd (cc)
parse_u64-lt v (b ∷ bs) h = elim (Bool-cases (b == 43)) [
  | inl plus ↦ plain bs (rw plus at h)
  | inr other ↦
      let l : v ≤ u64_max = parse_digits-le 0 v (b ∷ bs) (omega arith) (rw other at h) in
      omega arith
]
  where
    plain : (cs : List ℕ) → parse_plain cs ≡ some v → v < u64_mod
    plain [] e = absurd (cc)
    plain (c ∷ cs) e =
        let l : v ≤ u64_max = parse_digits-le 0 v (c ∷ cs) (omega arith) e in omega arith

-- A number is read back from its padded text.
pub parse_u64-padded : (n : ℕ) → n < u64_mod → parse_u64 (padded 20 n) ≡ some n
parse_u64-padded n h =
    let value : 0 * 10 ^ 20 + n ≡ n = omega arith in
    parse_u64_digits (padded 20 n) n (omega (arith, length-padded 20 n))
      (parse_digits-padded 20 0 n (omega arith) (omega arith) ∙ ap some value)

pub padded-injective : (n m : ℕ) → n < u64_mod → m < u64_mod → padded 20 n ≡ padded 20 m → n ≡ m
padded-injective n m h k e =
    let same : some n ≡ some m =
      sym (parse_u64-padded n h) ∙ ap parse_u64 e ∙ parse_u64-padded m k in
    cc
