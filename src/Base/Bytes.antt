-- ===== src/Base/Bytes.antt =====
-- Byte sequences: the number that one spells in big-endian order, equality and the lexicographic
-- order of Rust's arrays, and `to_be_bytes`.
use Prim.Native.Nat.{compare, Ordering}
use blq_node.Base.{
  ℕ, zero, suc, ◌+◌, ◌*◌, ◌/◌, ◌%◌, ◌^◌, ◌<◌, ◌≤◌, ◌≡◌, refl, sym, ap, ◌↔◌, Bool, true, false, ◌&&◌,
  List, [], ◌∷◌, ◌++◌, arith, ◌==◌, length, length-append, All, All-append,
}
use Prim.Native.Char.{code}
use Prim.Native.String.{String}
use native.Mathlib.Nat.{pow-suc}

abbrev pub IsBytes : List ℕ → Type 0
IsBytes bs = All (λ b. b < 256) bs

-- 256 to the power of the length.
unfoldable pub weight : List ℕ → ℕ
weight [] = 1
weight (b ∷ bs) = 256 * weight bs

unfoldable pub be_value : List ℕ → ℕ
be_value [] = 0
be_value (b ∷ bs) = b * weight bs + be_value bs

pub weight_pos : (bs : List ℕ) → 0 < weight bs
unfolding weight
weight_pos [] = omega arith
weight_pos (b ∷ bs) = omega (arith, weight_pos bs)

pub weight-eq-pow : (bs : List ℕ) → weight bs ≡ 256 ^ length bs
unfolding weight
weight-eq-pow [] = refl
weight-eq-pow (b ∷ bs) = omega (arith, weight-eq-pow bs, pow-suc 256 (length bs))

pub weight_of_length : (xs ys : List ℕ) → length xs ≡ length ys → weight xs ≡ weight ys
weight_of_length xs ys h = cc (weight-eq-pow xs, weight-eq-pow ys)

pub be_value-lt-weight : (bs : List ℕ) → IsBytes bs → be_value bs < weight bs
unfolding be_value weight
be_value-lt-weight [] h = omega arith
be_value-lt-weight (b ∷ bs) h = grind (arith, be_value-lt-weight bs h.1)

unfoldable pub bytes_eq : List ℕ → List ℕ → Bool
bytes_eq [] [] = true
bytes_eq (x ∷ xs) (y ∷ ys) = (x == y) && bytes_eq xs ys
bytes_eq _ _ = false

pub bytes_eq_iff : (xs ys : List ℕ) → (bytes_eq xs ys ≡ true) ↔ (xs ≡ ys)
unfolding bytes_eq
bytes_eq_iff [] [] = ground arith
bytes_eq_iff [] (y ∷ ys) = ground arith
bytes_eq_iff (x ∷ xs) [] = ground arith
bytes_eq_iff (x ∷ xs) (y ∷ ys) = ground (arith, bytes_eq_iff xs ys)

pub bytes_eq_refl : (xs : List ℕ) → bytes_eq xs xs ≡ true
bytes_eq_refl xs = (bytes_eq_iff xs xs).1 refl

pub bytes_eq_sym : (xs ys : List ℕ) → bytes_eq xs ys ≡ bytes_eq ys xs
unfolding bytes_eq
bytes_eq_sym [] [] = refl
bytes_eq_sym [] (y ∷ ys) = refl
bytes_eq_sym (x ∷ xs) [] = refl
bytes_eq_sym (x ∷ xs) (y ∷ ys) = ground (arith, bytes_eq_sym xs ys)

abbrev pub then_cmp : Ordering → Ordering → Ordering
then_cmp Ordering.eq o = o
then_cmp Ordering.lt o = Ordering.lt
then_cmp Ordering.gt o = Ordering.gt

-- `Ord` of arrays and slices.
unfoldable pub bytes_cmp : List ℕ → List ℕ → Ordering
bytes_cmp [] [] = Ordering.eq
bytes_cmp [] (y ∷ ys) = Ordering.lt
bytes_cmp (x ∷ xs) [] = Ordering.gt
bytes_cmp (x ∷ xs) (y ∷ ys) = then_cmp (compare x y) (bytes_cmp xs ys)

lt_of_digit : (x y u v w : ℕ) → x < y → u < w → x * w + u < y * w + v
lt_of_digit x y u v w p h = let step : suc x * w ≤ y * w = grind arith in omega arith

-- The first digit decides, the rest where it does not.
pub compare_digits :
    (x y u v w : ℕ)
    → u < w
    → v < w
    → compare (x * w + u) (y * w + v) ≡ then_cmp (compare x y) (compare u v)
compare_digits x y u v w h k =
    ground
      (arith, lt_of_digit x y u v w, lt_of_digit y x v u w, λ (e : x ≡ y). ap (λ (t : ℕ). t * w) e)

-- Between sequences of one length it is the order of the numbers that they spell.
pub bytes_cmp-be_value :
    (xs ys : List ℕ)
    → length xs ≡ length ys
    → IsBytes xs
    → IsBytes ys
    → bytes_cmp xs ys ≡ compare (be_value xs) (be_value ys)
unfolding bytes_cmp be_value
bytes_cmp-be_value [] [] e h k = refl
bytes_cmp-be_value [] (y ∷ ys) e h k = absurd (omega arith)
bytes_cmp-be_value (x ∷ xs) [] e h k = absurd (omega arith)
bytes_cmp-be_value (x ∷ xs) (y ∷ ys) e h k =
    let w = weight_of_length xs ys (omega arith) in
    rw (bytes_cmp-be_value xs ys (omega arith) h.1 k.1, w)
      (sym (
        compare_digits x y (be_value xs) (be_value ys) (weight ys)
          (rw w at (be_value-lt-weight xs h.1)) (be_value-lt-weight ys k.1)))

pub bytes_cmp-eq : (xs ys : List ℕ) → bytes_cmp xs ys ≡ Ordering.eq → xs ≡ ys
unfolding bytes_cmp
bytes_cmp-eq [] [] h = refl
bytes_cmp-eq [] (y ∷ ys) h = cc
bytes_cmp-eq (x ∷ xs) [] h = cc
bytes_cmp-eq (x ∷ xs) (y ∷ ys) h =
    let digit : x ≡ y = ground arith in
    let rest : bytes_cmp xs ys ≡ Ordering.eq = ground arith in cc (digit, bytes_cmp-eq xs ys rest)

-- `to_be_bytes` of an integer of `n` bytes.
unfoldable pub be_bytes : ℕ → ℕ → List ℕ
be_bytes zero v = []
be_bytes (suc n) v = be_bytes n (v / 256) ++ ((v % 256) ∷ [])

pub length-be_bytes : (n v : ℕ) → length (be_bytes n v) ≡ n
unfolding be_bytes
length-be_bytes zero v = refl
length-be_bytes (suc n) v =
    omega
      (arith, length-be_bytes n (v / 256), length-append (be_bytes n (v / 256)) ((v % 256) ∷ []))

pub be_bytes-IsBytes : (n v : ℕ) → IsBytes (be_bytes n v)
unfolding be_bytes
be_bytes-IsBytes zero v = tt
be_bytes-IsBytes (suc n) v =
    All-append (λ b. b < 256) (be_bytes n (v / 256)) _ (be_bytes-IsBytes n (v / 256)) (omega arith)

weight_snoc : (xs : List ℕ) (b : ℕ) → weight (xs ++ (b ∷ [])) ≡ 256 * weight xs
unfolding weight
weight_snoc [] b = refl
weight_snoc (x ∷ xs) b = omega (arith, weight_snoc xs b)

pub be_value_snoc : (xs : List ℕ) (b : ℕ) → be_value (xs ++ (b ∷ [])) ≡ be_value xs * 256 + b
unfolding be_value weight
be_value_snoc [] b = omega arith
be_value_snoc (x ∷ xs) b = rw (be_value_snoc xs b, weight_snoc xs b) (omega arith)

-- An integer of `n` bytes is read back from its bytes.
pub be_value-be_bytes : (n v : ℕ) → v < 256 ^ n → be_value (be_bytes n v) ≡ v
unfolding be_bytes be_value
be_value-be_bytes zero v h = omega arith
be_value-be_bytes (suc n) v h = omega (
  arith,
  be_value_snoc (be_bytes n (v / 256)) (v % 256),
  be_value-be_bytes n (v / 256) (omega (arith, pow-suc 256 n)),
)

-- The bytes of a text literal of the source, which are ASCII.
abbrev pub ascii : String → List ℕ
ascii String.[] = []
ascii (String.◌∷◌ c s) = code c ∷ ascii s
