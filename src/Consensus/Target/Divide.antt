-- ===== src/Consensus/Target/Divide.antt =====
-- The division loop is long division.
use native.Mathlib.Nat.{mod-lt, div-add-mod, div-lt_iff_lt-mul}
use blq_node.Base.{
  ℕ, suc, ◌+◌, ◌*◌, ◌/◌, ◌%◌, ◌<◌, ◌≤◌, ◌≡◌, refl, sym, List, [], ◌∷◌, arith, length, ap, u64_mod,
  u128_mod,
}
use blq_node.Base.Bytes.{IsBytes, weight, be_value, weight_of_length}
use blq_node.Consensus.Target.{divide_loop}

-- What division leaves, in the middle of a number.
long_division_step :
    (v d w x q r : ℕ) → v % d * w + x ≡ q * d + r → v * w + x ≡ (v / d * w + q) * d + r
long_division_step v d w x q r h =
    let whole : v * w ≡ (d * (v / d) + v % d) * w = ap (λ (t : ℕ). t * w) (sym (div-add-mod v d)) in
    grind arith

-- One digit of the quotient fits a byte, and the shifted remainder fits the word.
digit_fits :
    (d r x : ℕ)
    → r < d
    → d ≤ u64_mod
    → x < 256
    → ((r * 256 + x) % u128_mod ≡ r * 256 + x) × ((r * 256 + x) / d < 256)
digit_fits d r x h k b = (omega arith, (div-lt_iff_lt-mul {k = d} (omega arith)).1 (omega arith))

pub divide_loop_lem :
    (d r : ℕ) (bs : List ℕ)
    → r < d
    → d ≤ u64_mod
    → IsBytes bs
    → let (out, rest) = divide_loop d r bs in
      (r * weight bs + be_value bs ≡ be_value out * d + rest)
      × (rest < d)
      × IsBytes out
      × (length out ≡ length bs)
unfolding divide_loop weight be_value
divide_loop_lem d r [] h k b = (omega arith, h, tt, refl)
divide_loop_lem d r (x ∷ bs) h k b =
    let (fits, small) = digit_fits d r x h k b.0 in
    let v = r * 256 + x in
    let (e, lt, bytes, len) = divide_loop_lem d (v % d) bs (mod-lt v (omega arith)) k b.1 in
    let w = weight_of_length (divide_loop d (v % d) bs).0 bs len in
    let digit : v / d % 256 ≡ v / d = omega arith in
    rw (fits, digit, w)
      (
        omega (arith, long_division_step v d (weight bs) (be_value bs) _ _ e),
        lt,
        (small, bytes),
        ap suc len,
      )
