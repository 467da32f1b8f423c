-- ===== src/Consensus/Target/Multiply.antt =====
-- The multiplication and the carry loops on the numbers that the bytes spell.
use native.Mathlib.Nat.{div-add-mod}
use blq_node.Base.{
  ℕ, suc, ◌+◌, ◌*◌, ◌/◌, ◌%◌, ◌<◌, ◌≤◌, ◌≡◌, refl, sym, List, [], ◌∷◌, arith, length, ap, u64_mod,
  u128_mod,
}
use blq_node.Base.Bytes.{IsBytes, weight, be_value, weight_of_length}
use blq_node.Consensus.Target.{multiply_loop, carry_loop}

-- One digit and its carry, in front of digits that are done.
digit_step :
    (v w b m s c o : ℕ)
    → v ≡ b * m + c
    → s * m ≡ c * w + o
    → (b * w + s) * m ≡ v / 256 * (256 * w) + (v % 256 * w + o)
digit_step v w b m s c o e h =
    let whole : v * w ≡ (b * m + c) * w = ap (λ (t : ℕ). t * w) e in
    let split : v * w ≡ (256 * (v / 256) + v % 256) * w =
      ap (λ (t : ℕ). t * w) (sym (div-add-mod v 256)) in
    grind arith

pub multiply_loop_lem :
    (m : ℕ) (bs : List ℕ)
    → m < u64_mod
    → IsBytes bs
    → let (out, carry) = multiply_loop m bs in
      (be_value bs * m ≡ carry * weight bs + be_value out)
      × (carry ≤ m)
      × IsBytes out
      × (length out ≡ length bs)
unfolding multiply_loop weight be_value
multiply_loop_lem m [] h b = (omega arith, omega arith, tt, refl)
multiply_loop_lem m (x ∷ bs) h b =
    let (e, le, bytes, len) = multiply_loop_lem m bs h b.1 in
    let (out, c) = multiply_loop m bs in
    let v = x * m + c in
    let le' : x * m ≤ 255 * m = grind arith in
    let fits : (x * m + c) % u128_mod ≡ x * m + c = omega arith in
    rw (fits, weight_of_length out bs len)
      (
        digit_step v (weight bs) x m (be_value bs) c (be_value out) refl e,
        omega arith,
        (omega arith, bytes),
        ap suc len,
      )

carry_step :
    (x w s c c' o : ℕ)
    → s + c ≡ c' * w + o
    → x * w + s + c ≡ (c' / 256 + (x + c' % 256) / 256) * (256 * w) + ((x + c' % 256) % 256 * w + o)
carry_step x w s c c' o h =
    let whole : (x + c') * w
        ≡ ((c' / 256 + (x + c' % 256) / 256) * 256 + (x + c' % 256) % 256) * w =
      ap (λ (t : ℕ). t * w) (omega arith) in
    grind arith

pub carry_loop_lem :
    (c : ℕ) (bs : List ℕ)
    → IsBytes bs
    → let (out, carry) = carry_loop c bs in
      (be_value bs + c ≡ carry * weight bs + be_value out) × IsBytes out × (length out ≡ length bs)
unfolding carry_loop weight be_value
carry_loop_lem c [] b = (omega arith, tt, refl)
carry_loop_lem c (x ∷ bs) b =
    let (e, bytes, len) = carry_loop_lem c bs b.1 in
    let (out, c') = carry_loop c bs in
    rw (weight_of_length out bs len) (
      carry_step x (weight bs) (be_value bs) c c' (be_value out) e,
      (omega arith, bytes),
      ap suc len,
    )
