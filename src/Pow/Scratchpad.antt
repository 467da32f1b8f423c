-- ===== src/Pow/Scratchpad.antt =====
-- The scratchpad of the portable engine: its size, and that each pick is one of its lanes.
use Prim.Native.Nat.{bit_and, digits, bit_and-bitwise}
use native.Mathlib.Nat.{pow-suc, le-div_iff_mul-le}
use blq_node.Base.{
  ℕ, zero, suc, ◌+◌, ◌-◌, ◌*◌, ◌/◌, ◌^◌, ◌≤◌, ◌<◌, ◌≡◌, refl, ap, ◌∙◌, List, [], ◌∷◌, arith, min,
  max, leb, Bool-cases, inl, inr, length, take, get_or, set,
}
use blq_node.Base.Bytes.{be_value}
use blq_node.Externals.{Externals}
use blq_node.Primitives.{Hash256}
use blq_node.Pow.{
  next_power_from, next_power_of_two, lane_count, pick_lane, mix_round, mix_rounds, fill_lanes,
}

and_digits-le : (n a b : ℕ) → digits (λ b. zero) min n a b ≤ b
and_digits-le zero a b = omega arith
and_digits-le (suc n) zero b = omega arith
and_digits-le (suc n) (suc a) b = omega (arith, and_digits-le n (suc a / 2) (b / 2))

-- A mask bounds what it lets through.
bit_and-le : (a b : ℕ) → bit_and a b ≤ b
bit_and-le a b = omega (arith, bit_and-bitwise a b, and_digits-le a a b)

next_power_from-le : (fuel p n : ℕ) → n ≤ p * 2 ^ fuel → n ≤ next_power_from fuel p n
unfolding next_power_from
next_power_from-le zero p n h = omega arith
next_power_from-le (suc fuel) p n h = elim (Bool-cases (leb n p)) [
  | inl done ↦ rw done (ground arith)
  | inr more ↦
      let shift : p * 2 ^ suc fuel ≡ 2 * p * 2 ^ fuel =
        ap (λ w. p * w) (pow-suc 2 fuel) ∙ grind arith in
      rw more (next_power_from-le fuel (2 * p) n (omega arith))
]

length-set : {A : Type 0} (xs : List A) (i : ℕ) (v : A) → length (set xs i v) ≡ length xs
length-set [] i v = refl
length-set (x ∷ xs) zero v = refl
length-set (x ∷ xs) (suc i) v = ap suc (length-set xs i v)

get_or-default :
    {A : Type 0} (xs : List A) (i : ℕ) (d e : A) → i < length xs → get_or xs i d ≡ get_or xs i e
get_or-default [] i d e h = absurd (omega arith)
get_or-default (x ∷ xs) zero d e h = refl
get_or-default (x ∷ xs) (suc i) d e h = get_or-default xs i d e (omega arith)

-- `next_power_of_two` is at least its argument, which 64 doublings reach for every `usize`
-- up to 2^64: the loop is given enough steps.
pub next_power_of_two-le : (n : ℕ) → n ≤ 2 ^ 64 → n ≤ next_power_of_two n
unfolding next_power_of_two
next_power_of_two-le n h = next_power_from-le 64 1 n (omega arith)

pub lane_count-pos : (bytes : ℕ) → bytes ≤ 2 ^ 63 → 1 ≤ lane_count bytes
lane_count-pos bytes h =
    let enough : 32 ≤ next_power_of_two (max bytes 32) =
      omega (arith, next_power_of_two-le (max bytes 32) (omega arith)) in
    (le-div_iff_mul-le {k = 32} (omega arith)).1 (omega arith)

module _ ⦃env : Externals⦄ where
  pub length-fill_lanes :
      (n index : ℕ) (seed : Hash256) (input : List ℕ) → length (fill_lanes n index seed input) ≡ n
  unfolding fill_lanes
  length-fill_lanes zero index seed input = refl
  length-fill_lanes (suc n) index seed input = ap suc (length-fill_lanes n (index + 1) seed input)

  pick_lane-lt : (lanes : ℕ) (acc : Hash256) → 1 ≤ lanes → pick_lane lanes acc < lanes
  pick_lane-lt lanes acc h = omega (arith, bit_and-le (be_value (take 8 acc)) (lanes - 1))

  pub length-mix_rounds :
      (n round lanes : ℕ) (input : List ℕ) (state : Hash256 × List (List ℕ))
      → length (mix_rounds n round lanes input state).1 ≡ length state.1
  unfolding mix_rounds mix_round
  length-mix_rounds zero round lanes input state = refl
  length-mix_rounds (suc n) round lanes input (acc, memory) =
      length-mix_rounds n (round + 1) lanes input (mix_round lanes round input (acc, memory))
      ∙ length-set memory (pick_lane lanes acc) _

  -- The scratchpad has a lane, and in every round, whatever was mixed before, the lane that is
  -- picked is one of the memory's: the program never reads or writes out of range.
  pub mix_rounds-in_range :
      (bytes n round : ℕ) (seed : Hash256) (input : List ℕ)
      → bytes ≤ 2 ^ 63
      → let state =
          mix_rounds n round
            (lane_count bytes)
            input
            (seed, fill_lanes (lane_count bytes) 0 seed input) in
        pick_lane (lane_count bytes) state.0 < length state.1
  mix_rounds-in_range bytes n round seed input h =
      rw
        (
          length-mix_rounds n round (lane_count bytes) input _,
          length-fill_lanes (lane_count bytes) 0 seed input,
        )
        (pick_lane-lt (lane_count bytes) _ (lane_count-pos bytes h))
