-- ===== src/Network/Branches/Work.antt =====
-- The work of a target is the whole quotient of 2^256, and a branch grows better as it grows.
use mathlib.Core.Path.{subst}
use native.Mathlib.Nat.{div-add-mod, mod-lt, div-eq_of_lt-le, div-lt_self, le-div_iff_mul-le}
use blq_node.Base.{
  ℕ, zero, suc, ◌+◌, ◌-◌, ◌/◌, ◌%◌, ◌^◌, ◌≤◌, ◌<◌, ◌≡◌, ◌≢◌, ◌⊎◌, inl, inr, refl, ap, ◌∙◌, true,
  false, ◌&&◌, not, ◌==◌, arith, ltb, min, max, if◌then◌else◌, Bool-cases, u128_max, u64_max,
}
use blq_node.Base.Bytes.{
  be_value, weight, weight-eq-pow, be_value-lt-weight, bytes_eq, bytes_eq_iff, bytes_cmp-eq,
  bytes_cmp-be_value,
}
use blq_node.Externals.{U256, IsHash}
use blq_node.Primitives.{Hash256, hash_max}
use blq_node.Network.Branches.{
  BranchTip, u256_max, whole_quotient, work_for_target, extend, branch_cmp, better_branch,
}

quotient_step : (n d : ℕ) → 0 < d → n % d ≡ d - 1 → (n + 1) / d ≡ n / d + 1
quotient_step n d h e = let whole = div-add-mod n d in div-eq_of_lt-le d (grind arith) (grind arith)

quotient_stay : (n d : ℕ) → 0 < d → n % d ≢ d - 1 → (n + 1) / d ≡ n / d
quotient_stay n d h e =
    let whole = div-add-mod n d in
    let small = mod-lt n h in div-eq_of_lt-le d (grind arith) (grind arith)

hash_max-value : be_value hash_max ≡ u256_max
unfolding be_value weight
hash_max-value = refl

value-lt-max :
    (target : Hash256)
    → IsHash target
    → bytes_eq target hash_max ≡ false
    → be_value target < u256_max
value-lt-max target h differs =
    let bound : be_value target < 256 ^ 32 =
      subst (λ w. be_value target < w) (weight-eq-pow target ∙ ap (λ n. 256 ^ n) h.0)
        (be_value-lt-weight target h.1) in
    let other : be_value target ≢ u256_max = λ e. absurd (
      ground (
        arith,
        bytes_cmp-eq target hash_max (
            bytes_cmp-be_value target hash_max h.0 h.1 (omega arith)
            ∙ ground (arith, hash_max-value)),
        bytes_eq_iff target hash_max,
      )) in
    omega arith

quotient_succ : (n d : ℕ) → 0 < d → (n + 1) / d ≡ (if n % d == d - 1 then n / d + 1 else n / d)
quotient_succ n d h = ground (arith, quotient_step n d h, quotient_stay n d h)

module _ ⦃words : U256⦄ where
  quotient_at_one : whole_quotient 1 ≡ u256_max
  unfolding whole_quotient
  quotient_at_one =
      rw (words.div_lem u256_max 1 (omega arith), words.rem_lem u256_max 1 (omega arith))
        (ground arith)

  whole_quotient_lem : (d : ℕ) → 1 < d → whole_quotient d ≡ (u256_max + 1) / d
  unfolding whole_quotient
  whole_quotient_lem d h =
      let positive : 0 < d = omega arith in
      let less : u256_max / d < u256_max = div-lt_self {n = u256_max} {k = d} (omega arith) h in
      let whole : words.add (u256_max / d) 1 ≡ u256_max / d + 1 =
        words.add_lem (u256_max / d) 1 (omega arith) in
      let goal : (if (u256_max % d == d - 1) && not (u256_max / d == u256_max)
            then words.add (u256_max / d) 1
            else u256_max / d)
          ≡ (u256_max + 1) / d =
        ground (arith, quotient_succ u256_max d positive) in
      rw
        (
          words.div_lem u256_max d positive,
          words.rem_lem u256_max d positive,
          words.sub_lem d 1 (omega arith),
        )
        goal

  capped :
      (v : ℕ)
      → v < u256_max
      → 1 ≤ 2 ^ 256 / (v + 1)
      → ((if ltb u128_max (whole_quotient (v + 1))
            then u128_max
            else max (whole_quotient (v + 1)) 1)
          ≡ min (2 ^ 256 / (v + 1)) u128_max)
        × (1 ≤ (
            if ltb u128_max (whole_quotient (v + 1))
            then u128_max
            else max (whole_quotient (v + 1)) 1))
  capped zero small work = rw quotient_at_one (refl, omega arith)
  capped (suc v) small work =
      rw (whole_quotient_lem (suc v + 1) (omega arith)) (ground arith, ground arith)

  -- The work of a target is 2^256 divided by the target and one more, the largest `u128` where
  -- that is more, and it is never 0.
  pub work_for_target_lem :
      (target : Hash256)
      → IsHash target
      → (work_for_target target ≡ min (2 ^ 256 / (be_value target + 1)) u128_max)
        × (1 ≤ work_for_target target)
  unfolding work_for_target
  work_for_target_lem target h =
      let v : ℕ = be_value target in
      elim (Bool-cases (bytes_eq target hash_max)) [
        | inl top ↦
            let most : v ≡ u256_max = rw ((bytes_eq_iff target hash_max).0 top) hash_max-value in
            rw (top, most) (refl, omega arith)
        | inr below ↦
            let small : v < u256_max = value-lt-max target h below in
            let plus : words.add (words.from_be_bytes target) 1 ≡ v + 1 =
              rw (words.from_be_bytes-be_value target h) (words.add_lem v 1 (omega arith)) in
            let some_work : 1 ≤ 2 ^ 256 / (v + 1) =
              (le-div_iff_mul-le {k = v + 1} (omega arith)).1 (omega arith) in
            rw (below, plus) (capped v small some_work)
      ]

  -- A tip that is extended is better than before, unless its work and its height are
  -- both the largest of their words.
  pub better_branch-extend :
      (tip : BranchTip) (hash target : Hash256)
      → IsHash target
      → tip.cumulative_work ≤ u128_max
      → tip.height ≤ u64_max
      → (tip.cumulative_work < u128_max) ⊎ (tip.height < u64_max)
      → better_branch (extend tip hash target) tip ≡ true
  unfolding better_branch branch_cmp extend
  better_branch-extend tip hash target h work height room =
      let more = (work_for_target_lem target h).1 in ground arith
