-- ===== src/Consensus/Fees/Issuance.antt =====
-- The rewards of a chain add up to the issuance schedule.
use blq_node.Base.{ℕ, zero, suc, ◌+◌, ◌-◌, ◌*◌, ◌/◌, ◌%◌, ◌≤◌, ◌≡◌, List, [], ◌∷◌, arith}
use blq_node.Primitives.{bix_per_blq}
use blq_node.Consensus.Fees.{block_reward_bix, block_reward_for_interval_bix}

-- What blocks 1 to n are paid.
abbrev pub total_reward : ℕ → ℕ
total_reward zero = 0
total_reward (suc n) = total_reward n + block_reward_bix (suc n)

total_reward_lem : (n : ℕ) → total_reward n ≡ n * (bix_per_blq / 60) + n / 60 * (bix_per_blq % 60)
unfolding block_reward_bix
total_reward_lem zero = omega arith
total_reward_lem (suc n) = ground (arith, total_reward_lem n)

-- Every 60 blocks issue exactly one BLQ, whatever the division by 60 leaves.
pub total_reward_interval : (k : ℕ) → total_reward (60 * k) ≡ k * bix_per_blq
total_reward_interval k = omega (arith, total_reward_lem (60 * k))

-- What the blocks of a chain are paid under the time-based rule.
abbrev pub interval_rewards : ℕ → List ℕ → ℕ
interval_rewards parent [] = 0
interval_rewards parent (child ∷ rest) =
    block_reward_for_interval_bix parent child + interval_rewards child rest

abbrev pub Ascending : ℕ → List ℕ → Type 0
Ascending parent [] = Unit
Ascending parent (child ∷ rest) = (parent ≤ child) × Ascending child rest

abbrev pub last_of : ℕ → List ℕ → ℕ
last_of parent [] = parent
last_of parent (child ∷ rest) = last_of child rest

last_of-le : (p : ℕ) (ts : List ℕ) → Ascending p ts → p ≤ last_of p ts
last_of-le p [] h = omega arith
last_of-le p (t ∷ ts) h = omega (arith, last_of-le t ts h.1)

-- However blocks are spaced, a chain with ascending timestamps never issues more than 0.1 BLQ a
-- minute of elapsed time.
pub interval_rewards-le :
    (p : ℕ) (ts : List ℕ)
    → Ascending p ts
    → interval_rewards p ts ≤ bix_per_blq * (last_of p ts - p) / 600
unfolding block_reward_for_interval_bix
interval_rewards-le p [] h = omega arith
interval_rewards-le p (t ∷ ts) h = omega (arith, interval_rewards-le t ts h.1, last_of-le t ts h.1)
