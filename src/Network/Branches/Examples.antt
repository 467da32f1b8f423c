-- ===== src/Network/Branches/Examples.antt =====
-- The theorems on tips at concrete tips.
use blq_node.Base.{ℕ, ◌+◌, ◌/◌, ◌^◌, ◌≤◌, ◌≡◌, inl, true, false, arith, min, u128_max, replicate}
use blq_node.Base.Bytes.{be_value}
use blq_node.Network.Branches.{BranchTip, work_for_target, extend, better_branch}
use blq_node.Network.Branches.Order.{better_branch-order}
use blq_node.Network.Branches.Work.{work_for_target_lem, better_branch-extend}
use blq_node.Samples.{sample_words, target}

abbrev tip : ℕ → ℕ → ℕ → BranchTip
tip height work byte = record {
  height = height;
  hash = replicate 32 byte;
  difficulty_target = target;
  cumulative_work = work;
}

better_branch-order_example :
    (better_branch (tip 7 90 1) (tip 8 80 2) ≡ true
      → better_branch (tip 8 80 2) (tip 7 90 1) ≡ false)
    × (better_branch (tip 7 90 1) (tip 8 80 2) ≡ true
        → better_branch (tip 8 80 2) (tip 8 80 3) ≡ true
        → better_branch (tip 7 90 1) (tip 8 80 3) ≡ true)
    × (better_branch (tip 7 90 1) (tip 8 80 2) ≡ false
        → better_branch (tip 8 80 2) (tip 7 90 1) ≡ false
        → ((tip 7 90 1).cumulative_work ≡ (tip 8 80 2).cumulative_work)
          × ((tip 7 90 1).height ≡ (tip 8 80 2).height)
          × ((tip 7 90 1).hash ≡ (tip 8 80 2).hash))
better_branch-order_example =
    better_branch-order (tip 7 90 1) (tip 8 80 2) (tip 8 80 3) (omega arith) (omega arith)
      (omega arith)

work_for_target_lem_example :
    (work_for_target ⦃words = sample_words⦄ target ≡ min (2 ^ 256 / (be_value target + 1)) u128_max)
    × (1 ≤ work_for_target ⦃words = sample_words⦄ target)
work_for_target_lem_example = work_for_target_lem ⦃words = sample_words⦄ target (omega arith)

better_branch-extend_example :
    better_branch (extend ⦃words = sample_words⦄ (tip 7 90 1) target target) (tip 7 90 1) ≡ true
better_branch-extend_example =
    better_branch-extend ⦃words = sample_words⦄ (tip 7 90 1) target target (omega arith)
      (omega arith) (omega arith) (inl (omega arith))
