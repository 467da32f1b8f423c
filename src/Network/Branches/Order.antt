-- ===== src/Network/Branches/Order.antt =====
-- The choice between tips is a strict total order.
use Prim.Native.Nat.{Ordering}
use blq_node.Base.{◌≡◌, sym, ◌∙◌, true, false, ◌&&◌, ◌||◌, ◌==◌, arith, ltb}
use blq_node.Base.Bytes.{be_value, bytes_cmp, bytes_cmp-be_value, bytes_cmp-eq}
use blq_node.Externals.{IsHash}
use blq_node.Network.Branches.{BranchTip, branch_cmp, better_branch}

-- Between tips with real hashes the order compares three numbers.
better_branch_numbers :
    (a b : BranchTip)
    → IsHash a.hash
    → IsHash b.hash
    → better_branch a b ≡ (
        ltb b.cumulative_work a.cumulative_work
        || ((b.cumulative_work == a.cumulative_work)
            && (ltb b.height a.height
                || ((b.height == a.height) && ltb (be_value a.hash) (be_value b.hash)))))
unfolding better_branch branch_cmp
better_branch_numbers a b h k =
    rw (better_branch, bytes_cmp-be_value b.hash a.hash (k.0 ∙ sym h.0) k.1 h.1) (ground arith)

asymm :
    (a b : BranchTip)
    → IsHash a.hash
    → IsHash b.hash
    → better_branch a b ≡ true
    → better_branch b a ≡ false
asymm a b h k p =
    let q = sym (better_branch_numbers a b h k) ∙ p in
    rw (better_branch_numbers b a k h) (ground arith)

trans :
    (a b c : BranchTip)
    → IsHash a.hash
    → IsHash b.hash
    → IsHash c.hash
    → better_branch a b ≡ true
    → better_branch b c ≡ true
    → better_branch a c ≡ true
trans a b c h k l p q =
    let p' = sym (better_branch_numbers a b h k) ∙ p in
    let q' = sym (better_branch_numbers b c k l) ∙ q in
    rw (better_branch_numbers a c h l) (ground arith)

ties :
    (a b : BranchTip)
    → IsHash a.hash
    → IsHash b.hash
    → better_branch a b ≡ false
    → better_branch b a ≡ false
    → (a.cumulative_work ≡ b.cumulative_work) × (a.height ≡ b.height) × (a.hash ≡ b.hash)
ties a b h k p q =
    let p' = sym (better_branch_numbers a b h k) ∙ p in
    let q' = sym (better_branch_numbers b a k h) ∙ q in
    let same : bytes_cmp a.hash b.hash ≡ Ordering.eq =
      rw (bytes_cmp-be_value a.hash b.hash (h.0 ∙ sym k.0) h.1 k.1) (ground arith) in
    (ground arith, ground arith, bytes_cmp-eq a.hash b.hash same)

-- The choice between tips is a strict total order: of two tips at most one is better, being
-- better is transitive, and of two tips that differ in work, height or hash one is.
pub better_branch-order :
    (a b c : BranchTip)
    → IsHash a.hash
    → IsHash b.hash
    → IsHash c.hash
    → (better_branch a b ≡ true → better_branch b a ≡ false)
      × (better_branch a b ≡ true → better_branch b c ≡ true → better_branch a c ≡ true)
      × (better_branch a b ≡ false
          → better_branch b a ≡ false
          → (a.cumulative_work ≡ b.cumulative_work) × (a.height ≡ b.height) × (a.hash ≡ b.hash))
better_branch-order a b c h k l =
    (λ p. asymm a b h k p, λ p q. trans a b c h k l p q, λ p q. ties a b h k p q)
