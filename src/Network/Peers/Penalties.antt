-- ===== src/Network/Peers/Penalties.antt =====
-- Peers that keep failing are banned.
use blq_node.Base.{ℕ, zero, suc, ◌+◌, ◌≤◌, ◌⊎◌}
use blq_node.Base.Int.{ℤ, negsuc, pos_part, neg_part, ◌≤ℤ◌}
use blq_node.Primitives.{Hash256}
use blq_node.Network.Peers.{PeerScore, Book, penalize}

-- `n` penalties in a row.
pub penalize_times : ℕ → ℤ → ℕ → Hash256 → Book → Book
penalize_times zero a now peer book = book
penalize_times (suc n) a now peer book = penalize a now now peer (penalize_times n a now peer book)

-- The distance that `n` penalties of `k` went down, unless the threshold is passed.
abbrev Fell : ℕ → PeerScore → Type 0
Fell d s = (s.score ≤ℤ negsuc 99) ⊎ (pos_part s.score + d ≤ neg_part s.score + 100)
