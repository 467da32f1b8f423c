-- ===== src/Network/Peers.antt =====
-- crates/blq-network/src/lib.rs, `PeerScoreBook`. The clock's readings are arguments, in the order
-- in which an operation takes them.
pub mod Bans
pub mod Penalties
mod Examples
use blq_node.Base.{
  ℕ, suc, ◌+◌, ◌-◌, Bool, true, false, not, ◌&&◌, ◌||◌, List, [], ◌∷◌, Option, some, none, map, ltb,
  ◌==◌, if◌then◌else◌, min, saturating_add_u64,
}
use blq_node.Base.Int.{ℤ, pos, negsuc, pos_part, neg_part, ◌+ℤ◌, ◌-ℤ◌, leb_ℤ, min_ℤ, max_ℤ}
use blq_node.Base.Assoc.{lookup, insert}
use blq_node.Primitives.{Hash256}

abbrev pub i32_max : ℤ
i32_max = pos 0x7fff_ffff

abbrev pub i32_min : ℤ
i32_min = negsuc 0x7fff_ffff

abbrev pub u32_max : ℕ
u32_max = 0xffff_ffff

abbrev pub peer_ban_threshold : ℤ
peer_ban_threshold = negsuc 99

abbrev pub peer_max_score : ℤ
peer_max_score = pos 100

abbrev pub peer_ban_cooldown_secs : ℕ
peer_ban_cooldown_secs = 30

-- `score + 1` of a release build, which wraps at the largest `i32`.
pub increment_i32 : ℤ → ℤ
increment_i32 a = if leb_ℤ i32_max a then i32_min else a +ℤ pos 1

-- `i32::abs` of a release build: the least `i32` is its own absolute value.
pub abs_i32 : ℤ → ℤ
abs_i32 (pos n) = pos n
abs_i32 (negsuc n) = if n == 0x7fff_ffff then i32_min else pos (suc n)

pub saturating_sub_i32 : ℤ → ℤ → ℤ
saturating_sub_i32 a b = max_ℤ i32_min (min_ℤ i32_max (a -ℤ b))

pub record PeerScore : Type 0 where
  pub score : ℤ
  pub consecutive_failures : ℕ
  pub banned : Bool
  pub ban_until_epoch : Option ℕ
  pub last_failure_epoch : Option ℕ

pub default_score : PeerScore
default_score = record {
  score = pos 0;
  consecutive_failures = 0;
  banned = false;
  ban_until_epoch = none;
  last_failure_epoch = none;
}

abbrev pub Book : Type 0
Book = List (Hash256 × PeerScore)

abbrev pub or_default : Option PeerScore → PeerScore
unfolding default_score
or_default none = default_score
or_default (some s) = s

pub get : Hash256 → Book → PeerScore
get peer book = or_default (lookup peer book)

-- `entry(peer).or_default()` and what is done to it.
pub update : (PeerScore → PeerScore) → Hash256 → Book → Book
update f peer book = insert peer (f (get peer book)) book

pub reward : PeerScore → PeerScore
reward s =
    if s.banned
    then s
    else record s { score = min_ℤ (increment_i32 s.score) peer_max_score; consecutive_failures = 0 }

pub observe_valid : Hash256 → Book → Book
observe_valid peer book = update reward peer book

pub pardon : PeerScore → PeerScore
pardon s = record s {
  score = pos 0;
  consecutive_failures = 0;
  banned = false;
  ban_until_epoch = none;
}

pub clear_ban : Hash256 → Book → Book
clear_ban peer book = update pardon peer book

-- The entry after a failure, before the test for a ban.
pub charge : ℤ → ℕ → PeerScore → PeerScore
charge penalty failed_at s = record s {
  score = saturating_sub_i32 s.score (abs_i32 penalty);
  consecutive_failures = min (s.consecutive_failures + 1) u32_max;
  last_failure_epoch = some failed_at;
}

pub ban_below : ℕ → PeerScore → PeerScore
ban_below banned_at s =
    if leb_ℤ s.score peer_ban_threshold
    then record s {
      banned = true;
      ban_until_epoch = some (saturating_add_u64 banned_at peer_ban_cooldown_secs);
    }
    else s

pub penalize : ℤ → ℕ → ℕ → Hash256 → Book → Book
penalize penalty failed_at banned_at peer book =
    update (λ s. ban_below banned_at (charge penalty failed_at s)) peer book

abbrev pub is_active : ℕ → PeerScore → Bool
is_active now s = elim s.ban_until_epoch [
  | none ↦ s.banned
  | some until ↦ s.banned && ltb now until
]

pub is_banned : Hash256 → ℕ → Book → Bool
is_banned peer now book = elim (lookup peer book) [ none ↦ false | some s ↦ is_active now s ]

pub is_marked : PeerScore → Bool
is_marked s =
    s.banned || not (leb_ℤ s.score (pos 0) && leb_ℤ (pos 0) s.score) || ltb 0 s.consecutive_failures

-- The loop over the scores: the book after it and `cleared`.
pub clear_all_bans : Book → Book × ℕ
clear_all_bans [] = ([], 0)
clear_all_bans ((peer, s) ∷ book) =
    let (rest, cleared) = clear_all_bans book in
    ((peer, pardon s) ∷ rest, if is_marked s then suc cleared else cleared)
