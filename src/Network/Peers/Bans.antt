-- ===== src/Network/Peers/Bans.antt =====
-- When a peer is banned, for how long, and what lifts a ban.
use blq_node.Base.{
  ℕ, ◌≡◌, ◌≢◌, refl, ap, ◌∙◌, true, [], ◌∷◌, none, arith, if◌then◌else◌, Bool-cases, Option-cases,
  inl, inr,
}
use blq_node.Base.Int.{ℤ, pos, negsuc, ◌+ℤ◌, ◌-ℤ◌, ◌≤ℤ◌}
use blq_node.Base.Bytes.{bytes_eq, bytes_eq_iff, bytes_eq_refl}
use blq_node.Base.Assoc.{lookup, lookup-insert}
use blq_node.Primitives.{Hash256}
use blq_node.Network.Peers.{
  i32_min, i32_max, PeerScore, Book, default_score, or_default, get, update, reward, observe_valid,
  pardon, clear_ban, charge, ban_below, penalize, is_active, is_banned, clear_all_bans, abs_i32,
  saturating_sub_i32, increment_i32,
}

-- What holds of a score that the operations made: within the range, and banned, with an end to the
-- ban, where it is at the threshold or below.
pub record IsSound (s : PeerScore) : Type 0 where
  pub lower : i32_min ≤ℤ s.score
  pub upper : s.score ≤ℤ pos 100
  pub low : s.score ≤ℤ negsuc 99 → s.banned ≡ true
  pub ends : s.banned ≡ true → s.ban_until_epoch ≢ none

default-IsSound : IsSound default_score
unfolding default_score
default-IsSound = record {
  lower = omega arith;
  upper = omega arith;
  low = λ h. absurd (omega arith);
  ends = λ h. cc;
}

reward-IsSound : (s : PeerScore) → IsSound s → IsSound (reward s)
unfolding reward increment_i32 ◌+ℤ◌
reward-IsSound s v = record {
  lower = ground (arith, v.lower, v.upper);
  upper = ground (arith, v.lower, v.upper);
  low = ground (arith, v.lower, v.upper, v.low);
  ends = ground (arith, v.ends);
}

pardon-IsSound : (s : PeerScore) → IsSound s → IsSound (pardon s)
unfolding pardon
pardon-IsSound s v = record {
  lower = omega arith;
  upper = omega arith;
  low = λ h. absurd (omega arith);
  ends = λ h. cc;
}

-- A penalty that is an `i32` other than the least one.
abbrev pub IsPenalty : ℤ → Type 0
IsPenalty a = (negsuc 0x7fff_fffe ≤ℤ a) × (a ≤ℤ i32_max)

pub punish-IsSound :
    (a : ℤ) (failed_at banned_at : ℕ) (s : PeerScore)
    → IsPenalty a
    → IsSound s
    → IsSound (ban_below banned_at (charge a failed_at s))
unfolding ban_below charge abs_i32 saturating_sub_i32 ◌-ℤ◌
punish-IsSound a failed_at banned_at s p v = record {
  lower = ground (arith, v.lower, v.upper, p);
  upper = ground (arith, v.lower, v.upper, p);
  low = ground (arith, v.lower, v.upper, p);
  ends = ground (arith, v.ends);
}

-- What any lookup finds is sound.
abbrev pub BookIsSound : Book → Type 0
BookIsSound book = (peer : Hash256) → IsSound (get peer book)

get-update :
    (f : PeerScore → PeerScore) (p q : Hash256) (book : Book)
    → get q (update f p book) ≡ (if bytes_eq p q then f (get p book) else get q book)
unfolding get update or_default
get-update f p q book =
    rw (lookup-insert)
      (elim (Bool-cases (bytes_eq p q)) [ inl same ↦ rw same refl | inr other ↦ rw other refl ])

pub update-IsSound :
    (f : PeerScore → PeerScore) (p : Hash256) (book : Book)
    → ((s : PeerScore) → IsSound s → IsSound (f s))
    → BookIsSound book
    → BookIsSound (update f p book)
update-IsSound f p book keeps v q = rw (get-update f p q book) (elim (Bool-cases (bytes_eq p q)) [
  | inl same ↦ rw same (keeps (get p book) (v p))
  | inr other ↦ rw other (v q)
])

get-clear_all_bans :
    (q : Hash256) (book : Book) → get q (clear_all_bans book).0 ≡ pardon (get q book)
unfolding get lookup clear_all_bans or_default default_score pardon
get-clear_all_bans q [] = refl
get-clear_all_bans q ((p, s) ∷ book) = elim (Bool-cases (bytes_eq p q)) [
  | inl same ↦ rw same refl
  | inr other ↦ rw other (get-clear_all_bans q book)
]

-- One call on the book, with any peer, penalty and readings of the clock.
pub data Step (book : Book) : Book → Type 0 where
  observed : (peer : Hash256) → Step book (observe_valid peer book)
  penalized :
      (a : ℤ) (failed_at banned_at : ℕ) (peer : Hash256)
      → IsPenalty a
      → Step book (penalize a failed_at banned_at peer book)
  cleared : (peer : Hash256) → Step book (clear_ban peer book)
  all_cleared : Step book (clear_all_bans book).0

-- The books that calls make from an empty one.
pub data Reachable : Book → Type 0 where
  started : Reachable []
  stepped : {book next : Book} → Reachable book → Step book next → Reachable next

Step-IsSound : {book next : Book} → Step book next → BookIsSound book → BookIsSound next
unfolding observe_valid penalize clear_ban
Step-IsSound (observed peer) v = update-IsSound reward peer _ reward-IsSound v
Step-IsSound (penalized a failed_at banned_at peer p) v =
    update-IsSound _ peer _ (λ s. punish-IsSound a failed_at banned_at s p) v
Step-IsSound (cleared peer) v = update-IsSound pardon peer _ pardon-IsSound v
Step-IsSound {book = book} all_cleared v =
    λ q. rw (get-clear_all_bans q book) (pardon-IsSound (get q book) (v q))

-- In every book that calls make, with penalties that have an absolute value, each peer's score is
-- an `i32` of at most 100, and a peer at the threshold or below is marked as banned, with
-- an end to its ban.
pub Reachable-IsSound : {book : Book} → Reachable book → (peer : Hash256) → IsSound (get peer book)
unfolding get lookup or_default
Reachable-IsSound started peer = default-IsSound
Reachable-IsSound (stepped before step) peer = Step-IsSound step (Reachable-IsSound before) peer

pub get-update_self :
    (f : PeerScore → PeerScore) (p : Hash256) (book : Book)
    → get p (update f p book) ≡ f (get p book)
get-update_self f p book = rw (get-update f p p book, bytes_eq_refl p) refl

is_banned-get :
    (p : Hash256) (now : ℕ) (book : Book) → is_banned p now book ≡ is_active now (get p book)
unfolding is_banned get or_default default_score
is_banned-get p now book = elim (Option-cases (lookup p book)) [
  | inl gone ↦ rw (is_banned, gone) refl
  | inr (s, e) ↦ rw (is_banned, e) refl
]

is_active-reward : (now : ℕ) (s : PeerScore) → is_active now (reward s) ≡ is_active now s
unfolding reward
is_active-reward now s = ground arith

-- A valid message changes nobody's ban, at no time: it does not end the sender's own.
pub is_banned-observe_valid :
    (p q : Hash256) (now : ℕ) (book : Book)
    → is_banned q now (observe_valid p book) ≡ is_banned q now book
unfolding observe_valid
is_banned-observe_valid p q now book =
    rw (is_banned-get, get-update, is_banned-get)
      (elim (Bool-cases (bytes_eq p q)) [
        | inl same ↦
            let one : p ≡ q = (bytes_eq_iff p q).0 same in
            rw same (is_active-reward now (get p book) ∙ ap (λ r. is_active now (get r book)) one)
        | inr other ↦ rw other refl
      ])
