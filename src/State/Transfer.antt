-- ===== src/State/Transfer.antt =====
-- What a transfer does to the accounts and to the supply.
use blq_node.Base.{
  ℕ, ◌+◌, ◌≤◌, ◌<◌, ◌≡◌, ◌≢◌, ◌↔◌, ◌⊎◌, ◌∙◌, refl, ap, false, List, [], ◌∷◌, arith, ok, sum_of,
  add_u64, saturating_add_u128, u128_max,
}
use blq_node.Base.Bytes.{bytes_eq, bytes_eq_refl, bytes_eq_sym}
use blq_node.Base.Assoc.{lookup, insert, lookup-insert}
use blq_node.Primitives.{Address, Bix}
use blq_node.State.{
  Account, InMemoryState, or_empty, empty_account, account, put_account, debit, credit, transfer,
}

-- All the value that the accounts hold.
pub supply : InMemoryState → ℕ
supply s = sum_of (λ entry. entry.1.balance) s.accounts

supply-insert :
    (a : Address) (v : Account) (m : List (Address × Account))
    → sum_of (λ entry. entry.1.balance) (insert a v m) + (or_empty (lookup a m)).balance
      ≡ sum_of (λ entry. entry.1.balance) m + v.balance
unfolding insert lookup empty_account
supply-insert a v [] = omega arith
supply-insert a v ((b, w) ∷ m) = ground (arith, supply-insert a v m)

account_hit : (a : Address) (v : Account) (s : InMemoryState) → account a (put_account a v s) ≡ v
unfolding account put_account or_empty
account_hit a v s = rw (lookup-insert, bytes_eq_refl a) refl

account_miss :
    (a b : Address) (v : Account) (s : InMemoryState)
    → bytes_eq a b ≡ false
    → account b (put_account a v s) ≡ account b s
unfolding account put_account
account_miss a b v s h = rw (lookup-insert, h) refl

supply-put_account :
    (a : Address) (v : Account) (s : InMemoryState)
    → supply (put_account a v s) + (account a s).balance ≡ supply s + v.balance
unfolding supply account put_account
supply-put_account a v s = supply-insert a v s.accounts

-- A transfer that is refused changes nothing, and one is refused exactly where the nonce is not
-- the sender's, or the balance is short of the value and the fee.
pub transfer_refused :
    (from to : Address) (nonce : ℕ) (value fee : Bix) (s : InMemoryState)
    → (((transfer from to nonce value fee s).1 ≢ ok tt) ↔ (
        ((account from s).nonce ≢ nonce)
        ⊎ ((account from s).balance < saturating_add_u128 value fee)))
      × ((transfer from to nonce value fee s).1 ≢ ok tt
          → (transfer from to nonce value fee s).0 ≡ s)
unfolding transfer
transfer_refused from to nonce value fee s = ground arith

-- The two accounts of a transfer that goes through.
pub record IsPaid (from to : Address) (nonce : ℕ) (value fee : Bix) (s after : InMemoryState)
    : Type 0 where
  pub sender : (account from after).balance + value + fee ≡ (account from s).balance
  pub counted : (account from after).nonce ≡ add_u64 nonce 1
  pub receiver : (account to after).balance ≡ (account to s).balance + value
  pub others :
      (a : Address)
      → bytes_eq from a ≡ false
      → bytes_eq to a ≡ false
      → account a after ≡ account a s
  pub supplied : supply after + fee ≡ supply s

transfer_accepted :
    (from to : Address) (nonce : ℕ) (value fee : Bix) (s : InMemoryState)
    → (transfer from to nonce value fee s).1 ≡ ok tt
    → ((account from s).nonce ≡ nonce)
      × (saturating_add_u128 value fee ≤ (account from s).balance)
      × ((transfer from to nonce value fee s).0
          ≡ put_account to
              (credit value (account to s))
              (put_account from (debit (saturating_add_u128 value fee) (account from s)) s))
unfolding transfer
transfer_accepted from to nonce value fee s h = ground arith

-- A transfer between two accounts that goes through takes the value and the fee from the sender,
-- counts its nonce up, gives the value to the receiver, leaves every other account
-- alone, and lowers the supply by exactly the fee: where the sums fit their words.
pub transfer-IsPaid :
    (from to : Address) (nonce : ℕ) (value fee : Bix) (s : InMemoryState)
    → bytes_eq from to ≡ false
    → value + fee ≤ u128_max
    → (account to s).balance + value ≤ u128_max
    → (transfer from to nonce value fee s).1 ≡ ok tt
    → IsPaid from to nonce value fee s (transfer from to nonce value fee s).0
unfolding debit credit
transfer-IsPaid from to nonce value fee s differ fits room h =
    let (nonces, enough, done) = transfer_accepted from to nonce value fee s h in
    let paid : Account = debit (saturating_add_u128 value fee) (account from s) in
    let middle : InMemoryState = put_account from paid s in
    let received : Account = credit value (account to s) in
    let other : bytes_eq to from ≡ false = bytes_eq_sym to from ∙ differ in
    let sent : account from (put_account to received middle) ≡ paid =
      account_miss to from received middle other ∙ account_hit from paid s in
    let got : account to (put_account to received middle) ≡ received =
      account_hit to received middle in
    let before : account to middle ≡ account to s = account_miss from to paid s differ in
    rw done (record {
      sender = rw sent (omega arith);
      counted = rw sent (ap (λ (n : ℕ). add_u64 n 1) nonces);
      receiver = rw got (omega arith);
      others = λ a p q. account_miss to a received middle q ∙ account_miss from a paid s p;
      supplied = omega (
        arith,
        supply-put_account to received middle,
        supply-put_account from paid s,
        ap (λ (a : Account). a.balance) before,
      );
    })

-- A transfer of an account to itself, once it goes through, adds the value to the balance, takes
-- no fee and does not count the nonce up: the receiver's account is written over the sender's.
pub transfer_to_self :
    (a : Address) (nonce : ℕ) (value fee : Bix) (s : InMemoryState)
    → (account a s).balance + value ≤ u128_max
    → (transfer a a nonce value fee s).1 ≡ ok tt
    → ((account a (transfer a a nonce value fee s).0).balance ≡ (account a s).balance + value)
      × ((account a (transfer a a nonce value fee s).0).nonce ≡ nonce)
unfolding credit
transfer_to_self a nonce value fee s room h =
    let (nonces, enough, done) = transfer_accepted a a nonce value fee s h in
    let middle : InMemoryState =
      put_account a (debit (saturating_add_u128 value fee) (account a s)) s in
    let hit = account_hit a (credit value (account a s)) middle in
    rw (done, hit) (omega arith, nonces)
