-- ===== src/Storage/Candidates/Order.antt =====
-- The tip that `latest_candidate_tip` chooses: by the most work, and then by the least hash.
use mathlib.Core.Path.{subst}
use blq_node.Base.{
  All, All-imp, >>=-eq-ok, ok_injective, ℕ, ◌≡◌, refl, sym, ap, ◌∙◌, Bool, true, false, ◌==◌, ◌&&◌,
  ◌||◌, ltb, List, [], ◌∷◌, Option, none, some, Bool-cases, inl, inr, ◌⊎◌, arith, ok,
}
use blq_node.Base.Bytes.{ascii, bytes_eq, be_value, bytes_cmp-be_value}
use blq_node.Base.Assoc.{lookup}
use blq_node.Base.Sorting.{All-of_sort_by}
use blq_node.Externals.{Externals}
use blq_node.Database.{Hex, Sled}
use blq_node.Primitives.{Hash256, BlockHeader, Block, header_hash}
use blq_node.Primitives.Encoding.Roots.{header_hash-IsHash}
use blq_node.Storage.Keys.{candidate_key}
use blq_node.Storage.Blocks.{Json, from_slice}
use blq_node.Storage.Blocks.Insert.{parse_stored}
use blq_node.Storage.Candidates.{
  candidate_cmp, candidate_work, parse_candidates, replaces, better_of, choose_tip,
  candidate_tip_is_quarantined, candidate_blocks_with_work, latest_candidate_tip,
}

injected : {v w : List ℕ} → ◌≡◌ {A = Option (List ℕ)} (some v) (some w) → v ≡ w
injected h = cc

module _ ⦃env : Externals⦄ where
  -- The order compares two numbers.
  replaces_numbers :
      (a b : BlockHeader × ℕ)
      → replaces a b ≡ (
          ltb b.1 a.1
          || ((a.1 == b.1) && ltb (be_value (header_hash a.0)) (be_value (header_hash b.0))))
  unfolding replaces
  replaces_numbers a b =
      let h = header_hash-IsHash a.0 in
      let k = header_hash-IsHash b.0 in
      rw (bytes_cmp-be_value (header_hash a.0) (header_hash b.0) (h.0 ∙ sym k.0) h.1 k.1, replaces)
        (ground arith)

  -- Not to be better is transitive.
  not_replaces_trans :
      (a b c : BlockHeader × ℕ) → replaces a b ≡ false → replaces b c ≡ false → replaces a c ≡ false
  not_replaces_trans a b c h k =
      let p = sym (replaces_numbers a b) ∙ h in
      let q = sym (replaces_numbers b c) ∙ k in replaces_numbers a c ∙ ground (arith, p, q)

  replaces_asym : (a b : BlockHeader × ℕ) → replaces a b ≡ true → replaces b a ≡ false
  replaces_asym a b h =
      let p = sym (replaces_numbers a b) ∙ h in replaces_numbers b a ∙ ground (arith, p)

  not_self : (a : BlockHeader × ℕ) → replaces a a ≡ false
  not_self a = replaces_numbers a a ∙ ground arith

  -- No candidate that is not set aside is better than `t`.
  abbrev pub Unbeaten : BlockHeader × ℕ → (BlockHeader → Bool) → List (Block × ℕ) → Type 0
  Unbeaten t aside blocks =
      All (λ c. (aside c.0.header ≡ true) ⊎ (replaces (c.0.header, c.1) t ≡ false)) blocks

  -- One of the candidates is `t`, and is not set aside.
  abbrev pub Among : BlockHeader × ℕ → (BlockHeader → Bool) → List (Block × ℕ) → Type 0
  Among t aside [] = ⊥
  Among t aside (c ∷ cs) =
      ((c.0.header ≡ t.0) × (c.1 ≡ t.1) × (aside c.0.header ≡ false)) ⊎ Among t aside cs

  -- The best candidate of those that are not set aside, where there is one.
  abbrev pub IsBest : (BlockHeader → Bool) → List (Block × ℕ) → Option (BlockHeader × ℕ) → Type 0
  IsBest aside blocks none = All (λ c. aside c.0.header ≡ true) blocks
  IsBest aside blocks (some t) = Among t aside blocks × Unbeaten t aside blocks

  abbrev NotBetter : Option (BlockHeader × ℕ) → BlockHeader × ℕ → Type 0
  NotBetter none t = Unit
  NotBetter (some b) t = replaces b t ≡ false

  abbrev Chosen :
      Option (BlockHeader × ℕ)
      → (BlockHeader → Bool)
      → List (Block × ℕ)
      → Option (BlockHeader × ℕ)
      → Type 0
  Chosen best aside blocks none = (best ≡ none) × All (λ c. aside c.0.header ≡ true) blocks
  Chosen best aside blocks (some t) =
      Unbeaten t aside blocks × NotBetter best t × (Among t aside blocks ⊎ (best ≡ some t))

  skipped :
      (aside : BlockHeader → Bool) (c : Block × ℕ) (cs : List (Block × ℕ))
      (best r : Option (BlockHeader × ℕ))
      → aside c.0.header ≡ true
      → Chosen best aside cs r
      → Chosen best aside (c ∷ cs) r
  skipped aside c cs best none h k = (k.0, (h, k.1))
  skipped aside c cs best (some t) h k =
      ((inl h, k.0), k.1, elim k.2 [ inl a ↦ inl (inr a) | inr e ↦ inr e ])

  some_injective :
      {a b : BlockHeader × ℕ} → ◌≡◌ {A = Option (BlockHeader × ℕ)} (some a) (some b) → a ≡ b
  some_injective h = cc

  first-Among :
      (aside : BlockHeader → Bool) (c : Block × ℕ) (cs : List (Block × ℕ)) (t : BlockHeader × ℕ)
      → aside c.0.header ≡ false
      → Among t aside cs ⊎ (some (c.0.header, c.1) ≡ some t)
      → Among t aside (c ∷ cs)
  first-Among aside c cs t h k = elim k [
    | inl a ↦ inr a
    | inr e ↦ let same = some_injective e in inl (ap (λ x. x.0) same, ap (λ x. x.1) same, h)
  ]

  taken :
      (aside : BlockHeader → Bool) (c : Block × ℕ) (cs : List (Block × ℕ))
      (best r : Option (BlockHeader × ℕ))
      → aside c.0.header ≡ false
      → Chosen (better_of (c.0.header, c.1) best) aside cs r
      → Chosen best aside (c ∷ cs) r
  unfolding better_of
  taken aside c cs none none h k = absurd (cc)
  taken aside c cs none (some t) h k = ((inr k.1, k.0), tt, inl (first-Among aside c cs t h k.2))
  taken aside c cs (some b) r h k = elim (Bool-cases (replaces (c.0.header, c.1) b)) [
    | inl wins ↦ won r (rw (wins, better_of) at k) wins
    | inr loses ↦ lost r (rw (loses, better_of) at k) loses
  ]
    where
      won :
          (r : Option (BlockHeader × ℕ))
          → Chosen (some (c.0.header, c.1)) aside cs r
          → replaces (c.0.header, c.1) b ≡ true
          → Chosen (some b) aside (c ∷ cs) r
      won none k wins = absurd (cc)
      won (some t) k wins = (
        (inr k.1, k.0),
        not_replaces_trans b (c.0.header, c.1) t (replaces_asym _ _ wins) k.1,
        inl (first-Among aside c cs t h k.2),
      )

      lost :
          (r : Option (BlockHeader × ℕ))
          → Chosen (some b) aside cs r
          → replaces (c.0.header, c.1) b ≡ false
          → Chosen (some b) aside (c ∷ cs) r
      lost none k loses = absurd (cc)
      lost (some t) k loses = (
        (inr (not_replaces_trans (c.0.header, c.1) b t loses k.1), k.0),
        k.1,
        elim k.2 [ inl a ↦ inl (inr a) | inr e ↦ inr e ],
      )

module _ {Db : Type 0} ⦃sled : Sled Db⦄ ⦃json : Json⦄ ⦃hex : Hex⦄ ⦃env : Externals⦄ where
  abbrev pub set_aside : Db → BlockHeader → Bool
  set_aside d header = candidate_tip_is_quarantined (header_hash header) d

  choose_tip-Chosen :
      (d : Db) (blocks : List (Block × ℕ)) (best : Option (BlockHeader × ℕ))
      → Chosen best (set_aside d) blocks (choose_tip blocks best d)
  unfolding choose_tip
  choose_tip-Chosen d [] none = (refl, tt)
  choose_tip-Chosen d [] (some b) = (tt, not_self b, inr refl)
  choose_tip-Chosen d (c ∷ cs) best = elim (Bool-cases (set_aside d c.0.header)) [
    | inl h ↦ rw (h, choose_tip) (skipped (set_aside d) c cs best _ h (choose_tip-Chosen d cs best))
    | inr h ↦
        rw (h, choose_tip)
          (taken (set_aside d) c cs best _ h
            (choose_tip-Chosen d cs (better_of (c.0.header, c.1) best)))
  ]

  -- What is set aside, or is no better than the tip that is chosen.
  abbrev pub Answered : Db → Option (BlockHeader × ℕ) → Block × ℕ → Type 0
  Answered d r c =
      (set_aside d c.0.header ≡ true)
      ⊎ ((t : BlockHeader × ℕ) × (r ≡ some t) × (replaces (c.0.header, c.1) t ≡ false))

  best-Answered :
      (d : Db) (blocks : List (Block × ℕ)) (r : Option (BlockHeader × ℕ))
      → IsBest (set_aside d) blocks r
      → All (Answered d r) blocks
  best-Answered d blocks none h = All-imp (λ c p. inl p) blocks h
  best-Answered d blocks (some t) h =
      All-imp (λ c p. elim p [ inl q ↦ inl q | inr q ↦ inr (t, refl, q) ]) blocks h.1

  chosen-IsBest :
      (d : Db) (blocks : List (Block × ℕ)) (r : Option (BlockHeader × ℕ))
      → Chosen none (set_aside d) blocks r
      → IsBest (set_aside d) blocks r
  chosen-IsBest d blocks none h = h.1
  chosen-IsBest d blocks (some t) h = (elim h.2 [ inl a ↦ a | inr e ↦ absurd (cc) ], h.0)

  -- A stored candidate is among those that are read.
  read_candidate :
      (P : Block × ℕ → Type 0) (k : List ℕ) (b : Block) (w : ℕ) (entries : List (List ℕ × List ℕ))
      (d : Db) (blocks : List (Block × ℕ))
      → parse_candidates entries d ≡ ok blocks
      → All P blocks
      → lookup k entries ≡ some (json.block.to_vec b)
      → candidate_work (header_hash b.header) d ≡ ok w
      → P (b, w)
  unfolding parse_candidates lookup
  read_candidate P k b w [] d blocks h a e work = absurd (cc)
  read_candidate P k b w ((j, v) ∷ entries) d blocks h a e work =
      let (block, p, g) = >>=-eq-ok (from_slice json.block v) _ h in
      let (found, q, g1) = >>=-eq-ok (candidate_work (header_hash block.header) d) _ g in
      let (rest, r, last) = >>=-eq-ok (parse_candidates entries d) _ g1 in
      let whole = subst (All P) (sym (ok_injective last)) a in
      elim (Bool-cases (bytes_eq j k)) [
        | inl here ↦
            let value : v ≡ json.block.to_vec b = injected (rw here at e) in
            let same : block ≡ b =
              ok_injective (sym p ∙ ap (from_slice json.block) value ∙ parse_stored json.block b) in
            let amount : found ≡ w =
              ok_injective
                (sym q ∙ ap (λ x. candidate_work (header_hash x.header) d) same ∙ work) in
            subst (λ x. P (x, w)) same (subst (λ n. P (block, n)) amount whole.0)
        | inr other ↦ read_candidate P k b w entries d rest r whole.1 (rw other at e) work
      ]

  -- Where the candidates can be read, the tip that is chosen is one of them and is not in quarantine,
  -- and there is none only where all are in quarantine. Of a candidate that is in the store with its work and not in
  -- quarantine the tip has at least the work, and with the same work no greater hash.
  pub latest_candidate_tip_lem :
      (d : Db) (blocks : List (Block × ℕ)) (hash : Hash256) (b : Block) (w : ℕ)
      → candidate_blocks_with_work d ≡ ok blocks
      → sled.get (candidate_key hash) d ≡ some (json.block.to_vec b)
      → candidate_work (header_hash b.header) d ≡ ok w
      → (r : Option (BlockHeader × ℕ)) × (latest_candidate_tip d ≡ ok r)
        × IsBest (set_aside d) blocks r
        × Answered d r (b, w)
  unfolding latest_candidate_tip candidate_blocks_with_work candidate_key
  latest_candidate_tip_lem d blocks hash b w h there work =
      let r = choose_tip blocks none d in
      let best = chosen-IsBest d blocks r (choose_tip-Chosen d blocks none) in
      let (parsed, p, sorted) =
        >>=-eq-ok (parse_candidates (sled.scan_prefix (ascii "candidate:block:") d) d) _ h in
      let all =
        All-of_sort_by candidate_cmp (Answered d r) parsed (
          subst (All (Answered d r)) (sym (ok_injective sorted)) (best-Answered d blocks r best)) in
      (
        r,
        rw (h, latest_candidate_tip) refl,
        best,
        read_candidate (Answered d r) (candidate_key hash) b w _ d parsed p all
            (sled.get-scan_prefix (ascii "candidate:block:") (candidate_key hash)
              (json.block.to_vec b) d refl there)
            work,
      )
