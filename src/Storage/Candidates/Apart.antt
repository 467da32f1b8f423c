-- ===== src/Storage/Candidates/Apart.antt =====
-- The blocks that wait never touch the canonical chain and the accounts.
use mathlib.Core.Path.{subst}
use blq_node.Base.{
  ℕ, ◌≡◌, refl, sym, ap, ◌∙◌, true, false, not, ◌&&◌, leb, ltb, List, [], ◌∷◌, ◌++◌, Bool-cases,
  inl, inr, All, All-imp, length, then_ok, >>=-eq-ok, ok_injective, ok,
}
use blq_node.Base.Bytes.{ascii, bytes_eq}
use blq_node.Base.Prefixes.{starts_with, bytes_eq-apart, prefix_apart}
use blq_node.Externals.{Externals}
use blq_node.Database.{Hex, Sled}
use blq_node.Primitives.{Hash256, Block, header_hash}
use blq_node.Storage.Keys.{
  io, serialization, orphan_key, candidate_key, candidate_work_key, quarantine_key, block_key,
  header_key, balance_key, nonce_key, code_key, storage_key,
}
use blq_node.Storage.Blocks.{Json, parse_option, get_best_number, header_by_number, block_by_number}
use blq_node.Storage.Blocks.Indexes.{insert_apart, remove_apart}
use blq_node.Storage.Blocks.Insert.{SameChain, chain}
use blq_node.Storage.Accounts.{balance, nonce, evm_code, evm_storage_at, int_or_zero}
use blq_node.Storage.Accounts.Written.{Agree, view}
use blq_node.Storage.Accounts.Loops.{storage_at_lem, read_slot}
use blq_node.Storage.Candidates.{
  remove_keys, contains_key, clear_candidate_blocks, orphan_blocks, make_room, evict_first,
  store_orphan_block, remove_orphan_block, remove_orphans, clear_orphan_blocks,
  store_candidate_block_unflushed, remove_candidate_blocks, quarantine_candidate_tip,
  max_candidates, max_candidate_bytes, max_orphan_bytes,
}

-- A key of no block that waits.
pub record IsSettled (j : List ℕ) : Type 0 where
  pub candidate : starts_with (ascii "candidate:") j ≡ false
  pub orphan : starts_with (ascii "orphan:block:") j ≡ false

module _ {Db : Type 0} ⦃sled : Sled Db⦄ where
  -- The settled keys hold the same.
  abbrev pub Untouched : Db → Db → Type 0
  Untouched d d' = (j : List ℕ) → IsSettled j → sled.get j d' ≡ sled.get j d

  remove_keys-Untouched :
      (entries : List (List ℕ × List ℕ)) (d : Db)
      → All (λ e. starts_with (ascii "candidate:") e.0 ≡ true) entries
      → Untouched d (remove_keys entries d)
  unfolding remove_keys
  remove_keys-Untouched [] d h j v = refl
  remove_keys-Untouched (e ∷ entries) d h j v =
      remove_keys-Untouched entries (sled.remove e.0 d) h.1 j v
      ∙ remove_apart {Db = Db} j e.0 d (prefix_apart (ascii "candidate:") e.0 j h.0 v.candidate)

  clear_candidate_blocks-Untouched : (d : Db) → Untouched d (clear_candidate_blocks d)
  unfolding clear_candidate_blocks
  clear_candidate_blocks-Untouched d =
      remove_keys-Untouched _ d
        (All-imp (λ e h. h.0) _ (sled.scan_prefix-get (ascii "candidate:") d))

module _ ⦃hex : Hex⦄ where
  orphan_apart : (h j : List ℕ) → IsSettled j → bytes_eq (orphan_key h) j ≡ false
  unfolding orphan_key
  orphan_apart h j v = bytes_eq-apart (ascii "orphan:block:") (hex.encode h) j v.orphan

  candidate_apart : (h j : List ℕ) → IsSettled j → bytes_eq (candidate_key h) j ≡ false
  unfolding candidate_key
  candidate_apart h j v =
      bytes_eq-apart (ascii "candidate:") (ascii "block:" ++ hex.encode h) j v.candidate

  work_apart : (h j : List ℕ) → IsSettled j → bytes_eq (candidate_work_key h) j ≡ false
  unfolding candidate_work_key
  work_apart h j v =
      bytes_eq-apart (ascii "candidate:") (ascii "work:" ++ hex.encode h) j v.candidate

  quarantine_apart : (h j : List ℕ) → IsSettled j → bytes_eq (quarantine_key h) j ≡ false
  unfolding quarantine_key
  quarantine_apart h j v =
      bytes_eq-apart (ascii "candidate:") (ascii "quarantine:" ++ hex.encode h) j v.candidate

module _ {Db : Type 0} ⦃sled : Sled Db⦄ ⦃hex : Hex⦄ where
  remove_candidate_blocks-Untouched :
      (hashes : List Hash256) (d : Db) → Untouched d (remove_candidate_blocks hashes d)
  unfolding remove_candidate_blocks
  remove_candidate_blocks-Untouched [] d j v = refl
  remove_candidate_blocks-Untouched (h ∷ hashes) d j v =
      remove_candidate_blocks-Untouched hashes _ j v
      ∙ remove_apart {Db = Db} j (quarantine_key h) _ (quarantine_apart h j v)
      ∙ remove_apart {Db = Db} j (candidate_work_key h) _ (work_apart h j v)
      ∙ remove_apart {Db = Db} j (candidate_key h) d (candidate_apart h j v)

  quarantine-Untouched :
      (h reason : List ℕ) (d : Db) → Untouched d (quarantine_candidate_tip h reason d)
  unfolding quarantine_candidate_tip
  quarantine-Untouched h reason d j v =
      insert_apart {Db = Db} j (quarantine_key h) reason d (quarantine_apart h j v)

  remove_orphan-Untouched : (h : List ℕ) (d : Db) → Untouched d (remove_orphan_block h d)
  unfolding remove_orphan_block
  remove_orphan-Untouched h d j v = remove_apart {Db = Db} j (orphan_key h) d (orphan_apart h j v)

module _ {Db : Type 0} ⦃sled : Sled Db⦄ ⦃json : Json⦄ ⦃hex : Hex⦄ ⦃env : Externals⦄ where
  remove_orphans-Untouched : (blocks : List Block) (d : Db) → Untouched d (remove_orphans blocks d)
  unfolding remove_orphans
  remove_orphans-Untouched [] d j v = refl
  remove_orphans-Untouched (b ∷ blocks) d j v =
      remove_orphans-Untouched blocks _ j v
      ∙ remove_orphan-Untouched {Db = Db} (header_hash b.header) d j v

  evict_first-Untouched : (blocks : List Block) (d : Db) → Untouched d (evict_first blocks d)
  unfolding evict_first
  evict_first-Untouched [] d j v = refl
  evict_first-Untouched (b ∷ blocks) d j v =
      remove_apart {Db = Db} j (orphan_key (header_hash b.header)) d
        (orphan_apart (header_hash b.header) j v)

  make_room-Untouched : (d d' : Db) → make_room d ≡ ok d' → Untouched d d'
  unfolding make_room
  make_room-Untouched d d' h =
      elim (Bool-cases (leb 128 (length (sled.scan_prefix (ascii "orphan:block:") d)))) [
        | inl full ↦
            let (orphans, p, e) = >>=-eq-ok (orphan_blocks d) _ (rw (full, make_room) at h) in
            subst (Untouched d) (ok_injective e) (evict_first-Untouched orphans d)
        | inr room ↦ subst (Untouched d) (ok_injective (rw (room, make_room) at h)) (λ j v. refl)
      ]

  store_orphan-Untouched : (b : Block) (d d' : Db) → store_orphan_block b d ≡ ok d' → Untouched d d'
  unfolding store_orphan_block
  store_orphan-Untouched b d d' h =
      let (small, g) =
        then_ok (ltb max_orphan_bytes (length (json.block.to_vec b))) serialization _ h in
      let (roomy, p, e) = >>=-eq-ok (make_room d) _ g in
      subst (Untouched d) (ok_injective e) (λ j v.
        insert_apart {Db = Db} j (orphan_key (header_hash b.header)) _ roomy
          (orphan_apart (header_hash b.header) j v)
        ∙ make_room-Untouched d roomy p j v)

  store_candidate-Untouched :
      (b : Block) (w : ℕ) (d d' : Db)
      → store_candidate_block_unflushed b w d ≡ ok d'
      → Untouched d d'
  unfolding store_candidate_block_unflushed
  store_candidate-Untouched b w d d' h =
      let hash = header_hash b.header in
      let (small, g) =
        then_ok (ltb max_candidate_bytes (length (json.block.to_vec b))) serialization _ h in
      let (room, e) =
        then_ok
          (not (contains_key (candidate_key hash) d)
            && leb max_candidates (length (sled.scan_prefix (ascii "candidate:block:") d)))
          io _ g in
      subst (Untouched d) (ok_injective e) (λ j v.
        insert_apart {Db = Db} j (candidate_work_key hash) _ _ (work_apart hash j v)
        ∙ insert_apart {Db = Db} j (candidate_key hash) _ d (candidate_apart hash j v))

  -- One call on the blocks that wait.
  pub data Waiting (d : Db) : Db → Type 0 where
    orphan_stored : (b : Block) (d' : Db) → store_orphan_block b d ≡ ok d' → Waiting d d'
    orphan_removed : (h : Hash256) → Waiting d (remove_orphan_block h d)
    orphans_cleared : (d' : Db) (n : ℕ) → clear_orphan_blocks d ≡ ok (d', n) → Waiting d d'
    candidate_stored :
        (b : Block) (w : ℕ) (d' : Db) → store_candidate_block_unflushed b w d ≡ ok d' → Waiting d d'
    candidates_removed : (hashes : List Hash256) → Waiting d (remove_candidate_blocks hashes d)
    candidates_cleared : Waiting d (clear_candidate_blocks d)
    quarantined : (h : Hash256) (reason : List ℕ) → Waiting d (quarantine_candidate_tip h reason d)

  pub data Waits (d : Db) : Db → Type 0 where
    here : Waits d d
    then_call : {d' d'' : Db} → Waits d d' → Waiting d' d'' → Waits d d''

  Waiting-Untouched : {d d' : Db} → Waiting d d' → Untouched d d'
  unfolding clear_orphan_blocks
  Waiting-Untouched {d} (orphan_stored b d' h) = store_orphan-Untouched b d d' h
  Waiting-Untouched {d} (orphan_removed h) = remove_orphan-Untouched {Db = Db} h d
  Waiting-Untouched {d} (orphans_cleared d' n h) =
      let (blocks, p, e) = >>=-eq-ok (orphan_blocks d) _ h in
      subst (Untouched d) (ap (λ x. x.0) (ok_injective e)) (remove_orphans-Untouched blocks d)
  Waiting-Untouched {d} (candidate_stored b w d' h) = store_candidate-Untouched b w d d' h
  Waiting-Untouched {d} (candidates_removed hashes) =
      remove_candidate_blocks-Untouched {Db = Db} hashes d
  Waiting-Untouched {d} candidates_cleared = clear_candidate_blocks-Untouched {Db = Db} d
  Waiting-Untouched {d} (quarantined h reason) = quarantine-Untouched {Db = Db} h reason d

  Waits-Untouched : {d d' : Db} → Waits d d' → Untouched d d'
  Waits-Untouched here j v = refl
  Waits-Untouched (then_call w c) j v = Waiting-Untouched c j v ∙ Waits-Untouched w j v

  best_same :
      (d d' : Db)
      → sled.get (ascii "best:number") d' ≡ sled.get (ascii "best:number") d
      → get_best_number d' ≡ get_best_number d
  unfolding get_best_number
  best_same d d' h = rw (h, get_best_number) refl

  code_same :
      (d d' : Db) (a : List ℕ)
      → sled.get (code_key a) d' ≡ sled.get (code_key a) d
      → evm_code a d' ≡ evm_code a d
  unfolding evm_code
  code_same d d' a h = rw (h, evm_code) refl

  -- Whatever is stored, removed, cleared or set in quarantine among the blocks that wait, the
  -- canonical chain and the accounts with their code and slots are the same.
  pub Waits-SameChain :
      {d d' : Db} → Waits d d' → SameChain (chain d') (chain d) × Agree (view d') (view d)
  unfolding get_best_number header_by_number block_by_number header_key block_key balance nonce
      evm_code evm_storage_at balance_key nonce_key code_key storage_key
  Waits-SameChain {d} {d'} w =
      let same = Waits-Untouched w in
      let settled =
        λ (j : List ℕ) (c : starts_with (ascii "candidate:") j ≡ false)
            (o : starts_with (ascii "orphan:block:") j ≡ false).
          same j (record { candidate = c; orphan = o }) in
      (
        record {
          best = best_same d d' (settled (ascii "best:number") refl refl);
          headers = λ n k. ap (parse_option json.header) (settled (header_key n) refl refl);
          blocks = λ n k. ap (parse_option json.block) (settled (block_key n) refl refl);
        },
        record {
          balances = λ b v. ap (int_or_zero 16) (settled (balance_key b) refl refl);
          nonces = λ b v. ap (int_or_zero 8) (settled (nonce_key b) refl refl);
          codes = λ b v. code_same d d' b (settled (code_key b) refl refl);
          slots = λ b s v u.
              storage_at_lem b s d'
              ∙ ap read_slot (settled (storage_key b s) refl refl)
              ∙ sym (storage_at_lem b s d);
        },
      )
