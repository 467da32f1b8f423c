-- ===== src/Storage/Candidates.antt =====
-- crates/blq-storage/src/lib.rs: blocks that wait beside the canonical chain, the orphans and the
-- candidates of other branches.
pub mod Order
pub mod Apart
use Prim.Native.Nat.{Ordering, compare}
use blq_node.Base.{
  ℕ, suc, ◌+◌, ◌≡◌, Bool, true, false, not, ◌==◌, ◌&&◌, ◌||◌, ltb, leb, if◌then◌else◌, List, [],
  ◌∷◌, Option, none, some, length, map, Result, ok, err, ◌>>=◌, ◌>>◌, reject_if,
}
use blq_node.Base.Bytes.{ascii, be_bytes, bytes_eq, bytes_cmp, then_cmp}
use blq_node.Base.Sorting.{sort_by}
use blq_node.Externals.{Externals}
use blq_node.Database.{Hex, Sled}
use blq_node.Primitives.{Hash256, BlockHeader, Block, header_hash}
use blq_node.Storage.Keys.{
  StorageError, not_found, io, serialization, orphan_key, candidate_key, candidate_work_key,
  quarantine_key, array_from, int_from_slice,
}
use blq_node.Storage.Blocks.{Json, from_slice, parse_option}

abbrev pub max_orphans : ℕ
max_orphans = 128

abbrev pub max_orphan_bytes : ℕ
max_orphan_bytes = 2_097_152

abbrev pub max_candidates : ℕ
max_candidates = 4_096

abbrev pub max_candidate_bytes : ℕ
max_candidate_bytes = 2_097_152

-- `sort_by_key(|block| block.header.number.0)`.
abbrev pub number_cmp : Block → Block → Ordering
number_cmp a b = compare a.header.number b.header.number

-- `sort_by_key(|(block, work)| (block.header.number.0, Reverse(*work)))`.
abbrev pub candidate_cmp : Block × ℕ → Block × ℕ → Ordering
candidate_cmp a b = then_cmp (compare a.0.header.number b.0.header.number) (compare b.1 a.1)

module _ ⦃json : Json⦄ where
  unfoldable pub parse_blocks : List (List ℕ × List ℕ) → Result (List Block) StorageError
  parse_blocks [] = ok []
  parse_blocks (entry ∷ entries) =
      let rest = parse_blocks entries in
      from_slice json.block entry.1 >>= λ block. rest >>= λ blocks. ok (block ∷ blocks)

-- The loop that removes the keys of a scan.
module _ {Db : Type 0} ⦃sled : Sled Db⦄ where
  unfoldable pub remove_keys : List (List ℕ × List ℕ) → Db → Db
  remove_keys [] d = d
  remove_keys (entry ∷ entries) d = remove_keys entries (sled.remove entry.0 d)

  unfoldable pub contains_key : List ℕ → Db → Bool
  contains_key key d = elim (sled.get key d) [ none ↦ false | some value ↦ true ]

  pub clear_candidate_blocks : Db → Db
  clear_candidate_blocks d = remove_keys (sled.scan_prefix (ascii "candidate:") d) d

module _ {Db : Type 0} ⦃sled : Sled Db⦄ ⦃json : Json⦄ where
  unfoldable pub orphan_blocks : Db → Result (List Block) StorageError
  orphan_blocks d = parse_blocks (sled.scan_prefix (ascii "orphan:block:") d) >>= λ blocks.
      ok (sort_by number_cmp blocks)

  pub canonical_blocks : Db → Result (List Block) StorageError
  canonical_blocks d = parse_blocks (sled.scan_prefix (ascii "block:number:") d) >>= λ blocks.
      ok (sort_by number_cmp blocks)

module _ {Db : Type 0} ⦃sled : Sled Db⦄ ⦃hex : Hex⦄ where
  unfoldable pub remove_orphan_block : Hash256 → Db → Db
  remove_orphan_block hash d = sled.remove (orphan_key hash) d

  unfoldable pub candidate_work : Hash256 → Db → Result ℕ StorageError
  candidate_work hash d = elim (sled.get (candidate_work_key hash) d) [
    | none ↦ err not_found
    | some value ↦ int_from_slice 16 value
  ]

  unfoldable pub remove_candidate_blocks : List Hash256 → Db → Db
  remove_candidate_blocks [] d = d
  remove_candidate_blocks (hash ∷ hashes) d = remove_candidate_blocks hashes (
      sled.remove (quarantine_key hash)
        (sled.remove (candidate_work_key hash) (sled.remove (candidate_key hash) d)))

  unfoldable pub quarantine_candidate_tip : Hash256 → List ℕ → Db → Db
  quarantine_candidate_tip hash reason d = sled.insert (quarantine_key hash) reason d

  pub candidate_tip_is_quarantined : Hash256 → Db → Bool
  candidate_tip_is_quarantined hash d = contains_key (quarantine_key hash) d

module _ ⦃env : Externals⦄ where
  -- The first block with the hash.
  unfoldable pub find_hash : Hash256 → List Block → Option Block
  find_hash hash [] = none
  find_hash hash (block ∷ blocks) =
      if bytes_eq (header_hash block.header) hash then some block else find_hash hash blocks

  abbrev pub is_lt : Ordering → Bool
  is_lt Ordering.lt = true
  is_lt Ordering.eq = false
  is_lt Ordering.gt = false

  -- Whether a candidate replaces the best one so far.
  pub replaces : BlockHeader × ℕ → BlockHeader × ℕ → Bool
  replaces candidate best =
      ltb best.1 candidate.1
      || ((candidate.1 == best.1)
          && is_lt (bytes_cmp (header_hash candidate.0) (header_hash best.0)))

  unfoldable pub better_of : BlockHeader × ℕ → Option (BlockHeader × ℕ) → Option (BlockHeader × ℕ)
  better_of candidate none = some candidate
  better_of candidate (some best) = if replaces candidate best then some candidate else some best

module _ {Db : Type 0} ⦃sled : Sled Db⦄ ⦃json : Json⦄ ⦃hex : Hex⦄ ⦃env : Externals⦄ where
  unfoldable pub evict_first : List Block → Db → Db
  evict_first [] d = d
  evict_first (oldest ∷ others) d = sled.remove (orphan_key (header_hash oldest.header)) d

  -- A full pool loses its lowest orphan.
  unfoldable pub make_room : Db → Result Db StorageError
  make_room d =
      if leb max_orphans (length (sled.scan_prefix (ascii "orphan:block:") d))
      then (orphan_blocks d >>= λ orphans. ok (evict_first orphans d))
      else ok d

  unfoldable pub store_orphan_block : Block → Db → Result Db StorageError
  store_orphan_block block d =
      let value = json.block.to_vec block in
      reject_if (ltb max_orphan_bytes (length value)) serialization
      >> (make_room d >>= λ roomy.
          ok (sled.insert (orphan_key (header_hash block.header)) value roomy))

  unfoldable pub remove_orphans : List Block → Db → Db
  remove_orphans [] d = d
  remove_orphans (block ∷ blocks) d =
      remove_orphans blocks (remove_orphan_block (header_hash block.header) d)

  pub clear_orphan_blocks : Db → Result (Db × ℕ) StorageError
  clear_orphan_blocks d = orphan_blocks d >>= λ blocks. ok (remove_orphans blocks d, length blocks)

  -- `store_candidate_block` flushes after the same.
  unfoldable pub store_candidate_block_unflushed : Block → ℕ → Db → Result Db StorageError
  store_candidate_block_unflushed block cumulative_work d =
      let hash = header_hash block.header in
      let value = json.block.to_vec block in
      reject_if (ltb max_candidate_bytes (length value)) serialization
      >> (reject_if
            (not (contains_key (candidate_key hash) d)
              && leb max_candidates (length (sled.scan_prefix (ascii "candidate:block:") d)))
            io
          >> ok (
              sled.insert (candidate_work_key hash) (be_bytes 16 cumulative_work)
                (sled.insert (candidate_key hash) value d)))

  unfoldable pub candidate_block_by_hash : Hash256 → Db → Result Block StorageError
  candidate_block_by_hash hash d = parse_option json.block (sled.get (candidate_key hash) d)

  unfoldable pub parse_candidates :
      List (List ℕ × List ℕ) → Db → Result (List (Block × ℕ)) StorageError
  parse_candidates [] d = ok []
  parse_candidates (entry ∷ entries) d =
      let rest = parse_candidates entries d in
      from_slice json.block entry.1 >>= λ block.
      candidate_work (header_hash block.header) d >>= λ work.
      rest >>= λ blocks. ok ((block, work) ∷ blocks)

  unfoldable pub candidate_blocks_with_work : Db → Result (List (Block × ℕ)) StorageError
  candidate_blocks_with_work d =
      parse_candidates (sled.scan_prefix (ascii "candidate:block:") d) d >>= λ blocks.
      ok (sort_by candidate_cmp blocks)

  pub block_by_hash : Hash256 → Db → Result Block StorageError
  block_by_hash hash d = canonical_blocks d >>= λ blocks. elim (find_hash hash blocks) [
    | none ↦ candidate_block_by_hash hash d
    | some block ↦ ok block
  ]

module _ {Db : Type 0} ⦃sled : Sled Db⦄ ⦃json : Json⦄ ⦃hex : Hex⦄ ⦃env : Externals⦄ where
  -- The loop of `latest_candidate_tip`.
  unfoldable pub choose_tip :
      List (Block × ℕ) → Option (BlockHeader × ℕ) → Db → Option (BlockHeader × ℕ)
  choose_tip [] best d = best
  choose_tip ((block, work) ∷ blocks) best d =
      choose_tip blocks
        (if candidate_tip_is_quarantined (header_hash block.header) d
          then best
          else better_of (block.header, work) best)
        d

  pub latest_candidate_tip : Db → Result (Option (BlockHeader × ℕ)) StorageError
  latest_candidate_tip d = candidate_blocks_with_work d >>= λ blocks. ok (choose_tip blocks none d)
