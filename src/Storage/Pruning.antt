-- ===== src/Storage/Pruning.antt =====
-- crates/blq-storage/src/lib.rs: `prune_old_blocks`, which drops the bodies of old blocks while the
-- store is too large, and `oldest_body_height`.
pub mod Floor
use Prim.Native.Nat.{compare}
use blq_node.Base.{
  ℕ, zero, suc, ◌*◌, ◌/◌, ◌≡◌, Bool, true, false, ◌==◌, ◌&&◌, leb, ltb, if◌then◌else◌, List, [],
  ◌∷◌, Option, none, some, length, filter, min, take, Result, ok, err, saturating_mul_u64, u64_max,
}
use blq_node.Base.Bytes.{ascii, be_value}
use blq_node.Base.Prefixes.{strip_prefix}
use blq_node.Base.Decimals.{parse_u64}
use blq_node.Base.Sorting.{sort_by}
use blq_node.Externals.{Externals}
use blq_node.Database.{Hex, Sled}
use blq_node.Primitives.{Transaction, Block, transaction_hash, rpc_hash}
use blq_node.Storage.Keys.{block_key, transaction_key, receipt_key}
use blq_node.Storage.Blocks.{Json, block_by_number}

-- The height that a key of a body names.
unfoldable pub body_height : List ℕ → Option ℕ
body_height key = elim (strip_prefix (ascii "block:number:") key) [
  | none ↦ none
  | some text ↦ parse_u64 text
]

-- The heights among the entries of a scan.
unfoldable pub body_heights : List (List ℕ × List ℕ) → List ℕ
body_heights [] = []
body_heights (entry ∷ entries) = elim (body_height entry.0) [
  | none ↦ body_heights entries
  | some number ↦ number ∷ body_heights entries
]

unfoldable pub oldest_of : List ℕ → Option ℕ → Option ℕ
oldest_of [] oldest = oldest
oldest_of (number ∷ numbers) none = oldest_of numbers (some number)
oldest_of (number ∷ numbers) (some current) = oldest_of numbers (some (min current number))

-- Whether an entry of the index of logs is the block's.
abbrev pub indexes_block : ℕ → List ℕ × List ℕ → Bool
indexes_block number entry = (length entry.1 == 16) && (be_value (take 8 entry.1) == number)

module _ {Db : Type 0} ⦃sled : Sled Db⦄ where
  unfoldable pub remove_indexed : ℕ → List (List ℕ × List ℕ) → Db → Db
  remove_indexed number [] d = d
  remove_indexed number (entry ∷ entries) d =
      remove_indexed number entries
        (if indexes_block number entry then sled.remove entry.0 d else d)

  unfoldable pub remove_log_indexes_for_block : ℕ → Db → Db
  remove_log_indexes_for_block number d =
      remove_indexed number (sled.scan_prefix (ascii "log:index:") d) d

  pub oldest_body_height : Db → Option ℕ
  oldest_body_height d = oldest_of (body_heights (sled.scan_prefix (ascii "block:number:") d)) none

module _ {Db : Type 0} ⦃sled : Sled Db⦄ ⦃hex : Hex⦄ ⦃env : Externals⦄ where
  -- The loop over the transactions of a dropped body.
  unfoldable pub drop_transactions : List Transaction → Db → Db
  drop_transactions [] d = d
  drop_transactions (t ∷ ts) d = drop_transactions ts (
      sled.remove (receipt_key (transaction_hash t)) (
        sled.remove (receipt_key (rpc_hash t)) (
          sled.remove (transaction_key (rpc_hash t))
            (sled.remove (transaction_key (transaction_hash t)) d))))

module _ {Db : Type 0} ⦃sled : Sled Db⦄ ⦃json : Json⦄ ⦃hex : Hex⦄ ⦃env : Externals⦄ where
  -- A body that cannot be read is passed over.
  unfoldable pub drop_body : ℕ → Db → Db
  drop_body number d = elim (block_by_number number d) [
    | err e ↦ d
    | ok block ↦
        drop_transactions block.transactions
          (sled.remove (block_key number) (remove_log_indexes_for_block number d))
  ]

  -- The loop over the heights; `usage` is what `disk_usage_bytes` reads in each turn.
  unfoldable pub prune_loop : ℕ → (ℕ → ℕ) → ℕ → List ℕ → Db → Db
  prune_loop target usage turn [] d = d
  prune_loop target usage turn (number ∷ numbers) d =
      let rest = prune_loop target usage (suc turn) numbers (drop_body number d) in
      if leb (usage turn) target then d else rest

  pub prune_old_blocks : ℕ → ℕ → (ℕ → ℕ) → Db → Db
  prune_old_blocks max_bytes minimum_body_height usage d =
      prune_loop (saturating_mul_u64 max_bytes 9 / 10) usage 0
        (sort_by compare (
          filter (λ number. ltb minimum_body_height number)
            (body_heights (sled.scan_prefix (ascii "block:number:") d))))
        d
