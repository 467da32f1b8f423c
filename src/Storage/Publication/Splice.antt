-- ===== src/Storage/Publication/Splice.antt =====
-- The batch of a publication: that it is built, and of what parts.
use blq_node.Base.{
  ℕ, suc, ◌+◌, ◌-◌, ◌≤◌, ◌<◌, ◌≡◌, refl, ap, ◌∙◌, true, ◌==◌, leb, if◌then◌else◌, List, [], ◌∷◌,
  ◌++◌, some, arith, All, All-imp, length, map, concat, take, ok, u64_mod, u64_max,
}
use blq_node.Base.Bytes.{ascii, be_value}
use blq_node.Base.Prefixes.{starts_with}
use blq_node.Externals.{Externals}
use blq_node.Database.{Hex, Sled, BatchOp, delete}
use blq_node.Primitives.{Block}
use blq_node.Storage.Keys.{block_key, header_key, array_from}
use blq_node.Storage.Blocks.{Json, remove_block_from_batch}
use blq_node.Storage.Blocks.Indexes.{block_key-IsChainKey, header_key-IsChainKey}
use blq_node.Storage.Publication.{
  Suffix, first_removed, replacement_ops, removed_blocks, stale_log_ops, delete_ops, state_ops,
  suffix_batch, suffix_tip,
}
use blq_node.Storage.Publication.Batch.{IsCoreKey}
use blq_node.Storage.Publication.Heights.{Numbered}
use blq_node.Storage.Publication.Keys.{
  HaveReceipts, replacement_ops_total, HasBodies, removed_blocks_total,
}

pub block_key-IsCoreKey : (n : ℕ) → IsCoreKey (block_key n)
unfolding block_key
block_key-IsCoreKey n = record {
  chain = block_key-IsChainKey n;
  account = refl;
  state = refl;
  snapshot = refl;
}

pub header_key-IsCoreKey : (n : ℕ) → IsCoreKey (header_key n)
unfolding header_key
header_key-IsCoreKey n = record {
  chain = header_key-IsChainKey n;
  account = refl;
  state = refl;
  snapshot = refl;
}

stale_log_ops_total :
    (from : ℕ) (entries : List (List ℕ × List ℕ))
    → All (λ e. length e.1 ≡ 16) entries
    → (ops : List BatchOp) × (stale_log_ops from entries ≡ ok ops)
unfolding stale_log_ops array_from
stale_log_ops_total from [] h = ([], refl)
stale_log_ops_total from (e ∷ entries) h =
    let (rest, q) = stale_log_ops_total from entries h.1 in
    let fits : (length e.1 == 16) ≡ true = ground (arith, h.0) in
    (
      (if leb from (be_value (take 8 e.1)) then delete e.0 ∷ rest else rest),
      rw (fits, q, stale_log_ops) refl,
    )

module _ {Db : Type 0} ⦃sled : Sled Db⦄ ⦃json : Json⦄ ⦃hex : Hex⦄ ⦃env : Externals⦄ where
  -- Every place in the index of logs has its 16 bytes.
  abbrev pub HasPlaces : Db → Type 0
  HasPlaces d =
      (k v : List ℕ)
      → starts_with (ascii "log:index:") k ≡ true
      → sled.get k d ≡ some v
      → length v ≡ 16

  -- The store and the replacement from which a batch can be built.
  pub record IsReplaceable (s : Suffix) (best : ℕ) (d : Db) : Type 0 where
    pub bodies : HasBodies (suc s.ancestor.number) (best - s.ancestor.number) d
    pub places : HasPlaces d
    pub receipts : HaveReceipts s.replacement
    pub bounded : best < u64_max
    pub room : s.ancestor.number + length s.replacement < u64_mod

  -- The parts of a batch, in their order.
  pub record Parts (s : Suffix) (best : ℕ) (d : Db) (batch : List BatchOp) : Type 0 where
    pub removed : List Block
    pub logs : List BatchOp
    pub inserted : List BatchOp
    pub removed_numbered : Numbered (suc s.ancestor.number) removed
    pub removed_length : length removed ≡ best - s.ancestor.number
    pub logs_lem :
        stale_log_ops (first_removed s) (sled.scan_prefix (ascii "log:index:") d) ≡ ok logs
    pub inserted_lem : replacement_ops s.replacement ≡ ok inserted
    pub whole :
        batch
        ≡ concat (map remove_block_from_batch removed)
          ++ (logs
              ++ (delete_ops (sled.scan_prefix (ascii "account:") d)
                  ++ (delete_ops (sled.scan_prefix (ascii "state:evm:snapshot:") d)
                      ++ (inserted ++ state_ops s (suffix_tip s.ancestor s.replacement).number))))

  pub first_lem :
      (s : Suffix) (best : ℕ) (d : Db)
      → s.ancestor.number ≤ best
      → IsReplaceable s best d
      → first_removed s ≡ suc s.ancestor.number
  first_lem s best d known v = ground (arith, v.bounded)

  pub suffix_batch_total :
      (s : Suffix) (best : ℕ) (d : Db)
      → s.ancestor.number ≤ best
      → IsReplaceable s best d
      → (batch : List BatchOp) × (suffix_batch s best d ≡ ok batch) × Parts s best d batch
  unfolding suffix_batch
  suffix_batch_total s best d known v =
      let from = first_lem s best d known v in
      let count : best + 1 - first_removed s ≡ best - s.ancestor.number = omega (arith, from) in
      let (removed, p, numbered, size) =
        removed_blocks_total (best - s.ancestor.number) (suc s.ancestor.number) d v.bodies in
      let places =
        All-imp (λ e h. v.places e.0 e.1 h.0 h.1) _ (sled.scan_prefix-get (ascii "log:index:") d) in
      let (logs, q) =
        stale_log_ops_total (first_removed s) (sled.scan_prefix (ascii "log:index:") d) places in
      let (inserted, r) = replacement_ops_total s.replacement v.receipts in
      let at : removed_blocks (best + 1 - first_removed s) (first_removed s) d ≡ ok removed =
        ap (λ c. removed_blocks c (first_removed s) d) count
        ∙ ap (λ m. removed_blocks (best - s.ancestor.number) m d) from
        ∙ p in
      (
        concat (map remove_block_from_batch removed)
            ++ (logs
                ++ (delete_ops (sled.scan_prefix (ascii "account:") d)
                    ++ (delete_ops (sled.scan_prefix (ascii "state:evm:snapshot:") d)
                        ++ (inserted
                            ++ state_ops s (suffix_tip s.ancestor s.replacement).number)))),
        rw (at, q, r, suffix_batch) refl,
        record {
          removed = removed;
          logs = logs;
          inserted = inserted;
          removed_numbered = numbered;
          removed_length = size;
          logs_lem = q;
          inserted_lem = r;
          whole = refl;
        },
      )
