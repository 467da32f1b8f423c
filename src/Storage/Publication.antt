-- ===== src/Storage/Publication.antt =====
-- crates/blq-storage/src/lib.rs: `publish_canonical_suffix`, which replaces the chain above an
-- ancestor in one batch, between a journal and the files of the generation.
pub mod Batch
pub mod Heights
pub mod Keys
pub mod Splice
pub mod View
pub mod Checked
pub mod Refines
pub mod Crash
use blq_node.Base.{
  ℕ, zero, suc, ◌+◌, ◌-◌, ◌≡◌, Bool, true, false, not, ◌==◌, ◌&&◌, ◌||◌, ltb, leb, if◌then◌else◌,
  List, [], ◌∷◌, ◌++◌, Option, none, some, map, concat, take, Result, ok, err, ◌>>=◌, ◌>>◌,
  reject_if, map_err, saturating_add_u64,
}
use blq_node.Base.Bytes.{ascii, be_bytes, be_value, bytes_eq}
use blq_node.Externals.{Externals}
use blq_node.Database.{Hex, Sled, Codec, BatchOp, store, delete}
use blq_node.Primitives.{
  Hash256, Address, Bix, BlockHeader, Block, header_hash, is_empty, hash_zero,
}
use blq_node.Storage.Keys.{
  StorageError, serialization, balance_key, nonce_key, code_key, storage_key, evm_snapshot_key,
  array_from,
}
use blq_node.Storage.Blocks.{
  Json, EvmAccountSnapshot, best_header, header_by_number, block_by_number, insert_block_into_batch,
  remove_block_from_batch,
}
use blq_node.Storage.Generation.{
  GenerationManifest, SuffixPublicationRecord, Files, load_file, write_suffix_publication,
  publication_steps, run_steps,
}

pub data PublishError : Type 0 where
  failed : StorageError → PublishError
  panicked : PublishError

-- The arguments of a publication.
pub record Suffix : Type 0 where
  pub ancestor : BlockHeader
  pub replacement : List Block
  pub native_accounts : List (Address × (Bix × ℕ))
  pub evm_accounts : List (Address × EvmAccountSnapshot)
  pub supply_totals : ℕ × ℕ × ℕ
  pub target_manifest : GenerationManifest

-- The loop over the replacement ends at this header.
unfoldable pub suffix_tip : BlockHeader → List Block → BlockHeader
suffix_tip parent [] = parent
suffix_tip parent (block ∷ blocks) = suffix_tip block.header blocks

abbrev pub is_some_of : ℕ → Option ℕ → Bool
is_some_of n none = false
is_some_of n (some m) = m == n

abbrev pub first_removed : Suffix → ℕ
first_removed s = saturating_add_u64 s.ancestor.number 1

module _ ⦃env : Externals⦄ where
  unfoldable pub is_contiguous : BlockHeader → List Block → Bool
  is_contiguous parent [] = true
  is_contiguous parent (block ∷ blocks) =
      ((block.header.number == saturating_add_u64 parent.number 1)
        && bytes_eq block.header.parent_hash (header_hash parent))
      && is_contiguous block.header blocks

  unfoldable pub matches_tip : GenerationManifest → BlockHeader → Bool
  matches_tip manifest tip =
      (manifest.canonical_height == tip.number)
      && (bytes_eq manifest.canonical_hash (header_hash tip)
          && (bytes_eq manifest.state_root tip.state_root
              && is_some_of tip.number manifest.replay_checkpoint))

-- The entries of the batch for accounts.
module _ ⦃hex : Hex⦄ where
  unfoldable pub native_ops : List (Address × (Bix × ℕ)) → List BatchOp
  native_ops [] = []
  native_ops ((address, account) ∷ accounts) =
      store (balance_key address) (be_bytes 16 account.0)
      ∷ store (nonce_key address) (be_bytes 8 account.1)
      ∷ native_ops accounts

  unfoldable pub slot_ops : Address → List (Hash256 × Hash256) → List BatchOp
  slot_ops address [] = []
  slot_ops address ((slot, value) ∷ slots) =
      if not (bytes_eq value hash_zero)
      then store (storage_key address slot) value ∷ slot_ops address slots
      else slot_ops address slots

  unfoldable pub code_ops : Address → List ℕ → List BatchOp
  code_ops address code = if not (is_empty code) then store (code_key address) code ∷ [] else []

  unfoldable pub evm_ops : List (Address × EvmAccountSnapshot) → List BatchOp
  evm_ops [] = []
  evm_ops ((address, account) ∷ accounts) =
      code_ops address account.2 ++ (slot_ops address account.3 ++ evm_ops accounts)

-- The removal of logs of the blocks that go.
unfoldable pub stale_log_ops : ℕ → List (List ℕ × List ℕ) → Result (List BatchOp) StorageError
stale_log_ops from [] = ok []
stale_log_ops from (entry ∷ entries) =
    let rest = stale_log_ops from entries in
    array_from 16 entry.1 >>= λ location.
    rest >>= λ ops. ok (if leb from (be_value (take 8 location)) then delete entry.0 ∷ ops else ops)

unfoldable pub delete_ops : List (List ℕ × List ℕ) → List BatchOp
delete_ops [] = []
delete_ops (entry ∷ entries) = delete entry.0 ∷ delete_ops entries

module _ ⦃json : Json⦄ ⦃hex : Hex⦄ ⦃env : Externals⦄ where
  unfoldable pub replacement_ops : List Block → Result (List BatchOp) PublishError
  replacement_ops [] = ok []
  replacement_ops (block ∷ blocks) =
      let rest = replacement_ops blocks in
      elim (insert_block_into_batch block) [
        | none ↦ err panicked
        | some ops ↦ rest >>= λ more. ok (ops ++ more)
      ]

  -- What follows the blocks.
  unfoldable pub state_ops : Suffix → ℕ → List BatchOp
  state_ops s tip =
      native_ops s.native_accounts
      ++ (evm_ops s.evm_accounts
          ++ (store (evm_snapshot_key tip) (json.evm_snapshot.to_vec s.evm_accounts)
              ∷ store (ascii "state:rewards:indexed_to") (be_bytes 8 tip)
              ∷ store (ascii "state:supply:indexed_to") (be_bytes 8 s.supply_totals.0)
              ∷ store (ascii "state:supply:total") (be_bytes 16 s.supply_totals.1)
              ∷ store (ascii "state:supply:burned") (be_bytes 16 s.supply_totals.2)
              ∷ store (ascii "best:number") (be_bytes 8 tip)
              ∷ []))

module _ {Db : Type 0} ⦃sled : Sled Db⦄ ⦃json : Json⦄ where
  -- The blocks at `count` heights from one on.
  unfoldable pub removed_blocks : ℕ → ℕ → Db → Result (List Block) StorageError
  removed_blocks zero number d = ok []
  removed_blocks (suc count) number d =
      let rest = removed_blocks count (suc number) d in
      block_by_number number d >>= λ block. rest >>= λ blocks. ok (block ∷ blocks)

module _ {Db : Type 0} ⦃sled : Sled Db⦄ ⦃json : Json⦄ ⦃hex : Hex⦄ ⦃env : Externals⦄ where
  -- The batch, over the store and its newest height.
  pub suffix_batch : Suffix → ℕ → Db → Result (List BatchOp) PublishError
  suffix_batch s best d =
      map_err failed (removed_blocks (best + 1 - first_removed s) (first_removed s) d)
      >>= λ removed.
          map_err failed (stale_log_ops (first_removed s) (sled.scan_prefix (ascii "log:index:") d))
          >>= λ logs. replacement_ops s.replacement >>= λ inserted. ok (
              concat (map remove_block_from_batch removed)
              ++ (logs
                  ++ (delete_ops (sled.scan_prefix (ascii "account:") d)
                      ++ (delete_ops (sled.scan_prefix (ascii "state:evm:snapshot:") d)
                          ++ (inserted
                              ++ state_ops s (suffix_tip s.ancestor s.replacement).number)))))

  -- The checks that precede the journal: the manifest in force and the newest header.
  unfoldable pub check_suffix :
      Suffix → Files → Db → Result (GenerationManifest × BlockHeader) StorageError
  check_suffix s f d = load_file f.manifest >>= λ loaded. elim loaded [
    | none ↦ err serialization
    | some previous ↦ best_header d >>= λ best.
        reject_if (ltb best.number s.ancestor.number) serialization
        >> (header_by_number s.ancestor.number d >>= λ header.
            reject_if (not (bytes_eq (header_hash header) (header_hash s.ancestor))) serialization
            >> (reject_if (not (is_contiguous s.ancestor s.replacement)) serialization
                >> (reject_if
                      (is_empty s.replacement
                        || not
                            (matches_tip s.target_manifest (suffix_tip s.ancestor s.replacement)))
                      serialization
                    >> ok (previous, best))))
  ]

abbrev pub journal_of : GenerationManifest → Suffix → SuffixPublicationRecord
journal_of previous s = record { previous_manifest = previous; target_manifest = s.target_manifest }

module _ {Db : Type 0} ⦃sled : Sled Db⦄ ⦃json : Json⦄ ⦃hex : Hex⦄
    ⦃manifests : Codec GenerationManifest⦄ ⦃env : Externals⦄ where
  -- A batch that fails leaves the journal behind.
  pub publish_canonical_suffix : Suffix → Files → Db → Files × Db × Result (Unit {0}) PublishError
  publish_canonical_suffix s f d = elim (check_suffix s f d) [
    | err e ↦ (f, d, err (failed e))
    | ok (previous, best) ↦
        let journaled = write_suffix_publication (journal_of previous s) f in
        elim (suffix_batch s best.number d) [
          | err e ↦ (journaled, d, err e)
          | ok batch ↦ (
            run_steps (publication_steps s.target_manifest) journaled,
            sled.apply_batch batch d,
            ok tt,
          )
        ]
  ]

  -- The durable states that a crash in the call can leave, once its checks gave `previous` and
  -- `best`: with the journal alone, and with the batch and the first `k` of the writes after it.
  pub data Interrupted (s : Suffix) (f : Files) (d : Db) (previous : GenerationManifest)
      (best : BlockHeader) : Files → Db → Type 0 where
    before_batch :
        Interrupted s f d previous best (write_suffix_publication (journal_of previous s) f) d
    after_batch :
        (batch : List BatchOp) (k : ℕ)
        → suffix_batch s best.number d ≡ ok batch
        → Interrupted s f d previous best
            (run_steps
              (take k (publication_steps s.target_manifest))
              (write_suffix_publication (journal_of previous s) f))
            (sled.apply_batch batch d)
