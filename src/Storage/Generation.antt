-- ===== src/Storage/Generation.antt =====
-- crates/blq-storage/src/lib.rs: the files beside the database that say which chain it holds, and
-- the check and the repair of these at a start.
pub mod Recovery
pub mod Journal
use blq_node.Base.{
  ℕ, ◌≡◌, Bool, true, false, not, ◌==◌, ◌&&◌, ◌||◌, ltb, if◌then◌else◌, List, [], ◌∷◌, Option, none,
  some, Result, ok, err, ◌>>=◌, ◌>>◌, reject_if,
}
use blq_node.Base.Bytes.{bytes_eq}
use blq_node.Externals.{Externals}
use blq_node.Database.{Sled, Codec}
use blq_node.Primitives.{Hash256, BlockHeader, header_hash, hash_bytes}
use blq_node.Storage.Keys.{StorageError, serialization}
use blq_node.Storage.Blocks.{Json, best_header, header_by_number}

pub data GenerationStatus : Type 0 where
  active : GenerationStatus
  staging : GenerationStatus
  verified : GenerationStatus
  retired : GenerationStatus
  failed : GenerationStatus

pub record GenerationManifest : Type 0 where
  pub generation_id : ℕ
  pub status : GenerationStatus
  pub canonical_height : ℕ
  pub canonical_hash : Hash256
  pub state_root : Hash256
  pub profile_fingerprint : List ℕ
  pub finalized_height : ℕ
  pub replay_checkpoint : Option ℕ

pub record ReplayCheckpoint : Type 0 where
  pub generation_id : ℕ
  pub height : ℕ
  pub block_hash : Hash256
  pub state_root : Hash256

pub record GenerationPublicationRecord : Type 0 where
  pub generation_id : ℕ
  pub manifest_checksum : Hash256

pub record SuffixPublicationRecord : Type 0 where
  pub previous_manifest : GenerationManifest
  pub target_manifest : GenerationManifest

-- A file: a write goes to a temporary file that is renamed, so it is whole or did not happen.
pub data FileOf (A : Type 0) : Type 0 where
  missing : FileOf A
  unreadable : FileOf A
  holds : A → FileOf A

pub record Files : Type 0 where
  pub manifest : FileOf GenerationManifest
  pub checkpoint : FileOf ReplayCheckpoint
  pub publication : FileOf GenerationPublicationRecord
  pub suffix : FileOf SuffixPublicationRecord

-- `load_generation_manifest`, `load_replay_checkpoint`, `load_generation_publication` and
-- `load_suffix_publication`, each at its file.
abbrev pub load_file : {A : Type 0} → FileOf A → Result (Option A) StorageError
load_file missing = ok none
load_file unreadable = err serialization
load_file (holds a) = ok (some a)

pub write_generation_manifest : GenerationManifest → Files → Files
write_generation_manifest manifest f = record f { manifest = holds manifest }

pub write_suffix_publication : SuffixPublicationRecord → Files → Files
write_suffix_publication journal f = record f { suffix = holds journal }

pub clear_suffix_publication : Files → Files
clear_suffix_publication f = record f { suffix = missing }

-- The checkpoint that goes with a manifest.
abbrev pub checkpoint_of : GenerationManifest → ℕ → ReplayCheckpoint
checkpoint_of manifest height = record {
  generation_id = manifest.generation_id;
  height = height;
  block_hash = manifest.canonical_hash;
  state_root = manifest.state_root;
}

-- At the height that the manifest was last replayed to; none removes the file.
abbrev pub sync_checkpoint_at : Option ℕ → GenerationManifest → Files → Files
sync_checkpoint_at (some height) manifest f = record f {
  checkpoint = holds (checkpoint_of manifest height);
}
sync_checkpoint_at none manifest f = record f { checkpoint = missing }

pub sync_suffix_replay_checkpoint : GenerationManifest → Files → Files
sync_suffix_replay_checkpoint manifest f = sync_checkpoint_at manifest.replay_checkpoint manifest f

abbrev pub is_publishable : GenerationStatus → Bool
is_publishable GenerationStatus.staging = false
is_publishable GenerationStatus.retired = false
is_publishable GenerationStatus.failed = false
is_publishable GenerationStatus.active = true
is_publishable GenerationStatus.verified = true

module _ ⦃env : Externals⦄ where
  -- Whether a manifest names a header as the tip.
  unfoldable pub names_tip : GenerationManifest → BlockHeader → Bool
  names_tip manifest best =
      (best.number == manifest.canonical_height)
      && (bytes_eq (header_hash best) manifest.canonical_hash
          && bytes_eq best.state_root manifest.state_root)

module _ ⦃manifests : Codec GenerationManifest⦄ ⦃env : Externals⦄ where
  pub manifest_checksum : GenerationManifest → Hash256
  manifest_checksum manifest = hash_bytes (manifests.to_vec manifest)

  abbrev pub publication_of : GenerationManifest → GenerationPublicationRecord
  publication_of manifest = record {
    generation_id = manifest.generation_id;
    manifest_checksum = manifest_checksum manifest;
  }

  pub write_generation_publication : GenerationManifest → Files → Files
  write_generation_publication manifest f = record f {
    publication = holds (publication_of manifest);
  }

  -- Whether the publication record is stale, where it belongs to the generation.
  unfoldable pub stale_publication :
      GenerationManifest → Option GenerationPublicationRecord → Result Bool StorageError
  stale_publication manifest none = ok false
  stale_publication manifest (some found) =
      if not (found.generation_id == manifest.generation_id)
      then err serialization
      else ok (not (bytes_eq found.manifest_checksum (manifest_checksum manifest)))

  -- The four writes that follow the batch, in their order.
  pub publication_steps : GenerationManifest → List (Files → Files)
  publication_steps manifest =
      sync_suffix_replay_checkpoint manifest
      ∷ write_generation_manifest manifest
      ∷ write_generation_publication manifest
      ∷ clear_suffix_publication
      ∷ []

module _ {Db : Type 0} ⦃sled : Sled Db⦄ ⦃json : Json⦄ ⦃env : Externals⦄ where
  -- Whether the checkpoint is the manifest's and the stored chain's.
  unfoldable pub verify_checkpoint :
      GenerationManifest
      → BlockHeader
      → Option ℕ
      → Option ReplayCheckpoint
      → Db
      → Result (Unit {0}) StorageError
  verify_checkpoint manifest best (some height) (some checkpoint) d =
      reject_if
        (not (checkpoint.generation_id == manifest.generation_id)
          || (not (checkpoint.height == height) || ltb best.number checkpoint.height))
        serialization
      >> (header_by_number checkpoint.height d >>= λ header.
          reject_if
            (not (bytes_eq (header_hash header) checkpoint.block_hash)
              || not (bytes_eq header.state_root checkpoint.state_root))
            serialization)
  verify_checkpoint manifest best (some height) none d = err serialization
  verify_checkpoint manifest best none (some checkpoint) d = err serialization
  verify_checkpoint manifest best none none d = ok tt

module _ {Db : Type 0} ⦃sled : Sled Db⦄ ⦃json : Json⦄ ⦃manifests : Codec GenerationManifest⦄
    ⦃env : Externals⦄ where
  -- The checks: the manifest, and whether the publication record has to be repaired.
  unfoldable pub verify_files : Files → Db → Result (GenerationManifest × Bool) StorageError
  verify_files f d = load_file f.manifest >>= λ loaded. elim loaded [
    | none ↦ err serialization
    | some manifest ↦
        reject_if (not (is_publishable manifest.status)) serialization
        >> (best_header d >>= λ best.
            reject_if (not (names_tip manifest best)) serialization
            >> (load_file f.publication >>= λ found. stale_publication manifest found >>= λ stale.
                load_file f.checkpoint >>= λ checkpoint.
                verify_checkpoint manifest best manifest.replay_checkpoint checkpoint d
                >> ok (manifest, stale)))
  ]

  pub verify_generation_manifest : Files → Db → Files × Result GenerationManifest StorageError
  verify_generation_manifest f d = elim (verify_files f d) [
    | err e ↦ (f, err e)
    | ok found ↦ ((if found.1 then write_generation_publication found.0 f else f), ok found.0)
  ]

abbrev pub run_steps : List (Files → Files) → Files → Files
run_steps [] f = f
run_steps (step ∷ steps) f = run_steps steps (step f)

module _ {Db : Type 0} ⦃sled : Sled Db⦄ ⦃json : Json⦄ ⦃manifests : Codec GenerationManifest⦄
    ⦃env : Externals⦄ where
  pub recover_suffix_publication : Files → Db → Files × Result (Unit {0}) StorageError
  recover_suffix_publication f d = elim (load_file f.suffix) [
    | err e ↦ (f, err e)
    | ok found ↦ elim found [
      | none ↦ (f, ok tt)
      | some journal ↦ elim (best_header d) [
        | err e ↦ (f, err e)
        | ok best ↦
            if names_tip journal.target_manifest best
            then (run_steps (publication_steps journal.target_manifest) f, ok tt)
            else if names_tip journal.previous_manifest best
            then (clear_suffix_publication f, ok tt)
            else (f, err serialization)
      ]
    ]
  ]
