-- ===== src/Storage/Generation/Recovery.antt =====
-- What `recover_suffix_publication` leaves passes `verify_generation_manifest`.
use mathlib.Core.Path.{subst}
use blq_node.Base.{
  then_ok, >>=-eq-ok, >>-eq-ok, ok_injective, Option-cases, inl, inr, ◌≡◌, refl, ap, ◌∙◌, Bool,
  true, false, not, ◌==◌, ltb, Option, some, arith, Result, ok, err,
}
use blq_node.Base.Bytes.{bytes_eq, bytes_eq_refl}
use blq_node.Externals.{Externals}
use blq_node.Database.{Sled, Codec}
use blq_node.Primitives.{BlockHeader, header_hash}
use blq_node.Storage.Keys.{StorageError, serialization}
use blq_node.Storage.Blocks.{Json, best_header, header_by_number}
use blq_node.Storage.Generation.{
  GenerationManifest, Files, load_file, names_tip, is_publishable, manifest_checksum,
  publication_of, stale_publication, verify_checkpoint, verify_files, write_generation_manifest,
  write_generation_publication, clear_suffix_publication, sync_suffix_replay_checkpoint,
  publication_steps, run_steps, checkpoint_of, sync_checkpoint_at, GenerationPublicationRecord,
  ReplayCheckpoint,
}

module _ ⦃manifests : Codec GenerationManifest⦄ ⦃env : Externals⦄ where
  fresh_publication :
      (manifest : GenerationManifest)
      → stale_publication manifest (some (publication_of manifest)) ≡ ok false
  unfolding stale_publication
  fresh_publication manifest =
      let id : (manifest.generation_id == manifest.generation_id) ≡ true = ground arith in
      rw (id, bytes_eq_refl (manifest_checksum manifest)) refl

module _ {Db : Type 0} ⦃sled : Sled Db⦄ ⦃json : Json⦄ ⦃manifests : Codec GenerationManifest⦄
    ⦃env : Externals⦄ where
  -- The manifest can be published over this store: the tip that it names is there, and is where it
  -- was last replayed to.
  pub record IsPublishable (manifest : GenerationManifest) (d : Db) : Type 0 where
    pub tip : BlockHeader
    pub best : best_header d ≡ ok tip
    pub stands : header_by_number tip.number d ≡ ok tip
    pub named : names_tip manifest tip ≡ true
    pub status : is_publishable manifest.status ≡ true
    pub replayed : manifest.replay_checkpoint ≡ some tip.number

  own_checkpoint :
      (manifest : GenerationManifest) (d : Db) (v : IsPublishable manifest d)
      → verify_checkpoint manifest v.tip
          (some v.tip.number)
          (some (checkpoint_of manifest v.tip.number))
          d
        ≡ ok tt
  unfolding verify_checkpoint names_tip
  own_checkpoint manifest d v =
      let id : (manifest.generation_id == manifest.generation_id) ≡ true = ground arith in
      let height : (v.tip.number == v.tip.number) ≡ true = ground arith in
      let below : ltb v.tip.number v.tip.number ≡ false = ground arith in
      let hash : bytes_eq (header_hash v.tip) manifest.canonical_hash ≡ true =
        ground (arith, v.named) in
      let root : bytes_eq v.tip.state_root manifest.state_root ≡ true = ground (arith, v.named) in
      rw (id, height, below, v.stands, hash, root) refl

  pub verify_files_lem :
      (manifest : GenerationManifest) (stale : Bool) (f : Files) (d : Db)
      (v : IsPublishable manifest d) (found : Option GenerationPublicationRecord)
      (checkpoint : Option ReplayCheckpoint)
      → load_file f.manifest ≡ ok (some manifest)
      → load_file f.publication ≡ ok found
      → load_file f.checkpoint ≡ ok checkpoint
      → stale_publication manifest found ≡ ok stale
      → verify_checkpoint manifest v.tip manifest.replay_checkpoint checkpoint d ≡ ok tt
      → verify_files f d ≡ ok (manifest, stale)
  unfolding verify_files
  verify_files_lem manifest stale f d v found checkpoint m p c s k =
      rw (m, v.status, v.best, v.named, p, s, c, k, verify_files) refl

  -- After the four writes the files pass the check with nothing to repair.
  pub steps_verified :
      (manifest : GenerationManifest) (f : Files) (d : Db)
      → IsPublishable manifest d
      → verify_files (run_steps (publication_steps manifest) f) d ≡ ok (manifest, false)
  unfolding publication_steps sync_suffix_replay_checkpoint write_generation_manifest
      write_generation_publication clear_suffix_publication
  steps_verified manifest f d v =
      verify_files_lem manifest false (run_steps (publication_steps manifest) f) d v
        (some (publication_of manifest)) (some (checkpoint_of manifest v.tip.number)) refl refl
        (ap (λ o. load_file (sync_checkpoint_at o manifest f).checkpoint) v.replayed)
        (fresh_publication manifest)
        (ap (λ o. verify_checkpoint manifest v.tip o (some (checkpoint_of manifest v.tip.number)) d)
            v.replayed
          ∙ own_checkpoint manifest d v)

  -- A check that passes has read the manifest and found its tip.
  pub verify_files-names :
      (manifest : GenerationManifest) (stale : Bool) (f : Files) (d : Db)
      → verify_files f d ≡ ok (manifest, stale)
      → (best : BlockHeader) × (best_header d ≡ ok best) × (names_tip manifest best ≡ true)
  unfolding verify_files
  verify_files-names manifest stale f d h =
      let (loaded, l, g) = >>=-eq-ok (load_file f.manifest) _ h in
      elim (Option-cases loaded) [
        | inl e ↦
            let bad : ◌≡◌ {A = Result (GenerationManifest × Bool) StorageError} (err serialization)
                (ok (manifest, stale)) =
              rw e at g in
            absurd (cc)
        | inr (m, e) ↦
            let (status, g1) =
              then_ok (not (is_publishable m.status)) serialization _ (rw e at g) in
            let (best, b, g2) = >>=-eq-ok (best_header d) _ g1 in
            let (named, g3) = then_ok (not (names_tip m best)) serialization _ g2 in
            let (found, p, g4) = >>=-eq-ok (load_file f.publication) _ g3 in
            let (fresh, t, g5) = >>=-eq-ok (stale_publication m found) _ g4 in
            let (checkpoint, c, g6) = >>=-eq-ok (load_file f.checkpoint) _ g5 in
            let named' : names_tip m best ≡ true = ground (arith, named) in
            let same : m ≡ manifest =
              ap (λ x. x.0)
                (ok_injective
                  (>>-eq-ok (verify_checkpoint m best m.replay_checkpoint checkpoint d) _ g6).1) in
            (best, b, subst (λ x. names_tip x best ≡ true) same named')
      ]
