-- ===== src/Storage/Generation/Journal.antt =====
-- What `recover_suffix_publication` does at each of the writes, and what the journal is not read by.
use blq_node.Base.{
  ℕ, zero, suc, ◌≡◌, refl, ◌∙◌, true, false, Option, none, some, inl, inr, ◌⊎◌, take, ok,
}
use blq_node.Externals.{Externals}
use blq_node.Database.{Sled, Codec}
use blq_node.Primitives.{BlockHeader}
use blq_node.Storage.Blocks.{Json, best_header}
use blq_node.Storage.Generation.{
  GenerationManifest, Files, FileOf, SuffixPublicationRecord, load_file, holds, names_tip,
  publication_steps, run_steps, verify_files, write_suffix_publication, clear_suffix_publication,
  recover_suffix_publication, sync_checkpoint_at, sync_suffix_replay_checkpoint,
  write_generation_manifest, write_generation_publication,
}
use blq_node.Storage.Generation.Recovery.{IsPublishable}

-- The journal stays through the first writes.
suffix_synced :
    (o : Option ℕ) (m : GenerationManifest) (f : Files)
    → (sync_checkpoint_at o m f).suffix ≡ f.suffix
suffix_synced (some h) m f = refl
suffix_synced none m f = refl

pub suffix_journaled :
    (j : SuffixPublicationRecord) (f : Files) → (write_suffix_publication j f).suffix ≡ holds j
unfolding write_suffix_publication
suffix_journaled j f = refl

module _ ⦃manifests : Codec GenerationManifest⦄ ⦃env : Externals⦄ where
  pub journal_kept :
      (m : GenerationManifest) (f : Files) (k : ℕ) (journal : FileOf SuffixPublicationRecord)
      → f.suffix ≡ journal
      → ((run_steps (take k (publication_steps m)) f).suffix ≡ journal)
        ⊎ (run_steps (take k (publication_steps m)) f ≡ run_steps (publication_steps m) f)
  unfolding publication_steps sync_suffix_replay_checkpoint write_generation_manifest
      write_generation_publication clear_suffix_publication
  journal_kept m f zero j h = inl h
  journal_kept m f (suc zero) j h = inl (suffix_synced m.replay_checkpoint m f ∙ h)
  journal_kept m f (suc (suc zero)) j h = inl (suffix_synced m.replay_checkpoint m f ∙ h)
  journal_kept m f (suc (suc (suc zero))) j h = inl (suffix_synced m.replay_checkpoint m f ∙ h)
  journal_kept m f (suc (suc (suc (suc zero)))) j h = inr refl
  journal_kept m f (suc (suc (suc (suc (suc k))))) j h = inr refl

module _ {Db : Type 0} ⦃sled : Sled Db⦄ ⦃json : Json⦄ ⦃manifests : Codec GenerationManifest⦄
    ⦃env : Externals⦄ where
  -- The journal's target is in the store: the repair finishes the writes.
  pub recover_target :
      (journal : SuffixPublicationRecord) (f : Files) (d : Db)
      → load_file f.suffix ≡ ok (some journal)
      → (v : IsPublishable journal.target_manifest d)
      → recover_suffix_publication f d
        ≡ (run_steps (publication_steps journal.target_manifest) f, ok tt)
  unfolding recover_suffix_publication
  recover_target journal f d h v = rw (h, v.best, v.named, recover_suffix_publication) refl

  -- The journal's previous manifest is: the repair drops the journal.
  pub recover_previous :
      (journal : SuffixPublicationRecord) (f : Files) (d : Db) (best : BlockHeader)
      → load_file f.suffix ≡ ok (some journal)
      → best_header d ≡ ok best
      → names_tip journal.target_manifest best ≡ false
      → names_tip journal.previous_manifest best ≡ true
      → recover_suffix_publication f d ≡ (clear_suffix_publication f, ok tt)
  unfolding recover_suffix_publication
  recover_previous journal f d best h b t p = rw (h, b, t, p, recover_suffix_publication) refl

  pub nothing_to_recover :
      (m : GenerationManifest) (f : Files) (d : Db)
      → recover_suffix_publication (run_steps (publication_steps m) f) d
        ≡ (run_steps (publication_steps m) f, ok tt)
  unfolding recover_suffix_publication publication_steps clear_suffix_publication
  nothing_to_recover m f d = refl

  pub journal_unread :
      (j : SuffixPublicationRecord) (f : Files) (d : Db)
      → verify_files (clear_suffix_publication (write_suffix_publication j f)) d ≡ verify_files f d
  unfolding verify_files clear_suffix_publication write_suffix_publication
  journal_unread j f d = refl
