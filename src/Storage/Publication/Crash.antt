-- ===== src/Storage/Publication/Crash.antt =====
-- A publication that is cut off by a crash, and the repair at the next start.
use mathlib.Core.Path.{subst}
use blq_node.Base.{
  ℕ, ◌≡◌, refl, sym, ap, ◌∙◌, Bool, true, false, Bool-cases, List, some, inl, inr, ◌⊎◌, arith, take,
  ok, ok_injective,
}
use blq_node.Externals.{Externals}
use blq_node.Database.{Hex, Sled, Codec, BatchOp}
use blq_node.Primitives.{BlockHeader}
use blq_node.Storage.Blocks.{Json, header_by_number}
use blq_node.Storage.Blocks.Insert.{SameChain, chain}
use blq_node.Storage.Generation.{
  GenerationManifest, Files, load_file, names_tip, is_publishable, publication_steps, run_steps,
  verify_files, write_suffix_publication, clear_suffix_publication, recover_suffix_publication,
}
use blq_node.Storage.Generation.Recovery.{IsPublishable, steps_verified, verify_files-names}
use blq_node.Storage.Generation.Journal.{
  journal_kept, recover_target, recover_previous, nothing_to_recover, journal_unread,
  suffix_journaled,
}
use blq_node.Storage.Publication.{
  Suffix, suffix_tip, check_suffix, journal_of, Interrupted, before_batch, after_batch, matches_tip,
}
use blq_node.Storage.Publication.Splice.{IsReplaceable}
use blq_node.Storage.Publication.Checked.{Checked, check_suffix-Checked, matches_tip-names_tip}
use blq_node.Storage.Publication.Refines.{spliced_chain, Published, Checked-Published}

module _ {Db : Type 0} ⦃sled : Sled Db⦄ ⦃json : Json⦄ ⦃hex : Hex⦄
    ⦃manifests : Codec GenerationManifest⦄ ⦃env : Externals⦄ where
  module _ (s : Suffix) (f : Files) (d : Db) (previous : GenerationManifest) (best : BlockHeader)
      (stale : Bool) (c : Checked s f d previous best) where
    abbrev journaled : Files
    journaled = write_suffix_publication (journal_of previous s) f

    -- The store is still the old one, or shows the spliced chain; the files name its tip.
    pub record Repaired (f' : Files) (d' : Db) : Type 0 where
      pub files : Files
      pub runs : recover_suffix_publication f' d' ≡ (files, ok tt)
      pub passes :
          (verify_files files d' ≡ ok (s.target_manifest, false))
          ⊎ ((d' ≡ d) × (verify_files files d' ≡ ok (previous, stale)))
      pub shows : (d' ≡ d) ⊎ SameChain (chain d') (spliced_chain s best d)

    Repaired-before :
        verify_files f d ≡ ok (previous, stale)
        → header_by_number best.number d ≡ ok best
        → is_publishable s.target_manifest.status ≡ true
        → Repaired journaled d
    unfolding names_tip matches_tip
    Repaired-before old stands status =
        let (newest, b, named) = verify_files-names previous stale f d old in
        let same : newest ≡ best = ok_injective (sym b ∙ c.newest) in
        elim (Bool-cases (names_tip s.target_manifest best)) [
          | inl t ↦
              let replayed =
                (matches_tip-names_tip s.target_manifest (suffix_tip s.ancestor s.replacement)
                  c.matches).1 in
              let height : (suffix_tip s.ancestor s.replacement).number ≡ best.number =
                ground (arith, t, c.matches) in
              let ready : IsPublishable s.target_manifest d = record {
                tip = best;
                best = c.newest;
                stands = stands;
                named = t;
                status = status;
                replayed = replayed ∙ ap some height;
              } in
              record {
                files = run_steps (publication_steps s.target_manifest) journaled;
                runs =
                    recover_target (journal_of previous s) journaled d
                      (ap load_file (suffix_journaled (journal_of previous s) f)) ready;
                passes = inl (steps_verified s.target_manifest journaled d ready);
                shows = inl refl;
              }
          | inr n ↦ record {
            files = clear_suffix_publication journaled;
            runs =
                recover_previous (journal_of previous s) journaled d best
                  (ap load_file (suffix_journaled (journal_of previous s) f)) c.newest n
                  (subst (λ x. names_tip previous x ≡ true) same named);
            passes = inr (refl, journal_unread (journal_of previous s) f d ∙ old);
            shows = inl refl;
          }
        ]

    Repaired-after :
        (k : ℕ) (batch : List BatchOp)
        → IsPublishable s.target_manifest (sled.apply_batch batch d)
        → SameChain (chain (sled.apply_batch batch d)) (spliced_chain s best d)
        → Repaired
            (run_steps (take k (publication_steps s.target_manifest)) journaled)
            (sled.apply_batch batch d)
    Repaired-after k batch ready shown =
        let d' = sled.apply_batch batch d in
        let partial = run_steps (take k (publication_steps s.target_manifest)) journaled in
        let whole = run_steps (publication_steps s.target_manifest) journaled in
        elim (journal_kept s.target_manifest journaled k _
          (suffix_journaled (journal_of previous s) f)) [
            | inl kept ↦ record {
              files = run_steps (publication_steps s.target_manifest) partial;
              runs = recover_target (journal_of previous s) partial d' (ap load_file kept) ready;
              passes = inl (steps_verified s.target_manifest partial d' ready);
              shows = inr shown;
            }
            | inr done ↦ record {
              files = whole;
              runs =
                  ap (λ x. recover_suffix_publication x d') done
                  ∙ nothing_to_recover s.target_manifest journaled d';
              passes = inl (steps_verified s.target_manifest journaled d' ready);
              shows = inr shown;
            }
          ]

    repaired :
        {f' : Files} {d' : Db}
        → verify_files f d ≡ ok (previous, stale)
        → header_by_number best.number d ≡ ok best
        → is_publishable s.target_manifest.status ≡ true
        → Published s best d
        → Interrupted s f d previous best f' d'
        → Repaired f' d'
    repaired old stands status p before_batch = Repaired-before old stands status
    repaired old stands status p (after_batch batch k built) =
        let same = ok_injective (sym p.built ∙ built) in
        Repaired-after k batch
          (subst (λ ops. IsPublishable s.target_manifest (sled.apply_batch ops d)) same
            p.publishable)
          (subst (λ ops. SameChain (chain (sled.apply_batch ops d)) (spliced_chain s best d)) same
            p.shows)

  -- A crash at any point of a publication is repaired at the next start. Where the checks passed, the
  -- batch can be built, the target has a status that can be published, and the files
  -- passed the check of a start before, the repair succeeds on what the crash left; the files then
  -- pass the check, with the target manifest, or with the previous one over the old store; and the
  -- store is the old one or shows the spliced chain.
  pub recover_suffix_publication-Interrupted :
      (s : Suffix) (f f' : Files) (d d' : Db) (previous : GenerationManifest) (best : BlockHeader)
      (stale : Bool)
      → check_suffix s f d ≡ ok (previous, best)
      → IsReplaceable s best.number d
      → is_publishable s.target_manifest.status ≡ true
      → verify_files f d ≡ ok (previous, stale)
      → header_by_number best.number d ≡ ok best
      → Interrupted s f d previous best f' d'
      → (f1 : Files) × (recover_suffix_publication f' d' ≡ (f1, ok tt))
        × ((verify_files f1 d' ≡ ok (s.target_manifest, false))
            ⊎ ((d' ≡ d) × (verify_files f1 d' ≡ ok (previous, stale))))
        × ((d' ≡ d) ⊎ SameChain (chain d') (spliced_chain s best d))
  recover_suffix_publication-Interrupted s f f' d d' previous best stale h v status old stands cut =
      let c = check_suffix-Checked s f d previous best h in
      let p = Checked-Published s f d previous best c v status in
      let r = repaired s f d previous best stale c old stands status p cut in
      (r.files, r.runs, r.passes, r.shows)
