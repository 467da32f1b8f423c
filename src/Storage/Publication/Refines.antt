-- ===== src/Storage/Publication/Refines.antt =====
-- A publication whose checks pass: its result, the chain and the files after it.
use blq_node.Base.{suc, ◌<◌, ◌≡◌, ap, ◌∙◌, true, false, List, arith, ok, u64_mod}
use blq_node.Externals.{Externals}
use blq_node.Database.{Hex, Sled, Codec, BatchOp}
use blq_node.Primitives.{BlockHeader, is_empty}
use blq_node.Storage.Blocks.{Json, best_header, header_by_number}
use blq_node.Storage.Blocks.Insert.{ChainView, SameChain, chain}
use blq_node.Storage.Generation.{GenerationManifest, Files, is_publishable}
use blq_node.Storage.Generation.Recovery.{IsPublishable}
use blq_node.Storage.Publication.{Suffix, suffix_tip, suffix_batch}
use blq_node.Storage.Publication.Heights.{Numbered}
use blq_node.Storage.Publication.Keys.{contiguous-Numbered}
use blq_node.Storage.Publication.Splice.{IsReplaceable, suffix_batch_total}
use blq_node.Storage.Publication.View.{splice, spliced_at, batch_splices}
use blq_node.Storage.Publication.Checked.{Checked, find_last, matches_tip-names_tip}

abbrev tip_of : Suffix → BlockHeader
tip_of s = suffix_tip s.ancestor s.replacement

module _ {Db : Type 0} ⦃sled : Sled Db⦄ ⦃json : Json⦄ where
  pub spliced_chain : Suffix → BlockHeader → Db → ChainView
  spliced_chain s best d =
      splice s.ancestor.number best.number s.replacement (tip_of s).number (chain d)

  tip_stands :
      (s : Suffix) (best : BlockHeader) (d d' : Db)
      → Numbered (suc s.ancestor.number) s.replacement
      → is_empty s.replacement ≡ false
      → (tip_of s).number < u64_mod
      → SameChain (chain d') (spliced_chain s best d)
      → header_by_number (tip_of s).number d' ≡ ok (tip_of s)
  unfolding spliced_chain
  tip_stands s best d d' numbered some_there room same =
      let (b, found, e) = find_last s.ancestor s.replacement numbered some_there in
      same.headers (tip_of s).number room
      ∙ ap
          (λ o.
            spliced_at (λ b. b.header) s.ancestor.number best.number o
              (header_by_number (tip_of s).number d) (tip_of s).number)
          found
      ∙ ap ok e

  tip_is_best :
      (s : Suffix) (best : BlockHeader) (d d' : Db)
      → SameChain (chain d') (spliced_chain s best d)
      → header_by_number (tip_of s).number d' ≡ ok (tip_of s)
      → best_header d' ≡ ok (tip_of s)
  unfolding best_header spliced_chain
  tip_is_best s best d d' same stands = rw (same.best, best_header) stands

module _ {Db : Type 0} ⦃sled : Sled Db⦄ ⦃json : Json⦄ ⦃hex : Hex⦄
    ⦃manifests : Codec GenerationManifest⦄ ⦃env : Externals⦄ where
  -- The batch is there, and the store after it shows the spliced chain, whose tip the target names.
  pub record Published (s : Suffix) (best : BlockHeader) (d : Db) : Type 0 where
    pub batch : List BatchOp
    pub built : suffix_batch s best.number d ≡ ok batch
    pub shows : SameChain (chain (sled.apply_batch batch d)) (spliced_chain s best d)
    pub publishable : IsPublishable s.target_manifest (sled.apply_batch batch d)

  pub Checked-Published :
      (s : Suffix) (f : Files) (d : Db) (previous : GenerationManifest) (best : BlockHeader)
      → Checked s f d previous best
      → IsReplaceable s best.number d
      → is_publishable s.target_manifest.status ≡ true
      → Published s best d
  unfolding spliced_chain
  Checked-Published s f d previous best c v status =
      let (numbered, far) = contiguous-Numbered s.ancestor s.replacement v.room c.contiguous in
      let (batch, built, parts) = suffix_batch_total s best.number d c.known v in
      let room : (tip_of s).number < u64_mod = omega (arith, far, v.room) in
      let same = batch_splices s best.number d batch c.known numbered v parts room in
      let stands = tip_stands s best d (sled.apply_batch batch d) numbered c.nonempty room same in
      let (named, replayed) = matches_tip-names_tip s.target_manifest (tip_of s) c.matches in
      record {
        batch = batch;
        built = built;
        shows = same;
        publishable = record {
          tip = tip_of s;
          best = tip_is_best s best d (sled.apply_batch batch d) same stands;
          stands = stands;
          named = named;
          status = status;
          replayed = replayed;
        };
      }
