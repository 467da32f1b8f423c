-- ===== src/Storage/Publication/View.antt =====
-- The chain after the batch of a publication: the old one up to the ancestor and the replacement
-- above it.
use blq_node.Base.{
  ℕ, suc, ◌+◌, ◌-◌, ◌≤◌, ◌<◌, ◌≡◌, refl, ap, ◌∙◌, Bool, true, false, not, ◌&&◌, ◌||◌, leb, ltb,
  if◌then◌else◌, List, ◌++◌, Option, none, some, arith, All-imp, length, map, concat, Result, ok,
  err, u64_mod,
}
use blq_node.Base.Bytes.{ascii, be_bytes, bytes_eq}
use blq_node.Externals.{Externals}
use blq_node.Database.{Hex, Sled, Codec, BatchOp, pending}
use blq_node.Primitives.{Block}
use blq_node.Storage.Keys.{StorageError, not_found, block_key, header_key}
use blq_node.Storage.Keys.Separation.{int_from_slice-be_bytes}
use blq_node.Storage.Blocks.{
  Json, parse_option, get_best_number, header_by_number, block_by_number, remove_block_from_batch,
}
use blq_node.Storage.Blocks.Insert.{ChainView, SameChain, chain, parse_stored}
use blq_node.Storage.Publication.{Suffix, suffix_tip}
use blq_node.Storage.Publication.Batch.{
  later, pending-append, pending-Avoids, IsCoreKey, delete_ops-Avoids, stale_log_ops-Avoids,
  state_ops-Avoids, state_ops-best,
}
use blq_node.Storage.Publication.Heights.{
  Numbered, IsHeightKey, find_block, entered, replacement_pending, removed_pending,
}
use blq_node.Storage.Publication.Keys.{block_key-IsHeightKey, header_key-IsHeightKey}
use blq_node.Storage.Publication.Splice.{
  IsReplaceable, Parts, block_key-IsCoreKey, header_key-IsCoreKey,
}

-- At a height: the replacement's, else the old one's where it stays.
abbrev pub spliced_at :
    {A : Type 0}
    → (Block → A)
    → ℕ
    → ℕ
    → Option Block
    → Result A StorageError
    → ℕ
    → Result A StorageError
spliced_at of ancestor best (some b) old n = ok (of b)
spliced_at of ancestor best none old n = if leb n ancestor || ltb best n then old else err not_found

-- The chain with everything from the ancestor on to `best` replaced by `blocks`.
abbrev pub splice : ℕ → ℕ → List Block → ℕ → ChainView → ChainView
splice ancestor best blocks tip v = record {
  best = ok tip;
  header_at = λ n. spliced_at (λ b. b.header) ancestor best (find_block n blocks) (v.header_at n) n;
  block_at = λ n. spliced_at (λ b. b) ancestor best (find_block n blocks) (v.block_at n) n;
}

-- What stands under a key after a batch.
abbrev pub written : Option (Option (List ℕ)) → Option (List ℕ) → Option (List ℕ)
written none old = old
written (some r) old = r

elim_written :
    (r : Option (Option (List ℕ))) (old : Option (List ℕ))
    → elim r [ none ↦ old | some x ↦ x ] ≡ written r old
elim_written none old = refl
elim_written (some x) old = refl

later_chain :
    (removed logs accounts snapshots inserted state : Option (Option (List ℕ)))
    → logs ≡ none
    → accounts ≡ none
    → snapshots ≡ none
    → state ≡ none
    → later (later (later (later (later state inserted) snapshots) accounts) logs) removed
      ≡ later inserted removed
later_chain removed logs accounts snapshots none state a b c d = rw (a, b, c, d) refl
later_chain removed logs accounts snapshots (some r) state a b c d = rw (a, b, c, d) refl

later_last :
    (a b c d e : Option (Option (List ℕ))) (state : Option (Option (List ℕ))) (r : Option (List ℕ))
    → state ≡ some r
    → later (later (later (later (later state e) d) c) b) a ≡ some r
later_last a b c d e state r h = rw h refl

module _ ⦃hex : Hex⦄ where
  pending_parts :
      (j : List ℕ) (a b c d e f : List BatchOp)
      → pending j (a ++ (b ++ (c ++ (d ++ (e ++ f)))))
        ≡ later
            (later
              (later (later (later (pending j f) (pending j e)) (pending j d)) (pending j c))
              (pending j b))
            (pending j a)
  pending_parts j a b c d e f =
      pending-append j a _
      ∙ ap (λ o. later o (pending j a))
          (pending-append j b _
            ∙ ap (λ o. later o (pending j b))
                (pending-append j c _
                  ∙ ap (λ o. later o (pending j c))
                      (pending-append j d _
                        ∙ ap (λ o. later o (pending j d)) (pending-append j e f))))

removed_iff :
    {A : Type 0} (a best n : ℕ) (x y : A)
    → a ≤ best
    → (if leb (suc a) n && ltb n (suc a + (best - a)) then x else y)
      ≡ (if leb n a || ltb best n then y else x)
removed_iff a best n x y h =
    let same : (leb (suc a) n && ltb n (suc a + (best - a))) ≡ not (leb n a || ltb best n) =
      ground arith in
    ground (arith, same)

written_if :
    (c : Bool) (old : Option (List ℕ))
    → written (if c then none else some none) old ≡ (if c then old else none)
written_if true old = refl
written_if false old = refl

parse_if_missing :
    {A : Type 0} (codec : Codec A) (c : Bool) (old : Option (List ℕ))
    → parse_option codec (if c then old else none)
      ≡ (if c then parse_option codec old else err not_found)
parse_if_missing codec true old = refl
parse_if_missing codec false old = refl

choose :
    {A : Type 0} (codec : Codec A) (of : Block → A) (found : Option Block) (a best n : ℕ)
    (old : Option (List ℕ))
    → a ≤ best
    → parse_option codec (
        written
          (later
            (entered (λ b. codec.to_vec (of b)) found)
            (if leb (suc a) n && ltb n (suc a + (best - a)) then some none else none))
          old)
      ≡ spliced_at of a best found (parse_option codec old) n
choose codec of (some b) a best n old h = parse_stored codec (of b)
choose codec of none a best n old h =
    ap (λ r. parse_option codec (written r old)) (removed_iff a best n (some none) none h)
    ∙ ap (parse_option codec) (written_if (leb n a || ltb best n) old)
    ∙ parse_if_missing codec (leb n a || ltb best n) old

module _ {Db : Type 0} ⦃sled : Sled Db⦄ ⦃json : Json⦄ ⦃hex : Hex⦄ ⦃env : Externals⦄ where
  module _ (s : Suffix) (best : ℕ) (d : Db) (batch : List BatchOp)
      (known : s.ancestor.number ≤ best) (numbered : Numbered (suc s.ancestor.number) s.replacement)
      (v : IsReplaceable s best d) (q : Parts s best d batch) where
    abbrev tip : ℕ
    tip = (suffix_tip s.ancestor s.replacement).number

    -- The batch at a key of the height `n`.
    height_pending :
        {j : List ℕ} {n : ℕ} {value : Block → List ℕ}
        → IsHeightKey j n value
        → IsCoreKey j
        → bytes_eq (ascii "best:number") j ≡ false
        → pending j batch
          ≡ later (entered value (find_block n s.replacement)) (
              if leb (suc s.ancestor.number) n
                && ltb n (suc s.ancestor.number + (best - s.ancestor.number))
              then some none
              else none)
    height_pending {j} {n} {value} k core other =
        let scanned = λ (p : List ℕ). All-imp (λ e h. h.0) _ (sled.scan_prefix-get p d) in
        let room : suc s.ancestor.number + length q.removed ≤ u64_mod =
          omega (arith, q.removed_length, v.bounded, known) in
        let size = q.removed_length in
        ap (pending j) q.whole
        ∙ pending_parts j (concat (map remove_block_from_batch q.removed)) q.logs _ _ q.inserted _
        ∙ later_chain _ _ _ _ _ _
            (pending-Avoids j q.logs (
              stale_log_ops-Avoids _ (ascii "log:index:") j _ q.logs (scanned (ascii "log:index:"))
                core.chain.log q.logs_lem))
            (pending-Avoids j _
              (delete_ops-Avoids (ascii "account:") j _ (scanned (ascii "account:")) core.account))
            (pending-Avoids j _ (
              delete_ops-Avoids (ascii "state:evm:snapshot:") j _
                (scanned (ascii "state:evm:snapshot:")) core.snapshot))
            (pending-Avoids j _ (state_ops-Avoids j s tip core other))
        ∙ ap (λ o. later o (pending j (concat (map remove_block_from_batch q.removed))))
            (replacement_pending k (suc s.ancestor.number) s.replacement q.inserted numbered
              (omega (arith, v.room)) q.inserted_lem)
        ∙ ap (later (entered value (find_block n s.replacement))) (
            removed_pending k (suc s.ancestor.number) q.removed q.removed_numbered room
            ∙ ap
                (λ c.
                  if leb (suc s.ancestor.number) n && ltb n (suc s.ancestor.number + c)
                  then some none
                  else none)
                size)

    height_get :
        {A : Type 0} (codec : Codec A) (of : Block → A) {j : List ℕ} {n : ℕ}
        → IsHeightKey j n (λ b. codec.to_vec (of b))
        → IsCoreKey j
        → bytes_eq (ascii "best:number") j ≡ false
        → parse_option codec (sled.get j (sled.apply_batch batch d))
          ≡ spliced_at of s.ancestor.number best
              (find_block n s.replacement)
              (parse_option codec (sled.get j d))
              n
    height_get codec of {j} {n} k core other =
        ap (parse_option codec) (
          sled.get-apply_batch j batch d
          ∙ elim_written (pending j batch) (sled.get j d)
          ∙ ap (λ o. written o (sled.get j d)) (height_pending k core other))
        ∙ choose codec of (find_block n s.replacement) s.ancestor.number best n (sled.get j d) known

    best_pending : pending (ascii "best:number") batch ≡ some (some (be_bytes 8 tip))
    best_pending =
        ap (pending (ascii "best:number")) q.whole
        ∙ pending_parts (ascii "best:number") (concat (map remove_block_from_batch q.removed))
            q.logs _ _ q.inserted _
        ∙ later_last _ _ _ _ _ _ _ (state_ops-best s tip)

    best_get : tip < u64_mod → get_best_number (sled.apply_batch batch d) ≡ ok tip
    unfolding get_best_number
    best_get h =
        rw (sled.get-apply_batch (ascii "best:number") batch d, best_pending, get_best_number)
          (int_from_slice-be_bytes 8 tip (omega (arith, h)))

    pub batch_splices :
        tip < u64_mod
        → SameChain
            (chain (sled.apply_batch batch d))
            (splice s.ancestor.number best s.replacement tip (chain d))
    unfolding header_by_number block_by_number block_key header_key bytes_eq
    batch_splices h = record {
      best = best_get h;
      headers = λ n k.
          height_get json.header (λ b. b.header) (header_key-IsHeightKey n k)
            (header_key-IsCoreKey n) refl;
      blocks = λ n k.
          height_get json.block (λ b. b) (block_key-IsHeightKey n k) (block_key-IsCoreKey n) refl;
    }
