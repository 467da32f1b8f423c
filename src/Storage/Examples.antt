-- ===== src/Storage/Examples.antt =====
-- The theorems of the store at concrete stores.
use mathlib.Core.Path.{subst}
use blq_node.Base.{
  ◌≡◌, Option, filter, ℕ, ◌≡◌, ◌⊎◌, refl, sym, ap, ◌∙◌, true, false, Bool-cases, inl, inr, arith,
  All, List, [], ◌∷◌, some, none, replicate, ok,
}
use blq_node.Base.Bytes.{weight, ascii, be_bytes, be_value, bytes_eq, bytes_eq_iff, bytes_eq_refl}
use blq_node.Base.Prefixes.{starts_with}
use blq_node.Base.Assoc.{lookup}
use blq_node.Base.Sorting.{sort_by-sorted}
use blq_node.Base.Decimals.{padded}
use blq_node.Primitives.{Hash256, Block, BlockHeader, header_hash, hash_zero}
use blq_node.Storage.Keys.{int_from_slice, array_from, header_key, block_key}
use blq_node.Storage.Blocks.{insert_block}
use blq_node.Storage.Blocks.Insert.{
  SameChain, chain, with_block, insert_block-refines, parse_stored,
}
use blq_node.Storage.Blocks.{get_best_number, best_header, header_by_number, block_by_number}
use blq_node.Storage.Generation.{
  GenerationManifest, GenerationStatus, Files, FileOf, verify_files, recover_suffix_publication,
  names_tip, verify_checkpoint, stale_publication, write_suffix_publication,
}
use blq_node.Storage.Publication.{
  Suffix, suffix_tip, is_contiguous, matches_tip, check_suffix, journal_of, before_batch,
}
use blq_node.Storage.Publication.Splice.{IsReplaceable}
use blq_node.Storage.Publication.Refines.{spliced_chain}
use blq_node.Storage.Publication.Crash.{recover_suffix_publication-Interrupted}
use blq_node.Storage.Accounts.{put_account, credit_balance, put_evm_account}
use blq_node.Storage.Snapshot.{state_root, projected_credit_state_root}
use blq_node.Storage.Snapshot.Held.{IsWellKeyed}
use blq_node.Storage.Snapshot.Credit.{
  put_account-IsWellKeyed, projected_credit_state_root-credit_balance,
}
use blq_node.Storage.Accounts.WellFormed.{HasReadableSlots}
use blq_node.Storage.Accounts.Written.{Agree, view, write_account, put_evm_account-refines}
use blq_node.Storage.Keys.{candidate_key, candidate_work_key}
use blq_node.Storage.Candidates.{
  candidate_cmp, candidate_blocks_with_work, latest_candidate_tip, candidate_work,
  clear_candidate_blocks, quarantine_candidate_tip, parse_candidates,
}
use blq_node.Storage.Candidates.Order.{IsBest, set_aside, Answered, latest_candidate_tip_lem}
use blq_node.Storage.Candidates.Apart.{
  Waits-SameChain, here, then_call, quarantined, candidates_cleared,
}
use blq_node.Storage.Pruning.{prune_old_blocks}
use blq_node.Storage.Pruning.Floor.{IsPruned, prune_old_blocks-IsPruned}
use blq_node.Storage.Roots.{NativeAccounts, has_funds, state_root_from_accounts, accounts_preimage}
use blq_node.Storage.Roots.Binds.{RootsCollide, state_root_from_accounts_binds}
use blq_node.Samples.{sample_env, parent, payment, alice, bob, target}
use blq_node.Samples.Codecs.{sample_json, sample_manifests}
use blq_node.Samples.Store.{scan, Entries, sample_sled, sample_hex}

abbrev ancestor : BlockHeader
ancestor = record parent { number = 1 }

-- A block on the ancestor with a payment.
abbrev child : ℕ → Block
child nonce = record {
  header = record parent { number = 2; parent_hash = header_hash ancestor; nonce = nonce };
  transactions = payment alice 4 7 target ∷ [];
  receipts =
      record {
        transaction_hash = target;
        success = true;
        gas_used = 21_000;
        logs_root = hash_zero;
        logs = record { address = bob; topics = target ∷ []; log_data = [] } ∷ [];
      }
      ∷ [];
}

insert_block-refines_example :
    (d : Entries) × (insert_block (child 1) [] ≡ some d)
    × SameChain (chain d) (with_block (child 1) (chain {Db = Entries} []))
insert_block-refines_example =
    insert_block-refines {Db = Entries} (child 1) [] (omega arith) (omega arith)

-- The chain of two blocks, before its second one is replaced.
abbrev two_blocks : Entries
two_blocks =
    (ascii "best:number", be_bytes 8 2)
    ∷ (header_key 1, sample_json.header.to_vec ancestor)
    ∷ (header_key 2, sample_json.header.to_vec (child 1).header)
    ∷ (block_key 2, sample_json.block.to_vec (child 1))
    ∷ []

abbrev previous : GenerationManifest
previous = record {
  generation_id = 1;
  status = GenerationStatus.active;
  canonical_height = 2;
  canonical_hash = header_hash (child 1).header;
  state_root = replicate 32 3;
  profile_fingerprint = [];
  finalized_height = 0;
  replay_checkpoint = none;
}

abbrev suffix : Suffix
suffix = record {
  ancestor = ancestor;
  replacement = child 2 ∷ [];
  native_accounts = (alice, (90, 5)) ∷ [];
  evm_accounts = (bob, (5, 0, 96 ∷ 0 ∷ [], (target, target) ∷ [])) ∷ [];
  supply_totals = (2, 100, 0);
  target_manifest = record previous {
    canonical_hash = header_hash (child 2).header;
    replay_checkpoint = some 2;
  };
}

abbrev files : Files
files = record {
  manifest = FileOf.holds previous;
  checkpoint = FileOf.missing;
  publication = FileOf.missing;
  suffix = FileOf.missing;
}

newest_number : get_best_number two_blocks ≡ ok 2
unfolding get_best_number lookup bytes_eq be_bytes be_value int_from_slice array_from weight
newest_number = refl

header_of_one : header_by_number 1 two_blocks ≡ ok ancestor
unfolding header_by_number lookup bytes_eq header_key padded
header_of_one = parse_stored sample_json.header ancestor

header_of_two : header_by_number 2 two_blocks ≡ ok (child 1).header
unfolding header_by_number lookup bytes_eq header_key padded
header_of_two = parse_stored sample_json.header (child 1).header

body_of_two : block_by_number 2 two_blocks ≡ ok (child 1)
unfolding block_by_number lookup bytes_eq header_key block_key padded
body_of_two = parse_stored sample_json.block (child 1)

newest : best_header two_blocks ≡ ok (child 1).header
unfolding best_header
newest = rw (newest_number, best_header) header_of_two

suffix_checked : check_suffix suffix files two_blocks ≡ ok (previous, (child 1).header)
unfolding check_suffix is_contiguous matches_tip suffix_tip bytes_eq
suffix_checked =
    rw
      (
        newest,
        header_of_one,
        bytes_eq_refl (header_hash ancestor),
        bytes_eq_refl (header_hash (child 2).header),
        check_suffix,
      )
      refl

-- No entry has a key of the index of logs.
absent :
    (p k v : List ℕ) (d : Entries)
    → All (λ e. starts_with p e.0 ≡ false) d
    → starts_with p k ≡ true
    → lookup k d ≡ some v
    → ⊥
unfolding lookup
absent p k v [] h s e = cc
absent p k v ((j, w) ∷ d) h s e = elim (Bool-cases (bytes_eq j k)) [
  | inl same ↦
      let bad : starts_with p j ≡ true =
        subst (λ x. starts_with p x ≡ true) (sym ((bytes_eq_iff j k).0 same)) s in
      cc
  | inr other ↦ absent p k v d h.1 s (rw other at e)
]

suffix-IsReplaceable : IsReplaceable suffix 2 two_blocks
unfolding header_key block_key
suffix-IsReplaceable = record {
  bodies = λ n lo hi.
      let two : n ≡ 2 = omega arith in
      (child 1, ap (λ m. block_by_number m two_blocks) two ∙ body_of_two, sym two);
  places = λ k v s e.
      absurd (absent (ascii "log:index:") k v two_blocks (refl, (refl, (refl, (refl, tt)))) s e);
  receipts = (omega arith, tt);
  bounded = omega arith;
  room = omega arith;
}

files_verified : verify_files files two_blocks ≡ ok (previous, false)
unfolding verify_files names_tip verify_checkpoint stale_publication bytes_eq
files_verified = rw (newest, bytes_eq_refl (header_hash (child 1).header), verify_files) refl

abbrev journaled : Files
journaled = write_suffix_publication (journal_of previous suffix) files

-- The crash comes right after the journal is written.
recover_suffix_publication-Interrupted_example :
    (f : Files) × (recover_suffix_publication journaled two_blocks ≡ (f, ok tt))
    × ((verify_files f two_blocks ≡ ok (suffix.target_manifest, false))
        ⊎ ((two_blocks ≡ two_blocks) × (verify_files f two_blocks ≡ ok (previous, false))))
    × ((two_blocks ≡ two_blocks)
        ⊎ SameChain (chain two_blocks) (spliced_chain suffix (child 1).header two_blocks))
recover_suffix_publication-Interrupted_example =
    recover_suffix_publication-Interrupted suffix files journaled two_blocks two_blocks previous
      (child 1).header false suffix_checked suffix-IsReplaceable refl files_verified header_of_two
      before_batch

-- An account with code and one slot, written to a store with nothing in it.
put_evm_account-refines_example :
    (d : Entries) × (put_evm_account bob 5 1 (96 ∷ 0 ∷ []) ((target, target) ∷ []) [] ≡ ok d)
    × HasReadableSlots d
    × Agree
        (view d)
        (write_account bob 5 1 (96 ∷ 0 ∷ []) ((target, target) ∷ []) (view {Db = Entries} []))
unfolding lookup
put_evm_account-refines_example =
    put_evm_account-refines {Db = Entries} bob (96 ∷ 0 ∷ []) 5 1 ((target, target) ∷ []) []
      (omega arith)
      (record {
        balance = omega arith;
        nonce = omega arith;
        slots = omega arith;
        values = omega arith;
        distinct = omega arith;
      })
      (λ k v s e. absurd (cc))

abbrev candidate_text : List ℕ
candidate_text = sample_json.block.to_vec (child 2)

-- One candidate with its work.
abbrev one_candidate : Entries
one_candidate =
    (candidate_key (header_hash (child 2).header), candidate_text)
    ∷ (candidate_work_key (header_hash (child 2).header), be_bytes 16 9)
    ∷ []

abbrev tip_hash : Hash256
tip_hash = header_hash (child 2).header

block_first :
    (starts_with (ascii "candidate:block:") (candidate_key tip_hash) ≡ true)
    × (starts_with (ascii "candidate:block:") (candidate_work_key tip_hash) ≡ false)
    × (bytes_eq (candidate_key tip_hash) (candidate_work_key tip_hash) ≡ false)
unfolding candidate_key candidate_work_key bytes_eq
block_first = (refl, refl, refl)

work_read : candidate_work tip_hash one_candidate ≡ ok 9
unfolding candidate_work lookup int_from_slice array_from be_bytes be_value weight
work_read =
    rw (block_first.2, bytes_eq_refl (candidate_work_key tip_hash), lookup, candidate_work) refl

scanned :
    scan (ascii "candidate:block:") one_candidate one_candidate
    ≡ (candidate_key tip_hash, candidate_text) ∷ []
unfolding scan lookup
scanned =
    rw
      (
        bytes_eq_refl (candidate_key tip_hash),
        block_first.2,
        bytes_eq_refl (candidate_work_key tip_hash),
        block_first.0,
        block_first.1,
        lookup,
        scan,
      )
      refl

candidates_read : candidate_blocks_with_work one_candidate ≡ ok ((child 2, 9) ∷ [])
unfolding candidate_blocks_with_work parse_candidates
candidates_read =
    rw (scanned, parse_stored sample_json.block (child 2), work_read, candidate_blocks_with_work)
      (ap ok (sort_by-sorted candidate_cmp ((child 2, 9) ∷ []) (tt, tt)))

latest_candidate_tip_lem_example :
    (r : Option (BlockHeader × ℕ)) × (latest_candidate_tip one_candidate ≡ ok r)
    × IsBest (set_aside one_candidate) ((child 2, 9) ∷ []) r
    × Answered one_candidate r (child 2, 9)
unfolding lookup
latest_candidate_tip_lem_example =
    latest_candidate_tip_lem one_candidate ((child 2, 9) ∷ []) tip_hash (child 2) 9 candidates_read
      (rw (bytes_eq_refl (candidate_key tip_hash), lookup) refl) work_read

Waits-SameChain_example :
    SameChain
      (chain (clear_candidate_blocks (quarantine_candidate_tip target [] two_blocks)))
      (chain two_blocks)
    × Agree
        (view (clear_candidate_blocks (quarantine_candidate_tip target [] two_blocks)))
        (view two_blocks)
Waits-SameChain_example =
    Waits-SameChain (then_call (then_call here (quarantined target [])) candidates_cleared)

prune_old_blocks-IsPruned_example :
    IsPruned 1 two_blocks (prune_old_blocks 1 1 (λ turn. 5) two_blocks)
prune_old_blocks-IsPruned_example = prune_old_blocks-IsPruned 1 1 (λ turn. 5) two_blocks

abbrev funded : NativeAccounts
funded = (alice, (90, 5)) ∷ (bob, (0, 0)) ∷ []

state_root_from_accounts_binds_example :
    (filter has_funds funded ≡ filter has_funds ((alice, (90, 5)) ∷ []))
    ⊎ RootsCollide funded ((alice, (90, 5)) ∷ [])
unfolding state_root_from_accounts accounts_preimage
state_root_from_accounts_binds_example =
    state_root_from_accounts_binds funded ((alice, (90, 5)) ∷ []) (omega arith) (omega arith) refl

-- Alice with 90 and five transactions.
abbrev alice_alone : Entries
alice_alone = put_account alice 90 5 []

nothing_there : IsWellKeyed {Db = Entries} []
unfolding lookup
nothing_there = record { balances = λ k v p e. absurd (cc); nonces = λ k v p e. absurd (cc) }

projected_credit_state_root-credit_balance_example :
    (d : Entries) × (credit_balance alice 7 alice_alone ≡ ok d)
    × (r : Hash256) × (projected_credit_state_root alice 7 alice_alone ≡ ok r)
    × (state_root d ≡ ok r)
projected_credit_state_root-credit_balance_example =
    projected_credit_state_root-credit_balance alice 7 alice_alone (omega arith) (
      put_account-IsWellKeyed alice (omega arith) 90 5 [] (omega arith) (omega arith) nothing_there)
