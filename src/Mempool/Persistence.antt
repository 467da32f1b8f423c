-- ===== src/Mempool/Persistence.antt =====
-- crates/blq-mempool/src/lib.rs, `load` and `save`, from the value that the JSON text stands for
-- and up to the value that is written: the text, the files and the directories are left out.
pub mod RoundTrip
use mathlib.Core.Path.{subst}
use blq_node.Base.{
  ℕ, zero, suc, ◌+◌, ◌<◌, ◌≤◌, ◌≡◌, refl, sym, ◌∙◌, ap, Bool, true, false, List, [], ◌∷◌, ◌++◌,
  Option, some, none, arith, length, length-append, map, any, any-All, find, All, All-imp,
  All-append, Pairwise, ltb, leb, ok, Option-cases, inl, inr,
}
use blq_node.Base.Bytes.{bytes_eq, bytes_eq_refl, bytes_eq_sym}
use blq_node.Base.Sorting.{IsSorted, sort_by-sorted}
use blq_node.Base.Assoc.{lookup, insert, lookup-insert}
use blq_node.Externals.{Externals}
use blq_node.Primitives.{Bix, Hash256, Transaction, rpc_hash}
use blq_node.Consensus.Validation.{validate_transaction_fee}
use blq_node.Mempool.{
  Mempool, AddResult, added, refused, panicked, fee_cmp, sort_by_fee, same_slot, same_hash, append,
  add_checked, add, empty_mempool,
}
use blq_node.Mempool.Invariant.{IsPriced, IsValid, same_hash_symm, same_slot_symm}
use blq_node.Mempool.Operations.{unwrap_or}

pub record PersistedEntry : Type 0 where
  pub transaction : Transaction
  pub first_seen : ℕ

-- The two forms that `load` reads: the present one, and the former one without times.
pub data Stored : Type 0 where
  entries : List PersistedEntry → Stored
  bare : List Transaction → Stored

module _ ⦃env : Externals⦄ where
  -- The body of `if mempool.add(...).is_ok()`, on what `add` did.
  pub note_time : PersistedEntry → Mempool × AddResult → Mempool
  note_time entry (m, added) = record {
    transactions = m.transactions;
    first_seen = insert (rpc_hash entry.transaction) entry.first_seen m.first_seen;
  }
  note_time entry (m, refused e) = m
  note_time entry (m, panicked) = m

  pub load_entry : Bix → ℕ → Mempool → PersistedEntry → Mempool
  load_entry base now m entry = note_time entry (add entry.transaction base now m)

  pub load_entries : Bix → ℕ → Mempool → List PersistedEntry → Mempool
  load_entries base now m [] = m
  load_entries base now m (entry ∷ rest) = load_entries base now (load_entry base now m entry) rest

  pub load_bare : Bix → ℕ → Mempool → List Transaction → Mempool
  load_bare base now m [] = m
  load_bare base now m (t ∷ rest) = load_bare base now (add t base now m).0 rest

  -- No value stands for a file that is not there.
  pub load : Option Stored → Bix → ℕ → Mempool
  load none base now = empty_mempool
  load (some (entries es)) base now = load_entries base now empty_mempool es
  load (some (bare ts)) base now = load_bare base now empty_mempool ts

  pub entry_of : List (Hash256 × ℕ) → ℕ → Transaction → PersistedEntry
  entry_of seen now t = record {
    transaction = t;
    first_seen = unwrap_or (lookup (rpc_hash t) seen) now;
  }

  pub save : Mempool → ℕ → Stored
  save m now = entries (map (entry_of m.first_seen now) m.transactions)
