-- ===== src/Database.antt =====
-- The code of other projects that crates/blq-storage keeps its data with: the database sled, the
-- texts of the crate hex, and the JSON of serde_json. Each is a record of its operations and of
-- what its documentation promises of them.
use blq_node.Base.{
  ℕ, ◌≡◌, Bool, true, ◌&&◌, ◌||◌, List, [], ◌∷◌, Option, some, none, leb, if◌then◌else◌, All,
}
use blq_node.Base.Bytes.{IsBytes, bytes_eq}
use blq_node.Base.Prefixes.{starts_with}
use blq_node.Base.Assoc.{lookup}

-- One entry of a `sled::Batch`.
pub data BatchOp : Type 0 where
  store : List ℕ → List ℕ → BatchOp
  delete : List ℕ → BatchOp

-- What a batch holds for a key: a later entry replaces an earlier one.
abbrev pub pending : List ℕ → List BatchOp → Option (Option (List ℕ))
pending k [] = none
pending k (store j v ∷ ops) = elim (pending k ops) [
  | none ↦ if bytes_eq j k then some (some v) else none
  | some r ↦ some r
]
pending k (delete j ∷ ops) = elim (pending k ops) [
  | none ↦ if bytes_eq j k then some none else none
  | some r ↦ some r
]

-- `sled::Db` and its default tree: a map of byte sequences. A call that fails with an error of the
-- disk is left out.
pub record Sled (Db : Type 0) : Type 0 where
  pub get : List ℕ → Db → Option (List ℕ)
  pub insert : List ℕ → List ℕ → Db → Db
  pub remove : List ℕ → Db → Db
  -- All at once, or, after a crash, not at all.
  pub apply_batch : List BatchOp → Db → Db
  -- The entries whose keys start with the prefix.
  pub scan_prefix : List ℕ → Db → List (List ℕ × List ℕ)
  pub get-insert :
      (j k v : List ℕ) (d : Db) → get j (insert k v d) ≡ (if bytes_eq k j then some v else get j d)
  pub get-remove :
      (j k : List ℕ) (d : Db) → get j (remove k d) ≡ (if bytes_eq k j then none else get j d)
  pub get-apply_batch :
      (j : List ℕ) (ops : List BatchOp) (d : Db)
      → get j (apply_batch ops d) ≡ elim (pending j ops) [ none ↦ get j d | some r ↦ r ]
  pub scan_prefix-get :
      (p : List ℕ) (d : Db)
      → All (λ e. (starts_with p e.0 ≡ true) × (get e.0 d ≡ some e.1)) (scan_prefix p d)
  pub get-scan_prefix :
      (p k v : List ℕ) (d : Db)
      → starts_with p k ≡ true
      → get k d ≡ some v
      → lookup k (scan_prefix p d) ≡ some v

-- One of the sixteen characters that `hex::encode` writes.
abbrev pub is_hex_digit : ℕ → Bool
is_hex_digit b = (leb 48 b && leb b 57) || (leb 97 b && leb b 102)

pub record Hex : Type 0 where
  pub encode : List ℕ → List ℕ
  pub decode : List ℕ → Option (List ℕ)
  pub encode-digits : (bs : List ℕ) → All (λ b. is_hex_digit b ≡ true) (encode bs)
  pub decode-encode : (bs : List ℕ) → IsBytes bs → decode (encode bs) ≡ some bs

-- `serde_json::to_vec` and `serde_json::from_slice` at one type; writing does not fail at the types
-- that are stored.
pub record Codec (A : Type 0) : Type 0 where
  pub to_vec : A → List ℕ
  pub from_slice : List ℕ → Option A
  pub from_slice-to_vec : (a : A) → from_slice (to_vec a) ≡ some a
