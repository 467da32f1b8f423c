-- ===== src/Storage/Blocks/Insert.antt =====
-- What the store holds of the chain after `insert_block` and `insert_header`.
use blq_node.Base.{
  ℕ, ◌≤◌, ◌<◌, ◌≡◌, refl, ap, ◌∙◌, Bool, true, false, ◌==◌, if◌then◌else◌, List, Option, some,
  length, arith, u64_mod, Result, ok,
}
use blq_node.Base.Bytes.{ascii, be_bytes, bytes_eq}
use blq_node.Externals.{Externals}
use blq_node.Database.{Hex, Sled, Codec}
use blq_node.Primitives.{BlockHeader, Block}
use blq_node.Storage.Keys.{StorageError, block_key, header_key}
use blq_node.Storage.Keys.Separation.{block_key_eq, header_key_eq, int_from_slice-be_bytes}
use blq_node.Storage.Blocks.{
  Json, parse_option, from_slice, get_best_number, put_header, insert_header, header_by_number,
  block_by_number, index_block_logs, insert_block,
}
use blq_node.Storage.Blocks.Indexes.{
  IsChainKey, block_key-IsChainKey, header_key-IsChainKey, index_receipts_apart,
  store_transactions_total,
}

-- The chain as the rest of the node sees it.
pub record ChainView : Type 0 where
  pub best : Result ℕ StorageError
  pub header_at : ℕ → Result BlockHeader StorageError
  pub block_at : ℕ → Result Block StorageError

-- The newest height is the block's, which stands there with its header, and all else stays.
abbrev pub with_header : BlockHeader → ChainView → ChainView
with_header header v = record v {
  best = ok header.number;
  header_at = λ n. if header.number == n then ok header else v.header_at n;
}

abbrev pub with_block : Block → ChainView → ChainView
with_block block v = record (with_header block.header v) {
  block_at = λ n. if block.header.number == n then ok block else v.block_at n;
}

pub record SameChain (v w : ChainView) : Type 0 where
  pub best : v.best ≡ w.best
  pub headers : (n : ℕ) → n < u64_mod → v.header_at n ≡ w.header_at n
  pub blocks : (n : ℕ) → n < u64_mod → v.block_at n ≡ w.block_at n

pub parse_stored :
    {A : Type 0} (codec : Codec A) (a : A) → parse_option codec (some (codec.to_vec a)) ≡ ok a
parse_stored codec a = rw (codec.from_slice-to_vec a, from_slice) refl

parse_if :
    {A : Type 0} (codec : Codec A) (a : A) (c : Bool) (o : Option (List ℕ))
    → parse_option codec (if c then some (codec.to_vec a) else o)
      ≡ (if c then ok a else parse_option codec o)
parse_if codec a true o = parse_stored codec a
parse_if codec a false o = refl

module _ {Db : Type 0} ⦃sled : Sled Db⦄ ⦃json : Json⦄ where
  abbrev pub chain : Db → ChainView
  chain d = record {
    best = get_best_number d;
    header_at = λ n. header_by_number n d;
    block_at = λ n. block_by_number n d;
  }

  put_header-best :
      (h : BlockHeader) (d : Db)
      → h.number < u64_mod
      → get_best_number (put_header h d) ≡ ok h.number
  unfolding get_best_number put_header bytes_eq
  put_header-best h d v =
      rw
        (
          sled.get-insert (ascii "best:number") (ascii "best:number") (be_bytes 8 h.number)
              (sled.insert (header_key h.number) (json.header.to_vec h) d),
          get_best_number,
        )
        (int_from_slice-be_bytes 8 h.number (omega (arith, v)))

  put_header-header :
      (h : BlockHeader) (n : ℕ) (d : Db)
      → h.number < u64_mod
      → n < u64_mod
      → header_by_number n (put_header h d) ≡ (if h.number == n then ok h else header_by_number n d)
  unfolding header_by_number put_header header_key bytes_eq
  put_header-header h n d v k =
      ap (parse_option json.header) (
        sled.get-insert (header_key n) (ascii "best:number") _ _
        ∙ sled.get-insert (header_key n) (header_key h.number) (json.header.to_vec h) d)
      ∙ parse_if json.header h (bytes_eq (header_key h.number) (header_key n))
          (sled.get (header_key n) d)
      ∙ ap (λ c. if c then ok h else parse_option json.header (sled.get (header_key n) d))
          (header_key_eq h.number n v k)

  put_header-block :
      (h : BlockHeader) (n : ℕ) (d : Db) → block_by_number n (put_header h d) ≡ block_by_number n d
  unfolding block_by_number put_header block_key header_key bytes_eq
  put_header-block h n d = ap (parse_option json.block) (
      sled.get-insert (block_key n) (ascii "best:number") _ _
      ∙ sled.get-insert (block_key n) (header_key h.number) _ d)

  -- `insert_header` refines the step on the chain alone.
  insert_header-refines :
      (h : BlockHeader) (d : Db)
      → h.number < u64_mod
      → SameChain (chain (insert_header h d)) (with_header h (chain d))
  unfolding insert_header
  insert_header-refines h d v = record {
    best = put_header-best h d v;
    headers = λ n k. put_header-header h n d v k;
    blocks = λ n k. put_header-block h n d;
  }

module _ {Db : Type 0} ⦃sled : Sled Db⦄ ⦃json : Json⦄ ⦃hex : Hex⦄ ⦃env : Externals⦄ where
  -- The store before the header is written: only the block's own entry is new to the chain.
  indexed :
      (block : Block) (d s : Db) (j : List ℕ)
      → ((i : List ℕ)
          → IsChainKey i
          → sled.get i s
            ≡ sled.get i (sled.insert (block_key block.header.number) (json.block.to_vec block) d))
      → IsChainKey j
      → sled.get j (index_block_logs block s) ≡ (
          if bytes_eq (block_key block.header.number) j
          then some (json.block.to_vec block)
          else sled.get j d)
  unfolding index_block_logs
  indexed block d s j same v =
      index_receipts_apart {Db = Db} j block.header.number 0 block.receipts s v
      ∙ same j v
      ∙ sled.get-insert j (block_key block.header.number) (json.block.to_vec block) d

  block_entry :
      (block : Block) (n : ℕ) (d s : Db)
      → block.header.number < u64_mod
      → n < u64_mod
      → sled.get (block_key n) s ≡ (
          if bytes_eq (block_key block.header.number) (block_key n)
          then some (json.block.to_vec block)
          else sled.get (block_key n) d)
      → block_by_number n s ≡ (if block.header.number == n then ok block else block_by_number n d)
  unfolding block_by_number
  block_entry block n d s v k e =
      ap (parse_option json.block) e
      ∙ parse_if json.block block (bytes_eq (block_key block.header.number) (block_key n))
          (sled.get (block_key n) d)
      ∙ ap (λ c. if c then ok block else parse_option json.block (sled.get (block_key n) d))
          (block_key_eq block.header.number n v k)

  header_entry :
      (block : Block) (n : ℕ) (d s : Db)
      → sled.get (header_key n) s ≡ (
          if bytes_eq (block_key block.header.number) (header_key n)
          then some (json.block.to_vec block)
          else sled.get (header_key n) d)
      → header_by_number n s ≡ header_by_number n d
  unfolding header_by_number header_key block_key bytes_eq
  header_entry block n d s e = ap (parse_option json.header) e

  -- Inserting a block that has a receipt for each transaction does not panic, and shows as the step
  -- on the chain alone: its height is the newest one, its block and its header stand there, and
  -- the blocks and headers at all other heights stay.
  pub insert_block-refines :
      (block : Block) (d : Db)
      → block.header.number < u64_mod
      → length block.transactions ≤ length block.receipts
      → (d' : Db) × (insert_block block d ≡ some d')
        × SameChain (chain d') (with_block block (chain d))
  unfolding insert_block
  insert_block-refines block d v enough =
      let start = sled.insert (block_key block.header.number) (json.block.to_vec block) d in
      let (s, p, same) =
        store_transactions_total {Db = Db} block.header block.receipts 0 block.transactions start
          (omega (arith, enough)) in
      let logged = index_block_logs block s in
      (
        put_header block.header logged,
        rw (p, insert_block) refl,
        record {
          best = put_header-best block.header logged v;
          headers = λ n k.
              put_header-header block.header n logged v k
              ∙ ap (λ o. if block.header.number == n then ok block.header else o)
                  (header_entry block n d logged
                    (indexed block d s (header_key n) same (header_key-IsChainKey n)));
          blocks = λ n k.
              put_header-block block.header n logged
              ∙ block_entry block n d logged v k
                  (indexed block d s (block_key n) same (block_key-IsChainKey n));
        },
      )
