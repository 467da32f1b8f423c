-- ===== src/Node/Rlp/Whole.antt =====
-- Items as a whole: raw items, lists without a tail, and that an item is not empty.
use mathlib.Core.Path.{subst}
use blq_node.Base.{
  ℕ, ◌-◌, ◌≤◌, ◌≡◌, refl, ap, Bool, true, false, arith, List, [], ◌∷◌, ◌++◌, some, length,
  length-append, u64_max,
}
use blq_node.Primitives.{is_empty}
use blq_node.Primitives.Rlp.{eip1559_rlp_header, eip1559_rlp_list_payload}
use blq_node.Node.Rlp.{rlp_take_item, rlp_take_raw, decode_rlp_list}
use blq_node.Node.Rlp.Lengths.{take-length}
use blq_node.Node.Rlp.Items.{take_list}

pub append_nil : (xs : List ℕ) → xs ++ [] ≡ xs
append_nil [] = refl
append_nil (x ∷ xs) = ap (λ ys. x ∷ ys) (append_nil xs)

-- An item that is taken off is taken off whole.
pub take_raw_item :
    (item rest : List ℕ) (k : Bool) (p : List ℕ)
    → rlp_take_item (item ++ rest) ≡ some (k, p, rest)
    → rlp_take_raw (item ++ rest) ≡ some (item, rest)
unfolding rlp_take_raw
take_raw_item item rest k p h =
    let consumed : length (item ++ rest) - length rest ≡ length item =
      omega (arith, length-append item rest) in
    rw (h, consumed, take-length item rest) refl

pub taken_nonempty :
    (xs : List ℕ) {y : Bool × List ℕ × List ℕ} → rlp_take_item xs ≡ some y → is_empty xs ≡ false
unfolding rlp_take_item
taken_nonempty [] h = cc
taken_nonempty (x ∷ xs) h = refl

pub length_of_taken :
    (item : List ℕ) {y : Bool × List ℕ × List ℕ}
    → rlp_take_item (item ++ []) ≡ some y
    → 1 ≤ length item
length_of_taken [] h = let e : true ≡ false = taken_nonempty [] h in cc
length_of_taken (x ∷ xs) h = omega arith

pub decode_list_payload :
    (p : List ℕ) → length p ≤ u64_max → decode_rlp_list (eip1559_rlp_list_payload p) ≡ some p
unfolding decode_rlp_list
decode_list_payload p h =
    let taken : rlp_take_item (eip1559_rlp_list_payload p) ≡ some (true, p, []) =
      subst (λ xs. rlp_take_item xs ≡ some (true, p, [])) (append_nil (eip1559_rlp_list_payload p))
        (take_list p [] h) in
    rw taken refl

pub length-list_payload : (p : List ℕ) → length p ≤ length (eip1559_rlp_list_payload p)
unfolding eip1559_rlp_list_payload
length-list_payload p = omega (arith, length-append {A = ℕ} (eip1559_rlp_header 0xc0 (length p)) p)
