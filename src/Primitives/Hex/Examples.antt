-- ===== src/Primitives/Hex/Examples.antt =====
-- The theorem of the hexadecimal texts under concrete digits.
use blq_node.Base.{◌≡◌, ◌≢◌, some, none, ok, arith}
use blq_node.Primitives.Encoding.{to_word}
use blq_node.Primitives.Hex.{parse_beneficiary, address_to_hex, hash_to_hex, parse_beneficiary_lem}
use blq_node.Base.Bytes.{ascii}
use blq_node.Samples.{alice, target}
use blq_node.Samples.Store.{sample_hex}

parse_beneficiary_lem_example :
    (parse_beneficiary (ascii "0x12") ≢ none)
    × (parse_beneficiary (address_to_hex alice) ≡ some (ok (to_word alice)))
    × (parse_beneficiary (hash_to_hex target) ≡ some (ok target))
parse_beneficiary_lem_example =
    parse_beneficiary_lem (ascii "0x12") alice target (omega arith) (omega arith)
