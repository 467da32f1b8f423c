-- ===== src/Primitives/Encoding/Fields.antt =====
-- Which fields the encodings of a header read.
use blq_node.Base.{◌≡◌, refl}
use blq_node.Primitives.Types.{Hash256, BlockHeader}
use blq_node.Primitives.Encoding.{pow_preimage_bytes, header_prefix}

-- The bytes that are mined over leave the mix hash out.
pub pow_preimage-mix_hash :
    (h : BlockHeader) (m : Hash256)
    → pow_preimage_bytes (record h { mix_hash = m }) ≡ pow_preimage_bytes h
unfolding pow_preimage_bytes header_prefix
pow_preimage-mix_hash h m = refl
