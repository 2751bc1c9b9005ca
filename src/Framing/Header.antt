-- ===== src/Framing/Header.antt =====
-- The two header bytes, `encode_header` and `decode_header` of src/protocol/framing.rs.
use sqlx_monetdb.Prelude.{ℕ, ◌<◌, ◌^◌, ◌≡◌, Bool, true, false, arith}
use sqlx_monetdb.Framing.{encode_header, decode_header}

-- A length below 2 ^ 15 and the last bit are read back from their two header bytes, and both
-- header bytes are below 256.
pub decode_header-encode_header :
    (len : ℕ) (last : Bool)
    → len < 2 ^ 15
    → (decode_header (encode_header len last).0 (encode_header len last).1 ≡ (len, last))
      × ((encode_header len last).0 < 256)
      × ((encode_header len last).1 < 256)
unfolding encode_header decode_header
decode_header-encode_header len true h = (ground arith, omega arith, omega arith)
decode_header-encode_header len false h = (ground arith, omega arith, omega arith)

-- Every pair of header bytes below 256 is the encoding of what it decodes to, and the length that
-- it decodes to is below 2 ^ 15.
pub encode_header-decode_header :
    (low high : ℕ)
    → low < 256
    → high < 256
    → (encode_header (decode_header low high).0 (decode_header low high).1 ≡ (low, high))
      × ((decode_header low high).0 < 2 ^ 15)
unfolding encode_header decode_header
encode_header-decode_header low high p q = (ground arith, omega arith)
