-- ===== src/Framing/Frames.antt =====
-- What a framed message is, apart from the code of src/protocol/framing.rs: blocks of at most
-- `limit` payload bytes, each behind its header, with the last bit in the last header alone.
use sqlx_monetdb.Prelude.{ℕ, ◌≤◌, ◌≡◌, true, false, ◌++◌, length}
use sqlx_monetdb.Framing.{Bytes, encode_header, header_bytes}

pub data Frames (limit : ℕ) : Bytes → Bytes → Type 0 where
  last :
      (p w : Bytes)
      → length p ≤ limit
      → w ≡ header_bytes (encode_header (length p) true) ++ p
      → Frames limit p w
  more :
      (p q m v w : Bytes)
      → length p ≤ limit
      → Frames limit q v
      → m ≡ p ++ q
      → w ≡ header_bytes (encode_header (length p) false) ++ (p ++ v)
      → Frames limit m w
