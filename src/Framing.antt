-- ===== src/Framing.antt =====
-- Block framing, src/protocol/framing.rs: the length-prefixed blocks that carry every message.
-- Bytes are numbers below 256. `out` of `encode_message` is the buffer that
-- it appends to. The debug assertion of `encode_header` on the length is left out.
use sqlx_monetdb.Prelude.{
  ℕ, zero, suc, ◌+◌, ◌-◌, ◌*◌, ◌/◌, ◌%◌, ◌^◌, Bool, true, false, List, [], ◌∷◌, ◌++◌, Option, none,
  some, ltb, ◌==◌, if◌then◌else◌, length, get_or, take, drop, ◌≤◌,
}
pub mod Header
pub mod Frames
pub mod Encode
pub mod Decode
pub mod Sound
pub mod RoundTrip
pub mod Size
pub mod UnitTests
pub mod Tests

abbrev pub Bytes : Type 0
Bytes = List ℕ

abbrev pub max_block_payload : ℕ
max_block_payload = 8 * 1024 - 2

abbrev pub u16_from : Bool → ℕ
u16_from true = 1
u16_from false = 0

-- `((payload_len as u16) << 1) | u16::from(is_last)` in 16 bits, then its two bytes, low first.
-- The low bit of the shifted length is clear, so the bit-or is an addition.
abbrev pub header_word : ℕ → Bool → ℕ
header_word payload_len is_last = ((payload_len % 2 ^ 16) * 2) % 2 ^ 16 + u16_from is_last

unfoldable pub encode_header : ℕ → Bool → ℕ × ℕ
encode_header payload_len is_last =
    let header = header_word payload_len is_last in (header % 256, header / 256)

unfoldable pub decode_header : ℕ → ℕ → ℕ × Bool
decode_header low high = let header = low + 256 * high in (header / 2, header % 2 == 1)

abbrev pub header_bytes : ℕ × ℕ → Bytes
header_bytes h = h.0 ∷ h.1 ∷ []

-- `payload.chunks(MAX_BLOCK_PAYLOAD)`; the fuel is the payload's length.
unfoldable pub chunks : ℕ → Bytes → List Bytes
chunks zero payload = []
chunks (suc fuel) [] = []
chunks (suc fuel) (b ∷ payload) =
    take max_block_payload (b ∷ payload) ∷ chunks fuel (drop max_block_payload (b ∷ payload))

-- The `while let` loop over the peekable chunks: a chunk is the last if none follows.
unfoldable pub write_chunks : List Bytes → Bytes → Bytes
write_chunks [] out = out
write_chunks (chunk ∷ []) out = (out ++ header_bytes (encode_header (length chunk) true)) ++ chunk
write_chunks (chunk ∷ next ∷ rest) out =
    write_chunks (next ∷ rest) ((out ++ header_bytes (encode_header (length chunk) false)) ++ chunk)

unfoldable pub encode_message : Bytes → Bytes → Bytes
encode_message [] out = out ++ header_bytes (encode_header 0 true)
encode_message (b ∷ payload) out = write_chunks (chunks (length (b ∷ payload)) (b ∷ payload)) out

-- The loop of `decode_message`, over its variables. Each round moves the offset on by two bytes
-- at least, so the length of the data is fuel enough.
unfoldable pub decode_loop : ℕ → Bytes → ℕ → Bytes → Option (Bytes × ℕ)
decode_loop zero input offset message = none
decode_loop (suc fuel) input offset message =
    let (len, is_last) = decode_header (get_or input offset 0) (get_or input (offset + 1) 0) in
    let start = offset + 2 in
    let message' = message ++ take len (drop start input) in
    let again = decode_loop fuel input (start + len) message' in
    if ltb (length input) (offset + 2)
    then none
    else if ltb (length input) (start + len)
    then none
    else if is_last
    then some (message', start + len)
    else again

unfoldable pub decode_message : Bytes → Option (Bytes × ℕ)
unfolding decode_loop
decode_message input = decode_loop (suc (length input)) input 0 []
