-- ===== src/Framing/Size.antt =====
-- How long an encoded message is: `encode_message` of src/protocol/framing.rs.
use sqlx_monetdb.Prelude.{
  ℕ, zero, suc, ◌+◌, ◌*◌, ◌/◌, ◌≤◌, ◌≡◌, true, false, List, [], ◌∷◌, ◌++◌, arith, length, drop,
  length-take, length-drop, length-append,
}
use sqlx_monetdb.Framing.{
  Bytes, max_block_payload, header_bytes, encode_header, chunks, write_chunks, encode_message,
}

-- The number of blocks of a payload: an empty one has a block too.
abbrev pub blocks : ℕ → ℕ
blocks zero = 1
blocks (suc n) = (suc n + 8189) / 8190

payload_of : List Bytes → ℕ
payload_of [] = 0
payload_of (chunk ∷ rest) = length chunk + payload_of rest

length-write_chunks :
    (cs : List Bytes) (out : Bytes)
    → length (write_chunks cs out) ≡ length out + payload_of cs + 2 * length cs
unfolding write_chunks payload_of
length-write_chunks [] out = omega arith
length-write_chunks (c ∷ []) out = omega (
  arith,
  length-append (out ++ header_bytes (encode_header (length c) true)) c,
  length-append out (header_bytes (encode_header (length c) true)),
)
length-write_chunks (c ∷ d ∷ cs) out =
    let h = header_bytes (encode_header (length c) false) in
    omega (
      arith,
      length-write_chunks (d ∷ cs) ((out ++ h) ++ c),
      length-append (out ++ h) c,
      length-append out h,
    )

chunks_sizes :
    (fuel : ℕ) (payload : Bytes)
    → length payload ≤ fuel
    → (payload_of (chunks fuel payload) ≡ length payload)
      × (length (chunks fuel payload) ≡ (length payload + 8189) / 8190)
unfolding chunks payload_of
chunks_sizes zero [] h = (omega arith, omega arith)
chunks_sizes (suc fuel) [] h = (omega arith, omega arith)
chunks_sizes zero (b ∷ payload) h = absurd (omega arith)
chunks_sizes (suc fuel) (b ∷ payload) h =
    let left = drop max_block_payload (b ∷ payload) in
    let cut = length-drop max_block_payload (b ∷ payload) in
    let taken = length-take max_block_payload (b ∷ payload) in
    let (sum, count) = chunks_sizes fuel left (omega (arith, cut)) in
    (omega (arith, sum, cut, taken), omega (arith, count, cut))

-- An encoded message adds to the buffer its payload and two bytes for each of its blocks, and these
-- are as few as 8190 bytes to a block allow, and one for an empty payload.
pub length-encode_message :
    (payload out : Bytes)
    → length (encode_message payload out)
      ≡ length out + length payload + 2 * blocks (length payload)
unfolding encode_message
length-encode_message [] out =
    omega (arith, length-append out (header_bytes (encode_header 0 true)))
length-encode_message (b ∷ payload) out =
    let (sum, count) = chunks_sizes (length (b ∷ payload)) (b ∷ payload) (omega arith) in
    omega (arith, length-write_chunks (chunks (length (b ∷ payload)) (b ∷ payload)) out, sum, count)
