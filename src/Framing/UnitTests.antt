-- ===== src/Framing/UnitTests.antt =====
-- The unit tests of src/protocol/framing.rs, under their names, as statements of the model. An
-- `assert_eq!` is an equation, and `expect` is the success of the result that it is called on.
use sqlx_monetdb.Prelude.{
  ◌+◌, ◌*◌, ◌<◌, ◌≡◌, refl, sym, ap, ◌∙◌, true, false, [], ◌∷◌, ◌++◌, append-nil, none, some, All,
  arith, length, get_or, replicate,
}
use sqlx_monetdb.Text.{codes}
use sqlx_monetdb.Framing.{
  Bytes, max_block_payload, encode_header, decode_header, header_bytes, encode_message,
  decode_message,
}
use sqlx_monetdb.Framing.RoundTrip.{decode_message-encode_message}
use sqlx_monetdb.Framing.Size.{length-encode_message}

-- `let mut out = Vec::new(); encode_message(&payload, &mut out);`
abbrev out_of : Bytes → Bytes
out_of payload = encode_message payload []

-- The whole message, and all its bytes consumed.
abbrev ReadsBack : Bytes → Type 0
ReadsBack payload = decode_message (out_of payload) ≡ some (payload, length (out_of payload))

read_back : (payload : Bytes) → ReadsBack payload
read_back payload =
    ap decode_message (sym (append-nil (out_of payload))) ∙ decode_message-encode_message payload []

abbrev HeaderRoundTrip : Type 0
HeaderRoundTrip =
    All (λ h. decode_header (encode_header h.0 h.1).0 (encode_header h.0 h.1).1 ≡ h)
      ((0, false) ∷ (0, true) ∷ (1, false) ∷ (8190, true) ∷ [])

header_round_trip : HeaderRoundTrip
unfolding encode_header decode_header
header_round_trip = (refl, (refl, (refl, (refl, tt))))

abbrev HeaderIsLittleEndianRegardlessOfHostOrder : Type 0
HeaderIsLittleEndianRegardlessOfHostOrder =
    (encode_header 1 true ≡ (3, 0)) × (encode_header 8190 false ≡ (252, 63))

header_is_little_endian_regardless_of_host_order : HeaderIsLittleEndianRegardlessOfHostOrder
unfolding encode_header
header_is_little_endian_regardless_of_host_order = (refl, refl)

abbrev EmptyMessageIsASingleFlushMarkerBlock : Type 0
EmptyMessageIsASingleFlushMarkerBlock = (out_of [] ≡ 1 ∷ 0 ∷ []) × ReadsBack []

empty_message_is_a_single_flush_marker_block : EmptyMessageIsASingleFlushMarkerBlock
unfolding encode_message encode_header
empty_message_is_a_single_flush_marker_block = (refl, read_back [])

abbrev MessageWithinASingleBlockRoundTrips : Type 0
MessageWithinASingleBlockRoundTrips =
    let payload = replicate 42 7 in (length (out_of payload) ≡ 2 + 42) × ReadsBack payload

message_within_a_single_block_round_trips : MessageWithinASingleBlockRoundTrips
message_within_a_single_block_round_trips =
    (length-encode_message (replicate 42 7) [], read_back (replicate 42 7))

abbrev MessageExactlyAtBlockBoundaryIsASingleBlock : Type 0
MessageExactlyAtBlockBoundaryIsASingleBlock =
    let payload = replicate max_block_payload 9 in
    (length (out_of payload) ≡ 2 + max_block_payload) × ReadsBack payload

message_exactly_at_block_boundary_is_a_single_block : MessageExactlyAtBlockBoundaryIsASingleBlock
message_exactly_at_block_boundary_is_a_single_block = (
  length-encode_message (replicate max_block_payload 9) [],
  read_back (replicate max_block_payload 9),
)

abbrev MessageOneByteOverBoundarySplitsIntoTwoBlocks : Type 0
MessageOneByteOverBoundarySplitsIntoTwoBlocks =
    let payload = replicate (max_block_payload + 1) 3 in
    let out = out_of payload in
    (length out ≡ (2 + max_block_payload) + (2 + 1))
    × (decode_header (get_or out 0 0) (get_or out 1 0) ≡ (max_block_payload, false))
    × (decode_header (get_or out (2 + max_block_payload) 0)
          (get_or out (2 + max_block_payload + 1) 0)
        ≡ (1, true))
    × ReadsBack payload

message_one_byte_over_boundary_splits_into_two_blocks :
    MessageOneByteOverBoundarySplitsIntoTwoBlocks
unfolding encode_message sqlx_monetdb.Framing.write_chunks sqlx_monetdb.Framing.chunks encode_header
    decode_header
message_one_byte_over_boundary_splits_into_two_blocks = (
  length-encode_message (replicate (max_block_payload + 1) 3) [],
  refl,
  refl,
  read_back (replicate (max_block_payload + 1) 3),
)

abbrev MultiBlockMessageSpanningSeveralFullBlocks : Type 0
MultiBlockMessageSpanningSeveralFullBlocks = ReadsBack (replicate (max_block_payload * 2 + 100) 5)

multi_block_message_spanning_several_full_blocks : MultiBlockMessageSpanningSeveralFullBlocks
multi_block_message_spanning_several_full_blocks =
    read_back (replicate (max_block_payload * 2 + 100) 5)

abbrev IncompleteHeaderReturnsNone : Type 0
IncompleteHeaderReturnsNone = (decode_message (1 ∷ []) ≡ none) × (decode_message [] ≡ none)

incomplete_header_returns_none : IncompleteHeaderReturnsNone
unfolding decode_message sqlx_monetdb.Framing.decode_loop
incomplete_header_returns_none = (refl, refl)

abbrev IncompletePayloadReturnsNone : Type 0
IncompletePayloadReturnsNone =
    decode_message (header_bytes (encode_header 10 true) ++ (1 ∷ 2 ∷ 3 ∷ [])) ≡ none

incomplete_payload_returns_none : IncompletePayloadReturnsNone
unfolding decode_message sqlx_monetdb.Framing.decode_loop encode_header decode_header
incomplete_payload_returns_none = refl

abbrev TrailingBytesAfterMessageAreNotConsumed : Type 0
TrailingBytesAfterMessageAreNotConsumed =
    let out = out_of (codes "hello") ++ codes "trailing garbage" in
    (decode_message out ≡ some (codes "hello", 2 + 5)) × (2 + 5 < length out)

trailing_bytes_after_message_are_not_consumed : TrailingBytesAfterMessageAreNotConsumed
unfolding encode_message sqlx_monetdb.Framing.write_chunks sqlx_monetdb.Framing.chunks
trailing_bytes_after_message_are_not_consumed =
    (decode_message-encode_message (codes "hello") (codes "trailing garbage"), omega arith)
