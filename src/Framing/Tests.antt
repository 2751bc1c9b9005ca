-- ===== src/Framing/Tests.antt =====
-- The framing theorems on one small message.
use sqlx_monetdb.Prelude.{
  ◌+◌, ◌*◌, replicate, ◌≡◌, refl, [], ◌∷◌, ◌++◌, some, none, take, length, ◌<◌, ◌≤◌, arith, true,
}
use sqlx_monetdb.Framing.{
  Bytes, max_block_payload, encode_header, decode_header, encode_message, decode_message,
  decode_loop,
}
use sqlx_monetdb.Framing.Frames.{Frames}
use sqlx_monetdb.Framing.Header.{decode_header-encode_header, encode_header-decode_header}
use sqlx_monetdb.Framing.Encode.{encode_message-Frames}
use sqlx_monetdb.Framing.Sound.{decode_message_sound, AreBytes}
use sqlx_monetdb.Framing.Size.{blocks, length-encode_message}
use sqlx_monetdb.Framing.RoundTrip.{
  decode_message-encode_message, decode_message-append, decode_message-take,
}

abbrev greeting : Bytes
greeting = b'h' ∷ b'i' ∷ []

abbrev wire : Bytes
wire = 5 ∷ 0 ∷ b'h' ∷ b'i' ∷ []

wire_read : decode_message wire ≡ some (greeting, 4)
unfolding decode_message decode_loop decode_header
wire_read = refl

wire-AreBytes : AreBytes wire
wire-AreBytes = omega arith

header_of_5 :
    (decode_header (encode_header 5 true).0 (encode_header 5 true).1 ≡ (5, true))
    × ((encode_header 5 true).0 < 256)
    × ((encode_header 5 true).1 < 256)
header_of_5 = decode_header-encode_header 5 true (omega arith)

header_bytes_5 :
    (encode_header (decode_header 5 0).0 (decode_header 5 0).1 ≡ (5, 0))
    × ((decode_header 5 0).0 < 32768)
header_bytes_5 = encode_header-decode_header 5 0 (omega arith) (omega arith)

encode_message-Frames_example :
    (w : Bytes) × (encode_message greeting (7 ∷ []) ≡ (7 ∷ []) ++ w)
    × Frames max_block_payload greeting w
encode_message-Frames_example = encode_message-Frames greeting (7 ∷ [])

decode_message_sound_example :
    (w : Bytes) × (rest : Bytes) × (wire ≡ w ++ rest) × Frames 32767 greeting w × (4 ≡ length w)
decode_message_sound_example =
    decode_message_sound wire {m = greeting} {n = 4} wire-AreBytes wire_read

decode_message-encode_message_example :
    decode_message (encode_message greeting [] ++ (9 ∷ []))
    ≡ some (greeting, length (encode_message greeting []))
decode_message-encode_message_example = decode_message-encode_message greeting (9 ∷ [])

trailing_bytes : (decode_message (wire ++ (9 ∷ [])) ≡ some (greeting, 4)) × (4 ≤ length wire)
trailing_bytes = decode_message-append wire (9 ∷ []) {m = greeting} {n = 4} wire-AreBytes wire_read

greeting-length : 3 < length (encode_message greeting [])
unfolding encode_message sqlx_monetdb.Framing.write_chunks sqlx_monetdb.Framing.chunks
greeting-length = omega arith

decode_message-take_example : decode_message (take 3 (encode_message greeting [])) ≡ none
decode_message-take_example = decode_message-take greeting 3 (omega arith) greeting-length

-- One byte more than two blocks hold, behind two bytes that the buffer has.
abbrev long_payload : Bytes
long_payload = replicate 16381 7

length-encode_message_example :
    length (encode_message long_payload greeting)
    ≡ length greeting + length long_payload + 2 * blocks (length long_payload)
length-encode_message_example = length-encode_message long_payload greeting

three_blocks : blocks 16381 ≡ 3
three_blocks = refl
