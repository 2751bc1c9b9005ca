-- ===== src/Framing/RoundTrip.antt =====
-- Encoding and decoding of src/protocol/framing.rs together: whole, cut and trailing messages.
use sqlx_monetdb.Prelude.{
  ℕ, ◌^◌, ◌≤◌, ◌<◌, ◌≡◌, sym, ap, subst, ◌∙◌, true, false, [], ◌++◌, append_assoc, append-nil,
  arith, length, take, drop, length-take, take-append-drop, All-append, none, Option, some,
  length-append, Option-cases, inl, inr, All-append_inv, All-take,
}
use sqlx_monetdb.Framing.{Bytes, max_block_payload, encode_message, decode_message}
use sqlx_monetdb.Framing.Frames.{Frames, last, more}
use sqlx_monetdb.Framing.Header.{decode_header-encode_header}
use sqlx_monetdb.Framing.Encode.{encode_message-Frames}
use sqlx_monetdb.Framing.Decode.{decode_message-Frames}
use sqlx_monetdb.Framing.Sound.{AreBytes, decode_message_sound}

-- What `encode_message` appends to a buffer is what it writes to an empty one.
encoded-Frames : (payload : Bytes) → Frames max_block_payload payload (encode_message payload [])
encoded-Frames payload =
    let (w, e, f) = encode_message-Frames payload [] in
    subst (λ z. Frames max_block_payload payload z) (sym e) f

-- A message is read back from its encoding whatever bytes follow it, and exactly the bytes of the
-- encoding are consumed.
pub decode_message-encode_message :
    (payload rest : Bytes)
    → decode_message (encode_message payload [] ++ rest)
      ≡ some (payload, length (encode_message payload []))
decode_message-encode_message payload rest =
    decode_message-Frames rest (encoded-Frames payload) (omega arith)

-- More bytes behind a message that has been read from bytes below 256 change neither the message
-- nor the count, and the count is at most the number of bytes that were there.
pub decode_message-append :
    (input extra : Bytes) {m : Bytes} {n : ℕ}
    → AreBytes input
    → decode_message input ≡ some (m, n)
    → (decode_message (input ++ extra) ≡ some (m, n)) × (n ≤ length input)
decode_message-append input extra {m} {n} hs h =
    let (w, rest, split, f, en) = decode_message_sound input hs h in
    (
      ap (λ z. decode_message (z ++ extra)) split
          ∙ ap decode_message (append_assoc w rest extra)
          ∙ decode_message-Frames (rest ++ extra) f (omega arith)
          ∙ ap (λ k. some (m, k)) (sym en),
      omega (arith, en, ap length split, length-append w rest),
    )

Frames-AreBytes :
    {limit : ℕ} {m w : Bytes} → Frames limit m w → limit < 2 ^ 15 → AreBytes m → AreBytes w
Frames-AreBytes (last p w hp e) hl hm =
    let (_, low, high) = decode_header-encode_header (length p) true (omega arith) in
    subst AreBytes (sym e) (low, (high, hm))
Frames-AreBytes (more p q m v w hp f em e) hl hm =
    let (_, low, high) = decode_header-encode_header (length p) false (omega arith) in
    let (hp', hq) = All-append_inv _ p q (subst AreBytes em hm) in
    subst AreBytes (sym e) (low, (high, All-append _ p v hp' (Frames-AreBytes f hl hq)))

-- Of the encoding of a payload of bytes below 256 that is cut short, nothing is returned: the
-- caller has to read on.
pub decode_message-take :
    (payload : Bytes) (k : ℕ)
    → AreBytes payload
    → k < length (encode_message payload [])
    → decode_message (take k (encode_message payload [])) ≡ none
decode_message-take payload k hs h =
    let w = encode_message payload [] in
    let front = take k w in
    let hw = Frames-AreBytes (encoded-Frames payload) (omega arith) hs in
    elim (Option-cases (decode_message front)) [
      | inl none_left ↦ none_left
      | inr ((m, n), found) ↦
          let (whole, le) =
            decode_message-append front (drop k w) {m = m} {n = n} (All-take _ k w hw) found in
          let same : ◌≡◌ {A = Option (Bytes × ℕ)} (some (m, n)) (some (payload, length w)) =
            sym whole
            ∙ ap decode_message (take-append-drop k w ∙ sym (append-nil w))
            ∙ decode_message-encode_message payload [] in
          absurd (ground (arith, length-take k w))
    ]
