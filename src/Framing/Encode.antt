-- ===== src/Framing/Encode.antt =====
-- `encode_message` of src/protocol/framing.rs writes a framed message behind the buffer.
use sqlx_monetdb.Prelude.{
  ℕ, zero, suc, ◌≤◌, ◌≡◌, refl, sym, ap, subst, ◌∙◌, false, List, [], ◌∷◌, ◌++◌, append_assoc,
  append-nil, arith, length, take, drop, length-take, length-drop, take-append-drop,
}
use sqlx_monetdb.Framing.{
  Bytes, max_block_payload, encode_header, header_bytes, chunks, write_chunks, encode_message,
}
use sqlx_monetdb.Framing.Frames.{Frames, last, more}

-- The buffer's old bytes stay in front.
write_chunks-append :
    (cs : List Bytes) (out : Bytes) → write_chunks cs out ≡ out ++ write_chunks cs []
unfolding write_chunks
write_chunks-append [] out = sym (append-nil out)
write_chunks-append (c ∷ []) out = append_assoc out _ c
write_chunks-append (c ∷ d ∷ cs) out =
    let h = header_bytes (encode_header (length c) false) in
    write_chunks-append (d ∷ cs) ((out ++ h) ++ c)
    ∙ ap (λ r. r ++ write_chunks (d ∷ cs) []) (append_assoc out h c)
    ∙ append_assoc out (h ++ c) (write_chunks (d ∷ cs) [])
    ∙ ap (λ r. out ++ r) (sym (write_chunks-append (d ∷ cs) (h ++ c)))

-- The blocks for a first chunk `p` and what is left behind it, `r`.
chunks-Frames :
    (fuel : ℕ) (p r : Bytes)
    → length p ≤ max_block_payload
    → length r ≤ fuel
    → Frames max_block_payload (p ++ r) (write_chunks (p ∷ chunks fuel r) [])
unfolding chunks write_chunks
chunks-Frames zero p [] hp h = last _ _ (rw append-nil hp) (rw append-nil)
chunks-Frames (suc fuel) p [] hp h = last _ _ (rw append-nil hp) (rw append-nil)
chunks-Frames zero p (b ∷ r) hp h = absurd (omega arith)
chunks-Frames (suc fuel) p (b ∷ r) hp h =
    let t = take max_block_payload (b ∷ r) in
    let d = drop max_block_payload (b ∷ r) in
    let ht : length t ≤ max_block_payload = omega (arith, length-take max_block_payload (b ∷ r)) in
    let hd : length d ≤ fuel = omega (arith, length-drop max_block_payload (b ∷ r)) in
    more p (t ++ d) _ _ _ hp (chunks-Frames fuel t d ht hd)
      (ap (λ s. p ++ s) (sym (take-append-drop max_block_payload (b ∷ r))))
      (write_chunks-append (t ∷ chunks fuel d) _)

first_chunk :
    (b : ℕ) (payload : Bytes)
    → Frames max_block_payload
        (b ∷ payload)
        (write_chunks (chunks (length (b ∷ payload)) (b ∷ payload)) [])
unfolding chunks
first_chunk b payload =
    let t = take max_block_payload (b ∷ payload) in
    let d = drop max_block_payload (b ∷ payload) in
    subst (λ m. Frames max_block_payload m (write_chunks (t ∷ chunks (length payload) d) []))
      (take-append-drop max_block_payload (b ∷ payload))
      (chunks-Frames (length payload) t d
        (omega (arith, length-take max_block_payload (b ∷ payload)))
        (omega (arith, length-drop max_block_payload (b ∷ payload))))

-- The wire bytes of a message are framed blocks of at most `max_block_payload` bytes each, an
-- empty message included, and they are appended to the buffer, whose old bytes stay in front.
pub encode_message-Frames :
    (payload out : Bytes)
    → (w : Bytes) × (encode_message payload out ≡ out ++ w) × Frames max_block_payload payload w
unfolding encode_message
encode_message-Frames [] out = (_, refl, last _ _ (omega arith) refl)
encode_message-Frames (b ∷ payload) out = (
  write_chunks (chunks (length (b ∷ payload)) (b ∷ payload)) [],
  write_chunks-append (chunks (length (b ∷ payload)) (b ∷ payload)) out,
  first_chunk b payload,
)
