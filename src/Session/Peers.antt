-- ===== src/Session/Peers.antt =====
-- What the driver relies on where a peer answers: the documented behaviour of the buffered socket,
-- with the bytes that come, those that wait in the write buffer and those that have gone out.
use sqlx_monetdb.Prelude.{ℕ, ◌≤◌, ◌≡◌, ap, ◌∙◌, subst, [], ◌++◌, ok, length, arith, All}
use sqlx_monetdb.Text.{Text}
use sqlx_monetdb.Text.Utf8.{as_bytes, from_utf8, from_utf8-as_bytes, IsScalar}
use sqlx_monetdb.Framing.{Bytes, max_block_payload, encode_message}
use sqlx_monetdb.Framing.Encode.{encode_message-Frames}
use sqlx_monetdb.Session.Actions.{continue, lift}
use sqlx_monetdb.Session.{Network, send, write_message, text_of, read_text_message}
use sqlx_monetdb.Session.Messages.{Delivers, read_message-Frames}

-- `Talks world stream incoming unsent sent`: the stream will deliver `incoming`, `unsent` waits in
-- its write buffer, and `sent` has gone out.
pub record Peer {W S : Type 0} (net : Network W S) : Type 1 where
  pub Talks : W → S → Bytes → Bytes → Bytes → Type 0
  pub reads :
      (world : W) (stream : S) (p q unsent sent : Bytes)
      → Talks world stream (p ++ q) unsent sent
      → (after : W) × (net.read_buffered stream (length p) world ≡ (ok p, after))
        × Talks after stream q unsent sent
  pub puts :
      (world : W) (stream : S) (payload incoming unsent sent : Bytes)
      → Talks world stream incoming unsent sent
      → Talks (net.put_slice stream payload world) stream incoming (unsent ++ payload) sent
  pub flushes :
      (world : W) (stream : S) (incoming unsent sent : Bytes)
      → Talks world stream incoming unsent sent
      → (after : W) × (net.flush stream world ≡ (ok tt, after))
        × Talks after stream incoming [] (sent ++ unsent)

module _ {W S : Type 0} (net : Network W S) (peer : Peer net) where
  abbrev delivers_of : Bytes → Bytes → Delivers net
  delivers_of unsent sent = record {
    Coming = λ world stream incoming. peer.Talks world stream incoming unsent sent;
    delivered = λ world stream p q h. peer.reads world stream p q unsent sent h;
  }

  -- Nothing waits in the write buffer.
  abbrev pub Ready : W → S → Bytes → Bytes → Type 0
  Ready world stream incoming sent = peer.Talks world stream incoming [] sent

  pub send-Ready :
      (world : W) (stream : S) (payload incoming sent : Bytes)
      → Ready world stream incoming sent
      → (after : W) × (send net stream payload world ≡ (ok tt, after))
        × Ready after stream incoming (sent ++ payload)
  unfolding send
  send-Ready world stream payload incoming sent h =
      peer.flushes (net.put_slice stream payload world) stream incoming payload sent
        (peer.puts world stream payload incoming [] sent h)

  pub write_message-Ready :
      (world : W) (stream : S) (payload incoming sent : Bytes)
      → Ready world stream incoming sent
      → (after : W) × (write_message net stream payload world ≡ (ok tt, after))
        × Ready after stream incoming (sent ++ encode_message payload [])
  unfolding write_message
  write_message-Ready world stream payload incoming sent h =
      send-Ready world stream (encode_message payload []) incoming sent h

  -- The wire bytes of a text.
  abbrev pub wire_of : Text → Bytes
  wire_of text = encode_message (as_bytes text) []

  -- A text that can be sent and for whose wire bytes there is fuel.
  abbrev pub Fits : ℕ → Text → Type 0
  Fits fuel text = All IsScalar text × (length (wire_of text) ≤ fuel)

  pub read_text_message-Ready :
      (fuel : ℕ) (world : W) (stream : S) (text : Text) (rest sent : Bytes)
      → Fits fuel text
      → Ready world stream (wire_of text ++ rest) sent
      → (after : W) × (read_text_message net fuel stream world ≡ (ok text, after))
        × Ready after stream rest sent
  unfolding read_text_message
  read_text_message-Ready fuel world stream text rest sent (hs, hf) h =
      let (v, e, f) = encode_message-Frames (as_bytes text) [] in
      let (after, read, left) =
        read_message-Frames net (delivers_of [] sent) {limit = max_block_payload}
          {m = as_bytes text} {v = v} fuel world stream rest f (omega arith)
          (omega (arith, hf, ap length e))
          (subst (λ z. Ready world stream z sent) (ap (λ z. z ++ rest) e) h) in
      (
        after,
        ap (λ r. continue r (λ bytes. lift (text_of net (from_utf8 bytes) bytes))) read
            ∙ ap (λ o. lift (text_of net o (as_bytes text)) after) (from_utf8-as_bytes text hs),
        left,
      )
