-- ===== src/Session/Messages.antt =====
-- Messages read off the socket block by block, `read_message` of src/protocol/mod.rs.
use sqlx_monetdb.Prelude.{
  ℕ, zero, suc, ◌^◌, ◌≤◌, ◌<◌, ◌≡◌, refl, ap, ◌∙◌, sym, subst, Bool, true, false, [], ◌∷◌, ◌++◌,
  append_assoc, arith, ok, length, length-append, if◌then◌else◌,
}
use sqlx_monetdb.Framing.{Bytes, encode_header, header_bytes}
use sqlx_monetdb.Framing.Header.{decode_header-encode_header}
use sqlx_monetdb.Framing.Frames.{Frames, last, more}
use sqlx_monetdb.Session.Actions.{Io}
use sqlx_monetdb.Session.{Network, read_payload, read_loop, read_message}

-- The documented behaviour of `read_buffered`: where the bytes asked for are on their way, it
-- answers with exactly these, and those behind them are still to come. `Coming world stream bytes`
-- says that the stream will deliver these bytes.
pub record Delivers {W S : Type 0} (net : Network W S) : Type 1 where
  pub Coming : W → S → Bytes → Type 0
  pub delivered :
      (world : W) (stream : S) (p q : Bytes)
      → Coming world stream (p ++ q)
      → (after : W) × (net.read_buffered stream (length p) world ≡ (ok p, after))
        × Coming after stream q

module _ {W S : Type 0} (net : Network W S) (delivers : Delivers net) where
  payload_delivered :
      (world : W) (stream : S) (p q : Bytes)
      → delivers.Coming world stream (p ++ q)
      → (after : W) × (read_payload net stream (length p) world ≡ (ok p, after))
        × delivers.Coming after stream q
  unfolding read_payload
  payload_delivered world stream [] q h = (world, refl, h)
  payload_delivered world stream (b ∷ p) q h = delivers.delivered world stream (b ∷ p) q h

  -- One block is read.
  abbrev block_then : (fuel : ℕ) → S → Bytes → Bytes → Bool → Io W Bytes
  block_then fuel stream message payload is_last world =
      (if is_last
          then (λ w. (ok (message ++ payload), w))
          else read_loop net fuel stream (message ++ payload))
        world

  block :
      (fuel : ℕ) (world : W) (stream : S) (message p q : Bytes) (is_last : Bool)
      → length p < 2 ^ 15
      → delivers.Coming world stream (header_bytes (encode_header (length p) is_last) ++ (p ++ q))
      → (after : W) × (read_loop net (suc fuel) stream message world
          ≡ block_then fuel stream message p is_last after)
        × delivers.Coming after stream q
  unfolding read_loop
  block fuel world stream message p q is_last hp h =
      let header = header_bytes (encode_header (length p) is_last) in
      let (w1, e1, h1) = delivers.delivered world stream header (p ++ q) h in
      let (w2, e2, h2) = payload_delivered w1 stream p q h1 in
      let (eh, _, _) = decode_header-encode_header (length p) is_last hp in
      (w2, rw (e1, eh, e2, read_loop) refl, h2)

  loop-Frames :
      {limit : ℕ} {m v : Bytes}
      → Frames limit m v
      → limit < 2 ^ 15
      → (fuel : ℕ) (world : W) (stream : S) (message rest : Bytes) → length v ≤ fuel
      → delivers.Coming world stream (v ++ rest)
      → (after : W) × (read_loop net fuel stream message world ≡ (ok (message ++ m), after))
        × delivers.Coming after stream rest
  loop-Frames (last p v hp e) hl zero world stream message rest hf h = absurd (
      omega
        (arith, hf, ap length e, length-append (header_bytes (encode_header (length p) true)) p))
  loop-Frames (last p v hp e) hl (suc fuel) world stream message rest hf h =
      block fuel world stream message p rest true (omega arith) (
        subst (delivers.Coming world stream)
          (ap (λ z. z ++ rest) e
            ∙ append_assoc (header_bytes (encode_header (length p) true)) p rest)
          h)
  loop-Frames (more p q m' v' v hp f em e) hl zero world stream message rest hf h = absurd (
      omega (
        arith,
        hf,
        ap length e,
        length-append (header_bytes (encode_header (length p) false)) (p ++ v'),
      ))
  loop-Frames (more p q m' v' v hp f em e) hl (suc fuel) world stream message rest hf h =
      let header = header_bytes (encode_header (length p) false) in
      let (w1, e1, h1) = block fuel world stream message p (v' ++ rest) false (omega arith) (
        subst (delivers.Coming world stream)
          (ap (λ z. z ++ rest) e
            ∙ append_assoc header (p ++ v') rest
            ∙ ap (λ z. header ++ z) (append_assoc p v' rest))
          h) in
      let (w2, e2, h2) =
        loop-Frames f hl fuel w1 stream (message ++ p) rest
          (omega (arith, hf, ap length e, length-append header (p ++ v'), length-append p v')) h1 in
      (
        w2,
        e1 ∙ e2 ∙ ap (λ z. (ok z, w2)) (append_assoc message p q ∙ ap (λ z. message ++ z) (sym em)),
        h2,
      )

  -- A framed message that the network delivers, in blocks of less than 2 ^ 15 bytes each, is read
  -- whole with as much fuel as it has bytes, and what follows it is left on the stream.
  pub read_message-Frames :
      {limit : ℕ} {m v : Bytes} (fuel : ℕ) (world : W) (stream : S) (rest : Bytes)
      → Frames limit m v
      → limit < 2 ^ 15
      → length v ≤ fuel
      → delivers.Coming world stream (v ++ rest)
      → (after : W) × (read_message net fuel stream world ≡ (ok m, after))
        × delivers.Coming after stream rest
  unfolding read_message
  read_message-Frames fuel world stream rest f hl hf h =
      loop-Frames f hl fuel world stream [] rest hf h
