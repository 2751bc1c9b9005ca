-- ===== src/Session/Slices.antt =====
-- The reader of the socket, `read_message` of src/protocol/mod.rs, against the reader of a slice,
-- `decode_message` of src/protocol/framing.rs.
use sqlx_monetdb.Prelude.{
  ℕ, zero, suc, ◌+◌, ◌≤◌, ◌<◌, ◌≡◌, refl, ap, ◌∙◌, sym, subst, [], ◌∷◌, ◌++◌, append_assoc, arith,
  ok, err, Result, Option, none, some, length, length-append, length-take, length-drop, take, drop,
  take-append-drop, ltb, Bool-cases, inl, inr,
}
use sqlx_monetdb.Error.{io_error, unexpected_eof}
use sqlx_monetdb.Framing.{Bytes, decode_header, decode_loop, decode_message}
use sqlx_monetdb.Framing.Decode.{round, again_in, decode_loop_step}
use sqlx_monetdb.Session.Actions.{Stop, failed}
use sqlx_monetdb.Session.{Network, read_payload, read_loop, read_message}

-- The documented behaviour of `read_buffered` on a stream that is closed behind known bytes: it
-- answers with the bytes asked for, or with the error of an early end where there are fewer.
-- `Holds world stream bytes` says that these bytes, and then the end, are still to be read.
pub record Closed {W S : Type 0} (net : Network W S) : Type 1 where
  pub Holds : W → S → Bytes → Type 0
  pub held :
      (world : W) (stream : S) (p q : Bytes)
      → Holds world stream (p ++ q)
      → (after : W) × (net.read_buffered stream (length p) world ≡ (ok p, after))
        × Holds after stream q
  pub ended :
      (world : W) (stream : S) (q : Bytes) (n : ℕ)
      → Holds world stream q
      → length q < n
      → (after : W) × (net.read_buffered stream n world
          ≡ (err (failed (io_error unexpected_eof)), after))

drop_at :
    (before s : Bytes) (a b len : ℕ)
    → drop (length before + 2 + len) (before ++ (a ∷ b ∷ s)) ≡ drop len s
drop_at [] s a b len =
    ap (λ k. drop k (a ∷ b ∷ s)) {x = 0 + 2 + len} {y = suc (suc len)} (omega arith)
drop_at (x ∷ before) s a b len =
    ap (λ k. drop k (x ∷ before ++ (a ∷ b ∷ s))) {x = suc (length before) + 2 + len}
      {y = suc (length before + 2 + len)} (omega arith)
    ∙ drop_at before s a b len

module _ {W S : Type 0} (net : Network W S) (closed : Closed net) where
  -- The reader of the socket agrees with what the reader of the slice says of the input: the same
  -- message with the bytes behind it left, or the error of an early end.
  abbrev pub Agrees : S → Bytes → Option (Bytes × ℕ) → Result Stop Bytes × W → Type 0
  Agrees stream input none r = (after : W) × (r ≡ (err (failed (io_error unexpected_eof)), after))
  Agrees stream input (some (m, n)) r =
      (after : W) × (r ≡ (ok m, after)) × closed.Holds after stream (drop n input)

  short_payload :
      (world : W) (stream : S) (q : Bytes) (len : ℕ)
      → closed.Holds world stream q
      → length q < len
      → (after : W) × (read_payload net stream len world
          ≡ (err (failed (io_error unexpected_eof)), after))
  unfolding read_payload
  short_payload world stream q zero h lt = absurd (omega arith)
  short_payload world stream q (suc len) h lt = closed.ended world stream q (suc len) h lt

  whole_payload :
      (world : W) (stream : S) (p q : Bytes) (len : ℕ)
      → length p ≡ len
      → closed.Holds world stream (p ++ q)
      → (after : W) × (read_payload net stream len world ≡ (ok p, after))
        × closed.Holds after stream q
  unfolding read_payload
  whole_payload world stream [] q zero e h = (world, refl, h)
  whole_payload world stream [] q (suc len) e h = absurd (omega (arith, e))
  whole_payload world stream (b ∷ p) q zero e h = absurd (omega (arith, e))
  whole_payload world stream (b ∷ p) q (suc len) e h =
      let (after, r, left) = closed.held world stream (b ∷ p) q h in
      (after, ap (λ n. net.read_buffered stream n world) (sym e) ∙ r, left)

  loop-Agrees :
      (f fuel : ℕ) (world : W) (stream : S) (before s message : Bytes)
      → length s < f
      → length s < fuel
      → closed.Holds world stream s
      → Agrees stream
          (before ++ s)
          (decode_loop f (before ++ s) (length before) message)
          (read_loop net fuel stream message world)
  unfolding read_loop round
  loop-Agrees zero fuel world stream before s message hf hg h = absurd (omega arith)
  loop-Agrees (suc f) zero world stream before s message hf hg h = absurd (omega arith)
  loop-Agrees (suc f) (suc fuel) world stream before [] message hf hg h =
      let (after, e) = closed.ended world stream [] 2 h (omega arith) in
      rw (decode_loop_step f before [] message) (after, rw (e, read_loop) refl)
  loop-Agrees (suc f) (suc fuel) world stream before (a ∷ []) message hf hg h =
      let (after, e) = closed.ended world stream (a ∷ []) 2 h (omega arith) in
      rw (decode_loop_step f before (a ∷ []) message) (after, rw (e, read_loop) refl)
  loop-Agrees (suc f) (suc fuel) world stream before (a ∷ b ∷ s) message hf hg h =
      let len = (decode_header a b).0 in
      let (w1, e1, h1) = closed.held world stream (a ∷ b ∷ []) s h in
      rw (decode_loop_step f before (a ∷ b ∷ s) message) (elim (Bool-cases (ltb (length s) len)) [
        | inl short ↦
            let (after, e2) = short_payload w1 stream s len h1 (ground (arith, short)) in
            rw short (after, rw (e1, e2, read_loop) refl)
        | inr whole ↦
            let enough : len ≤ length s = ground (arith, whole) in
            let (w2, e2, h2) =
              whole_payload w1 stream (take len s) (drop len s) len
                (omega (arith, length-take len s))
                (subst (closed.Holds w1 stream) (sym (take-append-drop len s)) h1) in
            elim (Bool-cases (decode_header a b).1) [
              | inl last ↦
                  rw (whole, last)
                    (
                      w2,
                      rw (e1, e2, last, read_loop) refl,
                      subst (closed.Holds w2 stream) (sym (drop_at before s a b len)) h2,
                    )
              | inr more ↦
                  let next = before ++ (a ∷ b ∷ take len s) in
                  let same : next ++ drop len s ≡ before ++ (a ∷ b ∷ s) =
                    append_assoc before (a ∷ b ∷ take len s) (drop len s)
                    ∙ ap (λ r. before ++ (a ∷ b ∷ r)) (take-append-drop len s) in
                  let at : length next ≡ length before + 2 + len =
                    omega (arith, length-append before (a ∷ b ∷ take len s), length-take len s) in
                  let ih =
                    loop-Agrees f fuel w2 stream next (drop len s) (message ++ take len s)
                      (omega (arith, length-drop len s)) (omega (arith, length-drop len s)) h2 in
                  let input = before ++ (a ∷ b ∷ s) in
                  let r = read_loop net fuel stream (message ++ take len s) w2 in
                  let here : Agrees stream input
                      (again_in f input (message ++ take len s) (length before + 2 + len)) r =
                    subst
                      (λ k. Agrees stream input (decode_loop f input k (message ++ take len s)) r)
                      {x = length next} {y = length before + 2 + len} at
                      (subst
                        (λ z.
                          Agrees stream z (decode_loop f z (length next) (message ++ take len s)) r)
                        same ih) in
                  rw (whole, more) (rw (e1, e2, more, read_loop) here)
            ]
      ])

  -- On a stream that is closed behind known bytes, the reader of the socket does what the reader of
  -- the slice says of them, with more fuel than there are bytes: where the slice holds a whole
  -- message, the same message is read and exactly the bytes behind it are left, and where it does not,
  -- the read fails with the error of an early end.
  pub read_message-Agrees :
      (fuel : ℕ) (world : W) (stream : S) (input : Bytes)
      → length input < fuel
      → closed.Holds world stream input
      → Agrees stream input (decode_message input) (read_message net fuel stream world)
  unfolding read_message decode_message
  read_message-Agrees fuel world stream input hf h =
      loop-Agrees (suc (length input)) fuel world stream [] input [] (omega arith) hf h
