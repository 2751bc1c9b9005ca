-- ===== src/Session/Answered.antt =====
-- A query against whatever bytes the server sends before it closes the connection,
-- `execute_query` of src/protocol/mod.rs.
use sqlx_monetdb.Prelude.{ℕ, ◌≡◌, ◌<◌, refl, [], Option, none, some, Result, ok, err, drop, length}
use sqlx_monetdb.Text.{Text}
use sqlx_monetdb.Text.Utf8.{from_utf8}
use sqlx_monetdb.Error.{protocol, not_utf8, from_monet_error, io_error, unexpected_eof}
use sqlx_monetdb.Framing.{Bytes, decode_message, encode_message}
use sqlx_monetdb.Response.{QueryResponse, encode_query}
use sqlx_monetdb.Response.Lines.{parse_response}
use sqlx_monetdb.Session.Actions.{Stop, failed, continue, lift}
use sqlx_monetdb.Session.{
  Network, send, write_message, text_of, read_text_message, read_message, response_of,
  execute_query,
}
use sqlx_monetdb.Session.Queries.{outcome_of, response_of_lem}
use sqlx_monetdb.Session.Slices.{Closed, Agrees, read_message-Agrees}

-- What a query comes to by the bytes that answer it, without a stream or a state.
abbrev pub text_outcome : Bytes → Option Text → Result Stop QueryResponse
text_outcome message none = err (failed (from_monet_error (protocol (not_utf8 message))))
text_outcome message (some text) = outcome_of (parse_response text)

abbrev pub answer_outcome : Option (Bytes × ℕ) → Result Stop QueryResponse
answer_outcome none = err (failed (io_error unexpected_eof))
answer_outcome (some (message, n)) = text_outcome message (from_utf8 message)

-- A socket that the peer has closed behind known bytes and that still takes what is written.
pub record HalfClosed {W S : Type 0} (net : Network W S) : Type 1 where
  pub closed : Closed net
  pub sends :
      (world : W) (stream : S) (payload incoming : Bytes)
      → closed.Holds world stream incoming
      → (after : W) × (net.flush stream (net.put_slice stream payload world) ≡ (ok tt, after))
        × closed.Holds after stream incoming

module _ {W S : Type 0} (net : Network W S) (half : HalfClosed net) where
  -- What is left to read behind an answer.
  abbrev pub Left : W → S → Bytes → Option (Bytes × ℕ) → Type 0
  Left after stream input none = Unit
  Left after stream input (some (message, n)) = half.closed.Holds after stream (drop n input)

  by_text :
      (message : Bytes) (decoded : Option Text) (world : W)
      → continue
          (lift (text_of net decoded message) world)
          (λ s. response_of net (parse_response s))
        ≡ (text_outcome message decoded, world)
  by_text message none world = refl
  by_text message (some text) world = response_of_lem net (parse_response text) world

  read-answer :
      (fuel : ℕ) (world : W) (stream : S) (input : Bytes) (decoded : Option (Bytes × ℕ))
      → Agrees net half.closed stream input decoded (read_message net fuel stream world)
      → (after : W) × (continue
            (read_text_message net fuel stream world)
            (λ s. response_of net (parse_response s))
          ≡ (answer_outcome decoded, after))
        × Left after stream input decoded
  unfolding read_text_message
  read-answer fuel world stream input none (after, e) = (after, rw e refl, tt)
  read-answer fuel world stream input (some (message, n)) (after, e, left) =
      (after, rw e (by_text message (from_utf8 message) after), left)

  -- Whatever bytes a server sends before it closes the connection, a query comes to an outcome, and
  -- that outcome is a function of these bytes: the error of an early end where they hold no whole
  -- message, an error with the message where it is not UTF-8, and otherwise what the parser of
  -- responses makes of its text. Exactly the bytes behind the message are left. The fuel has to be
  -- more than the number of the bytes.
  pub execute_query-answer_outcome :
      (fuel : ℕ) (world : W) (stream : S) (sql : Text) (input : Bytes)
      → length input < fuel
      → half.closed.Holds world stream input
      → (after : W) × (execute_query net fuel stream sql world
          ≡ (answer_outcome (decode_message input), after))
        × Left after stream input (decode_message input)
  unfolding execute_query write_message send
  execute_query-answer_outcome fuel world stream sql input hf h =
      let (w1, written, h1) =
        half.sends world stream (encode_message (encode_query sql) []) input h in
      let (after, read, left) =
        read-answer fuel w1 stream input (decode_message input)
          (read_message-Agrees net half.closed fuel w1 stream input hf h1) in
      (after, rw written read, left)
