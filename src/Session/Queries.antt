-- ===== src/Session/Queries.antt =====
-- Queries and their answers, `execute_query` of src/protocol/mod.rs with the framing, the decoding
-- of text and the parser of responses together.
use sqlx_monetdb.Prelude.{
  ℕ, ◌≡◌, refl, ap, ◌∙◌, sym, subst, List, [], ◌∷◌, ◌++◌, append_assoc, append-nil, Result, ok, err,
  map, All,
}
use sqlx_monetdb.Text.{Text}
use sqlx_monetdb.Framing.{Bytes, encode_message}
use sqlx_monetdb.Response.{QueryResponse, ResponseError, encode_query, from_response_error}
use sqlx_monetdb.Response.Lines.{parse_response}
use sqlx_monetdb.Session.Actions.{Stop, failed, continue}
use sqlx_monetdb.Session.{Network, read_text_message, response_of, execute_query}
use sqlx_monetdb.Session.Peers.{
  Peer, Ready, wire_of, Fits, write_message-Ready, read_text_message-Ready,
}

-- The wire bytes of a request.
abbrev pub request_of : Text → Bytes
request_of sql = encode_message (encode_query sql) []

-- What a query comes to whose answer the parser reads so.
abbrev pub outcome_of : Result ResponseError QueryResponse → Result Stop QueryResponse
outcome_of (ok response) = ok response
outcome_of (err e) = err (failed (from_response_error e))

pub response_of_lem :
    {W S : Type 0} (net : Network W S) (r : Result ResponseError QueryResponse) (world : W)
    → response_of net r world ≡ (outcome_of r, world)
response_of_lem net (ok response) world = refl
response_of_lem net (err e) world = refl

module _ {W S : Type 0} (net : Network W S) (peer : Peer net) where
  -- On a stream whose write buffer is empty, a query sends exactly its request, and an answer, a
  -- text of Unicode scalar values that comes as one encoded message, gives exactly what the parser
  -- makes of it, a response or an error, with as much fuel as the answer has bytes. The write buffer
  -- is empty again, and what follows the answer is still to come.
  pub execute_query-Ready :
      (fuel : ℕ) (world : W) (stream : S) (sql text : Text) (rest sent : Bytes)
      → Fits net peer fuel text
      → Ready net peer world stream (wire_of net peer text ++ rest) sent
      → (after : W) × (execute_query net fuel stream sql world
          ≡ response_of net (parse_response text) after)
        × Ready net peer after stream rest (sent ++ request_of sql)
  unfolding execute_query
  execute_query-Ready fuel world stream sql text rest sent ht h =
      let (w1, written, h1) =
        write_message-Ready net peer world stream (encode_query sql) _ sent h in
      let (after, read, left) =
        read_text_message-Ready net peer fuel w1 stream text rest (sent ++ request_of sql) ht h1 in
      (
        after,
        ap
              (λ r. continue r (λ _. λ w.
                continue (read_text_message net fuel stream w)
                  (λ s. response_of net (parse_response s))))
              written
            ∙ ap (λ r. continue r (λ s. response_of net (parse_response s))) read,
        left,
      )

  -- Queries one after another on one stream, whatever each comes to.
  pub execute_all : ℕ → S → List Text → W → List (Result Stop QueryResponse) × W
  execute_all fuel stream [] world = ([], world)
  execute_all fuel stream (sql ∷ sqls) world =
      let (r, w1) = execute_query net fuel stream sql world in
      let (rs, after) = execute_all fuel stream sqls w1 in (r ∷ rs, after)

  abbrev pub answers_wire : List (Text × Text) → Bytes
  answers_wire [] = []
  answers_wire ((sql, text) ∷ qs) = wire_of net peer text ++ answers_wire qs

  abbrev pub requests_wire : List (Text × Text) → Bytes
  requests_wire [] = []
  requests_wire ((sql, text) ∷ qs) = request_of sql ++ requests_wire qs

  -- Queries one after another stay in step with their answers: each is given the outcome of its own
  -- answer, also behind answers that are errors or cannot be parsed, exactly the requests are sent,
  -- in their order, and nothing of the answers is left over.
  pub execute_all-Ready :
      (fuel : ℕ) (world : W) (stream : S) (qs : List (Text × Text)) (rest sent : Bytes)
      → All (λ q. Fits net peer fuel q.1) qs
      → Ready net peer world stream (answers_wire qs ++ rest) sent
      → (after : W) × (execute_all fuel stream (map (λ q. q.0) qs) world
          ≡ (map (λ q. outcome_of (parse_response q.1)) qs, after))
        × Ready net peer after stream rest (sent ++ requests_wire qs)
  unfolding execute_all
  execute_all-Ready fuel world stream [] rest sent hs h =
      (world, refl, subst (Ready net peer world stream rest) (sym (append-nil sent)) h)
  execute_all-Ready fuel world stream ((sql, text) ∷ qs) rest sent (ht, hs) h =
      let (w1, done, h1) =
        execute_query-Ready fuel world stream sql text (answers_wire qs ++ rest) sent ht (
          subst (λ z. Ready net peer world stream z sent)
            (append_assoc (wire_of net peer text) (answers_wire qs) rest) h) in
      let (after, all, h2) =
        execute_all-Ready fuel w1 stream qs rest (sent ++ request_of sql) hs h1 in
      (
        after,
        rw (done, response_of_lem net (parse_response text) w1, all) refl,
        subst (Ready net peer after stream rest)
            (append_assoc sent (request_of sql) (requests_wire qs)) h2,
      )
