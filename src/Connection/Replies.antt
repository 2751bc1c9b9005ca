-- ===== src/Connection/Replies.antt =====
-- A query with bound arguments from its text to its first row, src/connection.rs with everything
-- below it.
use sqlx_monetdb.Prelude.{ℕ, ◌≡◌, ap, ◌∙◌, List, ◌++◌, ok, some, map, All}
use sqlx_monetdb.Text.{Text, Lacks}
use sqlx_monetdb.Text.Split.{join}
use sqlx_monetdb.Framing.{Bytes}
use sqlx_monetdb.Response.{table}
use sqlx_monetdb.Response.Lines.Replies.{Reply, IsReply, render_lines, table_of_reply}
use sqlx_monetdb.Response.Lines.Select.{parse_response-render_lines}
use sqlx_monetdb.Arguments.Substitution.{
  template, filled, literals_of, pieces_of, substitute_into-template,
}
use sqlx_monetdb.Rows.{MonetRow, columns_from}
use sqlx_monetdb.Session.{Network, response_of}
use sqlx_monetdb.Session.Actions.{continue}
use sqlx_monetdb.Session.Peers.{Peer, Ready, wire_of, Fits}
use sqlx_monetdb.Session.Queries.{request_of, execute_query-Ready}
use sqlx_monetdb.Connection.{fetch_many, fetch_first, fetch_optional, fetch_outcome}
use sqlx_monetdb.Connection.Items.{head_of, fetch_first-items_of, run_query-answered}

-- The text of a reply.
abbrev pub reply_text : Reply → Text
reply_text r = join (render_lines r) b'\n'

-- The rows that a reply stands for.
abbrev pub rows_of_reply : Reply → List MonetRow
rows_of_reply r =
    map (λ values. record { columns = columns_from 0 (table_of_reply r).columns; values = values })
      (table_of_reply r).rows

module _ {W S : Type 0} (net : Network W S) (peer : Peer net) where
  -- On a stream whose write buffer is empty, a query with bound literals, to which the server
  -- replies with a well-formed table, is sent as one message with every literal in the place of its
  -- `?`, and the caller gets the table's first row, or none if it has no rows; what follows the reply
  -- is left on the stream. The pieces of the query hold no other question mark, and the reply has to
  -- fit the fuel.
  pub fetch_optional-reply :
      (fuel : ℕ) (world : W) (stream : S) (first : Text) (bound : List (Text × Text)) (r : Reply)
      (rest sent : Bytes)
      → All (Lacks b'?') (pieces_of first bound)
      → IsReply r
      → Fits net peer fuel (reply_text r)
      → Ready net peer world stream (wire_of net peer (reply_text r) ++ rest) sent
      → (after : W) × (fetch_optional net fuel stream
            (template first bound)
            (ok (some (record { literals = literals_of bound })))
            world
          ≡ (ok (head_of (rows_of_reply r)), after))
        × Ready net peer after stream rest (sent ++ request_of (filled first bound))
  unfolding fetch_optional fetch_many
  fetch_optional-reply fuel world stream first bound r rest sent hl hr hf h =
      let (after, done, left) =
        execute_query-Ready net peer fuel world stream (filled first bound) (reply_text r) rest sent
          hf h in
      (
        after,
        ap (λ o. continue o (λ items. fetch_outcome (fetch_first items)))
              (run_query-answered net fuel stream (template first bound) (filled first bound)
                (record { literals = literals_of bound }) (table (table_of_reply r)) world after
                (substitute_into-template first bound hl)
                (done ∙ ap (λ p. response_of net p after) (parse_response-render_lines r hr)))
            ∙ ap (λ o. fetch_outcome o after) (fetch_first-items_of (table_of_reply r)),
        left,
      )
