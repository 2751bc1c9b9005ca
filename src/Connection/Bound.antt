-- ===== src/Connection/Bound.antt =====
-- A query with bound values from `bind` to its first row: src/connection.rs over everything below it.
use sqlx_monetdb.Prelude.{ℕ, ◌≡◌, List, [], ◌++◌, ok, some, All}
use sqlx_monetdb.Text.{Text, Lacks}
use sqlx_monetdb.Framing.{Bytes}
use sqlx_monetdb.Response.Lines.Replies.{Reply, IsReply}
use sqlx_monetdb.Arguments.{MonetArguments, new_arguments}
use sqlx_monetdb.Arguments.Reader.{tokens}
use sqlx_monetdb.Arguments.Substitution.{template, filled, literals_of, pieces_of}
use sqlx_monetdb.Arguments.Injection.{
  Value, AllValues, all_written, Clean, meant, bind_all, bind_all-ok, tokens-filled,
}
use sqlx_monetdb.Session.{Network}
use sqlx_monetdb.Session.Peers.{Peer, Ready, wire_of, Fits}
use sqlx_monetdb.Session.Queries.{request_of}
use sqlx_monetdb.Connection.{fetch_optional}
use sqlx_monetdb.Connection.Items.{head_of}
use sqlx_monetdb.Connection.Replies.{reply_text, rows_of_reply, fetch_optional-reply}

module _ {W S : Type 0} (net : Network W S) (peer : Peer net) where
  -- On a stream whose write buffer is empty, texts, integers, Booleans and NULLs are bound to a query
  -- without an error, the query is sent as one message in which a reader of standard SQL finds the
  -- query's own tokens and each value alone in its place, and where the server replies with a
  -- well-formed table the caller gets its first row, or none if it has no rows; what follows the reply
  -- is left on the stream. The values fit their types, the placeholders stand outside of literals,
  -- quoted identifiers and comments and not behind a minus sign or a slash, neither a quote nor
  -- another placeholder stands at once behind one, the query holds no other question mark, and the
  -- reply has to fit the fuel.
  pub fetch_optional-bound :
      (fuel : ℕ) (world : W) (stream : S) (first : Text) (bound : List (Value × Text)) (r : Reply)
      (rest sent : Bytes)
      → AllValues bound
      → All (Lacks b'?') (pieces_of first (all_written bound))
      → Clean first bound
      → IsReply r
      → Fits net peer fuel (reply_text r)
      → Ready net peer world stream (wire_of net peer (reply_text r) ++ rest) sent
      → (arguments : MonetArguments) × (sql : Text) × (after : W) × (bind_all new_arguments bound
          ≡ ok arguments)
        × (tokens sql ≡ meant first bound)
        × (fetch_optional net fuel stream
              (template first (all_written bound))
              (ok (some arguments))
              world
            ≡ (ok (head_of (rows_of_reply r)), after))
        × Ready net peer after stream rest (sent ++ request_of sql)
  fetch_optional-bound fuel world stream first bound r rest sent hv hl hc hr hf h =
      let (after, done, left) =
        fetch_optional-reply net peer fuel world stream first (all_written bound) r rest sent hl hr
          hf h in
      (
        record { literals = literals_of (all_written bound) },
        filled first (all_written bound),
        after,
        bind_all-ok bound [] hv,
        tokens-filled first bound hc,
        done,
        left,
      )
