-- ===== src/Connection/Panics.antt =====
-- What can panic in the queries of src/connection.rs: nothing, over a socket that does not.
use sqlx_monetdb.Prelude.{ℕ, Option, Result, ok, err}
use sqlx_monetdb.Text.{Text}
use sqlx_monetdb.Error.{Message, SqlxError}
use sqlx_monetdb.Arguments.{MonetArguments}
use sqlx_monetdb.Response.{QueryResponse}
use sqlx_monetdb.Rows.{MonetRow}
use sqlx_monetdb.Session.{Network, execute_query}
use sqlx_monetdb.Session.Actions.{Stop, failed, panicked, unfinished}
use sqlx_monetdb.Session.Panics.{Quiet, Calm, CalmNetwork, continue-Quiet, execute_query-Calm}
use sqlx_monetdb.Connection.{
  items_of_outcome, run_text, run_query, sql_text_of, fetch_many, fetch_first, fetch_outcome,
  fetch_optional,
}

fetch_outcome-Calm :
    {W : Type 0} (r : Result SqlxError (Option MonetRow)) → Calm {W = W} (fetch_outcome r)
unfolding fetch_outcome
fetch_outcome-Calm (ok row) world = tt
fetch_outcome-Calm (err e) world = tt

module _ {W S : Type 0} (net : Network W S) (calm : CalmNetwork net) (fuel : ℕ) (stream : S) where
  items_of_outcome-Quiet :
      (r : Result Stop QueryResponse × W) → Quiet r.0 → Quiet (items_of_outcome net fuel stream r).0
  unfolding items_of_outcome
  items_of_outcome-Quiet (ok response, world) h = tt
  items_of_outcome-Quiet (err (failed e), world) h = tt
  items_of_outcome-Quiet (err panicked, world) h = h
  items_of_outcome-Quiet (err unfinished, world) h = tt

  run_text-Calm : (text : Result SqlxError Text) → Calm (run_text net fuel stream text)
  unfolding run_text
  run_text-Calm (err e) world = tt
  run_text-Calm (ok sql_text) world =
      items_of_outcome-Quiet (execute_query net fuel stream sql_text world)
        (execute_query-Calm net calm fuel stream sql_text world)

  run_query-Calm :
      (sql : Text) (arguments : Result Message (Option MonetArguments))
      → Calm (run_query net fuel stream sql arguments)
  unfolding run_query
  run_query-Calm sql (err e) world = tt
  run_query-Calm sql (ok arguments) world = run_text-Calm (sql_text_of sql arguments) world

  -- Whatever the query, its arguments and the bytes that the server sends, a query and the fetching
  -- of its first row do not panic, over a socket whose own operations do not and whose reads answer
  -- with exactly the bytes asked for, or fail.
  pub fetch_optional-Calm :
      (sql : Text) (arguments : Result Message (Option MonetArguments))
      → Calm (fetch_many net fuel stream sql arguments)
        × Calm (fetch_optional net fuel stream sql arguments)
  unfolding fetch_many fetch_optional
  fetch_optional-Calm sql arguments = (
    run_query-Calm sql arguments,
    λ world.
        continue-Quiet (run_query net fuel stream sql arguments world)
          (λ items. fetch_outcome (fetch_first items)) (run_query-Calm sql arguments world)
          (λ items. fetch_outcome-Calm (fetch_first items)),
  )
