-- ===== src/Connection.antt =====
-- A connection and the queries on it, src/connection.rs. A connection is its stream, and the stream
-- of the items of a query, which are collected before the first is handed out, is their list;
-- `take_arguments` and `sql` of the query are the arguments of the functions here.
pub mod Items
pub mod Replies
pub mod Bound
pub mod Panics
pub mod Tests
pub mod ServerTests
pub mod Examples
use sqlx_monetdb.Prelude.{
  ℕ, Bool, false, List, [], ◌∷◌, ◌++◌, Option, none, some, Result, ok, err, ◌⊎◌, inl, inr, map,
}
use sqlx_monetdb.Text.{Text, codes}
use sqlx_monetdb.Error.{Message, SqlxError, encode_error}
use sqlx_monetdb.Response.{TableResult, QueryResponse, table, update, schema, transaction, success}
use sqlx_monetdb.Arguments.{MonetArguments, substitute_into}
use sqlx_monetdb.Rows.{MonetRow, MonetQueryResult, from_table_result, default_result}
use sqlx_monetdb.Session.{Network, execute_query}
use sqlx_monetdb.Session.Actions.{Io, Stop, failed, panicked, unfinished, stop, ◌>>=◌, ◌>>◌}
use sqlx_monetdb.Values.{MonetTypeInfo}

-- `Result<Either<MonetQueryResult, MonetRow>, Error>`
abbrev pub Item : Type 0
Item = Result SqlxError (MonetQueryResult ⊎ MonetRow)

-- The items of a response: the rows of a table and then the count.
unfoldable pub items_of : QueryResponse → List Item
items_of (table t) =
    map (λ row. ok (inr row)) (from_table_result t)
    ++ ok (inl (record { rows_affected = t.row_count })) ∷ []
items_of (update affected last_insert_id) = ok (inl (record { rows_affected = affected })) ∷ []
items_of schema = ok (inl default_result) ∷ []
items_of (transaction auto_commit) = ok (inl default_result) ∷ []
items_of success = ok (inl default_result) ∷ []

-- The text that is sent: with arguments bound, the substituted query, and otherwise the query.
unfoldable pub sql_text_of : Text → Option MonetArguments → Result SqlxError Text
sql_text_of sql (some arguments) = substitute_into arguments sql
sql_text_of sql none = ok sql

module _ {W S : Type 0} (net : Network W S) (fuel : ℕ) (stream : S) where
  -- An error of the query is an item; a panic or a loop without end is none.
  items_of_outcome : Result Stop QueryResponse × W → Result Stop (List Item) × W
  items_of_outcome (ok response, world) = (ok (items_of response), world)
  items_of_outcome (err (failed e), world) = (ok (err e ∷ []), world)
  items_of_outcome (err panicked, world) = (err panicked, world)
  items_of_outcome (err unfinished, world) = (err unfinished, world)

  run_text : Result SqlxError Text → Io W (List Item)
  run_text (err e) world = (ok (err e ∷ []), world)
  run_text (ok sql_text) world = items_of_outcome (execute_query net fuel stream sql_text world)

  unfoldable pub run_query : Text → Result Message (Option MonetArguments) → Io W (List Item)
  unfolding run_text items_of_outcome
  run_query sql (err e) world = (ok (err (encode_error e) ∷ []), world)
  run_query sql (ok arguments) world = run_text (sql_text_of sql arguments) world

  ping_outcome : Result Stop QueryResponse × W → Result {0, 0} Stop Unit × W
  ping_outcome (ok response, world) = (ok tt, world)
  ping_outcome (err reason, world) = (err reason, world)

  unfoldable pub ping : Io W Unit
  unfolding ping_outcome
  ping world = ping_outcome (execute_query net fuel stream (codes "SELECT 1") world)

  -- `close`: what is still in the write buffer goes out first.
  unfoldable pub close : Io W Unit
  close = net.flush stream >> net.shutdown stream

  unfoldable pub close_hard : Io W Unit
  close_hard = net.shutdown stream

  unfoldable pub flush_connection : Io W Unit
  flush_connection = net.flush stream

  unfoldable pub shrink_connection : W → W
  shrink_connection world = net.shrink_buffers stream world

  -- `fetch_many`
  unfoldable pub fetch_many : Text → Result Message (Option MonetArguments) → Io W (List Item)
  unfolding run_query
  fetch_many sql arguments = run_query sql arguments

-- `should_flush`
abbrev pub should_flush : Bool
should_flush = false

-- `begin` and `prepare_with`, which the source leaves unimplemented.
unfoldable pub begin_transaction : {W A : Type 0} → Io W A
begin_transaction = stop panicked

unfoldable pub prepare_with : {W A : Type 0} → Text → List MonetTypeInfo → Io W A
prepare_with sql parameters = stop panicked

-- The loop of `fetch_optional` over the items: the first row or the first error.
unfoldable pub fetch_first : List Item → Result SqlxError (Option MonetRow)
fetch_first [] = ok none
fetch_first (err e ∷ items) = err e
fetch_first (ok (inl count) ∷ items) = fetch_first items
fetch_first (ok (inr row) ∷ items) = ok (some row)

fetch_outcome : {W : Type 0} → Result SqlxError (Option MonetRow) → Io W (Option MonetRow)
fetch_outcome (ok row) world = (ok row, world)
fetch_outcome (err e) world = (err (failed e), world)

unfoldable pub fetch_optional :
    {W S : Type 0}
    → Network W S
    → ℕ
    → S
    → Text
    → Result Message (Option MonetArguments)
    → Io W (Option MonetRow)
unfolding fetch_outcome
fetch_optional net fuel stream sql arguments =
    fetch_many net fuel stream sql arguments >>= λ items. fetch_outcome (fetch_first items)
