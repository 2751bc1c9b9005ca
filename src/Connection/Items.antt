-- ===== src/Connection/Items.antt =====
-- What a caller of src/connection.rs sees of a response.
use sqlx_monetdb.Prelude.{
  ℕ, ◌≡◌, refl, ap, ◌∙◌, List, [], ◌∷◌, ◌++◌, Option, none, some, ok, inl, inr, map,
}
use sqlx_monetdb.Text.{Text}
use sqlx_monetdb.Response.{TableResult, QueryResponse, table}
use sqlx_monetdb.Arguments.{MonetArguments, substitute_into}
use sqlx_monetdb.Rows.{MonetRow, MonetQueryResult, from_table_result, columns_from}
use sqlx_monetdb.Session.{Network, execute_query}
use sqlx_monetdb.Connection.{
  items_of, sql_text_of, run_query, fetch_first, items_of_outcome, run_text,
}

abbrev pub head_of : {A : Type 0} → List A → Option A
head_of [] = none
head_of (x ∷ xs) = some x

fetch_first-rows :
    (rows : List MonetRow) (count : MonetQueryResult)
    → fetch_first (map (λ row. ok (inr row)) rows ++ ok (inl count) ∷ []) ≡ ok (head_of rows)
unfolding fetch_first
fetch_first-rows [] count = refl
fetch_first-rows (row ∷ rows) count = refl

-- Fetching one row of a table's response gives its first row, with all the columns and the values
-- of the first tuple, or no row where the table has none; the count behind the rows never hides one.
pub fetch_first-items_of :
    (t : TableResult)
    → fetch_first (items_of (table t))
      ≡ ok (
          head_of
            (map (λ values. record { columns = columns_from 0 t.columns; values = values }) t.rows))
unfolding items_of from_table_result
fetch_first-items_of t =
    fetch_first-rows (from_table_result t) (record { rows_affected = t.row_count })

module _ {W S : Type 0} (net : Network W S) (fuel : ℕ) (stream : S) where
  -- A query that the server answers is sent with its arguments filled in, and its items are those
  -- of the answer, with the network as the exchange leaves it.
  pub run_query-answered :
      (sql text : Text) (arguments : MonetArguments) (response : QueryResponse) (world after : W)
      → substitute_into arguments sql ≡ ok text
      → execute_query net fuel stream text world ≡ (ok response, after)
      → run_query net fuel stream sql (ok (some arguments)) world ≡ (ok (items_of response), after)
  unfolding run_query sql_text_of
  run_query-answered sql text arguments response world after h sent =
      ap (λ r. run_text net fuel stream r world) h ∙ ap (items_of_outcome net fuel stream) sent
