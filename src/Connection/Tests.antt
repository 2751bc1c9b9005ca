-- ===== src/Connection/Tests.antt =====
-- Items of concrete responses and queries.
use sqlx_monetdb.Prelude.{ℕ, ◌≡◌, refl, [], ◌∷◌, ok, some, none, map, take, drop, ◌+◌}
use sqlx_monetdb.Text.{Text, codes}
use sqlx_monetdb.Text.Number.{pos}
use sqlx_monetdb.Framing.{Bytes}
use sqlx_monetdb.Response.{TableResult, table, schema}
use sqlx_monetdb.Arguments.{MonetArguments, substitute_into}
use sqlx_monetdb.Rows.{columns_from}
use sqlx_monetdb.Session.{Network, execute_query}
use sqlx_monetdb.Connection.{items_of, fetch_first, run_query}
use sqlx_monetdb.Connection.Items.{head_of, fetch_first-items_of, run_query-answered}

abbrev small_table : TableResult
small_table = record {
  query_id = pos 1;
  row_count = 1;
  declared_columns = 1;
  embedded_tuples = 1;
  columns =
      record { name = codes "id"; type_name = codes "int"; length = none; typesizes = none } ∷ [];
  rows = (some (codes "42") ∷ []) ∷ [];
}

first_of_small_table :
    fetch_first (items_of (table small_table))
    ≡ ok (
        head_of (
          map
            (λ values. record { columns = columns_from 0 small_table.columns; values = values })
            small_table.rows))
first_of_small_table = fetch_first-items_of small_table

-- A server that answers every query with the line `&3`; the world counts the bytes read of it.
abbrev answering : Network ℕ Unit
answering = record {
  connect_tcp = λ host port world. (ok tt, world);
  read_buffered = λ stream n world. (ok (take n (drop world (5 ∷ 0 ∷ codes "&3"))), world + n);
  put_slice = λ stream payload world. world;
  flush = λ stream world. (ok tt, world);
  shutdown = λ stream world. (ok tt, world);
  shrink_buffers = λ stream world. world;
}

abbrev one_argument : MonetArguments
one_argument = record { literals = codes "42" ∷ [] }

filled_in : substitute_into one_argument (codes "DROP ?") ≡ ok (codes "DROP 42")
unfolding substitute_into
filled_in = refl

exchange : execute_query answering 9 tt (codes "DROP 42") 0 ≡ (ok schema, 4)
unfolding execute_query sqlx_monetdb.Session.write_message sqlx_monetdb.Session.read_text_message
    sqlx_monetdb.Session.read_message sqlx_monetdb.Framing.decode_header
    sqlx_monetdb.Text.Utf8.from_utf8 sqlx_monetdb.Response.Lines.parse_response
    sqlx_monetdb.Response.Lines.parse_line
exchange = refl

drop_answered :
    run_query answering 9 tt (codes "DROP ?") (ok (some one_argument)) 0 ≡ (ok (items_of schema), 4)
drop_answered =
    run_query-answered answering 9 tt (codes "DROP ?") (codes "DROP 42") one_argument schema 0 4
      filled_in exchange
