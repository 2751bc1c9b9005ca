-- ===== src/Rows/ServerTests.antt =====
-- The test of src/row.rs that talks to a server, as an action of the model.
pub mod Runs
use sqlx_monetdb.Prelude.{ℕ, Bool, true, ◌&&◌, not, List, ◌==◌, length}
use sqlx_monetdb.Text.{codes}
use sqlx_monetdb.Handshake.{Hashes}
use sqlx_monetdb.Session.Actions.{Io, ◌>>=◌, ◌>>◌}
use sqlx_monetdb.Session.{Network, perform_handshake, execute_query}
use sqlx_monetdb.Session.ServerTests.{local_host, monetdb}
use sqlx_monetdb.Session.ServerTests.Asserts.{assert, expect, expect_table, attempt}
use sqlx_monetdb.Rows.{MonetRow, from_table_result}
use sqlx_monetdb.Rows.SqlxCore.{SqlxCore, int_at, text_at, no_text_at, bool_at, decimal_at}

-- The values of the two rows.
unfoldable pub rows_as_inserted : {Decimal : Type 0} → SqlxCore Decimal → List MonetRow → Bool
rows_as_inserted core rows =
    (length rows == 2)
    && int_at core rows 0 0 1
    && text_at core rows 0 1 (codes "widget")
    && decimal_at core rows 0 2 (codes "9.99")
    && bool_at core rows 0 3 (λ b. b)
    && int_at core rows 1 0 2
    && no_text_at core rows 1 1
    && decimal_at core rows 1 2 (codes "100.50")
    && bool_at core rows 1 3 not

module _ {W S Decimal : Type 0} (net : Network W S) (crates : Hashes) (core : SqlxCore Decimal)
    (fuel port : ℕ) where
  unfoldable pub decodes_real_rows_into_rust_types : Io W Unit
  decodes_real_rows_into_rust_types = do
    stream ← expect (perform_handshake net crates fuel monetdb monetdb monetdb local_host port)
    attempt (execute_query net fuel stream (codes "DROP TABLE sqlx_monetdb_row_decode_test"))
    expect (
        execute_query net fuel stream (
          codes
            "CREATE TABLE sqlx_monetdb_row_decode_test (id INT, name VARCHAR(50), price DECIMAL(10,2), active BOOLEAN)"))
    expect (
        execute_query net fuel stream (
          codes
            "INSERT INTO sqlx_monetdb_row_decode_test VALUES (1, 'widget', 9.99, true), (2, NULL, 100.50, false)"))
    response ← expect (
        execute_query net fuel stream
          (codes "SELECT id, name, price, active FROM sqlx_monetdb_row_decode_test ORDER BY id"))
    t ← expect_table response
    assert (rows_as_inserted core (from_table_result t))
    expect (execute_query net fuel stream (codes "DROP TABLE sqlx_monetdb_row_decode_test"))
    assert true
