-- ===== src/Session/ServerTests.antt =====
-- The tests of src/protocol/mod.rs that talk to a server, under their names, as actions of the
-- model: a failing assertion and the `expect` of an error are panics. The server is whatever the
-- network connects to, and `port` is what the tests read from MONETDB_TEST_PORT.
pub mod Asserts
pub mod Runs
use sqlx_monetdb.Prelude.{
  ℕ, Bool, true, false, ◌&&◌, ◌||◌, not, List, [], ◌∷◌, Option, none, some, ◌==◌, length, get_elem?,
}
use sqlx_monetdb.Text.{Text, codes, text_eq, contains}
use sqlx_monetdb.Text.Utf8.{from_utf8}
use sqlx_monetdb.Response.{ColumnMeta, TableResult, QueryResponse}
use sqlx_monetdb.Handshake.{Hashes}
use sqlx_monetdb.Session.Actions.{Io, ◌>>=◌, ◌>>◌}
use sqlx_monetdb.Session.{
  Network, connect, send_prime_bytes, read_message, perform_handshake, execute_query,
}
use sqlx_monetdb.Session.ServerTests.Asserts.{
  assert, expect, expect_some, expect_err, expect_table, attempt, is_empty, is_database_error,
  is_schema, is_update, column_holds, is_decimal_12, rows_eq,
}

abbrev pub local_host : Text
local_host = codes "127.0.0.1"

abbrev pub monetdb : Text
monetdb = codes "monetdb"

module _ {W S : Type 0} (net : Network W S) (crates : Hashes) (fuel : ℕ) (port : ℕ) where
  unfoldable pub connects_and_reads_raw_challenge : Io W Unit
  connects_and_reads_raw_challenge = do
    stream ← expect (connect net local_host port)
    expect (send_prime_bytes net stream)
    challenge ← expect (read_message net fuel stream)
    assert (not (is_empty challenge))
    challenge_text ← expect_some (from_utf8 challenge)
    assert (
        contains challenge_text (codes ":mserver:9:")
        || contains challenge_text (codes ":merovingian:9:"))

  unfoldable pub full_handshake_succeeds : Io W Unit
  full_handshake_succeeds =
      expect (perform_handshake net crates fuel monetdb monetdb monetdb local_host port)
      >> assert true

  unfoldable pub handshake_with_wrong_password_fails : Io W Unit
  handshake_with_wrong_password_fails =
      expect_err (
        perform_handshake net crates fuel monetdb (codes "definitely-wrong-password") monetdb
          local_host port)
      >> assert true

  -- The columns and the rows of the table that the test selects.
  unfoldable pub selected_as_expected : TableResult → Bool
  selected_as_expected t =
      (t.row_count == 2)
      && (length t.columns == 3)
      && column_holds t 0 (λ c. text_eq c.name (codes "id"))
      && column_holds t 1 (λ c. text_eq c.name (codes "name"))
      && column_holds t 2 (λ c. text_eq c.name (codes "price"))
      && column_holds t 2 is_decimal_12
      && rows_eq t.rows (
          (some (codes "1") ∷ some (codes "widget") ∷ some (codes "9.99") ∷ [])
          ∷ (some (codes "2") ∷ some (codes "gadget") ∷ some (codes "19.50") ∷ [])
          ∷ [])

  unfoldable pub full_crud_cycle : Io W Unit
  full_crud_cycle = do
    stream ← expect (perform_handshake net crates fuel monetdb monetdb monetdb local_host port)
    attempt (execute_query net fuel stream (codes "DROP TABLE sqlx_monetdb_crud_test"))
    created ← expect (
        execute_query net fuel stream (
          codes
            "CREATE TABLE sqlx_monetdb_crud_test (id INT, name VARCHAR(50), price DECIMAL(10,2))"))
    assert (is_schema created)
    inserted ← expect (
        execute_query net fuel stream (
          codes
            "INSERT INTO sqlx_monetdb_crud_test VALUES (1, 'widget', 9.99), (2, 'gadget', 19.50)"))
    assert (is_update 2 inserted)
    selected ← expect (
        execute_query net fuel stream
          (codes "SELECT id, name, price FROM sqlx_monetdb_crud_test ORDER BY id"))
    t ← expect_table selected
    assert (selected_as_expected t)
    updated ← expect (
        execute_query net fuel stream
          (codes "UPDATE sqlx_monetdb_crud_test SET price = 12.00 WHERE id = 1"))
    assert (is_update 1 updated)
    deleted ←
        expect
          (execute_query net fuel stream (codes "DELETE FROM sqlx_monetdb_crud_test WHERE id = 2"))
    assert (is_update 1 deleted)
    error ← expect_err (execute_query net fuel stream (codes "SELECT * FROM no_such_table_at_all"))
    assert (is_database_error error)
    expect (execute_query net fuel stream (codes "DROP TABLE sqlx_monetdb_crud_test"))
    assert true
