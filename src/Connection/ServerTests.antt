-- ===== src/Connection/ServerTests.antt =====
-- The test of the whole public interface of src/connection.rs against a server, as an action of the
-- model. What sqlx_core makes of the items of a query is a parameter, as are its `try_get` and the
-- decimals; binding a value is the driver's own `add`.
pub mod Runs
use sqlx_monetdb.Prelude.{
  ℕ, Bool, true, ◌&&◌, List, [], ◌∷◌, Option, none, some, Result, ok, err, ◌==◌, length,
}
use sqlx_monetdb.Text.{Text, codes}
use sqlx_monetdb.Text.Number.{pos}
use sqlx_monetdb.Error.{Message}
use sqlx_monetdb.Handshake.{Hashes}
use sqlx_monetdb.Arguments.{MonetArguments, new_arguments, add_argument}
use sqlx_monetdb.Types.{SqlType, i32_type, string_type}
use sqlx_monetdb.Rows.{MonetRow, MonetQueryResult}
use sqlx_monetdb.Rows.SqlxCore.{SqlxCore, decimal, int_at, text_at, text_named, decimal_at}
use sqlx_monetdb.Session.Actions.{Io, ◌>>=◌, ◌>>◌}
use sqlx_monetdb.Session.{Network}
use sqlx_monetdb.Session.ServerTests.Asserts.{
  assert, expect, expect_some, expect_err, attempt, is_database_error,
}
use sqlx_monetdb.Options.{MonetConnectOptions, connect_with}
use sqlx_monetdb.Connection.{Item, ping, close, fetch_many, fetch_optional}

-- The provided methods of `Executor`: `execute` gathers the counts among the items of a query,
-- `fetch_all` its rows, and `fetch_one` takes the row of `fetch_optional`.
pub record Executor (W : Type 0) : Type 0 where
  pub execute : Io W (List Item) → Io W MonetQueryResult
  pub fetch_all : Io W (List Item) → Io W (List MonetRow)
  pub fetch_one : Io W (Option MonetRow) → Io W MonetRow

-- `.bind(value)` behind the values that are bound.
abbrev bind :
    {A : Type 0} → SqlType A → A → Result Message MonetArguments → Result Message MonetArguments
bind type value (err m) = err m
bind type value (ok arguments) = add_argument arguments (ok (some (type.encode_by_ref value [])))

-- `take_arguments` of a query with bound values, and of a plain text.
abbrev taken : Result Message MonetArguments → Result Message (Option MonetArguments)
taken (err m) = err m
taken (ok arguments) = ok (some arguments)

abbrev unbound : Result Message (Option MonetArguments)
unbound = ok none

-- The rows behind both insertions.
unfoldable pub rows_as_bound : {Decimal : Type 0} → SqlxCore Decimal → List MonetRow → Bool
rows_as_bound core rows =
    (length rows == 2)
    && int_at core rows 0 0 1
    && text_named core rows 0 (codes "name") (codes "widget")
    && decimal_at core rows 0 2 (codes "9.99")
    && int_at core rows 1 0 2
    && text_named core rows 1 (codes "name") (codes "gadget")

module _ {W S L Decimal : Type 0} (net : Network W S) (crates : Hashes) (core : SqlxCore Decimal)
    (executor : Executor W) (fuel : ℕ) (options : MonetConnectOptions L) where
  -- `Executor::execute` of a plain text that succeeds.
  abbrev run : S → Text → Io W MonetQueryResult
  run conn sql = expect (executor.execute (fetch_many net fuel conn sql unbound))

  unfoldable pub full_sqlx_core_crud_cycle : Io W Unit
  full_sqlx_core_crud_cycle = do
    conn ← expect (connect_with net crates fuel options)
    expect (ping net fuel conn)
    attempt (
        executor.execute
          (fetch_many net fuel conn (codes "DROP TABLE sqlx_monetdb_executor_test") unbound))
    run conn (
        codes
          "CREATE TABLE sqlx_monetdb_executor_test (id INT, name VARCHAR(50), price DECIMAL(10,2))")
    inserted ← run conn (codes "INSERT INTO sqlx_monetdb_executor_test VALUES (1, 'widget', 9.99)")
    assert (inserted.rows_affected == 1)
    price ← expect_some (core.from_text (codes "19.50"))
    bound ← expect (
        executor.execute (
          fetch_many net fuel conn (codes "INSERT INTO sqlx_monetdb_executor_test VALUES (?, ?, ?)")
            (taken (
              bind (decimal core) price
                (bind string_type (codes "gadget") (bind i32_type (pos 2) (ok new_arguments)))))))
    assert (bound.rows_affected == 1)
    rows ← expect (
        executor.fetch_all (
          fetch_many net fuel conn
            (codes "SELECT id, name, price FROM sqlx_monetdb_executor_test ORDER BY id") unbound))
    assert (rows_as_bound core rows)
    row ← expect (
        executor.fetch_one (
          fetch_optional net fuel conn
            (codes "SELECT name FROM sqlx_monetdb_executor_test WHERE id = ?")
            (taken (bind i32_type (pos 2) (ok new_arguments)))))
    assert (text_at core (row ∷ []) 0 0 (codes "gadget"))
    updated ← run conn (codes "UPDATE sqlx_monetdb_executor_test SET price = 12.00 WHERE id = 1")
    assert (updated.rows_affected == 1)
    deleted ← run conn (codes "DELETE FROM sqlx_monetdb_executor_test WHERE id = 2")
    assert (deleted.rows_affected == 1)
    error ← expect_err (
        executor.fetch_all
          (fetch_many net fuel conn (codes "SELECT * FROM no_such_table_at_all") unbound))
    assert (is_database_error error)
    run conn (codes "DROP TABLE sqlx_monetdb_executor_test")
    expect (close net fuel conn)
