-- ===== src/Options/ServerTests.antt =====
-- The test of src/options.rs that talks to a server, as an action of the model.
pub mod Runs
use sqlx_monetdb.Prelude.{ℕ, ◌≡◌, refl, ok}
use sqlx_monetdb.Text.{codes}
use sqlx_monetdb.Handshake.{Hashes}
use sqlx_monetdb.Session.Actions.{Io, ◌>>=◌}
use sqlx_monetdb.Session.{Network}
use sqlx_monetdb.Session.ServerTests.{local_host, monetdb}
use sqlx_monetdb.Session.ServerTests.Asserts.{expect}
use sqlx_monetdb.Connection.{close}
use sqlx_monetdb.Options.{
  MonetConnectOptions, default_connect_options, with_host, with_port, with_username, with_password,
  with_database, connect_with,
}

-- The options of the tests that talk to a server: `port` is what they read from MONETDB_TEST_PORT.
unfoldable pub local_options : {L : Type 0} → L → ℕ → MonetConnectOptions L
local_options default_log port =
    let host = with_host (default_connect_options default_log) local_host in
    with_database (with_password (with_username (with_port host port) monetdb) monetdb) monetdb

module _ {W S L : Type 0} (net : Network W S) (crates : Hashes) (fuel port : ℕ)
    (default_log : L) where
  unfoldable pub connect_and_close : Io W Unit
  connect_and_close = do
    connection ← expect (connect_with net crates fuel (local_options default_log port))
    expect (close net fuel connection)
