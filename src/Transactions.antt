-- ===== src/Transactions.antt =====
-- The transaction manager, src/transaction.rs: every operation is left unimplemented, and panics
-- before it touches the connection.
use sqlx_monetdb.Prelude.{ℕ, Option}
use sqlx_monetdb.Text.{Text}
use sqlx_monetdb.Session.Actions.{Io, stop, panicked}

module _ {W S : Type 0} where
  unfoldable pub begin : S → Option Text → Io W Unit
  begin stream statement = stop panicked

  unfoldable pub commit : S → Io W Unit
  commit stream = stop panicked

  unfoldable pub rollback : S → Io W Unit
  rollback stream = stop panicked

  unfoldable pub start_rollback : S → Io W Unit
  start_rollback stream = stop panicked

  unfoldable pub get_transaction_depth : S → Io W ℕ
  get_transaction_depth stream = stop panicked
