-- ===== src/Statements.antt =====
-- Prepared statements, src/statement.rs. The phantom lifetime is left out; what the source leaves
-- unimplemented panics.
use sqlx_monetdb.Prelude.{ℕ, List, [], Option, none, some, Result, err, Fault, panic, ◌⊎◌, inl}
use sqlx_monetdb.Text.{Text}
use sqlx_monetdb.Error.{SqlxError}
use sqlx_monetdb.Values.{MonetTypeInfo}
use sqlx_monetdb.Rows.{MonetColumn}

pub record MonetStatement : Type 0 where
  pub sql : Text
  pub columns : List MonetColumn
  pub parameters : Option (List MonetTypeInfo)

abbrev pub new_statement : Text → MonetStatement
new_statement sql = record { sql = sql; columns = []; parameters = none }

unfoldable pub into_sql : MonetStatement → Text
into_sql statement = statement.sql

unfoldable pub sql_of : MonetStatement → Text
sql_of statement = statement.sql

types_known : Option (List MonetTypeInfo) → Option (List MonetTypeInfo ⊎ ℕ)
types_known none = none
types_known (some params) = some (inl params)

unfoldable pub parameters_of : MonetStatement → Option (List MonetTypeInfo ⊎ ℕ)
unfolding types_known
parameters_of statement = types_known statement.parameters

unfoldable pub columns_of_statement : MonetStatement → List MonetColumn
columns_of_statement statement = statement.columns

-- `unimplemented!`
abbrev pub Unimplemented : Type 0 → Type 0
Unimplemented A = Result (Fault SqlxError) A

unfoldable pub query : {A : Type 0} → MonetStatement → Unimplemented A
query statement = err panic

unfoldable pub query_with : {A B : Type 0} → MonetStatement → B → Unimplemented A
query_with statement arguments = err panic

unfoldable pub query_as : {A : Type 0} → MonetStatement → Unimplemented A
query_as statement = err panic

unfoldable pub query_as_with : {A B : Type 0} → MonetStatement → B → Unimplemented A
query_as_with statement arguments = err panic

unfoldable pub query_scalar : {A : Type 0} → MonetStatement → Unimplemented A
query_scalar statement = err panic

unfoldable pub query_scalar_with : {A B : Type 0} → MonetStatement → B → Unimplemented A
query_scalar_with statement arguments = err panic
