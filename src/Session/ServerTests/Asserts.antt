-- ===== src/Session/ServerTests/Asserts.antt =====
-- What a test does to a result: `assert!`, `expect`, `expect_err` and `let _ =`.
use sqlx_monetdb.Prelude.{
  ℕ, Bool, true, false, ◌&&◌, List, [], ◌∷◌, Option, none, some, Result, ok, err, ◌==◌, get_elem?,
}
use sqlx_monetdb.Text.{Text, codes, text_eq}
use sqlx_monetdb.Error.{SqlxError, database_error}
use sqlx_monetdb.Response.{
  ColumnMeta, TableResult, QueryResponse, table, update, schema, transaction, success,
}
use sqlx_monetdb.Session.Actions.{Io, Stop, failed, panicked, unfinished, pure, stop}

module _ {W : Type 0} where
  abbrev pub assert : Bool → Io W Unit
  assert true = pure tt
  assert false = stop panicked

  abbrev expected : {A : Type 0} → Result Stop A × W → Result Stop A × W
  expected (ok a, world) = (ok a, world)
  expected (err (failed e), world) = (err panicked, world)
  expected (err panicked, world) = (err panicked, world)
  expected (err unfinished, world) = (err unfinished, world)

  abbrev pub expect : {A : Type 0} → Io W A → Io W A
  expect m world = expected (m world)

  abbrev pub expect_some : {A : Type 0} → Option A → Io W A
  expect_some (some a) = pure a
  expect_some none = stop panicked

  abbrev refused : {A : Type 0} → Result Stop A × W → Result Stop SqlxError × W
  refused (ok a, world) = (err panicked, world)
  refused (err (failed e), world) = (ok e, world)
  refused (err panicked, world) = (err panicked, world)
  refused (err unfinished, world) = (err unfinished, world)

  abbrev pub expect_err : {A : Type 0} → Io W A → Io W SqlxError
  expect_err m world = refused (m world)

  abbrev ignored : {A : Type 0} → Result Stop A × W → Result {0, 0} Stop Unit × W
  ignored (ok a, world) = (ok tt, world)
  ignored (err (failed e), world) = (ok tt, world)
  ignored (err panicked, world) = (err panicked, world)
  ignored (err unfinished, world) = (err unfinished, world)

  -- `let _ = .. .await;`
  abbrev pub attempt : {A : Type 0} → Io W A → Io W Unit
  attempt m world = ignored (m world)

  abbrev pub expect_table : QueryResponse → Io W TableResult
  expect_table (table t) = pure t
  expect_table (update n id) = stop panicked
  expect_table schema = stop panicked
  expect_table (transaction b) = stop panicked
  expect_table success = stop panicked

abbrev pub is_empty {ℓ} : {A : Type ℓ} → List A → Bool
is_empty [] = true
is_empty (x ∷ xs) = false

abbrev pub is_database_error : SqlxError → Bool
is_database_error (database_error e) = true
is_database_error _ = false

abbrev pub is_schema : QueryResponse → Bool
is_schema schema = true
is_schema _ = false

-- `QueryResponse::Update { affected, last_insert_id: None }`
abbrev pub is_update : ℕ → QueryResponse → Bool
is_update affected (update n none) = n == affected
is_update affected _ = false

abbrev pub column_holds : TableResult → ℕ → (ColumnMeta → Bool) → Bool
column_holds t i test = elim (get_elem? t.columns i) [ none ↦ false | some c ↦ test c ]

abbrev is_length : ℕ → Option ℕ → Bool
is_length n none = false
is_length n (some m) = m == n

abbrev is_none {ℓ} : {A : Type ℓ} → Option A → Bool
is_none none = true
is_none (some a) = false

-- The type `decimal`, a length of 12 and no type sizes.
abbrev pub is_decimal_12 : ColumnMeta → Bool
is_decimal_12 c =
    text_eq c.type_name (codes "decimal") && is_length 12 c.length && is_none c.typesizes

abbrev field_eq : Option Text → Option Text → Bool
field_eq none none = true
field_eq (some a) (some b) = text_eq a b
field_eq _ _ = false

abbrev list_eq {ℓ} : {A : Type ℓ} → (A → A → Bool) → List A → List A → Bool
list_eq same [] [] = true
list_eq same (a ∷ x) (b ∷ y) = same a b && list_eq same x y
list_eq same _ _ = false

abbrev pub rows_eq : List (List (Option Text)) → List (List (Option Text)) → Bool
rows_eq = list_eq (list_eq field_eq)
