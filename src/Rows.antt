-- ===== src/Rows.antt =====
-- Columns and rows, src/column.rs and src/row.rs, and the query result of src/database.rs. The
-- columns that the rows of one table share behind an `Arc` are never changed, so each row holds
-- them as a value.
pub mod Access
pub mod Named
pub mod Sums
pub mod Tests
pub mod SqlxCore
pub mod ServerTests
use sqlx_monetdb.Prelude.{
  ℕ, zero, suc, ◌+◌, ◌%◌, ◌^◌, Bool, true, false, List, [], ◌∷◌, ◌++◌, Option, none, some, Result,
  ok, err, Fault, error, panic, ◌>>=◌, ok_or, map_err, map, leb, if◌then◌else◌, length, get_elem?,
}
use sqlx_monetdb.Text.{Text, text_eq}
use sqlx_monetdb.Error.{SqlxError, column_index_out_of_bounds, column_not_found}
use sqlx_monetdb.Response.{ColumnMeta, TableResult}
use sqlx_monetdb.Values.{MonetTypeInfo, MonetValueRef, new_type_info, new_value, null_value}

pub record MonetColumn : Type 0 where
  pub ordinal : ℕ
  pub name : Text
  pub type_info : MonetTypeInfo

abbrev pub from_meta : ℕ → ColumnMeta → MonetColumn
from_meta ordinal meta = record {
  ordinal = ordinal;
  name = meta.name;
  type_info = new_type_info meta.type_name;
}

pub record MonetRow : Type 0 where
  pub columns : List MonetColumn
  pub values : List (Option Text)

-- `.iter().enumerate().map(..)`, from an ordinal on.
unfoldable pub columns_from : ℕ → List ColumnMeta → List MonetColumn
columns_from ordinal [] = []
columns_from ordinal (meta ∷ metas) = from_meta ordinal meta ∷ columns_from (suc ordinal) metas

unfoldable pub from_table_result : TableResult → List MonetRow
from_table_result table =
    let columns = columns_from 0 table.columns in
    map (λ values. record { columns = columns; values = values }) table.rows

-- `ColumnIndex for usize`
unfoldable pub index_at : ℕ → MonetRow → Result SqlxError ℕ
index_at index row =
    if leb (length row.columns) index
    then err (column_index_out_of_bounds index (length row.columns))
    else ok index

-- `row.columns.iter().find(|c| c.name() == self)`
unfoldable pub find_column : Text → List MonetColumn → Option MonetColumn
find_column name [] = none
find_column name (c ∷ columns) = if text_eq c.name name then some c else find_column name columns

-- `ColumnIndex for str`
unfoldable pub index_of : Text → MonetRow → Result SqlxError ℕ
unfolding find_column
index_of name row = elim (find_column name row.columns) [
  | none ↦ err (column_not_found name)
  | some c ↦ ok c.ordinal
]

pub value_ref : MonetTypeInfo → Option Text → MonetValueRef
value_ref type_info (some text) = new_value text type_info
value_ref type_info none = null_value type_info

-- `try_get_raw` behind the index: `self.columns[..]` and `self.values[..]` panic out of range.
unfoldable pub try_get_raw : Result SqlxError ℕ → MonetRow → Result (Fault SqlxError) MonetValueRef
unfolding value_ref
try_get_raw index row = do
  col_index ← map_err error index
  column ← ok_or (get_elem? row.columns col_index) panic
  value ← ok_or (get_elem? row.values col_index) panic
  ok (value_ref column.type_info value)

pub record MonetQueryResult : Type 0 where
  pub rows_affected : ℕ

abbrev pub default_result : MonetQueryResult
default_result = record { rows_affected = 0 }

-- `extend` in 64 bits; a build that checks overflow panics where this one wraps around.
unfoldable pub extend : MonetQueryResult → List MonetQueryResult → MonetQueryResult
extend result [] = result
extend result (r ∷ results) =
    extend (record { rows_affected = (result.rows_affected + r.rows_affected) % 2 ^ 64 }) results
