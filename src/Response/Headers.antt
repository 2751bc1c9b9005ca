-- ===== src/Response/Headers.antt =====
-- The `%` header lines: `parse_header_values`, `apply_header_values` and `parse_typesizes_value` of
-- src/protocol/response.rs. A change of a table that fails is dropped with the whole response, so
-- an update returns the new table or an error.
pub mod Update
pub mod Columns
pub mod Sizes
use sqlx_monetdb.Prelude.{
  ℕ, ◌-◌, Bool, true, false, List, [], ◌∷◌, ◌++◌, Option, none, some, Result, ok, err, ◌>>=◌, ok_or,
  if◌then◌else◌, length, replicate, ltb, map,
}
use sqlx_monetdb.Text.{Text, codes, text_eq}
use sqlx_monetdb.Text.Trim.{trim, split_whitespace}
use sqlx_monetdb.Text.Split.{split, rsplit_once}
use sqlx_monetdb.Text.Number.{parse_unsigned}
use sqlx_monetdb.Error.{
  MonetError, protocol, missing_header_identity, unknown_header_identity, invalid_field,
  empty_typesizes, invalid_typesizes,
}
use sqlx_monetdb.Response.{ColumnMeta, TableResult, u64_max}

-- `parse_field` at an unsigned type of 64 bits.
unfoldable pub parse_field : Text → Text → Result MonetError ℕ
unfolding parse_unsigned
parse_field s field = ok_or (parse_unsigned u64_max s) (protocol (invalid_field field s))

unfoldable pub parse_header_values : Text → Result MonetError (Text × List Text)
unfolding rsplit_once split trim
parse_header_values rest = do
  (values, identity) ← ok_or (rsplit_once rest b'#') (protocol (missing_header_identity rest))
  ok (trim identity, map trim (split (trim values) b','))

second_size : Text → List Text → Result MonetError (Option ℕ)
second_size value [] = ok none
second_size value (s ∷ _) = do
  n ← ok_or (parse_unsigned u64_max s) (protocol (invalid_typesizes value))
  ok (some n)

sizes : Text → List Text → Result MonetError (Option (ℕ × Option ℕ))
sizes value [] = err (protocol (empty_typesizes value))
sizes value (s ∷ parts) = do
  first ← ok_or (parse_unsigned u64_max s) (protocol (invalid_typesizes value))
  second ← second_size value parts
  ok (some (first, second))

unfoldable pub parse_typesizes_value : Text → Result MonetError (Option (ℕ × Option ℕ))
unfolding trim split_whitespace parse_unsigned sizes second_size
parse_typesizes_value text =
    let value = trim text in
    if text_eq value [] then ok none else sizes value (split_whitespace value)

unfoldable pub length_value : Text → Result MonetError (Option ℕ)
length_value text =
    let value = trim text in
    if text_eq value [] then ok none else parse_field value (codes "length") >>= λ n. ok (some n)

abbrev pub empty_column : ColumnMeta
empty_column = record { name = []; type_name = []; length = none; typesizes = none }

-- `table.columns.resize(values.len(), ColumnMeta::default())`, where the values are more.
unfoldable pub grow : List ColumnMeta → ℕ → List ColumnMeta
grow columns count =
    if ltb (length columns) count
    then columns ++ replicate (count - length columns) empty_column
    else columns

-- `for (col, value) in table.columns.iter_mut().zip(values)`
unfoldable pub update_columns :
    (ColumnMeta → Text → Result MonetError ColumnMeta)
    → List ColumnMeta
    → List Text
    → Result MonetError (List ColumnMeta)
update_columns set [] values = ok []
update_columns set (col ∷ columns) [] = ok (col ∷ columns)
update_columns set (col ∷ columns) (value ∷ values) = do
  col' ← set col value
  columns' ← update_columns set columns values
  ok (col' ∷ columns')

unfoldable pub set_name : ColumnMeta → Text → Result MonetError ColumnMeta
set_name col value = ok (record col { name = value })

unfoldable pub set_type : ColumnMeta → Text → Result MonetError ColumnMeta
set_type col value = ok (record col { type_name = value })

unfoldable pub set_typesizes : ColumnMeta → Text → Result MonetError ColumnMeta
unfolding parse_typesizes_value
set_typesizes col value =
    parse_typesizes_value value >>= λ sizes. ok (record col { typesizes = sizes })

unfoldable pub set_length : ColumnMeta → Text → Result MonetError ColumnMeta
set_length col value = length_value value >>= λ n. ok (record col { length = n })

keep_column : ColumnMeta → Text → Result MonetError ColumnMeta
keep_column col value = ok col

-- The setter that an identity asks for.
unfoldable pub setter : Text → Result MonetError (ColumnMeta → Text → Result MonetError ColumnMeta)
unfolding keep_column
setter identity =
    if text_eq identity (codes "name")
    then ok set_name
    else if text_eq identity (codes "type")
    then ok set_type
    else if text_eq identity (codes "typesizes")
    then ok set_typesizes
    else if text_eq identity (codes "length")
    then ok set_length
    else if text_eq identity (codes "table_name")
    then ok keep_column
    else err (protocol (unknown_header_identity identity))

unfoldable pub apply_header_values : TableResult → Text → List Text → Result MonetError TableResult
apply_header_values table identity values = do
  set ← setter identity
  columns ← update_columns set (grow table.columns (length values)) values
  ok (record table { columns = columns })
