-- ===== src/Response/Lines.antt =====
-- The lines of a response: `parse_table_header`, `parse_update_line`, `parse_transaction_line` and
-- the loop of `parse_response`, src/protocol/response.rs.
pub mod Errors
pub mod Refused
pub mod Steps
pub mod Others
pub mod Sound
pub mod Answers
pub mod Summary
pub mod Replies
pub mod Select
pub mod Tests
use sqlx_monetdb.Prelude.{
  ℕ, ◌-◌, Bool, true, false, ◌||◌, List, [], ◌∷◌, ◌++◌, Option, none, some, Result, ok, err, ◌>>=◌,
  ok_or, map_err, if◌then◌else◌, get_elem?, ◌==◌,
}
use sqlx_monetdb.Text.{Text, codes, text_eq, strip_prefix, starts_with}
use sqlx_monetdb.Text.Trim.{split_whitespace}
use sqlx_monetdb.Text.Split.{split}
use sqlx_monetdb.Text.Number.{ℤ, parse_unsigned, parse_signed}
use sqlx_monetdb.Error.{
  MonetError, MonetDatabaseError, invalid_field, table_fields, missing_affected, invalid_affected,
  invalid_identity, flag_missing, unexpected_flag, header_before_table, tuple_before_table,
  unrecognized_line,
}
use sqlx_monetdb.Error as E
use sqlx_monetdb.Response.{
  TableResult, QueryResponse, table, update, schema, transaction, success, ResponseError, protocol,
  database, u64_max,
}
use sqlx_monetdb.Response.Fields.{parse_tuple_fields}
use sqlx_monetdb.Response.Headers.{parse_field, parse_header_values, apply_header_values}

-- The first four fields; those behind them are ignored.
table_of_parts : List Text → Result MonetError TableResult
table_of_parts (a ∷ b ∷ c ∷ d ∷ _) = do
  query_id ← ok_or (parse_signed 64 a) (E.protocol (invalid_field (codes "query_id") a))
  row_count ← parse_field b (codes "rowcount")
  declared_columns ← parse_field c (codes "columns")
  embedded_tuples ← parse_field d (codes "tuples")
  ok (record {
    query_id = query_id;
    row_count = row_count;
    declared_columns = declared_columns;
    embedded_tuples = embedded_tuples;
    columns = [];
    rows = [];
  })
table_of_parts parts = err (E.protocol (table_fields parts))

unfoldable pub parse_table_header : Text → Result MonetError TableResult
unfolding split_whitespace table_of_parts parse_field parse_signed
parse_table_header rest = table_of_parts (split_whitespace rest)

last_id : List Text → Result MonetError (Option ℤ)
last_id [] = ok none
last_id (s ∷ _) =
    if text_eq s (codes "-1")
    then ok none
    else ok_or (parse_signed 64 s) (E.protocol (invalid_identity s)) >>= λ z. ok (some z)

update_of_parts : Text → List Text → Result MonetError QueryResponse
update_of_parts rest [] = err (E.protocol (missing_affected rest))
update_of_parts rest (a ∷ parts) = do
  affected ← ok_or (parse_unsigned u64_max a) (E.protocol (invalid_affected rest))
  last_insert_id ← last_id parts
  ok (update affected last_insert_id)

unfoldable pub parse_update_line : Text → Result MonetError QueryResponse
unfolding split_whitespace update_of_parts last_id parse_unsigned parse_signed text_eq
parse_update_line rest = update_of_parts rest (split_whitespace rest)

transaction_of_flag : Text → ℕ → Result MonetError QueryResponse
transaction_of_flag line flag =
    if flag == b't'
    then ok (transaction true)
    else if flag == b'f'
    then ok (transaction false)
    else err (E.protocol (unexpected_flag flag line))

-- `line.chars().nth(3)` is the flag.
unfoldable pub parse_transaction_line : Text → Result MonetError QueryResponse
unfolding transaction_of_flag
parse_transaction_line line =
    ok_or (get_elem? line 3) (E.protocol (flag_missing line)) >>= transaction_of_flag line

-- The variables of the loop.
pub record Progress : Type 0 where
  pub table : Option TableResult
  pub result : Option QueryResponse

-- What a line is, by the tests of the loop in their order.
pub data Line : Type 0 where
  skipped : Line
  failure opens_table updates header tuple : Text → Line
  schemas transacts unknown : Line

-- `strip_prefix("&1").or_else(|| strip_prefix("&5"))`, and the prefixes after it.
classify_by :
    Option Text
    → Option Text
    → Option Text
    → Option Text
    → Option Text
    → Option Text
    → Option Text
    → Option Text
    → Option Text
    → Line
classify_by (some message) _ _ _ _ _ _ _ _ = failure message
classify_by none (some _) _ _ _ _ _ _ _ = skipped
classify_by none none (some rest) _ _ _ _ _ _ = opens_table rest
classify_by none none none (some rest) _ _ _ _ _ = opens_table rest
classify_by none none none none (some rest) _ _ _ _ = updates rest
classify_by none none none none none (some _) _ _ _ = schemas
classify_by none none none none none none (some _) _ _ = transacts
classify_by none none none none none none none (some rest) _ = header rest
classify_by none none none none none none none none (some rest) = tuple rest
classify_by none none none none none none none none none = unknown

unfoldable pub classify : Text → Line
unfolding text_eq strip_prefix classify_by
classify line =
    if text_eq line [] || text_eq line (codes "=OK")
    then skipped
    else classify_by (strip_prefix line (codes "!")) (strip_prefix line (codes "#"))
        (strip_prefix line (codes "&1")) (strip_prefix line (codes "&5"))
        (strip_prefix line (codes "&2")) (strip_prefix line (codes "&3"))
        (strip_prefix line (codes "&4")) (strip_prefix line (codes "%"))
        (strip_prefix line (codes "["))

-- What a line of a kind does to the variables; `?` converts a `MonetError`.
unfoldable pub run_line : Progress → Text → Line → Result ResponseError Progress
run_line p line skipped = ok p
run_line p line (failure message) = err (database (record { message = message }))
run_line p line (opens_table rest) = do
  t ← map_err protocol (parse_table_header rest)
  ok (record p { table = some t })
run_line p line (updates rest) = do
  r ← map_err protocol (parse_update_line rest)
  ok (record p { result = some r })
run_line p line schemas = ok (record p { result = some schema })
run_line p line transacts = do
  r ← map_err protocol (parse_transaction_line line)
  ok (record p { result = some r })
run_line p line (header rest) = map_err protocol (do
  (identity, values) ← parse_header_values rest
  t ← ok_or p.table (E.protocol (header_before_table line))
  t' ← apply_header_values t identity values
  ok (record p { table = some t' }))
run_line p line (tuple rest) = map_err protocol (do
  fields ← parse_tuple_fields rest
  t ← ok_or p.table (E.protocol (tuple_before_table line))
  ok (record p { table = some (record t { rows = t.rows ++ fields ∷ [] }) }))
run_line p line unknown = err (protocol (E.protocol (unrecognized_line line)))

unfoldable pub parse_line : Progress → Text → Result ResponseError Progress
unfolding run_line classify
parse_line p line = run_line p line (classify line)

unfoldable pub parse_lines : Progress → List Text → Result ResponseError Progress
parse_lines p [] = ok p
parse_lines p (line ∷ lines) = do p' ← parse_line p line; parse_lines p' lines

by_table : Option TableResult → Option QueryResponse → QueryResponse
by_table (some t) _ = table t
by_table none (some r) = r
by_table none none = success

unfoldable pub finish : Progress → QueryResponse
unfolding by_table
finish p = by_table p.table p.result

unfoldable pub parse_response : Text → Result ResponseError QueryResponse
unfolding parse_lines finish split
parse_response text = do
  p ← parse_lines (record { table = none; result = none }) (split text b'\n')
  ok (finish p)
