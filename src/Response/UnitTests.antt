-- ===== src/Response/UnitTests.antt =====
-- The unit tests of src/protocol/response.rs, under their names, as statements of the model: those
-- on requests, counts, fields and errors, and in the child those on tables. `unwrap` and
-- `unwrap_err` are the success or the failure of the result that they are called on.
pub mod Tables
use sqlx_monetdb.Prelude.{◌≡◌, refl, true, false, List, [], ◌∷◌, ◌++◌, none, some, ok, err, Option}
use sqlx_monetdb.Text.{Text, codes, text_eq, strip_prefix}
use sqlx_monetdb.Text.Trim.{is_whitespace}
use sqlx_monetdb.Text.Split.{split, rsplit_once}
use sqlx_monetdb.Text.Utf8.{as_bytes, encode_char}
use sqlx_monetdb.Text.Number.{pos}
use sqlx_monetdb.Error.{MonetError, MonetDatabaseError, display_database_error}
use sqlx_monetdb.Response.{
  QueryResponse, update, schema, transaction, success, ResponseError, protocol, database,
  encode_query,
}
use sqlx_monetdb.Response.Fields.{unescape_field, parse_tuple_fields}
use sqlx_monetdb.Response.Lines.{parse_response, parse_line}

-- `assert!(matches!(err, ResponseError::Protocol(_)))`
abbrev FailsInProtocol : Text → Type 0
FailsInProtocol text = (e : MonetError) × (parse_response text ≡ err (protocol e))

abbrev EncodesAQueryRequest : Type 0
EncodesAQueryRequest = encode_query (codes "SELECT 1") ≡ codes "sSELECT 1\n;"

encodes_a_query_request : EncodesAQueryRequest
unfolding encode_query as_bytes encode_char
encodes_a_query_request = refl

abbrev ParsesAnUpdateResponse : Type 0
ParsesAnUpdateResponse =
    (parse_response (codes "&2 5 -1") ≡ ok (update 5 none))
    × (parse_response (codes "&2 1 42") ≡ ok (update 1 (some (pos 42))))
    × (parse_response (codes "&2 2 -1 2 12443 2035 108") ≡ ok (update 2 none))

parses_an_update_response : ParsesAnUpdateResponse
unfolding parse_response parse_line split is_whitespace
    sqlx_monetdb.Response.Lines.parse_update_line
parses_an_update_response = (refl, refl, refl)

abbrev ParsesASchemaResponse : Type 0
ParsesASchemaResponse = parse_response (codes "&3") ≡ ok schema

parses_a_schema_response : ParsesASchemaResponse
unfolding parse_response parse_line split
parses_a_schema_response = refl

abbrev ParsesATransactionResponse : Type 0
ParsesATransactionResponse =
    (parse_response (codes "&4 t") ≡ ok (transaction true))
    × (parse_response (codes "&4 f") ≡ ok (transaction false))

parses_a_transaction_response : ParsesATransactionResponse
unfolding parse_response parse_line split sqlx_monetdb.Response.Lines.parse_transaction_line
parses_a_transaction_response = (refl, refl)

abbrev EmptyOrOkResponseIsOk : Type 0
EmptyOrOkResponseIsOk =
    (parse_response [] ≡ ok success) × (parse_response (codes "=OK") ≡ ok success)

empty_or_ok_response_is_ok : EmptyOrOkResponseIsOk
unfolding parse_response parse_line split
empty_or_ok_response_is_ok = (refl, refl)

abbrev ErrorLineBecomesADatabaseError : Type 0
ErrorLineBecomesADatabaseError =
    (e : MonetDatabaseError) × (parse_response (codes "!42S02!no such table 'foo'")
      ≡ err (database e))
    × (display_database_error e ≡ codes "42S02!no such table 'foo'")

error_line_becomes_a_database_error : ErrorLineBecomesADatabaseError
unfolding parse_response parse_line split display_database_error
error_line_becomes_a_database_error =
    (record { message = codes "42S02!no such table 'foo'" }, refl, refl)

abbrev ErrorLineTakesPriorityEvenMidTable : Type 0
ErrorLineTakesPriorityEvenMidTable =
    (e : MonetDatabaseError) × (parse_response
        (codes "&1 0 1 1 1\n% a # name\n!some error occurred")
      ≡ err (database e))

error_line_takes_priority_even_mid_table : ErrorLineTakesPriorityEvenMidTable
unfolding parse_response parse_line split is_whitespace rsplit_once
    sqlx_monetdb.Response.Lines.parse_table_header sqlx_monetdb.Response.Headers.parse_header_values
    sqlx_monetdb.Response.Headers.apply_header_values sqlx_monetdb.Response.Headers.setter
    sqlx_monetdb.Response.Headers.update_columns sqlx_monetdb.Response.Headers.grow
    sqlx_monetdb.Response.Headers.set_name
error_line_takes_priority_even_mid_table = (record { message = codes "some error occurred" }, refl)

abbrev InfoLinesAreIgnored : Type 0
InfoLinesAreIgnored = parse_response (codes "#some notice\n&3") ≡ ok schema

info_lines_are_ignored : InfoLinesAreIgnored
unfolding parse_response parse_line split
info_lines_are_ignored = refl

abbrev UnrecognizedLineIsAProtocolError : Type 0
UnrecognizedLineIsAProtocolError = FailsInProtocol (codes "~garbage")

unrecognized_line_is_a_protocol_error : UnrecognizedLineIsAProtocolError
unfolding parse_response parse_line split
unrecognized_line_is_a_protocol_error = (_, refl)

abbrev HeaderBeforeTableSummaryIsAProtocolError : Type 0
HeaderBeforeTableSummaryIsAProtocolError = FailsInProtocol (codes "% a # name")

header_before_table_summary_is_a_protocol_error : HeaderBeforeTableSummaryIsAProtocolError
unfolding parse_response parse_line split is_whitespace rsplit_once
    sqlx_monetdb.Response.Headers.parse_header_values
header_before_table_summary_is_a_protocol_error = (_, refl)

abbrev UnescapesBackslashSequencesInStringFields : Type 0
UnescapesBackslashSequencesInStringFields =
    unescape_field (codes "'line1\\nline2\\ttabbed\\\\backslash'")
    ≡ ok (some (codes "line1\nline2\ttabbed\\backslash"))

unescapes_backslash_sequences_in_string_fields : UnescapesBackslashSequencesInStringFields
unfolding unescape_field
unescapes_backslash_sequences_in_string_fields = refl

abbrev UnescapesDoubleQuotedStringFields : Type 0
UnescapesDoubleQuotedStringFields =
    unescape_field (codes "\"hello \\\"world\\\"\"") ≡ ok (some (codes "hello \"world\""))

unescapes_double_quoted_string_fields : UnescapesDoubleQuotedStringFields
unfolding unescape_field
unescapes_double_quoted_string_fields = refl

abbrev EmptyTupleLineYieldsNoFields : Type 0
EmptyTupleLineYieldsNoFields = parse_tuple_fields (codes "]") ≡ ok []

empty_tuple_line_yields_no_fields : EmptyTupleLineYieldsNoFields
unfolding parse_tuple_fields
empty_tuple_line_yields_no_fields = refl
