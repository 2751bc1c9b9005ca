-- ===== src/Types/Tests.antt =====
-- The types at concrete values.
use sqlx_monetdb.Prelude.{◌≡◌, ◌↔◌, refl, [], ◌++◌, arith, ok, err, some, true}
use sqlx_monetdb.Text.{Text, codes}
use sqlx_monetdb.Text.Number.{pos, negsuc, print_signed, parse_signed}
use sqlx_monetdb.Text.Number.Print.{Fits}
use sqlx_monetdb.Text.Number.Numerals.{Numeral}
use sqlx_monetdb.Error.{invalid_number}
use sqlx_monetdb.Text.Utf8.{from_utf8}
use sqlx_monetdb.Values.{MonetTypeInfo, new_type_info, new_value, value_text}
use sqlx_monetdb.Arguments.{literal_of}
use sqlx_monetdb.Types.{
  date_type, integer_type, boolean_type, printed_type, boolean_literal, encode_string_literal,
}
use sqlx_monetdb.Types.Literals.{sql_literal, read_literal, encode_string_literal_lem}
use sqlx_monetdb.Types.RoundTrip.{
  RoundTrips, integer_type-RoundTrips, integer_type-Numeral, boolean_type-RoundTrips,
  boolean_type-decode_iff, printed_type-RoundTrips,
}

abbrev int_info : MonetTypeInfo
int_info = new_type_info (codes "int")

encode_string_literal_lem_example :
    (from_utf8 (encode_string_literal (codes "it's") []) ≡ some (sql_literal (codes "it's")))
    × (read_literal (sql_literal (codes "it's") ++ codes " OR 1")
        ≡ some (codes "it's", codes " OR 1"))
encode_string_literal_lem_example =
    encode_string_literal_lem (codes "it's") (codes " OR 1") (omega arith) (omega arith)

integer_type-RoundTrips_example :
    RoundTrips
      (integer_type 8 (codes "tinyint") [])
      int_info
      (negsuc 127)
      (print_signed (negsuc 127))
integer_type-RoundTrips_example =
    integer_type-RoundTrips 8 (codes "tinyint") [] int_info (negsuc 127) (omega arith)

seven_read :
    (integer_type 8 (codes "tinyint") []).decode (new_value (codes "7") int_info) ≡ ok (pos 7)
unfolding integer_type value_text parse_signed
seven_read = refl

-- The least value of eight bits, and one below it.
abbrev least : Text
least = codes "-128"

integer_type-Numeral_example :
    ((integer_type 8 (codes "tinyint") []).decode (new_value least int_info) ≡ ok (negsuc 127))
    ↔ ((text : Text) × (some least ≡ some text) × Numeral text (negsuc 127) × Fits 8 (negsuc 127))
integer_type-Numeral_example =
    integer_type-Numeral 8 (codes "tinyint") [] (new_value least int_info) (negsuc 127)

below_refused :
    (integer_type 8 (codes "tinyint") []).decode (new_value (codes "-129") int_info)
    ≡ err (invalid_number (codes "-129"))
unfolding integer_type value_text parse_signed
below_refused = refl

true_bound : RoundTrips boolean_type int_info true (boolean_literal true)
true_bound = boolean_type-RoundTrips int_info true

true_read :
    (boolean_type.decode (new_value (codes "1") int_info) ≡ ok true)
    ↔ (codes "1" ≡ boolean_literal true)
true_read = boolean_type-decode_iff int_info true (codes "1")

price_bound :
    RoundTrips
      (printed_type (λ s. some s) (λ s. s) (codes "decimal") [])
      int_info
      (codes "9.99")
      (codes "9.99")
price_bound =
    printed_type-RoundTrips (λ s. some s) (λ s. s) (codes "decimal") [] int_info (codes "9.99")
      (omega arith) refl

abbrev day : Text
day = codes "2026-07-28"

day_bound :
    (literal_of (some ((date_type (λ s f. some s) (λ s f. s)).encode_by_ref day []))
      ≡ ok (codes "DATE '2026-07-28'"))
    × ((date_type (λ s f. some s) (λ s f. s)).decode (new_value day int_info) ≡ ok day)
unfolding literal_of from_utf8 sqlx_monetdb.Types.temporal_type sqlx_monetdb.Text.Utf8.as_bytes
    value_text
day_bound = (refl, refl)
