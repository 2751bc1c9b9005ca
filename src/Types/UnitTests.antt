-- ===== src/Types/UnitTests.antt =====
-- The unit tests of src/types/bool.rs, src/types/int.rs and src/types/str.rs, under their names, as
-- statements of the model; those of the types that other crates parse are in the child. A name that
-- several files have is in a module of the type's name.
pub mod Parsed
use sqlx_monetdb.Prelude.{◌≡◌, refl, Bool, true, false, List, [], ◌∷◌, some, ok, err, ℕ}
use sqlx_monetdb.Text.{Text, codes}
use sqlx_monetdb.Text.Number.{pos, negsuc}
use sqlx_monetdb.Text.Utf8.{from_utf8}
use sqlx_monetdb.Error.{Message}
use sqlx_monetdb.Values.{MonetTypeInfo, new_type_info, new_value}
use sqlx_monetdb.Types.{
  boolean_type, i8_type, i16_type, i32_type, i64_type, string_type, encode_string_literal,
}

abbrev boolean : MonetTypeInfo
boolean = new_type_info (codes "boolean")

abbrev int : MonetTypeInfo
int = new_type_info (codes "int")

abbrev DecodesTrueAndFalse : Type 0
DecodesTrueAndFalse =
    (boolean_type.decode (new_value (codes "true") boolean) ≡ ok true)
    × (boolean_type.decode (new_value (codes "false") boolean) ≡ ok false)

decodes_true_and_false : DecodesTrueAndFalse
unfolding boolean_type sqlx_monetdb.Values.value_text sqlx_monetdb.Text.text_eq
decodes_true_and_false = (refl, refl)

abbrev RejectsGarbage : Type 0
RejectsGarbage = (m : Message) × (boolean_type.decode (new_value (codes "nope") boolean) ≡ err m)

rejects_garbage : RejectsGarbage
unfolding boolean_type sqlx_monetdb.Values.value_text sqlx_monetdb.Text.text_eq
rejects_garbage = (_, refl)

abbrev EncodeRoundTripsThroughDecode : Type 0
EncodeRoundTripsThroughDecode =
    (text : Text) × (from_utf8 (boolean_type.encode_by_ref true []) ≡ some text)
    × (boolean_type.decode (new_value text boolean) ≡ ok true)

encode_round_trips_through_decode : EncodeRoundTripsThroughDecode
unfolding from_utf8 boolean_type sqlx_monetdb.Text.Utf8.as_bytes sqlx_monetdb.Values.value_text
    sqlx_monetdb.Text.text_eq
encode_round_trips_through_decode = (codes "true", refl, refl)

abbrev DecodesEachIntegerWidth : Type 0
DecodesEachIntegerWidth =
    (i8_type.decode (new_value (codes "-12") int) ≡ ok (negsuc 11))
    × (i16_type.decode (new_value (codes "1234") int) ≡ ok (pos 1234))
    × (i32_type.decode (new_value (codes "123456") int) ≡ ok (pos 123456))
    × (i64_type.decode (new_value (codes "123456789012") int) ≡ ok (pos 123456789012))

decodes_each_integer_width : DecodesEachIntegerWidth
unfolding sqlx_monetdb.Types.integer_type sqlx_monetdb.Values.value_text
    sqlx_monetdb.Text.Number.parse_signed
decodes_each_integer_width = (refl, refl, refl, refl)

abbrev RejectsNonNumericInteger : Type 0
RejectsNonNumericInteger =
    (m : Message) × (i32_type.decode (new_value (codes "not a number") int) ≡ err m)

rejects_non_numeric_integer : RejectsNonNumericInteger
unfolding sqlx_monetdb.Types.integer_type sqlx_monetdb.Values.value_text
    sqlx_monetdb.Text.Number.parse_signed
rejects_non_numeric_integer = (_, refl)

abbrev SerialIsCompatibleWithI32 : Type 0
SerialIsCompatibleWithI32 = i32_type.compatible (new_type_info (codes "serial")) ≡ true

serial_is_compatible_with_i32 : SerialIsCompatibleWithI32
unfolding sqlx_monetdb.Types.integer_type sqlx_monetdb.Types.compatible_with_names
    sqlx_monetdb.Types.eq_ignore_ascii_case sqlx_monetdb.Text.text_eq
serial_is_compatible_with_i32 = refl

abbrev DecodesOwnedAndBorrowedStrings : Type 0
DecodesOwnedAndBorrowedStrings =
    string_type.decode (new_value (codes "hello") (new_type_info (codes "varchar")))
    ≡ ok (codes "hello")

decodes_owned_and_borrowed_strings : DecodesOwnedAndBorrowedStrings
unfolding string_type sqlx_monetdb.Values.value_text
decodes_owned_and_borrowed_strings = refl

-- `String::from_utf8(buf).unwrap()` on the buffer with the literal.
abbrev EncodesTo : Text → Text → Type 0
EncodesTo s literal = from_utf8 (encode_string_literal s []) ≡ some literal

abbrev EscapesEmbeddedSingleQuotes : Type 0
EscapesEmbeddedSingleQuotes = EncodesTo (codes "it's here") (codes "'it''s here'")

escapes_embedded_single_quotes : EscapesEmbeddedSingleQuotes
unfolding from_utf8 encode_string_literal sqlx_monetdb.Text.Utf8.as_bytes
escapes_embedded_single_quotes = refl

abbrev EscapesALoneSingleQuote : Type 0
EscapesALoneSingleQuote = EncodesTo (codes "'") (codes "''''")

escapes_a_lone_single_quote : EscapesALoneSingleQuote
unfolding from_utf8 encode_string_literal sqlx_monetdb.Text.Utf8.as_bytes
escapes_a_lone_single_quote = refl

abbrev EscapesEmptyString : Type 0
EscapesEmptyString = EncodesTo [] (codes "''")

escapes_empty_string : EscapesEmptyString
unfolding from_utf8 encode_string_literal sqlx_monetdb.Text.Utf8.as_bytes
escapes_empty_string = refl

abbrev PlainStringHasNoEscaping : Type 0
PlainStringHasNoEscaping = EncodesTo (codes "hello") (codes "'hello'")

plain_string_has_no_escaping : PlainStringHasNoEscaping
unfolding from_utf8 encode_string_literal sqlx_monetdb.Text.Utf8.as_bytes
plain_string_has_no_escaping = refl
