-- ===== src/Types/UnitTests/Parsed.antt =====
-- The unit tests of src/types/float.rs, src/types/decimal.rs and src/types/temporal.rs, as
-- statements of the model. The parsers and the values that the tests expect are those of other
-- crates: what they parse is a hypothesis, and the tests say that each type hands its text on.
use sqlx_monetdb.Prelude.{ℕ, ◌≡◌, ap, Option, none, some, ok, err, ok_or}
use sqlx_monetdb.Text.{Text, codes}
use sqlx_monetdb.Error.{Message, invalid_number}
use sqlx_monetdb.Values.{new_type_info, new_value}
use sqlx_monetdb.Types.{
  SqlType, f32_type, f64_type, decimal_type, date_type, time_type, timestamp_type, date_format,
  time_format, timestamp_format,
}

-- `T::decode(MonetValueRef::new(text, &ty))` succeeds with a value, or fails.
abbrev DecodesTo : {A : Type 0} → SqlType A → Text → Text → A → Type 0
DecodesTo type name s x = type.decode (new_value s (new_type_info name)) ≡ ok x

abbrev Rejects : {A : Type 0} → SqlType A → Text → Text → Type 0
Rejects type name s = (m : Message) × (type.decode (new_value s (new_type_info name)) ≡ err m)

module _ {F32 F64 : Type 0} (parse32 : Text → Option F32) (print32 : F32 → Text)
    (parse64 : Text → Option F64) (print64 : F64 → Text) where
  abbrev DecodesFloats : F64 → F32 → Type 0
  DecodesFloats three_and_a_quarter two_and_a_half =
      DecodesTo (f64_type parse64 print64) (codes "double") (codes "3.25") three_and_a_quarter
      × DecodesTo (f32_type parse32 print32) (codes "double") (codes "2.5") two_and_a_half

  decodes_floats :
      (x : F64) (y : F32)
      → parse64 (codes "3.25") ≡ some x
      → parse32 (codes "2.5") ≡ some y
      → DecodesFloats x y
  unfolding sqlx_monetdb.Types.printed_type sqlx_monetdb.Values.value_text
  decodes_floats x y hx hy = (
    ap (λ o. ok_or o (invalid_number (codes "3.25"))) hx,
    ap (λ o. ok_or o (invalid_number (codes "2.5"))) hy,
  )

  abbrev RejectsNonNumericFloat : Type 0
  RejectsNonNumericFloat = Rejects (f64_type parse64 print64) (codes "double") (codes "nope")

  rejects_non_numeric_float : parse64 (codes "nope") ≡ none → RejectsNonNumericFloat
  unfolding sqlx_monetdb.Types.printed_type sqlx_monetdb.Values.value_text
  rejects_non_numeric_float h =
      (invalid_number (codes "nope"), ap (λ o. ok_or o (invalid_number (codes "nope"))) h)

module _ {Decimal : Type 0} (parse : Text → Option Decimal) (print : Decimal → Text)
    (scale : Decimal → ℕ) where
  abbrev DecodesDecimalPreservingScaleFromText : Type 0
  DecodesDecimalPreservingScaleFromText =
      (decoded : Decimal) × DecodesTo (decimal_type parse print) (codes "decimal") (codes "9.99")
        decoded
      × (parse (codes "9.99") ≡ some decoded)
      × (scale decoded ≡ 2)

  decodes_decimal_preserving_scale_from_text :
      (d : Decimal)
      → parse (codes "9.99") ≡ some d
      → scale d ≡ 2
      → DecodesDecimalPreservingScaleFromText
  unfolding sqlx_monetdb.Types.printed_type sqlx_monetdb.Values.value_text
  decodes_decimal_preserving_scale_from_text d h hs =
      (d, ap (λ o. ok_or o (invalid_number (codes "9.99"))) h, h, hs)

  abbrev RejectsNonNumericDecimal : Type 0
  RejectsNonNumericDecimal = Rejects (decimal_type parse print) (codes "decimal") (codes "nope")

  rejects_non_numeric_decimal : parse (codes "nope") ≡ none → RejectsNonNumericDecimal
  unfolding sqlx_monetdb.Types.printed_type sqlx_monetdb.Values.value_text
  rejects_non_numeric_decimal h =
      (invalid_number (codes "nope"), ap (λ o. ok_or o (invalid_number (codes "nope"))) h)

-- `chrono`'s types, with the values that its constructors give.
module _ {Date Time : Type 0} (parse_date : Text → Text → Option Date)
    (format_date : Date → Text → Text) (parse_time : Text → Text → Option Time)
    (format_time : Time → Text → Text) where
  abbrev DecodesDate : Date → Type 0
  DecodesDate day =
      DecodesTo (date_type parse_date format_date) (codes "date") (codes "2026-07-28") day

  decodes_date :
      (day : Date) → parse_date (codes "2026-07-28") date_format ≡ some day → DecodesDate day
  unfolding sqlx_monetdb.Types.temporal_type sqlx_monetdb.Values.value_text
  decodes_date day h = ap (λ o. ok_or o (invalid_number (codes "2026-07-28"))) h

  abbrev RejectsMalformedDate : Type 0
  RejectsMalformedDate =
      Rejects (date_type parse_date format_date) (codes "date") (codes "not-a-date")

  rejects_malformed_date : parse_date (codes "not-a-date") date_format ≡ none → RejectsMalformedDate
  unfolding sqlx_monetdb.Types.temporal_type sqlx_monetdb.Values.value_text
  rejects_malformed_date h = (
    invalid_number (codes "not-a-date"),
    ap (λ o. ok_or o (invalid_number (codes "not-a-date"))) h,
  )

  abbrev DecodesTimeWithFractionalSeconds : Time → Type 0
  DecodesTimeWithFractionalSeconds time =
      DecodesTo (time_type parse_time format_time) (codes "time") (codes "13:45:30.500000") time

  decodes_time_with_fractional_seconds :
      (time : Time)
      → parse_time (codes "13:45:30.500000") time_format ≡ some time
      → DecodesTimeWithFractionalSeconds time
  unfolding sqlx_monetdb.Types.temporal_type sqlx_monetdb.Values.value_text
  decodes_time_with_fractional_seconds time h =
      ap (λ o. ok_or o (invalid_number (codes "13:45:30.500000"))) h

  abbrev DecodesTimeWithoutFractionalSeconds : Time → Type 0
  DecodesTimeWithoutFractionalSeconds time =
      DecodesTo (time_type parse_time format_time) (codes "time") (codes "13:45:30") time

  decodes_time_without_fractional_seconds :
      (time : Time)
      → parse_time (codes "13:45:30") time_format ≡ some time
      → DecodesTimeWithoutFractionalSeconds time
  unfolding sqlx_monetdb.Types.temporal_type sqlx_monetdb.Values.value_text
  decodes_time_without_fractional_seconds time h =
      ap (λ o. ok_or o (invalid_number (codes "13:45:30"))) h

module _ {Timestamp : Type 0} (parse : Text → Text → Option Timestamp)
    (format : Timestamp → Text → Text) where
  abbrev DecodesTimestamp : Timestamp → Type 0
  DecodesTimestamp timestamp =
      DecodesTo (timestamp_type parse format) (codes "timestamp") (codes "2026-07-28 13:45:30.5")
        timestamp

  decodes_timestamp :
      (timestamp : Timestamp)
      → parse (codes "2026-07-28 13:45:30.5") timestamp_format ≡ some timestamp
      → DecodesTimestamp timestamp
  unfolding sqlx_monetdb.Types.temporal_type sqlx_monetdb.Values.value_text
  decodes_timestamp timestamp h =
      ap (λ o. ok_or o (invalid_number (codes "2026-07-28 13:45:30.5"))) h
