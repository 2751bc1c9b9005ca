-- ===== src/Types.antt =====
-- The Rust types that stand for SQL types, src/types. `Type`, `Decode` and `Encode` of one Rust
-- type are one record; every `encode_by_ref` here answers `IsNull::No`, so it is the new buffer.
-- The parsers and printers of floats, decimals and times are not this repository's: they are
-- arguments of the instances.
pub mod Literals
pub mod RoundTrip
pub mod Tests
pub mod UnitTests
use sqlx_monetdb.Prelude.{
  ℕ, ◌+◌, ◌-◌, Bool, true, false, ◌||◌, ◌&&◌, List, [], ◌∷◌, ◌++◌, Option, none, some, Result, ok,
  err, ◌>>=◌, ok_or, leb, if◌then◌else◌, length, take,
}
use sqlx_monetdb.Text.{Text, codes, text_eq}
use sqlx_monetdb.Text.Split.{split}
use sqlx_monetdb.Text.Number.{ℤ, parse_signed, print_signed}
use sqlx_monetdb.Text.Utf8.{as_bytes}
use sqlx_monetdb.Error.{Message, invalid_boolean, invalid_number}
use sqlx_monetdb.Values.{MonetTypeInfo, MonetValueRef, new_type_info, value_text}

abbrev pub ascii_lower : ℕ → ℕ
ascii_lower c = if leb b'A' c && leb c b'Z' then c + 32 else c

-- `a.eq_ignore_ascii_case(b)`
unfoldable pub eq_ignore_ascii_case : Text → Text → Bool
eq_ignore_ascii_case a b = text_eq (lower a) (lower b)
  where
    lower : Text → Text
    lower [] = []
    lower (c ∷ s) = ascii_lower c ∷ lower s

-- `names.iter().any(..)`
unfoldable pub compatible_with_names : MonetTypeInfo → List Text → Bool
compatible_with_names ty [] = false
compatible_with_names ty (n ∷ names) =
    eq_ignore_ascii_case ty.name n || compatible_with_names ty names

pub record SqlType (A : Type 0) : Type 0 where
  pub type_info : MonetTypeInfo
  pub compatible : MonetTypeInfo → Bool
  pub decode : MonetValueRef → Result Message A
  pub encode_by_ref : A → List ℕ → List ℕ

boolean_of : Text → Result Message Bool
boolean_of text =
    if text_eq text (codes "true")
    then ok true
    else if text_eq text (codes "false")
    then ok false
    else err (invalid_boolean text)

abbrev pub boolean_literal : Bool → Text
boolean_literal true = codes "true"
boolean_literal false = codes "false"

unfoldable pub boolean_type : SqlType Bool
unfolding boolean_of
boolean_type = record {
  type_info = new_type_info (codes "boolean");
  compatible = λ ty. compatible_with_names ty (codes "boolean" ∷ []);
  decode = λ value. value_text value >>= boolean_of;
  encode_by_ref = λ b buf. buf ++ as_bytes (boolean_literal b);
}

-- `impl_integer_type!` at a type of `width` bits.
unfoldable pub integer_type : ℕ → Text → List Text → SqlType ℤ
integer_type width canonical_name aliases = record {
  type_info = new_type_info canonical_name;
  compatible = λ ty. compatible_with_names ty aliases;
  decode =
      λ value. value_text value >>= λ text. ok_or (parse_signed width text) (invalid_number text);
  encode_by_ref = λ z buf. buf ++ as_bytes (print_signed z);
}

abbrev pub i8_type : SqlType ℤ
i8_type = integer_type 8 (codes "tinyint") (codes "tinyint" ∷ [])

abbrev pub i16_type : SqlType ℤ
i16_type = integer_type 16 (codes "smallint") (codes "smallint" ∷ codes "shortint" ∷ [])

abbrev pub i32_type : SqlType ℤ
i32_type =
    integer_type 32 (codes "int")
      (codes "int" ∷ codes "integer" ∷ codes "mediumint" ∷ codes "serial" ∷ [])

abbrev pub i64_type : SqlType ℤ
i64_type = integer_type 64 (codes "bigint") (codes "bigint" ∷ codes "longint" ∷ [])

-- `impl_float_type!`, and `Decimal`, which has the same three bodies; `parse` and `print` are the
-- `FromStr` and the `Display` of the type.
unfoldable pub printed_type :
    {A : Type 0} → (Text → Option A) → (A → Text) → Text → List Text → SqlType A
printed_type parse print canonical_name aliases = record {
  type_info = new_type_info canonical_name;
  compatible = λ ty. compatible_with_names ty aliases;
  decode = λ value. value_text value >>= λ text. ok_or (parse text) (invalid_number text);
  encode_by_ref = λ x buf. buf ++ as_bytes (print x);
}

abbrev pub f32_type : {A : Type 0} → (Text → Option A) → (A → Text) → SqlType A
f32_type parse print = printed_type parse print (codes "real") (codes "real" ∷ codes "float" ∷ [])

abbrev pub f64_type : {A : Type 0} → (Text → Option A) → (A → Text) → SqlType A
f64_type parse print = printed_type parse print (codes "double") (codes "double" ∷ [])

abbrev pub decimal_type : {A : Type 0} → (Text → Option A) → (A → Text) → SqlType A
decimal_type parse print =
    printed_type parse print (codes "decimal") (codes "decimal" ∷ codes "numeric" ∷ [])

-- `PREFIX '{}'` with the printed time between the quotes.
abbrev pub cast_literal : Text → Text → Text
cast_literal keyword printed = keyword ++ (b' ' ∷ b'\'' ∷ (printed ++ b'\'' ∷ []))

-- What the three `chrono` types share; `parse` and `format` are `chrono`'s at the format of the type.
unfoldable pub temporal_type :
    {A : Type 0} → (Text → Option A) → (A → Text) → Text → Text → SqlType A
temporal_type parse format keyword name = record {
  type_info = new_type_info name;
  compatible = λ ty. compatible_with_names ty (name ∷ []);
  decode = λ value. value_text value >>= λ text. ok_or (parse text) (invalid_number text);
  encode_by_ref = λ x buf. buf ++ as_bytes (cast_literal keyword (format x));
}

abbrev pub date_format : Text
date_format = codes "%Y-%m-%d"

abbrev pub time_format : Text
time_format = codes "%H:%M:%S%.f"

abbrev pub timestamp_format : Text
timestamp_format = codes "%Y-%m-%d %H:%M:%S%.f"

-- The arguments are `parse_from_str(text, format)` and `format(format)` of the three types.
abbrev pub date_type : {A : Type 0} → (Text → Text → Option A) → (A → Text → Text) → SqlType A
date_type parse_from_str format =
    temporal_type (λ s. parse_from_str s date_format) (λ x. format x date_format) (codes "DATE")
      (codes "date")

abbrev pub time_type : {A : Type 0} → (Text → Text → Option A) → (A → Text → Text) → SqlType A
time_type parse_from_str format =
    temporal_type (λ s. parse_from_str s time_format) (λ x. format x time_format) (codes "TIME")
      (codes "time")

abbrev pub timestamp_type : {A : Type 0} → (Text → Text → Option A) → (A → Text → Text) → SqlType A
timestamp_type parse_from_str format =
    temporal_type (λ s. parse_from_str s timestamp_format) (λ x. format x timestamp_format)
      (codes "TIMESTAMP") (codes "timestamp")

-- The loop of `encode_string_literal` over the chunks between the quotes of the text.
unfoldable pub push_chunks : List Text → List ℕ → List ℕ
push_chunks [] buf = buf
push_chunks (chunk ∷ chunks) buf =
    push_chunks chunks ((buf ++ as_bytes chunk) ++ (b'\'' ∷ b'\'' ∷ []))

-- `buf.truncate(buf.len() - 1)` drops the last byte.
unfoldable pub encode_string_literal : Text → List ℕ → List ℕ
unfolding push_chunks split
encode_string_literal s buf =
    let out = push_chunks (split s b'\'') (buf ++ b'\'' ∷ []) in take (length out - 1) out

abbrev pub string_type_names : List Text
string_type_names =
    codes "char"
    ∷ codes "varchar"
    ∷ codes "clob"
    ∷ codes "str"
    ∷ codes "url"
    ∷ codes "json"
    ∷ codes "xml"
    ∷ []

-- `String` and `&str`.
unfoldable pub string_type : SqlType Text
string_type = record {
  type_info = new_type_info (codes "varchar");
  compatible = λ ty. compatible_with_names ty string_type_names;
  decode = value_text;
  encode_by_ref = encode_string_literal;
}
