-- ===== src/Rows/ServerTests/Runs.antt =====
-- The test of src/row.rs against a scripted server.
use sqlx_monetdb.Prelude.{
  ℕ, ◌≡◌, refl, List, [], ◌∷◌, ◌++◌, Option, none, some, Result, ok, err, Fault,
}
use sqlx_monetdb.Text.{Text, codes, text_eq}
use sqlx_monetdb.Error.{Message, SqlxError}
use sqlx_monetdb.Types.{SqlType}
use sqlx_monetdb.Values.{MonetValueRef}
use sqlx_monetdb.Rows.{MonetRow, try_get_raw}
use sqlx_monetdb.Rows.SqlxCore.{SqlxCore}
use sqlx_monetdb.Rows.ServerTests.{decodes_real_rows_into_rust_types}
use sqlx_monetdb.Session.Examples.{Wire, wired, at_start, toy_crates}
use sqlx_monetdb.Session.ServerTests.Runs.{messages, login}

-- Stand-ins: a value that is there is decoded by its type, and a decimal is its text.
abbrev plain_get : {A : Type 0} → SqlType A → Result (Fault SqlxError) MonetValueRef → Option A
plain_get type (err e) = none
plain_get type (ok value) = elim (type.decode value) [ err m ↦ none | ok a ↦ some a ]

abbrev present : {A : Type 0} → SqlType A → MonetValueRef → Option Text → Result Message (Option A)
present type value none = ok none
present type value (some s) = elim (type.decode value) [ err m ↦ err m | ok a ↦ ok (some a) ]

abbrev encoded : {A : Type 0} → SqlType A → Option A → List ℕ → List ℕ
encoded type none buf = buf
encoded type (some a) buf = type.encode_by_ref a buf

abbrev pub plain_core : SqlxCore Text
plain_core = record {
  try_get = λ type index row. plain_get type (try_get_raw index row);
  optional = λ type. record {
    type_info = type.type_info;
    compatible = type.compatible;
    decode = λ value. present type value value.value_data;
    encode_by_ref = encoded type;
  };
  from_text = λ s. some s;
  to_text = λ s. s;
  same = text_eq;
}

abbrev rows_text : Text
rows_text =
    codes "&1 0 2 4 2\n"
    ++ (codes "% t,\tt,\tt,\tt # table_name\n"
        ++ (codes "% id,\tname,\tprice,\tactive # name\n"
            ++ (codes "% int,\tvarchar,\tdecimal,\tboolean # type\n"
                ++ (codes "[ 1,\t\"widget\",\t9.99,\ttrue\t]\n"
                    ++ codes "[ 2,\tNULL,\t100.50,\tfalse\t]\n"))))

rows_run :
    (after : Wire) × (decodes_real_rows_into_rust_types wired toy_crates plain_core 999 50001 (
        at_start (
          messages (
            login
            ++ (codes "!42S02!no such table"
                ∷ codes "&3 1 2"
                ∷ codes "&2 2 -1"
                ∷ rows_text
                ∷ codes "&3 1 2"
                ∷ []))))
      ≡ (ok tt, after))
unfolding decodes_real_rows_into_rust_types sqlx_monetdb.Rows.ServerTests.rows_as_inserted
    sqlx_monetdb.Session.execute_query sqlx_monetdb.Response.encode_query
    sqlx_monetdb.Response.Lines.parse_response sqlx_monetdb.Response.Lines.parse_line
    sqlx_monetdb.Response.Lines.parse_update_line sqlx_monetdb.Response.Lines.parse_table_header
    sqlx_monetdb.Text.Trim.is_whitespace sqlx_monetdb.Text.Split.rsplit_once
    sqlx_monetdb.Response.Headers.parse_header_values
    sqlx_monetdb.Response.Headers.apply_header_values sqlx_monetdb.Response.Fields.unescape_field
    sqlx_monetdb.Response.Fields.parse_tuple_fields sqlx_monetdb.Text.Trim.split_whitespace
    sqlx_monetdb.Response.Headers.setter sqlx_monetdb.Response.Headers.update_columns
    sqlx_monetdb.Response.Headers.grow sqlx_monetdb.Response.Headers.set_name
    sqlx_monetdb.Response.Headers.set_type sqlx_monetdb.Response.Headers.set_length
    sqlx_monetdb.Response.Headers.length_value sqlx_monetdb.Response.Headers.parse_field
    sqlx_monetdb.Response.from_response_error sqlx_monetdb.Rows.from_table_result
    sqlx_monetdb.Rows.columns_from sqlx_monetdb.Rows.try_get_raw sqlx_monetdb.Rows.index_at
    sqlx_monetdb.Rows.index_of sqlx_monetdb.Types.integer_type sqlx_monetdb.Types.string_type
    sqlx_monetdb.Types.boolean_type sqlx_monetdb.Types.printed_type sqlx_monetdb.Values.value_text
    sqlx_monetdb.Text.Number.parse_signed sqlx_monetdb.Session.perform_handshake
    sqlx_monetdb.Session.handshake_rounds sqlx_monetdb.Session.handshake_round
    sqlx_monetdb.Session.connect sqlx_monetdb.Session.send_prime_bytes
    sqlx_monetdb.Session.read_text_message sqlx_monetdb.Session.read_message
    sqlx_monetdb.Session.write_message sqlx_monetdb.Session.answer_login
    sqlx_monetdb.Framing.decode_header sqlx_monetdb.Framing.encode_message
    sqlx_monetdb.Text.Utf8.as_bytes sqlx_monetdb.Framing.write_chunks sqlx_monetdb.Framing.chunks
    sqlx_monetdb.Framing.encode_header sqlx_monetdb.Text.Utf8.from_utf8
    sqlx_monetdb.Handshake.parse_challenge sqlx_monetdb.Text.Split.split
    sqlx_monetdb.Handshake.compute_password_hash sqlx_monetdb.Handshake.hash_hex
    sqlx_monetdb.Handshake.select_hash_algorithm sqlx_monetdb.Handshake.parse_endian
    sqlx_monetdb.Handshake.option_level sqlx_monetdb.Handshake.build_login_response
    sqlx_monetdb.Handshake.parse_login_response sqlx_monetdb.Text.Trim.trim_end_by
    sqlx_monetdb.Text.Utf8.encode_char sqlx_monetdb.Text.text_eq sqlx_monetdb.Text.Split.join
    sqlx_monetdb.Session.open_stream
rows_run = (_, refl)
