-- ===== src/Connection/ServerTests/Runs.antt =====
-- The test of src/connection.rs against a scripted server.
use sqlx_monetdb.Prelude.{
  ◌≡◌, refl, List, [], ◌∷◌, ◌++◌, Option, none, some, Result, ok, err, inl, inr,
}
use sqlx_monetdb.Text.{Text, codes}
use sqlx_monetdb.Error.{column_not_found}
use sqlx_monetdb.Options.ServerTests.{local_options}
use sqlx_monetdb.Rows.{MonetRow, MonetQueryResult, default_result, extend}
use sqlx_monetdb.Rows.ServerTests.Runs.{plain_core}
use sqlx_monetdb.Session.Actions.{Stop, failed}
use sqlx_monetdb.Session.Examples.{Wire, wired, at_start, toy_crates}
use sqlx_monetdb.Session.ServerTests.Runs.{messages, login}
use sqlx_monetdb.Connection.{Item}
use sqlx_monetdb.Connection.ServerTests.{Executor, full_sqlx_core_crud_cycle}

-- Stand-ins for the provided methods: the counts and the rows up to the first error.
abbrev counted : MonetQueryResult → List Item → Result Stop MonetQueryResult
counted sum [] = ok sum
counted sum (err e ∷ items) = err (failed e)
counted sum (ok (inl count) ∷ items) = counted (extend sum (count ∷ [])) items
counted sum (ok (inr row) ∷ items) = counted sum items

abbrev gathered : List MonetRow → List Item → Result Stop (List MonetRow)
gathered rows [] = ok rows
gathered rows (err e ∷ items) = err (failed e)
gathered rows (ok (inl count) ∷ items) = gathered rows items
gathered rows (ok (inr row) ∷ items) = gathered (rows ++ row ∷ []) items

abbrev after_items :
    {A : Type 0}
    → (List Item → Result Stop A)
    → Result Stop (List Item) × Wire
    → Result Stop A × Wire
after_items read (ok items, world) = (read items, world)
after_items read (err reason, world) = (err reason, world)

abbrev the_row : Result Stop (Option MonetRow) × Wire → Result Stop MonetRow × Wire
the_row (ok (some row), world) = (ok row, world)
the_row (ok none, world) = (err (failed (column_not_found [])), world)
the_row (err reason, world) = (err reason, world)

abbrev plain_executor : Executor Wire
plain_executor = record {
  execute = λ items world. after_items (counted default_result) (items world);
  fetch_all = λ items world. after_items (gathered []) (items world);
  fetch_one = λ row world. the_row (row world);
}

abbrev one_text : Text
one_text =
    codes "&1 0 1 1 1\n"
    ++ (codes "% t # table_name\n"
        ++ (codes "% name # name\n" ++ (codes "% varchar # type\n" ++ codes "[ \"gadget\"\t]\n")))

abbrev two_text : Text
two_text =
    codes "&1 0 2 3 2\n"
    ++ (codes "% t,\tt,\tt # table_name\n"
        ++ (codes "% id,\tname,\tprice # name\n"
            ++ (codes "% int,\tvarchar,\tdecimal # type\n"
                ++ (codes "[ 1,\t\"widget\",\t9.99\t]\n"
                    ++ codes "[ 2,\t\"gadget\",\t19.50\t]\n"))))

abbrev answers : List Text
answers =
    (codes "&1 0 1 1 1\n% t # table_name\n% v # name\n% tinyint # type\n[ 1\t]")
    ∷ codes "!42S02!no such table"
    ∷ codes "&3 1 2"
    ∷ codes "&2 1 -1"
    ∷ codes "&2 1 -1"
    ∷ two_text
    ∷ one_text
    ∷ codes "&2 1 -1"
    ∷ codes "&2 1 -1"
    ∷ codes "!42S02!no such table 'no_such_table_at_all'"
    ∷ codes "&3 1 2"
    ∷ []

crud_cycle_run :
    (after : Wire) × (full_sqlx_core_crud_cycle wired toy_crates plain_core plain_executor 999
        (local_options tt 50001)
        (at_start (messages (login ++ answers)))
      ≡ (ok tt, after))
unfolding full_sqlx_core_crud_cycle sqlx_monetdb.Connection.ServerTests.rows_as_bound
    sqlx_monetdb.Session.execute_query sqlx_monetdb.Response.encode_query
    sqlx_monetdb.Response.Lines.parse_response sqlx_monetdb.Response.Lines.parse_line
    sqlx_monetdb.Response.Lines.parse_update_line sqlx_monetdb.Response.Lines.parse_table_header
    sqlx_monetdb.Text.Trim.is_whitespace sqlx_monetdb.Text.Split.rsplit_once
    sqlx_monetdb.Response.Headers.parse_header_values
    sqlx_monetdb.Response.Headers.apply_header_values sqlx_monetdb.Response.Fields.unescape_field
    sqlx_monetdb.Response.Fields.parse_tuple_fields sqlx_monetdb.Text.Trim.split_whitespace
    sqlx_monetdb.Response.Headers.setter sqlx_monetdb.Response.Headers.update_columns
    sqlx_monetdb.Response.Headers.grow sqlx_monetdb.Response.Headers.set_name
    sqlx_monetdb.Response.Headers.set_type sqlx_monetdb.Response.Headers.set_length
    sqlx_monetdb.Response.Headers.length_value sqlx_monetdb.Response.Headers.parse_field
    sqlx_monetdb.Response.from_response_error sqlx_monetdb.Rows.from_table_result
    sqlx_monetdb.Rows.columns_from sqlx_monetdb.Rows.try_get_raw sqlx_monetdb.Rows.index_at
    sqlx_monetdb.Rows.index_of sqlx_monetdb.Types.integer_type sqlx_monetdb.Types.string_type
    sqlx_monetdb.Types.boolean_type sqlx_monetdb.Types.printed_type sqlx_monetdb.Values.value_text
    sqlx_monetdb.Text.Number.parse_signed sqlx_monetdb.Connection.ping sqlx_monetdb.Connection.close
    sqlx_monetdb.Connection.fetch_many sqlx_monetdb.Connection.fetch_optional
    sqlx_monetdb.Connection.fetch_first sqlx_monetdb.Connection.items_of
    sqlx_monetdb.Connection.sql_text_of sqlx_monetdb.Connection.run_query
    sqlx_monetdb.Arguments.substitute_into sqlx_monetdb.Arguments.add_argument
    sqlx_monetdb.Options.connect_with sqlx_monetdb.Options.ServerTests.local_options
    sqlx_monetdb.Options.with_host sqlx_monetdb.Options.with_port sqlx_monetdb.Options.with_username
    sqlx_monetdb.Options.with_password sqlx_monetdb.Options.with_database
    sqlx_monetdb.Types.encode_string_literal sqlx_monetdb.Rows.extend
    sqlx_monetdb.Text.Number.print_signed sqlx_monetdb.Text.Number.print_unsigned
    sqlx_monetdb.Session.perform_handshake sqlx_monetdb.Session.handshake_rounds
    sqlx_monetdb.Session.handshake_round sqlx_monetdb.Session.connect
    sqlx_monetdb.Session.send_prime_bytes sqlx_monetdb.Session.read_text_message
    sqlx_monetdb.Session.read_message sqlx_monetdb.Session.write_message
    sqlx_monetdb.Session.answer_login sqlx_monetdb.Framing.decode_header
    sqlx_monetdb.Framing.encode_message sqlx_monetdb.Text.Utf8.as_bytes
    sqlx_monetdb.Framing.write_chunks sqlx_monetdb.Framing.chunks sqlx_monetdb.Framing.encode_header
    sqlx_monetdb.Text.Utf8.from_utf8 sqlx_monetdb.Handshake.parse_challenge
    sqlx_monetdb.Text.Split.split sqlx_monetdb.Handshake.compute_password_hash
    sqlx_monetdb.Handshake.hash_hex sqlx_monetdb.Handshake.select_hash_algorithm
    sqlx_monetdb.Handshake.parse_endian sqlx_monetdb.Handshake.option_level
    sqlx_monetdb.Handshake.build_login_response sqlx_monetdb.Handshake.parse_login_response
    sqlx_monetdb.Text.Trim.trim_end_by sqlx_monetdb.Text.Utf8.encode_char sqlx_monetdb.Text.text_eq
    sqlx_monetdb.Text.Split.join sqlx_monetdb.Session.open_stream
crud_cycle_run = (_, refl)
