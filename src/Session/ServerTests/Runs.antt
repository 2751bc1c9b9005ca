-- ===== src/Session/ServerTests/Runs.antt =====
-- The tests against a scripted server, whose answers are those that the source's unit tests have
-- from a real one.
use sqlx_monetdb.Prelude.{◌≡◌, refl, List, [], ◌∷◌, ◌++◌, ok}
use sqlx_monetdb.Text.{Text, codes}
use sqlx_monetdb.Framing.{Bytes}
use sqlx_monetdb.Session.Peers.{wire_of}
use sqlx_monetdb.Session.Examples.{Wire, wired, wired_peer, at_start, toy_crates}
use sqlx_monetdb.Session.ServerTests.{
  connects_and_reads_raw_challenge, full_handshake_succeeds, handshake_with_wrong_password_fails,
  full_crud_cycle,
}

-- The wire bytes of one message after another.
abbrev pub messages : List Text → Bytes
messages [] = []
messages (m ∷ ms) = wire_of wired wired_peer m ++ messages ms

abbrev challenge : Text
challenge = codes "s:mserver:9:SHA1:LIT:SHA512:"

challenge_read :
    (after : Wire) × (connects_and_reads_raw_challenge wired toy_crates 99 50001
        (at_start (messages (challenge ∷ [])))
      ≡ (ok tt, after))
unfolding connects_and_reads_raw_challenge sqlx_monetdb.Session.connect
    sqlx_monetdb.Session.send_prime_bytes sqlx_monetdb.Session.read_message
    sqlx_monetdb.Framing.decode_header sqlx_monetdb.Framing.encode_message
    sqlx_monetdb.Text.Utf8.as_bytes sqlx_monetdb.Framing.write_chunks sqlx_monetdb.Framing.chunks
    sqlx_monetdb.Framing.encode_header sqlx_monetdb.Text.Utf8.from_utf8 sqlx_monetdb.Text.contains
challenge_read = (_, refl)

-- The messages of a login that succeeds.
abbrev pub login : List Text
login = challenge ∷ codes "=OK" ∷ codes "=OK" ∷ []

handshake_run :
    (after : Wire) × (full_handshake_succeeds wired toy_crates 99 50001 (at_start (messages login))
      ≡ (ok tt, after))
unfolding full_handshake_succeeds sqlx_monetdb.Session.perform_handshake
    sqlx_monetdb.Session.handshake_rounds sqlx_monetdb.Session.handshake_round
    sqlx_monetdb.Session.connect sqlx_monetdb.Session.send_prime_bytes
    sqlx_monetdb.Session.read_text_message sqlx_monetdb.Session.read_message
    sqlx_monetdb.Session.write_message sqlx_monetdb.Session.answer_login
    sqlx_monetdb.Framing.decode_header sqlx_monetdb.Framing.encode_message
    sqlx_monetdb.Text.Utf8.as_bytes sqlx_monetdb.Framing.write_chunks sqlx_monetdb.Framing.chunks
    sqlx_monetdb.Framing.encode_header sqlx_monetdb.Text.Utf8.from_utf8
    sqlx_monetdb.Handshake.parse_challenge sqlx_monetdb.Text.Split.split
    sqlx_monetdb.Handshake.compute_password_hash sqlx_monetdb.Handshake.hash_hex
    sqlx_monetdb.Handshake.select_hash_algorithm sqlx_monetdb.Handshake.parse_endian
    sqlx_monetdb.Handshake.option_level sqlx_monetdb.Handshake.build_login_response
    sqlx_monetdb.Handshake.parse_login_response sqlx_monetdb.Text.Trim.trim_end_by
    sqlx_monetdb.Text.Utf8.encode_char sqlx_monetdb.Text.text_eq sqlx_monetdb.Text.Split.join
    sqlx_monetdb.Session.open_stream
handshake_run = (_, refl)

wrong_password_run :
    (after : Wire) × (handshake_with_wrong_password_fails wired toy_crates 99 50001
        (at_start (messages (challenge ∷ codes "!InvalidCredentialsException:bad login" ∷ [])))
      ≡ (ok tt, after))
unfolding handshake_with_wrong_password_fails sqlx_monetdb.Session.perform_handshake
    sqlx_monetdb.Session.handshake_rounds sqlx_monetdb.Session.handshake_round
    sqlx_monetdb.Session.connect sqlx_monetdb.Session.send_prime_bytes
    sqlx_monetdb.Session.read_text_message sqlx_monetdb.Session.read_message
    sqlx_monetdb.Session.write_message sqlx_monetdb.Session.answer_login
    sqlx_monetdb.Framing.decode_header sqlx_monetdb.Framing.encode_message
    sqlx_monetdb.Text.Utf8.as_bytes sqlx_monetdb.Framing.write_chunks sqlx_monetdb.Framing.chunks
    sqlx_monetdb.Framing.encode_header sqlx_monetdb.Text.Utf8.from_utf8
    sqlx_monetdb.Handshake.parse_challenge sqlx_monetdb.Text.Split.split
    sqlx_monetdb.Handshake.compute_password_hash sqlx_monetdb.Handshake.hash_hex
    sqlx_monetdb.Handshake.select_hash_algorithm sqlx_monetdb.Handshake.parse_endian
    sqlx_monetdb.Handshake.option_level sqlx_monetdb.Handshake.build_login_response
    sqlx_monetdb.Handshake.parse_login_response sqlx_monetdb.Text.Trim.trim_end_by
    sqlx_monetdb.Text.Utf8.encode_char sqlx_monetdb.Text.text_eq sqlx_monetdb.Text.Split.join
    sqlx_monetdb.Session.open_stream
wrong_password_run = (_, refl)

abbrev captured_text : Text
captured_text =
    codes "&1 0 2 3 2 14 1706 104 125\n"
    ++ (codes "% .t,\tsys.t,\tsys.t # table_name\n"
        ++ (codes "% id,\tname,\tprice # name\n"
            ++ (codes "% int,\tvarchar,\tdecimal # type\n"
                ++ (codes "% 1,\t6,\t12 # length\n"
                    ++ (codes "[ 1,\t\"widget\",\t9.99\t]\n"
                        ++ codes "[ 2,\t\"gadget\",\t19.50\t]\n")))))

abbrev crud_script : Bytes
crud_script = messages (
    login
    ++ (codes "!42S02!no such table"
        ∷ codes "&3 1 2"
        ∷ codes "&2 2 -1 2 12443 2035 108"
        ∷ captured_text
        ∷ codes "&2 1 -1"
        ∷ codes "&2 1 -1"
        ∷ codes "!42S02!no such table 'no_such_table_at_all'"
        ∷ codes "&3 1 2"
        ∷ []))

crud_run :
    (after : Wire) × (full_crud_cycle wired toy_crates 999 50001 (at_start crud_script)
      ≡ (ok tt, after))
unfolding full_crud_cycle sqlx_monetdb.Session.ServerTests.selected_as_expected
    sqlx_monetdb.Session.execute_query sqlx_monetdb.Response.encode_query
    sqlx_monetdb.Response.Lines.parse_response sqlx_monetdb.Response.Lines.parse_line
    sqlx_monetdb.Response.Lines.parse_update_line sqlx_monetdb.Response.Lines.parse_table_header
    sqlx_monetdb.Text.Trim.is_whitespace sqlx_monetdb.Text.Split.rsplit_once
    sqlx_monetdb.Response.Headers.parse_header_values
    sqlx_monetdb.Response.Headers.apply_header_values sqlx_monetdb.Response.Fields.unescape_field
    sqlx_monetdb.Response.Fields.parse_tuple_fields sqlx_monetdb.Text.Trim.split_whitespace
    sqlx_monetdb.Response.Headers.setter sqlx_monetdb.Response.Headers.update_columns
    sqlx_monetdb.Response.Headers.grow sqlx_monetdb.Response.Headers.set_name
    sqlx_monetdb.Response.Headers.set_type sqlx_monetdb.Response.Headers.set_length
    sqlx_monetdb.Response.Headers.length_value sqlx_monetdb.Response.Headers.parse_field
    sqlx_monetdb.Response.from_response_error sqlx_monetdb.Session.perform_handshake
    sqlx_monetdb.Session.handshake_rounds sqlx_monetdb.Session.handshake_round
    sqlx_monetdb.Session.connect sqlx_monetdb.Session.send_prime_bytes
    sqlx_monetdb.Session.read_text_message sqlx_monetdb.Session.read_message
    sqlx_monetdb.Session.write_message sqlx_monetdb.Session.answer_login
    sqlx_monetdb.Framing.decode_header sqlx_monetdb.Framing.encode_message
    sqlx_monetdb.Text.Utf8.as_bytes sqlx_monetdb.Framing.write_chunks sqlx_monetdb.Framing.chunks
    sqlx_monetdb.Framing.encode_header sqlx_monetdb.Text.Utf8.from_utf8
    sqlx_monetdb.Handshake.parse_challenge sqlx_monetdb.Text.Split.split
    sqlx_monetdb.Handshake.compute_password_hash sqlx_monetdb.Handshake.hash_hex
    sqlx_monetdb.Handshake.select_hash_algorithm sqlx_monetdb.Handshake.parse_endian
    sqlx_monetdb.Handshake.option_level sqlx_monetdb.Handshake.build_login_response
    sqlx_monetdb.Handshake.parse_login_response sqlx_monetdb.Text.Trim.trim_end_by
    sqlx_monetdb.Text.Utf8.encode_char sqlx_monetdb.Text.text_eq sqlx_monetdb.Text.Split.join
    sqlx_monetdb.Session.open_stream
crud_run = (_, refl)
