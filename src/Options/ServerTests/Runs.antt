-- ===== src/Options/ServerTests/Runs.antt =====
-- The test of src/options.rs against a scripted server.
use sqlx_monetdb.Prelude.{◌≡◌, refl, ok}
use sqlx_monetdb.Session.Examples.{Wire, wired, at_start, toy_crates}
use sqlx_monetdb.Session.ServerTests.Runs.{messages, login}
use sqlx_monetdb.Options.ServerTests.{connect_and_close}

close_run :
    (after : Wire) × (connect_and_close wired toy_crates 99 50001 tt (at_start (messages login))
      ≡ (ok tt, after))
unfolding connect_and_close sqlx_monetdb.Options.ServerTests.local_options
    sqlx_monetdb.Connection.close sqlx_monetdb.Options.connect_with sqlx_monetdb.Options.with_host
    sqlx_monetdb.Options.with_port sqlx_monetdb.Options.with_username
    sqlx_monetdb.Options.with_password sqlx_monetdb.Options.with_database
    sqlx_monetdb.Session.perform_handshake sqlx_monetdb.Session.handshake_rounds
    sqlx_monetdb.Session.handshake_round sqlx_monetdb.Session.connect
    sqlx_monetdb.Session.send_prime_bytes sqlx_monetdb.Session.read_text_message
    sqlx_monetdb.Session.read_message sqlx_monetdb.Session.write_message
    sqlx_monetdb.Session.answer_login sqlx_monetdb.Framing.decode_header
    sqlx_monetdb.Framing.encode_message sqlx_monetdb.Text.Utf8.as_bytes
    sqlx_monetdb.Framing.write_chunks sqlx_monetdb.Framing.chunks sqlx_monetdb.Framing.encode_header
    sqlx_monetdb.Text.Utf8.from_utf8 sqlx_monetdb.Handshake.parse_challenge
    sqlx_monetdb.Text.Split.split sqlx_monetdb.Handshake.compute_password_hash
    sqlx_monetdb.Handshake.hash_hex sqlx_monetdb.Handshake.select_hash_algorithm
    sqlx_monetdb.Handshake.parse_endian sqlx_monetdb.Handshake.option_level
    sqlx_monetdb.Handshake.build_login_response sqlx_monetdb.Handshake.parse_login_response
    sqlx_monetdb.Text.Trim.trim_end_by sqlx_monetdb.Text.Utf8.encode_char sqlx_monetdb.Text.text_eq
    sqlx_monetdb.Text.Split.join sqlx_monetdb.Session.open_stream
close_run = (_, refl)
