-- ===== src/Session/Tests.antt =====
-- A conversation with a network whose world is the list of the bytes to come, and one with a proxy
-- that redirects for ever.
use sqlx_monetdb.Prelude.{
  ℕ, zero, suc, ◌∙◌, ◌+◌, ◌≡◌, refl, ap, [], ◌∷◌, ◌++◌, arith, ok, err, take, drop, take-append,
  drop-append, length, some, if◌then◌else◌, ◌==◌,
}
use sqlx_monetdb.Text.{Text, codes}
use sqlx_monetdb.Framing.{Bytes, encode_header}
use sqlx_monetdb.Framing.Frames.{Frames, last}
use sqlx_monetdb.Handshake.{Hashes}
use sqlx_monetdb.Session.{
  Network, read_message, Target, follow, logged_in, handshake_round, perform_handshake,
  too_many_redirects,
}
use sqlx_monetdb.Session.Messages.{Delivers, read_message-Frames}
use sqlx_monetdb.Session.Redirects.{
  round, Redirected, stay, again, first_target, perform_handshake-logged_in,
  perform_handshake-tenth,
}

abbrev scripted : Network Bytes Unit
scripted = record {
  connect_tcp = λ host port world. (ok tt, world);
  read_buffered = λ stream n world. (ok (take n world), drop n world);
  put_slice = λ stream payload world. world;
  flush = λ stream world. (ok tt, world);
  shutdown = λ stream world. (ok tt, world);
  shrink_buffers = λ stream world. world;
}

abbrev scripted_delivers : Delivers scripted
scripted_delivers = record {
  Coming = λ world stream bytes. world ≡ bytes;
  delivered = λ world stream p q h. (
    drop (length p) world,
    ap (λ z. (ok (take (length p) z), drop (length p) world)) h
        ∙ ap (λ z. (ok z, drop (length p) world)) (take-append p q),
    ap (drop (length p)) h ∙ drop-append p q,
  );
}

abbrev greeting : Bytes
greeting = codes "hi"

abbrev wire : Bytes
wire = 5 ∷ 0 ∷ greeting

wire-Frames : Frames 100 greeting wire
unfolding encode_header
wire-Frames = last greeting wire (omega arith) refl

read_message-Frames_example :
    (after : Bytes) × (read_message scripted 4 tt (wire ++ (9 ∷ [])) ≡ (ok greeting, after))
    × (after ≡ 9 ∷ [])
read_message-Frames_example =
    read_message-Frames scripted scripted_delivers {limit = 100} {m = greeting} {v = wire} 4
      (wire ++ (9 ∷ [])) tt (9 ∷ []) wire-Frames (omega arith) (omega arith) refl

abbrev toy_crates : Hashes
toy_crates = record {
  ripemd160 = λ s. s;
  sha512 = λ s. s;
  sha384 = λ s. s;
  sha256 = λ s. s;
  sha224 = λ s. s;
  sha1 = λ s. s;
  hex_encode = λ s. s;
}

abbrev challenge_block : Bytes
challenge_block = 45 ∷ 0 ∷ codes "s:m:9:SHA1:LIT:SHA512:"

-- The challenge, the accepted login and the answer to the runtime command.
abbrev login_script : Bytes
login_script = challenge_block ++ (7 ∷ 0 ∷ (codes "=OK" ++ (7 ∷ 0 ∷ codes "=OK")))

abbrev user : Text
user = codes "u"

login_round :
    round scripted toy_crates 9 user user user
      (first_target scripted toy_crates 9 user user user user 50000)
      login_script
    ≡ (ok (logged_in tt), [])
unfolding handshake_round sqlx_monetdb.Session.connect sqlx_monetdb.Session.send_prime_bytes
    sqlx_monetdb.Session.read_text_message read_message sqlx_monetdb.Framing.decode_header
    sqlx_monetdb.Text.Utf8.from_utf8 sqlx_monetdb.Handshake.parse_challenge
    sqlx_monetdb.Text.Split.split sqlx_monetdb.Text.Trim.trim_end_by sqlx_monetdb.Text.text_eq
    sqlx_monetdb.Handshake.parse_endian sqlx_monetdb.Handshake.compute_password_hash
    sqlx_monetdb.Handshake.hash_hex sqlx_monetdb.Handshake.select_hash_algorithm
    sqlx_monetdb.Session.write_message sqlx_monetdb.Session.answer_login
    sqlx_monetdb.Handshake.parse_login_response sqlx_monetdb.Handshake.parse_redirect
    sqlx_monetdb.Text.contains
login_round = refl

logged_in_at_once :
    perform_handshake scripted toy_crates 9 user user user user 50000 login_script ≡ (ok tt, [])
logged_in_at_once =
    perform_handshake-logged_in scripted toy_crates 9 user user user user 50000 0
      (stay _ login_script) (omega arith) login_round

abbrev proxy_cycle : Bytes
proxy_cycle = challenge_block ++ (51 ∷ 0 ∷ codes "^mapi:merovingian://proxy")

abbrev proxy : Network ℕ Unit
proxy = record {
  connect_tcp = λ host port world. (ok tt, world);
  read_buffered = λ stream n world.
      (ok (take n (drop world proxy_cycle)), (if world + n == 51 then 0 else world + n));
  put_slice = λ stream payload world. world;
  flush = λ stream world. (ok tt, world);
  shutdown = λ stream world. (ok tt, world);
  shrink_buffers = λ stream world. world;
}

abbrev start : Target proxy
start = first_target proxy toy_crates 9 user user user user 50000

abbrev retry : Target proxy
retry = record { current_host = user; current_port = 50000; reused_stream = some tt }

first_redirect : round proxy toy_crates 9 user user user start 0 ≡ (ok (follow retry), 0)
unfolding handshake_round sqlx_monetdb.Session.connect sqlx_monetdb.Session.send_prime_bytes
    sqlx_monetdb.Session.read_text_message read_message sqlx_monetdb.Framing.decode_header
    sqlx_monetdb.Text.Utf8.from_utf8 sqlx_monetdb.Handshake.parse_challenge
    sqlx_monetdb.Text.Split.split sqlx_monetdb.Text.Trim.trim_end_by sqlx_monetdb.Text.text_eq
    sqlx_monetdb.Handshake.parse_endian sqlx_monetdb.Handshake.compute_password_hash
    sqlx_monetdb.Handshake.hash_hex sqlx_monetdb.Handshake.select_hash_algorithm
    sqlx_monetdb.Session.write_message sqlx_monetdb.Session.answer_login
    sqlx_monetdb.Handshake.parse_login_response sqlx_monetdb.Handshake.parse_redirect
    sqlx_monetdb.Text.contains
first_redirect = refl

next_redirect : round proxy toy_crates 9 user user user retry 0 ≡ (ok (follow retry), 0)
unfolding handshake_round sqlx_monetdb.Session.connect sqlx_monetdb.Session.send_prime_bytes
    sqlx_monetdb.Session.read_text_message read_message sqlx_monetdb.Framing.decode_header
    sqlx_monetdb.Text.Utf8.from_utf8 sqlx_monetdb.Handshake.parse_challenge
    sqlx_monetdb.Text.Split.split sqlx_monetdb.Text.Trim.trim_end_by sqlx_monetdb.Text.text_eq
    sqlx_monetdb.Handshake.parse_endian sqlx_monetdb.Handshake.compute_password_hash
    sqlx_monetdb.Handshake.hash_hex sqlx_monetdb.Handshake.select_hash_algorithm
    sqlx_monetdb.Session.write_message sqlx_monetdb.Session.answer_login
    sqlx_monetdb.Handshake.parse_login_response sqlx_monetdb.Handshake.parse_redirect
    sqlx_monetdb.Text.contains
next_redirect = refl

Redirected-for_ever : (n : ℕ) → Redirected proxy toy_crates 9 user user user n retry 0 retry 0
Redirected-for_ever zero = stay retry 0
Redirected-for_ever (suc n) = again n retry retry retry 0 0 0 next_redirect (Redirected-for_ever n)

perform_handshake-tenth_example :
    perform_handshake proxy toy_crates 9 user user user user 50000 0 ≡ (err too_many_redirects, 0)
perform_handshake-tenth_example =
    perform_handshake-tenth proxy toy_crates 9 user user user user 50000
      (again 9 start retry retry 0 0 0 first_redirect (Redirected-for_ever 9))
