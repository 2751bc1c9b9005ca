-- ===== src/Session/Refusals.antt =====
-- A login that a server refuses behind a local retry.
use sqlx_monetdb.Prelude.{◌≡◌, refl, [], ◌∷◌, ◌++◌, err, arith, replicate}
use sqlx_monetdb.Text.{Text, codes}
use sqlx_monetdb.Text.Utf8.{as_bytes, encode_char}
use sqlx_monetdb.Framing.{Bytes, encode_message, write_chunks, chunks}
use sqlx_monetdb.Session.{perform_handshake}
use sqlx_monetdb.Session.Peers.{wire_of, Fits}
use sqlx_monetdb.Session.Logins.{retries_wire, logins_wire}
use sqlx_monetdb.Session.Rejections.{refusal, perform_handshake-rejected}
use sqlx_monetdb.Session.Examples.{
  Wire, wired, wired_peer, at_start, toy_crates, user, challenge_line, login_line, toy-Answers,
  retries,
}

abbrev message : Text
message = codes "InvalidCredentialsException:checkCredentials"

message-Fits : Fits wired wired_peer 99 (b'!' ∷ message)
unfolding encode_message as_bytes write_chunks chunks encode_char
message-Fits = (omega arith, omega arith)

abbrev refused_script : Bytes
refused_script =
    retries_wire wired wired_peer toy_crates 99 user user user retries
    ++ (wire_of wired wired_peer challenge_line
        ++ (wire_of wired wired_peer (b'!' ∷ message) ++ []))

perform_handshake-rejected_example :
    (after : Wire) × (perform_handshake wired toy_crates 99 user user user user 50000
        (at_start refused_script)
      ≡ (err (refusal message), after))
    × (after ≡ record {
      incoming = [];
      unsent = [];
      gone =
          (replicate 8 0 ++ logins_wire wired wired_peer toy_crates 99 user user user retries)
          ++ wire_of wired wired_peer login_line;
    })
perform_handshake-rejected_example =
    perform_handshake-rejected wired wired_peer toy_crates 99 user user user user 50000
      (at_start refused_script) (at_start refused_script) tt retries challenge_line login_line
      message [] refl (omega arith) toy-Answers message-Fits refl
