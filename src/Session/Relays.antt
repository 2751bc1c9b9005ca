-- ===== src/Session/Relays.antt =====
-- A server that redirects to another one.
use sqlx_monetdb.Prelude.{
  false, ◌≡◌, refl, [], ◌∷◌, ◌++◌, ok, arith, if◌then◌else◌, ◌==◌, inl, inr, replicate,
}
use sqlx_monetdb.Text.{Text, codes, contains}
use sqlx_monetdb.Text.Utf8.{as_bytes, encode_char}
use sqlx_monetdb.Text.Number.{print_unsigned}
use sqlx_monetdb.Framing.{Bytes, encode_message, write_chunks, chunks}
use sqlx_monetdb.Handshake.Redirects.{target_of}
use sqlx_monetdb.Session.{Network, follow, handshake_round, perform_handshake}
use sqlx_monetdb.Session.Redirects.{first_target}
use sqlx_monetdb.Session.Peers.{Peer, wire_of, Fits}
use sqlx_monetdb.Session.Logins.{Answers, reply_size_wire}
use sqlx_monetdb.Session.Reconnects.{perform_handshake-reconnected}
use sqlx_monetdb.Session.Examples.{
  Wire, wired, wired_peer, at_start, toy_crates, user, challenge_line, login_line, toy-Answers,
  ok-Fits,
}

abbrev address : Text
address = target_of (codes "db2") 50001 (codes "m")

abbrev first_script : Bytes
first_script =
    wire_of wired wired_peer challenge_line ++ (wire_of wired wired_peer (b'^' ∷ address) ++ [])

abbrev second_script : Bytes
second_script =
    wire_of wired wired_peer challenge_line
    ++ (wire_of wired wired_peer (codes "=OK") ++ (wire_of wired wired_peer (codes "=OK") ++ []))

-- The first server listens at port 50000.
abbrev relay : Network Wire Unit
relay = record wired {
  connect_tcp =
      λ host port w. (ok tt, at_start (if port == 50000 then first_script else second_script));
}

abbrev relay_peer : Peer relay
relay_peer = record {
  Talks = wired_peer.Talks;
  reads = wired_peer.reads;
  puts = wired_peer.puts;
  flushes = wired_peer.flushes;
}

relay-Answers : Answers relay relay_peer toy_crates 99 user user user challenge_line login_line
relay-Answers = record {
  challenge = toy-Answers.challenge;
  algo = toy-Answers.algo;
  digest = toy-Answers.digest;
  parsed = toy-Answers.parsed;
  hashed = toy-Answers.hashed;
  built = toy-Answers.built;
  fits = toy-Answers.fits;
}

address-Fits : Fits relay relay_peer 99 (b'^' ∷ address)
unfolding encode_message as_bytes write_chunks chunks encode_char print_unsigned
address-Fits = (omega arith, omega arith)

no_merovingian : contains address (codes "merovingian") ≡ false
unfolding contains print_unsigned
no_merovingian = refl

perform_handshake-reconnected_example :
    (between : Wire) × (after : Wire) × (handshake_round relay toy_crates 99 user user user
        (first_target relay toy_crates 99 user user user (codes "db1") 50000)
        (at_start [])
      ≡ (
        ok (follow (first_target relay toy_crates 99 user user user (codes "db2") 50001)),
        between,
      ))
    × (between ≡ record {
      incoming = [];
      unsent = [];
      gone = replicate 8 0 ++ wire_of relay relay_peer login_line;
    })
    × (perform_handshake relay toy_crates 99 user user user (codes "db1") 50000 (at_start [])
        ≡ (ok tt, after))
    × (after ≡ record {
      incoming = [];
      unsent = [];
      gone =
          (replicate 8 0 ++ wire_of relay relay_peer login_line)
          ++ reply_size_wire relay relay_peer toy_crates 99 user user user;
    })
perform_handshake-reconnected_example =
    perform_handshake-reconnected relay relay_peer toy_crates 99 user user user (codes "db1") 50000
      (at_start []) tt challenge_line login_line [] (codes "db2") 50001 (codes "m") tt
      challenge_line login_line (codes "=OK") (codes "=OK") [] no_merovingian (omega arith)
      (omega arith) relay-Answers address-Fits relay-Answers (inr (inl refl)) ok-Fits ok-Fits
      (λ w. (at_start first_script, refl, refl)) (λ w. (at_start second_script, refl, refl))
