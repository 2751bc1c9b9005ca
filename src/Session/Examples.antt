-- ===== src/Session/Examples.antt =====
-- Conversations with a peer whose bytes to come are known, over a network that keeps three lists of
-- bytes.
use sqlx_monetdb.Prelude.{
  ℕ, ◌≤◌, err, ltb, if◌then◌else◌, length-append, length-take, Bool-cases, ◌∙◌, ◌≡◌, refl, ap, [],
  ◌∷◌, ◌++◌, List, arith, ok, take, drop, take-append, drop-append, length, none, inl, inr,
  replicate, map,
}
use sqlx_monetdb.Text.{Text, codes}
use sqlx_monetdb.Text.Utf8.{as_bytes}
use sqlx_monetdb.Error.{io_error, unexpected_eof}
use sqlx_monetdb.Session.Actions.{failed}
use sqlx_monetdb.Framing.{Bytes, encode_message, decode_message}
use sqlx_monetdb.Handshake.{Hashes, little, Challenge, build_login_response, default_options}
use sqlx_monetdb.Response.Lines.{parse_response}
use sqlx_monetdb.Session.{Network, execute_query, response_of, perform_handshake}
use sqlx_monetdb.Session.Peers.{Peer, wire_of, Fits}
use sqlx_monetdb.Session.Queries.{
  request_of, execute_all, outcome_of, answers_wire, requests_wire, execute_query-Ready,
  execute_all-Ready,
}
use sqlx_monetdb.Session.Logins.{
  Answers, Retry, retries_wire, logins_wire, reply_size_wire, perform_handshake-Ready,
}
use sqlx_monetdb.Session.Panics.{Exact, Calm, CalmNetwork, perform_handshake-Calm}

pub record Wire : Type 0 where
  pub incoming : Bytes
  pub unsent : Bytes
  pub gone : Bytes

abbrev pub wired : Network Wire Unit
wired = record {
  connect_tcp = λ host port w. (ok tt, w);
  read_buffered = λ stream n w.
      (if ltb (length w.incoming) n
        then (err (failed (io_error unexpected_eof)), w)
        else (ok (take n w.incoming), record w { incoming = drop n w.incoming }));
  put_slice = λ stream payload w. record w { unsent = w.unsent ++ payload };
  flush = λ stream w. (ok tt, record w { unsent = []; gone = w.gone ++ w.unsent });
  shutdown = λ stream w. (ok tt, w);
  shrink_buffers = λ stream w. w;
}

-- What is there is read, and a read of more is an error.
pub wired_reads :
    (p q u o : Bytes)
    → wired.read_buffered tt (length p) (record { incoming = p ++ q; unsent = u; gone = o })
      ≡ (ok p, record { incoming = q; unsent = u; gone = o })
wired_reads p q u o = rw (take-append p q, drop-append p q) (ground (arith, length-append p q))

wired-Exact : (n : ℕ) (w : Wire) → Exact n (wired.read_buffered tt n w).0
wired-Exact n w = elim (Bool-cases (ltb (length w.incoming) n)) [
  | inl short ↦ rw short tt
  | inr whole ↦
      let enough : n ≤ length w.incoming = ground (arith, whole) in
      rw whole (omega (arith, length-take n w.incoming))
]

abbrev pub wired_peer : Peer wired
wired_peer = record {
  Talks = λ w stream i u o. w ≡ record { incoming = i; unsent = u; gone = o };
  reads = λ w stream p q u o h. (
    record { incoming = q; unsent = u; gone = o },
    ap (wired.read_buffered stream (length p)) h ∙ wired_reads p q u o,
    refl,
  );
  puts = λ w stream payload i u o h. ap (wired.put_slice stream payload) h;
  flushes = λ w stream i u o h.
      (record { incoming = i; unsent = []; gone = o ++ u }, ap (wired.flush stream) h, refl);
}

abbrev pub at_start : Bytes → Wire
at_start incoming = record { incoming = incoming; unsent = []; gone = [] }

abbrev denial : Text
denial = codes "!no such table"

abbrev done : Text
done = codes "&3 1 2"

pub denial-Fits : Fits wired wired_peer 99 denial
unfolding encode_message as_bytes sqlx_monetdb.Framing.write_chunks sqlx_monetdb.Framing.chunks
    sqlx_monetdb.Text.Utf8.encode_char
denial-Fits = (omega arith, omega arith)

pub done-Fits : Fits wired wired_peer 99 done
unfolding encode_message as_bytes sqlx_monetdb.Framing.write_chunks sqlx_monetdb.Framing.chunks
    sqlx_monetdb.Text.Utf8.encode_char
done-Fits = (omega arith, omega arith)

execute_query-Ready_example :
    (after : Wire) × (execute_query wired 99 tt
        (codes "SELECT 1")
        (at_start (wire_of wired wired_peer denial ++ []))
      ≡ response_of wired (parse_response denial) after)
    × (after ≡ record { incoming = []; unsent = []; gone = [] ++ request_of (codes "SELECT 1") })
execute_query-Ready_example =
    execute_query-Ready wired wired_peer 99 (at_start (wire_of wired wired_peer denial ++ [])) tt
      (codes "SELECT 1") denial [] [] denial-Fits refl

-- A query that is refused, and one behind it.
abbrev pub exchanges : List (Text × Text)
exchanges = (codes "SELECT 1", denial) ∷ (codes "DROP TABLE t", done) ∷ []

execute_all-Ready_example :
    (after : Wire) × (execute_all wired wired_peer 99 tt
        (map (λ q. q.0) exchanges)
        (at_start (answers_wire wired wired_peer exchanges ++ []))
      ≡ (map (λ q. outcome_of (parse_response q.1)) exchanges, after))
    × (after ≡ record {
      incoming = [];
      unsent = [];
      gone = [] ++ requests_wire wired wired_peer exchanges;
    })
execute_all-Ready_example =
    execute_all-Ready wired wired_peer 99 (at_start (answers_wire wired wired_peer exchanges ++ []))
      tt exchanges [] [] (denial-Fits, (done-Fits, tt)) refl

abbrev pub toy_crates : Hashes
toy_crates = record {
  ripemd160 = λ s. s;
  sha512 = λ s. s;
  sha384 = λ s. s;
  sha256 = λ s. s;
  sha224 = λ s. s;
  sha1 = λ s. s;
  hex_encode = λ s. s;
}

abbrev pub user : Text
user = codes "u"

abbrev pub challenge_line : Text
challenge_line = codes "s:m:9:SHA1:LIT:SHA512:"

abbrev toy_challenge : Challenge
toy_challenge = record {
  salt = codes "s";
  server_type = codes "m";
  protocol_version = codes "9";
  hashes = codes "SHA1" ∷ [];
  server_endian = little;
  server_hash = codes "SHA512";
  handshake_option_level = none;
}

challenge-Fits : Fits wired wired_peer 99 challenge_line
unfolding encode_message as_bytes sqlx_monetdb.Framing.write_chunks sqlx_monetdb.Framing.chunks
    sqlx_monetdb.Text.Utf8.encode_char
challenge-Fits = (omega arith, omega arith)

abbrev pub login_line : Text
login_line =
    build_login_response toy_challenge user (codes "SHA1") (codes "us") user default_options

pub toy-Answers : Answers wired wired_peer toy_crates 99 user user user challenge_line login_line
unfolding sqlx_monetdb.Handshake.parse_challenge sqlx_monetdb.Handshake.compute_password_hash
    sqlx_monetdb.Text.Split.split sqlx_monetdb.Text.Trim.trim_end_by sqlx_monetdb.Text.text_eq
    sqlx_monetdb.Handshake.parse_endian sqlx_monetdb.Handshake.option_level
    sqlx_monetdb.Handshake.hash_hex sqlx_monetdb.Handshake.select_hash_algorithm as_bytes
toy-Answers = record {
  challenge = toy_challenge;
  algo = codes "SHA1";
  digest = codes "us";
  parsed = refl;
  hashed = refl;
  built = refl;
  fits = challenge-Fits;
}

retry-Fits : Fits wired wired_peer 99 (b'^' ∷ codes "mapi:merovingian://proxy")
unfolding encode_message as_bytes sqlx_monetdb.Framing.write_chunks sqlx_monetdb.Framing.chunks
    sqlx_monetdb.Text.Utf8.encode_char
retry-Fits = (omega arith, omega arith)

pub toy_retry : Retry wired wired_peer toy_crates 99 user user user
unfolding sqlx_monetdb.Handshake.parse_redirect sqlx_monetdb.Text.contains
toy_retry = record {
  challenge_line = challenge_line;
  login_line = login_line;
  address = codes "mapi:merovingian://proxy";
  answers = toy-Answers;
  retried = refl;
  fits = retry-Fits;
}

pub ok-Fits : Fits wired wired_peer 99 (codes "=OK")
unfolding encode_message as_bytes sqlx_monetdb.Framing.write_chunks sqlx_monetdb.Framing.chunks
    sqlx_monetdb.Text.Utf8.encode_char
ok-Fits = (omega arith, omega arith)

abbrev pub retries : List (Retry wired wired_peer toy_crates 99 user user user)
retries = toy_retry ∷ []

abbrev login_script : Bytes
login_script =
    retries_wire wired wired_peer toy_crates 99 user user user retries
    ++ (wire_of wired wired_peer challenge_line
        ++ (wire_of wired wired_peer (codes "=OK")
            ++ (wire_of wired wired_peer (codes "=OK") ++ [])))

logged_in_behind_proxy :
    (after : Wire) × (perform_handshake wired toy_crates 99 user user user user 50000
        (at_start login_script)
      ≡ (ok tt, after))
    × (after ≡ record {
      incoming = [];
      unsent = [];
      gone =
          ((replicate 8 0 ++ logins_wire wired wired_peer toy_crates 99 user user user retries)
            ++ wire_of wired wired_peer login_line)
          ++ reply_size_wire wired wired_peer toy_crates 99 user user user;
    })
logged_in_behind_proxy =
    perform_handshake-Ready wired wired_peer toy_crates 99 user user user user 50000
      (at_start login_script) (at_start login_script) tt retries challenge_line login_line
      (codes "=OK") (codes "=OK") [] refl (omega arith) toy-Answers (inr (inl refl)) ok-Fits ok-Fits
      refl

pub wired-CalmNetwork : CalmNetwork wired
wired-CalmNetwork = record {
  connects = λ host port world. tt;
  reads = λ stream n world. wired-Exact n world;
  flushes = λ stream world. tt;
}

perform_handshake-Calm_example :
    Calm (perform_handshake wired toy_crates 99 user user user user 50000)
perform_handshake-Calm_example =
    perform_handshake-Calm wired wired-CalmNetwork toy_crates 99 user user user user 50000
