-- ===== src/Session/Endings.antt =====
-- Reading a message, and the answer to a query, from a stream that ends.
use sqlx_monetdb.Prelude.{
  ℕ, ◌∙◌, ◌≡◌, ◌<◌, refl, ap, [], ◌∷◌, ◌++◌, arith, ok, err, take, drop, take-append, drop-append,
  length, length-append, if◌then◌else◌, ltb,
}
use sqlx_monetdb.Text.{codes}
use sqlx_monetdb.Error.{io_error, unexpected_eof}
use sqlx_monetdb.Framing.{Bytes, decode_message}
use sqlx_monetdb.Session.Actions.{failed}
use sqlx_monetdb.Session.{Network, read_message, execute_query, perform_handshake}
use sqlx_monetdb.Session.Answered.{HalfClosed, Left, answer_outcome, execute_query-answer_outcome}
use sqlx_monetdb.Handshake.{Hashes}
use sqlx_monetdb.Session.Settles.{Settles, Holding, Servers}
use sqlx_monetdb.Session.Ends.{perform_handshake-Settles}
use sqlx_monetdb.Session.Slices.{Closed, Agrees, read_message-Agrees}

abbrev ending : Network Bytes Unit
ending = record {
  connect_tcp = λ host port w. (ok tt, w);
  read_buffered = λ stream n w.
      (if ltb (length w) n
        then (err (failed (io_error unexpected_eof)), [])
        else (ok (take n w), drop n w));
  put_slice = λ stream payload w. w;
  flush = λ stream w. (ok tt, w);
  shutdown = λ stream w. (ok tt, w);
  shrink_buffers = λ stream w. w;
}

ending_held : (p q : Bytes) → ending.read_buffered tt (length p) (p ++ q) ≡ (ok p, q)
ending_held p q = rw (take-append p q, drop-append p q) (ground (arith, length-append p q))

ending_ended :
    (q : Bytes) (n : ℕ)
    → length q < n
    → ending.read_buffered tt n q ≡ (err (failed (io_error unexpected_eof)), [])
ending_ended q n h = ground arith

abbrev ending_closed : Closed ending
ending_closed = record {
  Holds = λ w stream bytes. w ≡ bytes;
  held = λ w stream p q h. (q, ap (ending.read_buffered tt (length p)) h ∙ ending_held p q, refl);
  ended = λ w stream q n h lt. ([], ap (ending.read_buffered tt n) h ∙ ending_ended q n lt);
}

-- A message that is cut short.
abbrev cut : Bytes
cut = 5 ∷ 0 ∷ b'h' ∷ []

read_message-Agrees_example :
    Agrees ending ending_closed tt cut (decode_message cut) (read_message ending 9 tt cut)
read_message-Agrees_example =
    read_message-Agrees ending ending_closed 9 cut tt cut (omega arith) refl

abbrev ending_half : HalfClosed ending
ending_half = record { closed = ending_closed; sends = λ w stream payload incoming h. (w, refl, h) }

-- A refusal in one block, and the first byte of a header behind it.
abbrev refused : Bytes
refused = 7 ∷ 0 ∷ b'!' ∷ b'n' ∷ b'o' ∷ 9 ∷ []

execute_query-answer_outcome_example :
    (after : Bytes) × (execute_query ending 9 tt (codes "SELECT 1") refused
      ≡ (answer_outcome (decode_message refused), after))
    × Left ending ending_half after tt refused (decode_message refused)
execute_query-answer_outcome_example =
    execute_query-answer_outcome ending ending_half 9 refused tt (codes "SELECT 1") refused
      (omega arith) refl

-- A server that sends the same bytes on each connection and closes it.
abbrev repeating : Network Bytes Unit
repeating = record ending { connect_tcp = λ host port w. (ok tt, refused) }

abbrev repeating_servers : Servers repeating 6
repeating_servers = record {
  closed = record {
    Holds = ending_closed.Holds;
    held = ending_closed.held;
    ended = ending_closed.ended;
  };
  connects = λ host port w. (refused, refl, omega arith);
  writes = λ stream payload w h. h;
}

abbrev no_crates : Hashes
no_crates = record {
  ripemd160 = λ s. s;
  sha512 = λ s. s;
  sha384 = λ s. s;
  sha256 = λ s. s;
  sha224 = λ s. s;
  sha1 = λ s. s;
  hex_encode = λ s. s;
}

perform_handshake-Settles_example :
    Settles
      (λ stream world. Holding repeating_servers.closed 6 stream world)
      (perform_handshake repeating no_crates 9
        (codes "u")
        (codes "p")
        (codes "d")
        (codes "h")
        50000
        [])
perform_handshake-Settles_example =
    perform_handshake-Settles repeating 6 repeating_servers 9 (omega arith) no_crates (codes "u")
      (codes "p") (codes "d") (codes "h") 50000 []
