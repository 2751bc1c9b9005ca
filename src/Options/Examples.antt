-- ===== src/Options/Examples.antt =====
-- A session with a login behind a local retry, a query that is refused and one that is answered.
use sqlx_monetdb.Prelude.{◌≡◌, refl, [], ok, map, arith, inl, inr}
use sqlx_monetdb.Text.{codes}
use sqlx_monetdb.Response.Lines.{parse_response}
use sqlx_monetdb.Session.Queries.{execute_all, outcome_of}
use sqlx_monetdb.Session.Examples.{
  Wire, wired, wired_peer, at_start, toy_crates, user, challenge_line, login_line, retries,
  exchanges, toy-Answers, ok-Fits, denial-Fits, done-Fits,
}
use sqlx_monetdb.Options.{MonetConnectOptions, connect_with}
use sqlx_monetdb.Options.Sessions.{script, sends, connect_with-Ready}

abbrev options : MonetConnectOptions Unit
options = record {
  host = codes "db.example";
  port = 50000;
  username = user;
  password = user;
  database = user;
  log_settings = tt;
}

abbrev beginning : Wire
beginning = at_start (
    script wired wired_peer toy_crates 99 options retries challenge_line (codes "=OK") (codes "=OK")
      exchanges)

connect_with-Ready_example :
    (opened : Wire) × (after : Wire) × (connect_with wired toy_crates 99 options beginning
      ≡ (ok tt, opened))
    × (execute_all wired wired_peer 99 tt (map (λ q. q.0) exchanges) opened
        ≡ (map (λ q. outcome_of (parse_response q.1)) exchanges, after))
    × (after ≡ record {
      incoming = [];
      unsent = [];
      gone = sends wired wired_peer toy_crates 99 options retries login_line exchanges;
    })
connect_with-Ready_example =
    connect_with-Ready wired wired_peer toy_crates 99 options beginning beginning tt retries
      challenge_line login_line (codes "=OK") (codes "=OK") exchanges refl (omega arith) toy-Answers
      (inr (inl refl)) ok-Fits ok-Fits (denial-Fits, (done-Fits, tt)) refl
