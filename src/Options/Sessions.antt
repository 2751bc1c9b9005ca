-- ===== src/Options/Sessions.antt =====
-- A whole session: `connect` of src/options.rs and the queries on the connection that it gives.
use sqlx_monetdb.Prelude.{ℕ, ◌≡◌, ◌≤◌, List, [], ◌++◌, ok, replicate, length, map, All}
use sqlx_monetdb.Text.{Text}
use sqlx_monetdb.Framing.{Bytes}
use sqlx_monetdb.Handshake.{Hashes}
use sqlx_monetdb.Handshake.Logins.{IsWelcome}
use sqlx_monetdb.Response.Lines.{parse_response}
use sqlx_monetdb.Session.{Network}
use sqlx_monetdb.Session.Peers.{Peer, Ready, wire_of, Fits}
use sqlx_monetdb.Session.Queries.{
  execute_all, outcome_of, answers_wire, requests_wire, execute_all-Ready,
}
use sqlx_monetdb.Session.Logins.{
  Answers, Retry, retries_wire, logins_wire, reply_size_wire, perform_handshake-Ready,
}
use sqlx_monetdb.Options.{MonetConnectOptions, connect_with}

module _ {W S L : Type 0} (net : Network W S) (peer : Peer net) (crates : Hashes) (fuel : ℕ)
    (options : MonetConnectOptions L) where
  -- What the server sends in a session, from its first challenge to the last answer.
  abbrev pub script :
      List (Retry net peer crates fuel options.username options.password options.database)
      → Text
      → Text
      → Text
      → List (Text × Text)
      → Bytes
  script retries challenge_line answer reply qs =
      retries_wire net peer crates fuel options.username options.password options.database retries
      ++ (wire_of net peer challenge_line
          ++ (wire_of net peer answer
              ++ (wire_of net peer reply ++ (answers_wire net peer qs ++ []))))

  -- What the driver sends in a session, up to its last query.
  abbrev pub sends :
      List (Retry net peer crates fuel options.username options.password options.database)
      → Text
      → List (Text × Text)
      → Bytes
  sends retries login_line qs =
      (((replicate 8 0
            ++ logins_wire net peer crates fuel options.username options.password options.database
                retries)
          ++ wire_of net peer login_line)
        ++ reply_size_wire net peer crates fuel options.username options.password options.database)
      ++ requests_wire net peer qs

  -- A session from the options to its last query: the driver connects to the host and the port of
  -- the options, logs in with their user, password and database behind at most nine local retries,
  -- and sends any queries one after another. The login gives a stream on which every query has the
  -- outcome of its own answer, and at the end all that the server sent is read and all that went out
  -- is the prime bytes, the logins, the command that asks for whole results and the queries, in this
  -- order. The connection has to open, the challenges have to be ones that can be answered, the last
  -- answer has to be a welcome, and the texts have to fit the fuel.
  pub connect_with-Ready :
      (world connected : W) (stream : S)
      (retries : List
        (Retry net peer crates fuel options.username options.password options.database))
      (challenge_line login_line answer reply : Text) (qs : List (Text × Text))
      → net.connect_tcp options.host options.port world ≡ (ok stream, connected)
      → length retries ≤ 9
      → Answers net peer crates fuel options.username options.password options.database
          challenge_line login_line
      → IsWelcome answer
      → Fits net peer fuel answer
      → Fits net peer fuel reply
      → All (λ q. Fits net peer fuel q.1) qs
      → Ready net peer connected stream (script retries challenge_line answer reply qs) []
      → (opened : W) × (after : W) × (connect_with net crates fuel options world
          ≡ (ok stream, opened))
        × (execute_all net peer fuel stream (map (λ q. q.0) qs) opened
            ≡ (map (λ q. outcome_of (parse_response q.1)) qs, after))
        × Ready net peer after stream [] (sends retries login_line qs)
  unfolding connect_with
  connect_with-Ready world connected stream retries challenge_line login_line answer reply qs hc le
        a welcome ha hr hs h =
      let (opened, logged, h1) =
        perform_handshake-Ready net peer crates fuel options.username options.password
          options.database options.host options.port world connected stream retries challenge_line
          login_line answer reply (answers_wire net peer qs ++ []) hc le a welcome ha hr h in
      let (after, all, h2) = execute_all-Ready net peer fuel opened stream qs [] _ hs h1 in
      (opened, after, logged, all, h2)
