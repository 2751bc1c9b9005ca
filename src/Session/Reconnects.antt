-- ===== src/Session/Reconnects.antt =====
-- A login at another server, to which the first one redirects: `perform_handshake` of
-- src/protocol/mod.rs.
use sqlx_monetdb.Prelude.{
  ℕ, ◌-◌, ◌^◌, ◌≤◌, ◌≡◌, refl, ◌∙◌, false, [], ◌∷◌, ◌++◌, ok, replicate, arith,
}
use sqlx_monetdb.Text.{Text, Lacks, codes, contains}
use sqlx_monetdb.Framing.{Bytes}
use sqlx_monetdb.Handshake.{Hashes, parse_login_response, reconnect, parse_redirect}
use sqlx_monetdb.Handshake.Logins.{IsWelcome}
use sqlx_monetdb.Handshake.Redirects.{target_of, parse_redirect-target_of}
use sqlx_monetdb.Session.{
  Network, Target, follow, answer_login, next_target, handshake_round, perform_handshake,
}
use sqlx_monetdb.Session.Peers.{Peer, Ready, wire_of, Fits}
use sqlx_monetdb.Session.Redirects.{stay, again, first_target, perform_handshake-logged_in}
use sqlx_monetdb.Session.Logins.{
  Answers, round-Ready, redirect_read, first_opened, answer_login-accepted, reply_size_wire,
}

module _ {W S : Type 0} (net : Network W S) (peer : Peer net) (crates : Hashes) (fuel : ℕ)
    (username password database : Text) where
  answer_login-reconnect :
      (target : Target net) (stream : S) (address host : Text) (port : ℕ) (world : W)
      → parse_redirect address ≡ ok (reconnect host port)
      → answer_login net crates fuel username password database target stream
          (parse_login_response (b'^' ∷ address))
          world
        ≡ (ok (follow (first_target net crates fuel username password database host port)), world)
  unfolding answer_login next_target
  answer_login-reconnect target stream address host port world h =
      rw (redirect_read net peer crates fuel username password database address, h, answer_login)
        refl

  -- That an address can be reached from every world, on a stream with known bytes to come.
  abbrev pub Reachable : Text → ℕ → S → Bytes → Type 0
  Reachable host port stream incoming =
      (world : W)
      → (connected : W) × (net.connect_tcp host port world ≡ (ok stream, connected))
        × Ready net peer connected stream incoming []

  -- A redirect to another server is followed. The first round ends at the address that the server
  -- names, with no stream to use again; by then the prime bytes and one login line for the challenge
  -- have gone out on the first stream and nothing else, and nothing behind the redirect is read. From
  -- there the driver opens a new connection to the host and the port of the address and logs in with
  -- the prime bytes, a login line of its own for the new challenge and the command that asks for
  -- whole results. The handshake gives the new stream, with an empty write buffer and with nothing
  -- read beyond the answer to the command. Both servers can be reached, their challenges can be
  -- answered, the address does not mention merovingian, its host has no slash and its port has 16
  -- bits, the last answer is a welcome, and the texts fit the fuel.
  pub perform_handshake-reconnected :
      (host : Text) (port : ℕ) (world : W) (stream : S) (challenge_line login_line : Text)
      (rest : Bytes) (host' : Text) (port' : ℕ) (path : Text) (stream' : S)
      (challenge_line' login_line' answer reply : Text) (rest' : Bytes)
      → contains (target_of host' port' path) (codes "merovingian") ≡ false
      → Lacks b'/' host'
      → port' ≤ 2 ^ 16 - 1
      → Answers net peer crates fuel username password database challenge_line login_line
      → Fits net peer fuel (b'^' ∷ target_of host' port' path)
      → Answers net peer crates fuel username password database challenge_line' login_line'
      → IsWelcome answer
      → Fits net peer fuel answer
      → Fits net peer fuel reply
      → Reachable host port stream (
          wire_of net peer challenge_line
          ++ (wire_of net peer (b'^' ∷ target_of host' port' path) ++ rest))
      → Reachable host' port' stream' (
          wire_of net peer challenge_line'
          ++ (wire_of net peer answer ++ (wire_of net peer reply ++ rest')))
      → (between : W) × (after : W) × (handshake_round net crates fuel username password database
            (first_target net crates fuel username password database host port)
            world
          ≡ (
            ok (follow (first_target net crates fuel username password database host' port')),
            between,
          ))
        × Ready net peer between stream rest (replicate 8 0 ++ wire_of net peer login_line)
        × (perform_handshake net crates fuel username password database host port world
            ≡ (ok stream', after))
        × Ready net peer after stream' rest' (
            (replicate 8 0 ++ wire_of net peer login_line')
            ++ reply_size_wire net peer crates fuel username password database)
  perform_handshake-reconnected host port world stream challenge_line login_line rest host' port'
        path stream' challenge_line' login_line' answer reply rest' hm hh hp a hf a' welcome ha hr
        reach reach' =
      let begin = first_target net crates fuel username password database host port in
      let next = first_target net crates fuel username password database host' port' in
      let (connected, hc, h) = reach world in
      let (opened, eo, h1) =
        first_opened net peer crates fuel username password database host port world connected
          stream _ [] hc h in
      let (w1, e1, sent) =
        round-Ready net peer crates fuel username password database begin opened world stream
          challenge_line login_line (b'^' ∷ target_of host' port' path) rest (replicate 8 0) eo a hf
          h1 in
      let (connected', hc', h2) = reach' w1 in
      let (opened', eo', h3) =
        first_opened net peer crates fuel username password database host' port' w1 connected'
          stream' _ [] hc' h2 in
      let (w2, e2, h4) =
        round-Ready net peer crates fuel username password database next opened' w1 stream'
          challenge_line' login_line' answer (wire_of net peer reply ++ rest') (replicate 8 0) eo'
          a' ha h3 in
      let (after, e3, h5) =
        answer_login-accepted net peer crates fuel username password database next w2 stream' answer
          reply rest' _ welcome hr h4 in
      let redirected =
        e1
        ∙ answer_login-reconnect begin stream (target_of host' port' path) host' port' w1
            (parse_redirect-target_of host' port' path hm hh hp) in
      (
        w1,
        after,
        redirected,
        sent,
        perform_handshake-logged_in net crates fuel username password database host port 1
            (again 0 begin next next world w1 w1 redirected (stay next w1)) (omega arith) (e2 ∙ e3),
        h5,
      )
