-- ===== src/Session/Logins.antt =====
-- A whole login against a peer, `perform_handshake` of src/protocol/mod.rs: the prime bytes, the
-- challenge, the login line, the answer and the runtime command, and local retries before them.
use sqlx_monetdb.Prelude.{
  ℕ, ◌≤◌, ◌≡◌, refl, ap, ◌∙◌, sym, subst, List, [], ◌∷◌, ◌++◌, append_assoc, append-nil, ok,
  replicate, some, length,
}
use sqlx_monetdb.Text.{Text, codes}
use sqlx_monetdb.Text.Utf8.{as_bytes}
use sqlx_monetdb.Framing.{Bytes, encode_message}
use sqlx_monetdb.Handshake.{
  Hashes, Challenge, parse_challenge, compute_password_hash, build_login_response, default_options,
  redirect, parse_login_response, local_retry, parse_redirect,
}
use sqlx_monetdb.Handshake.Logins.{IsWelcome, parse_login_response-accepted_iff}
use sqlx_monetdb.Session.{
  Network, Target, logged_in, follow, connect, send_prime_bytes, open_stream, answer_login,
  handshake_round, perform_handshake,
}
use sqlx_monetdb.Session.Peers.{
  Peer, Ready, wire_of, Fits, send-Ready, write_message-Ready, read_text_message-Ready,
}
use sqlx_monetdb.Session.Redirects.{
  Redirected, stay, again, first_target, perform_handshake-logged_in,
}

module _ {W S : Type 0} (net : Network W S) (peer : Peer net) (crates : Hashes) (fuel : ℕ)
    (username password database : Text) where
  -- A challenge that the driver can answer, with its answer.
  pub record Answers (challenge_line : Text) (login_line : Text) : Type 0 where
    pub challenge : Challenge
    pub algo : Text
    pub digest : Text
    pub parsed : parse_challenge challenge_line ≡ ok challenge
    pub hashed : compute_password_hash crates challenge password ≡ ok (algo, digest)
    pub built :
        login_line ≡ build_login_response challenge username algo digest database default_options
    pub fits : Fits net peer fuel challenge_line

  -- A round from the challenge on: the login line goes out and the answer is taken.
  pub round-Ready :
      (target : Target net) (opened world : W) (stream : S)
      (challenge_line login_line answer : Text) (rest sent : Bytes)
      → open_stream net crates fuel username password database target world ≡ (ok stream, opened)
      → Answers challenge_line login_line
      → Fits net peer fuel answer
      → Ready net peer opened stream
          (wire_of net peer challenge_line ++ (wire_of net peer answer ++ rest))
          sent
      → (after : W) × (handshake_round net crates fuel username password database target world
          ≡ answer_login net crates fuel username password database target stream
              (parse_login_response answer)
              after)
        × Ready net peer after stream rest (sent ++ wire_of net peer login_line)
  unfolding handshake_round
  round-Ready target opened world stream challenge_line login_line answer rest sent ho a ha h =
      let (w1, e1, h1) =
        read_text_message-Ready net peer fuel opened stream challenge_line
          (wire_of net peer answer ++ rest) sent a.fits h in
      let (w2, e2, h2) =
        write_message-Ready net peer w1 stream
          (as_bytes
            (build_login_response a.challenge username a.algo a.digest database default_options))
          _ sent h1 in
      let (w3, e3, h3) = read_text_message-Ready net peer fuel w2 stream answer rest _ ha h2 in
      (
        w3,
        rw (ho, e1, a.parsed, a.hashed, e2, e3, handshake_round) refl,
        subst (λ line. Ready net peer w3 stream rest (sent ++ wire_of net peer line)) (sym a.built)
            h3,
      )

  -- A round that a proxy answers with a local retry.
  pub record Retry : Type 0 where
    pub challenge_line : Text
    pub login_line : Text
    pub address : Text
    pub answers : Answers challenge_line login_line
    pub retried : parse_redirect address ≡ ok local_retry
    pub fits : Fits net peer fuel (b'^' ∷ address)

  -- What the proxy sends in these rounds, and what the driver sends.
  abbrev pub retries_wire : List Retry → Bytes
  retries_wire [] = []
  retries_wire (r ∷ rs) =
      wire_of net peer r.challenge_line ++ (wire_of net peer (b'^' ∷ r.address) ++ retries_wire rs)

  abbrev pub logins_wire : List Retry → Bytes
  logins_wire [] = []
  logins_wire (r ∷ rs) = wire_of net peer r.login_line ++ logins_wire rs

  abbrev retry_target : Target net → S → Target net
  retry_target target stream = record {
    current_host = target.current_host;
    current_port = target.current_port;
    reused_stream = some stream;
  }

  pub redirect_read : (address : Text) → parse_login_response (b'^' ∷ address) ≡ redirect address
  unfolding parse_login_response
  redirect_read [] = refl
  redirect_read (c ∷ address) = refl

  answer_login-retry :
      (target : Target net) (stream : S) (address : Text) (world : W)
      → parse_redirect address ≡ ok local_retry
      → answer_login net crates fuel username password database target stream
          (parse_login_response (b'^' ∷ address))
          world
        ≡ (ok (follow (retry_target target stream)), world)
  unfolding answer_login
  answer_login-retry target stream address world h =
      rw (redirect_read address, h, answer_login) refl

  pub rounds-Redirected :
      (rs : List Retry) (target : Target net) (world opened : W) (stream : S) (rest sent : Bytes)
      → open_stream net crates fuel username password database target world ≡ (ok stream, opened)
      → Ready net peer opened stream (retries_wire rs ++ rest) sent
      → (t : Target net) × (w : W) × (o : W) × Redirected net crates fuel username password database
          (length rs)
          target
          world
          t
          w
        × (open_stream net crates fuel username password database t w ≡ (ok stream, o))
        × Ready net peer o stream rest (sent ++ logins_wire rs)
  unfolding open_stream
  rounds-Redirected [] target world opened stream rest sent ho h = (
    target,
    world,
    opened,
    stay target world,
    ho,
    subst (Ready net peer opened stream rest) (sym (append-nil sent)) h,
  )
  rounds-Redirected (r ∷ rs) target world opened stream rest sent ho h =
      let answer = wire_of net peer (b'^' ∷ r.address) in
      let (w1, e1, h1) =
        round-Ready target opened world stream r.challenge_line r.login_line (b'^' ∷ r.address)
          (retries_wire rs ++ rest) sent ho r.answers r.fits
          (subst (λ z. Ready net peer opened stream z sent)
            (append_assoc (wire_of net peer r.challenge_line) (answer ++ retries_wire rs) rest
              ∙ ap (λ z. wire_of net peer r.challenge_line ++ z)
                  (append_assoc answer (retries_wire rs) rest))
            h) in
      let (t, w, o, red, eo, h2) =
        rounds-Redirected rs (retry_target target stream) w1 w1 stream rest
          (sent ++ wire_of net peer r.login_line) refl h1 in
      (
        t,
        w,
        o,
        again (length rs) target (retry_target target stream) t world w1 w
            (e1 ∙ answer_login-retry target stream r.address w1 r.retried) red,
        eo,
        subst (Ready net peer o stream rest)
            (append_assoc sent (wire_of net peer r.login_line) (logins_wire rs)) h2,
      )

  -- The command that asks for whole results.
  abbrev pub reply_size_wire : Bytes
  reply_size_wire = encode_message (as_bytes (codes "Xreply_size -1")) []

  pub answer_login-accepted :
      (target : Target net) (world : W) (stream : S) (answer reply : Text) (rest sent : Bytes)
      → IsWelcome answer
      → Fits net peer fuel reply
      → Ready net peer world stream (wire_of net peer reply ++ rest) sent
      → (after : W) × (answer_login net crates fuel username password database target stream
            (parse_login_response answer)
            world
          ≡ (ok (logged_in stream), after))
        × Ready net peer after stream rest (sent ++ reply_size_wire)
  unfolding answer_login
  answer_login-accepted target world stream answer reply rest sent welcome hr h =
      let (w1, e1, h1) =
        write_message-Ready net peer world stream (as_bytes (codes "Xreply_size -1")) _ sent h in
      let (w2, e2, h2) = read_text_message-Ready net peer fuel w1 stream reply rest _ hr h1 in
      (w2, rw ((parse_login_response-accepted_iff answer).1 welcome, e1, e2, answer_login) refl, h2)

  pub first_opened :
      (host : Text) (port : ℕ) (world connected : W) (stream : S) (incoming sent : Bytes)
      → net.connect_tcp host port world ≡ (ok stream, connected)
      → Ready net peer connected stream incoming sent
      → (after : W) × (open_stream net crates fuel username password database
            (first_target net crates fuel username password database host port)
            world
          ≡ (ok stream, after))
        × Ready net peer after stream incoming (sent ++ replicate 8 0)
  unfolding open_stream connect send_prime_bytes
  first_opened host port world connected stream incoming sent hc h =
      let (w1, e1, h1) = send-Ready net peer connected stream (replicate 8 0) incoming sent h in
      (w1, rw (hc, e1) refl, h1)

  -- A login behind at most nine local retries on one connection: the driver sends the prime bytes,
  -- one login line for each challenge and the command that asks for whole results, in this order and
  -- nothing else, and the handshake gives the stream, with an empty write buffer and with nothing
  -- read beyond the answer to the command. The connection has to open, each challenge has to be one
  -- that the driver can parse and hash, the last answer has to be a welcome, and the texts have to
  -- fit the fuel.
  pub perform_handshake-Ready :
      (host : Text) (port : ℕ) (world connected : W) (stream : S) (retries : List Retry)
      (challenge_line login_line answer reply : Text) (rest : Bytes)
      → net.connect_tcp host port world ≡ (ok stream, connected)
      → length retries ≤ 9
      → Answers challenge_line login_line
      → IsWelcome answer
      → Fits net peer fuel answer
      → Fits net peer fuel reply
      → Ready net peer connected stream
          (retries_wire retries
            ++ (wire_of net peer challenge_line
                ++ (wire_of net peer answer ++ (wire_of net peer reply ++ rest))))
          []
      → (after : W) × (perform_handshake net crates fuel username password database host port world
          ≡ (ok stream, after))
        × Ready net peer after stream rest (
            ((replicate 8 0 ++ logins_wire retries) ++ wire_of net peer login_line)
            ++ reply_size_wire)
  perform_handshake-Ready host port world connected stream retries challenge_line login_line answer
        reply rest hc le a welcome ha hr h =
      let first = first_target net crates fuel username password database host port in
      let (opened, eo, h0) = first_opened host port world connected stream _ [] hc h in
      let (t, w, o, red, e1, h1) =
        rounds-Redirected retries first world opened stream _ (replicate 8 0) eo h0 in
      let (w2, e2, h2) =
        round-Ready t o w stream challenge_line login_line answer (wire_of net peer reply ++ rest) _
          e1 a ha h1 in
      let (after, e3, h3) = answer_login-accepted t w2 stream answer reply rest _ welcome hr h2 in
      (
        after,
        perform_handshake-logged_in net crates fuel username password database host port
            (length retries) red le (e2 ∙ e3),
        h3,
      )
