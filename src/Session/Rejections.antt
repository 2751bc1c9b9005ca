-- ===== src/Session/Rejections.antt =====
-- Logins that the server refuses, `perform_handshake` of src/protocol/mod.rs on an answer that
-- begins with a `!`.
use sqlx_monetdb.Prelude.{ℕ, ◌≤◌, ◌≡◌, refl, ◌∙◌, List, [], ◌∷◌, ◌++◌, ok, err, replicate, length}
use sqlx_monetdb.Text.{Text}
use sqlx_monetdb.Error.{handshake, text, from_monet_error}
use sqlx_monetdb.Framing.{Bytes}
use sqlx_monetdb.Handshake.{Hashes, rejected, parse_login_response}
use sqlx_monetdb.Session.Actions.{Stop, failed}
use sqlx_monetdb.Session.{Network, Target, answer_login, perform_handshake}
use sqlx_monetdb.Session.Peers.{Peer, Ready, wire_of, Fits}
use sqlx_monetdb.Session.Redirects.{first_target, perform_handshake-stopped}
use sqlx_monetdb.Session.Logins.{
  Answers, Retry, retries_wire, logins_wire, round-Ready, rounds-Redirected, first_opened,
}

-- The error of a login that the server refuses with a message.
abbrev pub refusal : Text → Stop
refusal message = failed (from_monet_error (handshake (text message)))

rejection_read : (message : Text) → parse_login_response (b'!' ∷ message) ≡ rejected (text message)
unfolding parse_login_response
rejection_read [] = refl
rejection_read (c ∷ message) = refl

module _ {W S : Type 0} (net : Network W S) (peer : Peer net) (crates : Hashes) (fuel : ℕ)
    (username password database : Text) where
  answer_login-rejected :
      (target : Target net) (stream : S) (message : Text) (world : W)
      → answer_login net crates fuel username password database target stream
          (parse_login_response (b'!' ∷ message))
          world
        ≡ (err (refusal message), world)
  unfolding answer_login
  answer_login-rejected target stream message world = rw (rejection_read message, answer_login) refl

  -- A login that the server refuses with a `!` message, behind at most nine local retries, ends the
  -- handshake with an error of exactly that message. The prime bytes and one login line for each
  -- challenge have gone out and nothing else, the runtime command included, and what follows the
  -- refusal is not read. The connection has to open, each challenge has to be one that the driver
  -- can parse and hash, and the texts have to fit the fuel.
  pub perform_handshake-rejected :
      (host : Text) (port : ℕ) (world connected : W) (stream : S)
      (retries : List (Retry net peer crates fuel username password database))
      (challenge_line login_line message : Text) (rest : Bytes)
      → net.connect_tcp host port world ≡ (ok stream, connected)
      → length retries ≤ 9
      → Answers net peer crates fuel username password database challenge_line login_line
      → Fits net peer fuel (b'!' ∷ message)
      → Ready net peer connected stream
          (retries_wire net peer crates fuel username password database retries
            ++ (wire_of net peer challenge_line ++ (wire_of net peer (b'!' ∷ message) ++ rest)))
          []
      → (after : W) × (perform_handshake net crates fuel username password database host port world
          ≡ (err (refusal message), after))
        × Ready net peer after stream rest (
            (replicate 8 0 ++ logins_wire net peer crates fuel username password database retries)
            ++ wire_of net peer login_line)
  perform_handshake-rejected host port world connected stream retries challenge_line login_line
        message rest hc le a hm h =
      let first = first_target net crates fuel username password database host port in
      let (opened, eo, h0) =
        first_opened net peer crates fuel username password database host port world connected
          stream _ [] hc h in
      let (t, w, o, red, e1, h1) =
        rounds-Redirected net peer crates fuel username password database retries first world opened
          stream _ (replicate 8 0) eo h0 in
      let (after, e2, h2) =
        round-Ready net peer crates fuel username password database t o w stream challenge_line
          login_line (b'!' ∷ message) rest _ e1 a hm h1 in
      (
        after,
        perform_handshake-stopped net crates fuel username password database host port
            (length retries) red le (e2 ∙ answer_login-rejected t stream message after),
        h2,
      )
