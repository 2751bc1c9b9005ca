-- ===== src/Session/Ends.antt =====
-- That the handshake and a query come to an end whatever a server sends, if each of its connections
-- is closed at some point: `perform_handshake` and `execute_query` of src/protocol/mod.rs.
use sqlx_monetdb.Prelude.{
  ℕ, zero, suc, ◌≤◌, ◌<◌, Result, ok, err, Option, none, some, length, length-drop, drop, arith,
}
use sqlx_monetdb.Text.{Text}
use sqlx_monetdb.Text.Utf8.{as_bytes}
use sqlx_monetdb.Framing.{Bytes, decode_message}
use sqlx_monetdb.Response.{QueryResponse, ResponseError}
use sqlx_monetdb.Response.Lines.{parse_response}
use sqlx_monetdb.Handshake.{
  Hashes, LoginResponse, accepted, rejected, redirect, Redirect, local_retry, reconnect,
  parse_challenge, parse_redirect, parse_login_response, compute_password_hash,
  build_login_response, default_options,
}
use sqlx_monetdb.Handshake.Passwords.{compute_password_hash-ne-panic}
use sqlx_monetdb.Session.Actions.{Io, Stop, ◌>>=◌, ◌>>◌, lift, lift_fault}
use sqlx_monetdb.Session.{
  Network, connect, send, send_prime_bytes, write_message, read_message, read_text_message,
  response_of, execute_query, Target, Next, logged_in, follow, open_stream, next_target,
  answer_login, handshake_round, after_round, handshake_rounds, perform_handshake,
}
use sqlx_monetdb.Session.Settles.{
  Settles, Leads, bind-Leads, lift-Leads, lift_fault-Leads, Holding, Servers,
}
use sqlx_monetdb.Session.Slices.{Agrees, read_message-Agrees}

module _ {W S : Type 0} (net : Network W S) (most : ℕ) (servers : Servers net most) (fuel : ℕ)
    (enough : most < fuel) where
  abbrev Bounded : S → W → Type 0
  Bounded stream world = Holding servers.closed most stream world

  send-Leads :
      (stream : S) (payload : Bytes)
      → Leads (Bounded stream) (send net stream payload) (λ _. Bounded stream)
  unfolding send
  send-Leads stream payload world h = servers.writes stream payload world h

  write_message-Leads :
      (stream : S) (payload : Bytes)
      → Leads (Bounded stream) (write_message net stream payload) (λ _. Bounded stream)
  unfolding write_message
  write_message-Leads stream payload = send-Leads stream _

  agreed :
      (stream : S) (input : Bytes) (decoded : Option (Bytes × ℕ)) (r : Result Stop Bytes × W)
      → length input ≤ most
      → Agrees net servers.closed stream input decoded r
      → Settles (λ _. Bounded stream) r
  agreed stream input none r hl (after, e) = rw e tt
  agreed stream input (some (message, n)) r hl (after, e, left) =
      rw e (drop n input, left, omega (arith, length-drop n input))

  read_message-Leads :
      (stream : S) → Leads (Bounded stream) (read_message net fuel stream) (λ _. Bounded stream)
  read_message-Leads stream world (bytes, h, hl) =
      agreed stream bytes (decode_message bytes) _ hl
        (read_message-Agrees net servers.closed fuel world stream bytes (omega arith) h)

  read_text_message-Leads :
      (stream : S)
      → Leads (Bounded stream) (read_text_message net fuel stream) (λ _. Bounded stream)
  unfolding read_text_message
  read_text_message-Leads stream =
      bind-Leads (Bounded stream) (λ _. Bounded stream) (λ _. Bounded stream)
        (read_message net fuel stream) _ (read_message-Leads stream)
        (λ bytes. lift-Leads (Bounded stream) _)

  response_of-Leads :
      (stream : S) (r : Result ResponseError QueryResponse)
      → Leads (Bounded stream) (response_of net r) (λ _. Bounded stream)
  response_of-Leads stream (ok response) world h = h
  response_of-Leads stream (err e) world h = tt

  -- A query on a connection of which at most `most` bytes are still to come, whatever they are, ends
  -- with a response or an error, with more fuel than that, and leaves such a connection.
  pub execute_query-Settles :
      (stream : S) (sql : Text)
      → Leads (Bounded stream) (execute_query net fuel stream sql) (λ _. Bounded stream)
  unfolding execute_query
  execute_query-Settles stream sql =
      bind-Leads (Bounded stream) (λ _. Bounded stream) (λ _. Bounded stream)
        (write_message net stream _) _ (write_message-Leads stream _)
        (λ _.
          bind-Leads (Bounded stream) (λ _. Bounded stream) (λ _. Bounded stream)
            (read_text_message net fuel stream) _ (read_text_message-Leads stream)
            (λ s. response_of-Leads stream (parse_response s)))

  module _ (crates : Hashes) (username password database : Text) where
    -- A target, or what a round comes to, with the stream that it holds.
    abbrev Kept : Option S → W → Type 0
    Kept none world = Unit
    Kept (some stream) world = Bounded stream world

    abbrev Going : Next net → W → Type 0
    Going (logged_in stream) world = Bounded stream world
    Going (follow target) world = Kept target.reused_stream world

    open_by-Leads :
        (host : Text) (port : ℕ) (reused : Option S)
        → Leads
            (Kept reused)
            (open_stream net crates fuel username password database
              (record { current_host = host; current_port = port; reused_stream = reused }))
            Bounded
    unfolding open_stream connect send_prime_bytes
    open_by-Leads host port (some stream) world h = h
    open_by-Leads host port none world h =
        bind-Leads (λ _. Unit) Bounded Bounded (net.connect_tcp host port) _
          (λ w _. servers.connects host port w)
          (λ stream.
            bind-Leads (Bounded stream) (λ _. Bounded stream) Bounded (send net stream _) _
              (send-Leads stream _) (λ _ w hw. hw))
          world tt

    next-Going :
        (target : Target net) (stream : S) (r : Redirect) (world : W)
        → Bounded stream world
        → Going (next_target net crates fuel username password database target stream r) world
    unfolding next_target
    next-Going target stream local_retry world h = h
    next-Going target stream (reconnect host port) world h = tt

    answer_login-Leads :
        (target : Target net) (stream : S) (r : LoginResponse)
        → Leads
            (Bounded stream)
            (answer_login net crates fuel username password database target stream r)
            Going
    unfolding answer_login
    answer_login-Leads target stream accepted =
        bind-Leads (Bounded stream) (λ _. Bounded stream) Going (write_message net stream _) _
          (write_message-Leads stream _)
          (λ _.
            bind-Leads (Bounded stream) (λ _. Bounded stream) Going
              (read_text_message net fuel stream) _ (read_text_message-Leads stream) (λ _ w hw. hw))
    answer_login-Leads target stream (rejected message) = λ world h. tt
    answer_login-Leads target stream (redirect address) =
        bind-Leads (Bounded stream) (λ _. Bounded stream) Going (lift (parse_redirect address)) _
          (lift-Leads (Bounded stream) _) (λ r w hw. next-Going target stream r w hw)

    challenged-Leads :
        (target : Target net) (stream : S)
        → Leads
            (Bounded stream)
            (read_text_message net fuel stream >>= λ challenge_line.
              (lift (parse_challenge challenge_line) >>= λ challenge.
              (lift_fault (compute_password_hash crates challenge password) >>= λ hashed.
              (write_message net stream (
                  as_bytes (
                    build_login_response challenge username hashed.0 hashed.1 database
                      default_options))
                >> (read_text_message net fuel stream >>= λ response_line.
                    answer_login net crates fuel username password database target stream
                      (parse_login_response response_line))))))
            Going
    challenged-Leads target stream =
        bind-Leads (Bounded stream) (λ _. Bounded stream) Going (read_text_message net fuel stream)
          _ (read_text_message-Leads stream)
          (λ line.
            bind-Leads (Bounded stream) (λ _. Bounded stream) Going (lift (parse_challenge line)) _
              (lift-Leads (Bounded stream) _)
              (λ challenge.
                bind-Leads (Bounded stream) (λ _. Bounded stream) Going
                  (lift_fault (compute_password_hash crates challenge password)) _
                  (lift_fault-Leads (Bounded stream) _
                    (compute_password_hash-ne-panic crates challenge password))
                  (λ hashed.
                    bind-Leads (Bounded stream) (λ _. Bounded stream) Going
                      (write_message net stream _) _ (write_message-Leads stream _)
                      (λ _.
                        bind-Leads (Bounded stream) (λ _. Bounded stream) Going
                          (read_text_message net fuel stream) _ (read_text_message-Leads stream)
                          (λ answer.
                            answer_login-Leads target stream (parse_login_response answer))))))

    handshake_round-Leads :
        (target : Target net)
        → Leads
            (Kept target.reused_stream)
            (handshake_round net crates fuel username password database target)
            Going
    unfolding handshake_round
    handshake_round-Leads target =
        bind-Leads (Kept target.reused_stream) Bounded Going
          (open_stream net crates fuel username password database target) _
          (open_by-Leads target.current_host target.current_port target.reused_stream)
          (challenged-Leads target)

    after_round-Leads :
        (go_on : Target net → Io W S)
        → ((target : Target net) → Leads (Kept target.reused_stream) (go_on target) Bounded)
        → (next : Next net)
        → Leads
            (Going next)
            (after_round net crates fuel username password database go_on next)
            Bounded
    unfolding after_round
    after_round-Leads go_on h (logged_in stream) world hw = hw
    after_round-Leads go_on h (follow target) world hw = h target world hw

    handshake_rounds-Leads :
        (rounds : ℕ) (target : Target net)
        → Leads
            (Kept target.reused_stream)
            (handshake_rounds net crates fuel username password database rounds target)
            Bounded
    unfolding handshake_rounds
    handshake_rounds-Leads zero target = λ world h. tt
    handshake_rounds-Leads (suc rounds) target =
        bind-Leads (Kept target.reused_stream) Going Bounded
          (handshake_round net crates fuel username password database target) _
          (handshake_round-Leads target)
          (λ next. after_round-Leads _ (handshake_rounds-Leads rounds) next)

    -- Whatever servers send, and wherever they redirect, the handshake ends with a stream or an error,
    -- without a panic, if each server closes its connection behind at most a number of bytes and the
    -- fuel is more than that number. Of the stream at most that many bytes are still to come, so that
    -- every query on it ends in the same way.
    pub perform_handshake-Settles :
        (host : Text) (port : ℕ) (world : W)
        → Settles Bounded
            (perform_handshake net crates fuel username password database host port world)
    unfolding perform_handshake
    perform_handshake-Settles host port world = handshake_rounds-Leads 10 _ world tt
