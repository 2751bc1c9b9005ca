-- ===== src/Session/Panics.antt =====
-- What can panic in src/protocol/mod.rs: nothing, over a socket that does not.
use sqlx_monetdb.Prelude.{
  ℕ, zero, suc, ◌≡◌, refl, Bool, true, false, Result, ok, err, Fault, error, panic, Option, none,
  some, if◌then◌else◌, [], ◌∷◌, ◌++◌, length, arith,
}
use sqlx_monetdb.Text.{Text}
use sqlx_monetdb.Error.{MonetError}
use sqlx_monetdb.Framing.{Bytes, decode_header}
use sqlx_monetdb.Response.{QueryResponse, ResponseError}
use sqlx_monetdb.Response.Lines.{parse_response}
use sqlx_monetdb.Handshake.{
  Hashes, LoginResponse, accepted, rejected, redirect, parse_challenge, parse_redirect,
  parse_login_response, compute_password_hash,
}
use sqlx_monetdb.Handshake.Passwords.{compute_password_hash-ne-panic}
use sqlx_monetdb.Session.Actions.{
  Io, Stop, failed, panicked, unfinished, pure, continue, ◌>>=◌, lift, lift_fault,
}
use sqlx_monetdb.Session.{
  Network, connect, send, send_prime_bytes, write_message, header_pair, read_payload, read_loop,
  read_message, read_text_message, response_of, execute_query, Target, Next, logged_in, follow,
  open_stream, answer_login, handshake_round, after_round, handshake_rounds, perform_handshake,
}

-- An outcome that is no panic.
abbrev pub Quiet : {A : Type 0} → Result Stop A → Type 0
Quiet (ok a) = Unit
Quiet (err (failed e)) = Unit
Quiet (err panicked) = ⊥
Quiet (err unfinished) = Unit

-- An action that panics in no world.
abbrev pub Calm : {W A : Type 0} → Io W A → Type 0
Calm {W} m = (world : W) → Quiet (m world).0

-- The outcome of a read of a number of bytes: exactly so many, or what is no panic.
abbrev pub Exact : ℕ → Result Stop Bytes → Type 0
Exact n (ok bytes) = length bytes ≡ n
Exact n (err reason) = Quiet {A = Bytes} (err reason)

-- A socket whose operations fail, if they fail, with an error, and whose `read_buffered` answers, as
-- its documentation says, with exactly as many bytes as are asked for.
pub record CalmNetwork {W S : Type 0} (net : Network W S) : Type 0 where
  pub connects : (host : Text) (port : ℕ) → Calm (net.connect_tcp host port)
  pub reads : (stream : S) (n : ℕ) (world : W) → Exact n (net.read_buffered stream n world).0
  pub flushes : (stream : S) → Calm (net.flush stream)

module _ {W : Type 0} where
  pub continue-Quiet :
      {A B : Type 0} (r : Result Stop A × W) (k : A → Io W B)
      → Quiet r.0
      → ((a : A) → Calm (k a))
      → Quiet (continue r k).0
  continue-Quiet (ok a, world) k h hk = hk a world
  continue-Quiet (err (failed e), world) k h hk = tt
  continue-Quiet (err panicked, world) k h hk = h
  continue-Quiet (err unfinished, world) k h hk = tt

  pub bind-Calm :
      {A B : Type 0} (m : Io W A) (k : A → Io W B)
      → Calm m
      → ((a : A) → Calm (k a))
      → Calm (m >>= k)
  bind-Calm m k h hk world = continue-Quiet (m world) k (h world) hk

  lift-Calm : {A : Type 0} (r : Result MonetError A) → Calm {W = W} (lift r)
  lift-Calm (ok a) world = tt
  lift-Calm (err e) world = tt

  lift_fault-Calm :
      {A : Type 0} (r : Result (Fault MonetError) A)
      → (r ≡ err panic → ⊥)
      → Calm {W = W} (lift_fault r)
  lift_fault-Calm (ok a) h world = tt
  lift_fault-Calm (err (error e)) h world = tt
  lift_fault-Calm (err panic) h world = h refl

module _ {W S : Type 0} (net : Network W S) (calm : CalmNetwork net) where
  send-Calm : (stream : S) (payload : Bytes) → Calm (send net stream payload)
  unfolding send
  send-Calm stream payload world = calm.flushes stream (net.put_slice stream payload world)

  write_message-Calm : (stream : S) (payload : Bytes) → Calm (write_message net stream payload)
  unfolding write_message
  write_message-Calm stream payload = send-Calm stream _

  Exact-Quiet : (n : ℕ) (r : Result Stop Bytes) → Exact n r → Quiet r
  Exact-Quiet n (ok bytes) h = tt
  Exact-Quiet n (err reason) h = h

  -- Behind a read of a number of bytes it is enough that the rest is calm on so many.
  read-Quiet :
      {A : Type 0} (n : ℕ) (r : Result Stop Bytes × W) (k : Bytes → Io W A)
      → Exact n r.0
      → ((bytes : Bytes) → length bytes ≡ n → Calm (k bytes))
      → Quiet (continue r k).0
  read-Quiet n (ok bytes, world) k h hk = hk bytes h world
  read-Quiet n (err (failed e), world) k h hk = tt
  read-Quiet n (err panicked, world) k h hk = h
  read-Quiet n (err unfinished, world) k h hk = tt

  header_pair-Calm : (header : Bytes) → length header ≡ 2 → Calm (header_pair net header)
  header_pair-Calm [] h = absurd (omega (arith, h))
  header_pair-Calm (low ∷ []) h = absurd (omega (arith, h))
  header_pair-Calm (low ∷ high ∷ more) h = λ world. tt

  read_payload-Calm : (stream : S) (len : ℕ) → Calm (read_payload net stream len)
  unfolding read_payload
  read_payload-Calm stream zero world = tt
  read_payload-Calm stream (suc len) world =
      Exact-Quiet (suc len) (net.read_buffered stream (suc len) world).0
        (calm.reads stream (suc len) world)

  go_on-Calm : {A : Type 0} (b : Bool) (m n : Io W A) → Calm m → Calm n → Calm (if b then m else n)
  go_on-Calm true m n hm hn = hm
  go_on-Calm false m n hm hn = hn

  read_loop-Calm :
      (fuel : ℕ) (stream : S) (message : Bytes) → Calm (read_loop net fuel stream message)
  unfolding read_loop
  read_loop-Calm zero stream message world = tt
  read_loop-Calm (suc fuel) stream message world =
      read-Quiet 2 (net.read_buffered stream 2 world) _ (calm.reads stream 2 world) (λ header two.
        bind-Calm (header_pair net header) _ (header_pair-Calm header two) (λ pair.
          let (len, is_last) = decode_header pair.0 pair.1 in
          bind-Calm (read_payload net stream len)
            (λ payload.
              if is_last
              then pure (message ++ payload)
              else read_loop net fuel stream (message ++ payload))
            (read_payload-Calm stream len)
            (λ payload.
              go_on-Calm is_last _ _ (λ world. tt)
                (read_loop-Calm fuel stream (message ++ payload)))))

  read_text_message-Calm : (fuel : ℕ) (stream : S) → Calm (read_text_message net fuel stream)
  unfolding read_text_message read_message
  read_text_message-Calm fuel stream =
      bind-Calm (read_loop net fuel stream []) _ (read_loop-Calm fuel stream [])
        (λ bytes. lift-Calm _)

  response_of-Calm : (r : Result ResponseError QueryResponse) → Calm (response_of net r)
  response_of-Calm (ok response) world = tt
  response_of-Calm (err e) world = tt

  pub execute_query-Calm :
      (fuel : ℕ) (stream : S) (sql : Text) → Calm (execute_query net fuel stream sql)
  unfolding execute_query
  execute_query-Calm fuel stream sql =
      bind-Calm (write_message net stream _) _ (write_message-Calm stream _) (λ _.
        bind-Calm (read_text_message net fuel stream) _ (read_text_message-Calm fuel stream)
          (λ s. response_of-Calm (parse_response s)))

  module _ (crates : Hashes) (fuel : ℕ) (username password database : Text) where
    open_by-Calm :
        (host : Text) (port : ℕ) (reused : Option S)
        → Calm (
            open_stream net crates fuel username password database
              (record { current_host = host; current_port = port; reused_stream = reused }))
    unfolding open_stream connect send_prime_bytes
    open_by-Calm host port (some stream) world = tt
    open_by-Calm host port none world =
        bind-Calm (net.connect_tcp host port) _ (calm.connects host port)
          (λ stream. bind-Calm (send net stream _) _ (send-Calm stream _) (λ _ world. tt)) world

    after_round-Calm :
        (go_on : Target net → Io W S)
        → ((target : Target net) → Calm (go_on target))
        → (next : Next net)
        → Calm (after_round net crates fuel username password database go_on next)
    unfolding after_round
    after_round-Calm go_on h (logged_in stream) world = tt
    after_round-Calm go_on h (follow target) world = h target world

    open_stream-Calm :
        (target : Target net) → Calm (open_stream net crates fuel username password database target)
    open_stream-Calm target =
        open_by-Calm target.current_host target.current_port target.reused_stream

    answer_login-Calm :
        (target : Target net) (stream : S) (r : LoginResponse)
        → Calm (answer_login net crates fuel username password database target stream r)
    unfolding answer_login
    answer_login-Calm target stream accepted world =
        bind-Calm (write_message net stream _) _ (write_message-Calm stream _)
          (λ _.
            bind-Calm (read_text_message net fuel stream) _ (read_text_message-Calm fuel stream)
              (λ _ world. tt))
          world
    answer_login-Calm target stream (rejected message) world = tt
    answer_login-Calm target stream (redirect address) world =
        bind-Calm (lift (parse_redirect address)) _ (lift-Calm _) (λ r world. tt) world

    handshake_round-Calm :
        (target : Target net)
        → Calm (handshake_round net crates fuel username password database target)
    unfolding handshake_round
    handshake_round-Calm target =
        bind-Calm (open_stream net crates fuel username password database target) _
          (open_stream-Calm target)
          (λ stream.
            bind-Calm (read_text_message net fuel stream) _ (read_text_message-Calm fuel stream)
              (λ line. bind-Calm (lift (parse_challenge line)) _ (lift-Calm _) (λ challenge.
                bind-Calm (lift_fault (compute_password_hash crates challenge password)) _
                  (lift_fault-Calm _ (compute_password_hash-ne-panic crates challenge password))
                  (λ hashed.
                    bind-Calm (write_message net stream _) _ (write_message-Calm stream _) (λ _.
                      bind-Calm (read_text_message net fuel stream) _
                        (read_text_message-Calm fuel stream)
                        (λ answer.
                          answer_login-Calm target stream (parse_login_response answer)))))))

    handshake_rounds-Calm :
        (rounds : ℕ) (target : Target net)
        → Calm (handshake_rounds net crates fuel username password database rounds target)
    unfolding handshake_rounds
    handshake_rounds-Calm zero target world = tt
    handshake_rounds-Calm (suc rounds) target world =
        bind-Calm (handshake_round net crates fuel username password database target) _
          (handshake_round-Calm target)
          (λ next. after_round-Calm _ (handshake_rounds-Calm rounds) next) world

    -- Whatever a server sends, and wherever it redirects, the handshake does not panic, over a socket
    -- whose own operations do not and whose reads answer with exactly the bytes asked for, or fail.
    pub perform_handshake-Calm :
        (host : Text) (port : ℕ)
        → Calm (perform_handshake net crates fuel username password database host port)
    unfolding perform_handshake
    perform_handshake-Calm host port = handshake_rounds-Calm 10 _
