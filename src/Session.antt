-- ===== src/Session.antt =====
-- The conversation with a server, src/protocol/mod.rs. `sqlx_core::net` is not this repository's:
-- the record `Network` has its functions, which read and change a world of any type. `send` is
-- what every write of the driver does: the bytes go to the write buffer, and that is flushed.
pub mod Actions
pub mod Messages
pub mod Peers
pub mod Slices
pub mod Logins
pub mod Redirects
pub mod Rejections
pub mod Answered
pub mod Reconnects
pub mod Queries
pub mod Panics
pub mod Tests
pub mod ServerTests
pub mod Examples
pub mod Endings
pub mod Settles
pub mod Ends
pub mod Relays
pub mod Refusals
use sqlx_monetdb.Prelude.{
  ℕ, zero, suc, ◌-◌, Bool, true, false, List, [], ◌∷◌, ◌++◌, Option, none, some, Result, ok, err,
  ltb, if◌then◌else◌, replicate, get_or, map_err, ok_or,
}
use sqlx_monetdb.Text.{Text, codes}
use sqlx_monetdb.Text.Utf8.{as_bytes, from_utf8}
use sqlx_monetdb.Error.{
  SqlxError, MonetError, handshake, protocol, not_utf8, text, from_monet_error,
}
use sqlx_monetdb.Framing.{Bytes, decode_header, encode_message}
use sqlx_monetdb.Response.{QueryResponse, encode_query, ResponseError, from_response_error}
use sqlx_monetdb.Response.Lines.{parse_response}
use sqlx_monetdb.Handshake.{
  Hashes, parse_challenge, compute_password_hash, build_login_response, default_options,
  LoginResponse, accepted, rejected, redirect, parse_login_response, Redirect, local_retry,
  reconnect, parse_redirect,
}
use sqlx_monetdb.Session.Actions.{
  Io, Stop, failed, panicked, unfinished, pure, stop, ◌>>=◌, ◌>>◌, lift, lift_fault,
}

abbrev pub too_many_redirects : Stop
too_many_redirects =
    failed (from_monet_error (handshake (text (codes "too many redirects (>10) during handshake"))))

pub record Network (W S : Type 0) : Type 0 where
  pub connect_tcp : Text → ℕ → Io W S
  pub read_buffered : S → ℕ → Io W Bytes
  pub put_slice : S → Bytes → W → W
  pub flush : S → Io W Unit
  pub shutdown : S → Io W Unit
  pub shrink_buffers : S → W → W

module _ {W S : Type 0} (net : Network W S) where
  -- `connect`
  unfoldable pub connect : Text → ℕ → Io W S
  connect host port = net.connect_tcp host port

  -- `stream.write_buffer_mut().put_slice(..)` and `stream.flush().await`
  unfoldable pub send : S → Bytes → Io W Unit
  send stream payload world = net.flush stream (net.put_slice stream payload world)

  unfoldable pub send_prime_bytes : S → Io W Unit
  unfolding send
  send_prime_bytes stream = send stream (replicate 8 0)

  unfoldable pub write_message : S → Bytes → Io W Unit
  unfolding send
  write_message stream payload = send stream (encode_message payload [])

  -- The payload of a block: an empty one is not read.
  unfoldable pub read_payload : S → ℕ → Io W Bytes
  read_payload stream zero = pure []
  read_payload stream (suc len) = net.read_buffered stream (suc len)

  -- `[header[0], header[1]]`, which panics where there are fewer bytes.
  abbrev header_pair : Bytes → Io W (ℕ × ℕ)
  header_pair [] = stop panicked
  header_pair (low ∷ []) = stop panicked
  header_pair (low ∷ high ∷ _) = pure (low, high)

  -- The loop of `read_message`, one block in each round.
  unfoldable pub read_loop : ℕ → S → Bytes → Io W Bytes
  unfolding read_payload
  read_loop zero stream message = stop unfinished
  read_loop (suc fuel) stream message = net.read_buffered stream 2 >>= λ header.
      (header_pair header >>= λ pair.
      (let (len, is_last) = decode_header pair.0 pair.1 in
        read_payload stream len >>= λ payload.
        (if is_last
          then pure (message ++ payload)
          else read_loop fuel stream (message ++ payload))))

  unfoldable pub read_message : ℕ → S → Io W Bytes
  unfolding read_loop
  read_message fuel stream = read_loop fuel stream []

  abbrev text_of : Option Text → Bytes → Result MonetError Text
  text_of decoded bytes = ok_or decoded (protocol (not_utf8 bytes))

  unfoldable pub read_text_message : ℕ → S → Io W Text
  read_text_message fuel stream =
      read_message fuel stream >>= λ bytes. lift (text_of (from_utf8 bytes) bytes)

  abbrev pub response_of : Result ResponseError QueryResponse → Io W QueryResponse
  response_of (ok response) = pure response
  response_of (err e) = stop (failed (from_response_error e))

  unfoldable pub execute_query : ℕ → S → Text → Io W QueryResponse
  execute_query fuel stream sql =
      write_message stream (encode_query sql)
      >> (read_text_message fuel stream >>= λ s. response_of (parse_response s))

  -- Where the next round of the handshake goes: a new connection to an address, unless there is a
  -- stream to use again.
  pub record Target : Type 0 where
    pub current_host : Text
    pub current_port : ℕ
    pub reused_stream : Option S

  -- What a round comes to.
  pub data Next : Type 0 where
    logged_in : S → Next
    follow : Target → Next

  module _ (crates : Hashes) (fuel : ℕ) (username password database : Text) where
    -- `reused_stream.take()`, or a new connection and its prime bytes.
    unfoldable pub open_stream : Target → Io W S
    open_stream target = open_by target.reused_stream
      where
        open_by : Option S → Io W S
        open_by (some stream) = pure stream
        open_by none = connect target.current_host target.current_port >>= λ stream.
            (send_prime_bytes stream >> pure stream)

    next_target : Target → S → Redirect → Next
    next_target target stream local_retry = follow (record {
      current_host = target.current_host;
      current_port = target.current_port;
      reused_stream = some stream;
    })
    next_target target stream (reconnect host port) =
        follow (record { current_host = host; current_port = port; reused_stream = none })

    -- The `match` on the login response, with the runtime command after a login.
    unfoldable pub answer_login : Target → S → LoginResponse → Io W Next
    unfolding next_target
    answer_login target stream accepted =
        write_message stream (as_bytes (codes "Xreply_size -1"))
        >> (read_text_message fuel stream >> pure (logged_in stream))
    answer_login target stream (rejected message) =
        stop (failed (from_monet_error (handshake message)))
    answer_login target stream (redirect address) =
        lift (parse_redirect address) >>= λ r. pure (next_target target stream r)

    -- One round of the loop of `perform_handshake`.
    unfoldable pub handshake_round : Target → Io W Next
    unfolding open_stream
    handshake_round target = open_stream target >>= λ stream.
        (read_text_message fuel stream >>= λ challenge_line.
        (lift (parse_challenge challenge_line) >>= λ challenge.
        (lift_fault (compute_password_hash crates challenge password) >>= λ hashed.
        (write_message stream (
            as_bytes
              (build_login_response challenge username hashed.0 hashed.1 database default_options))
          >> (read_text_message fuel stream >>= λ response_line.
              answer_login target stream (parse_login_response response_line))))))

    after_round : (Target → Io W S) → Next → Io W S
    after_round go_on (logged_in stream) = pure stream
    after_round go_on (follow target) = go_on target

    -- `for _ in 0..10`, from a number of rounds that are left.
    unfoldable pub handshake_rounds : ℕ → Target → Io W S
    unfolding after_round
    handshake_rounds zero target = stop too_many_redirects
    handshake_rounds (suc rounds) target =
        handshake_round target >>= after_round (λ target'. handshake_rounds rounds target')

    unfoldable pub perform_handshake : Text → ℕ → Io W S
    perform_handshake host port =
        handshake_rounds 10
          (record { current_host = host; current_port = port; reused_stream = none })
