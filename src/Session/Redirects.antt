-- ===== src/Session/Redirects.antt =====
-- How far the handshake of src/protocol/mod.rs follows redirects.
use sqlx_monetdb.Prelude.{ℕ, suc, ◌+◌, ◌-◌, ◌≤◌, ◌≡◌, ap, ◌∙◌, arith, ok, err, none}
use sqlx_monetdb.Text.{Text}
use sqlx_monetdb.Handshake.{Hashes}
use sqlx_monetdb.Session.Actions.{Io, Stop, continue}
use sqlx_monetdb.Session.{
  Network, Target, Next, logged_in, follow, handshake_round, too_many_redirects, after_round,
  handshake_rounds, perform_handshake,
}

module _ {W S : Type 0} (net : Network W S) (crates : Hashes) (fuel : ℕ)
    (username password database : Text) where
  abbrev pub round : Target net → Io W (Next net)
  round = handshake_round net crates fuel username password database

  -- A number of rounds, each of which ends with a redirect.
  pub data Redirected : ℕ → Target net → W → Target net → W → Type 0 where
    stay : (t : Target net) (w : W) → Redirected 0 t w t w
    again :
        (n : ℕ) (t t' t'' : Target net) (w w' w'' : W)
        → round t w ≡ (ok (follow t'), w')
        → Redirected n t' w' t'' w''
        → Redirected (suc n) t w t'' w''

  rounds-Redirected :
      (more : ℕ) {n : ℕ} {t t' : Target net} {w w' : W}
      → Redirected n t w t' w'
      → handshake_rounds net crates fuel username password database (n + more) t w
        ≡ handshake_rounds net crates fuel username password database more t' w'
  unfolding handshake_rounds
  rounds-Redirected more (stay t w) =
      ap (λ k. handshake_rounds net crates fuel username password database k t w) {x = 0 + more}
        {y = more} (omega arith)
  rounds-Redirected more (again n t t' t'' w w' w'' h rest) =
      ap (λ k. handshake_rounds net crates fuel username password database k t w) {x = suc n + more}
        {y = suc (n + more)} (omega arith)
      ∙ ap
          (λ r. continue r (
            after_round net crates fuel username password database (λ target.
              handshake_rounds net crates fuel username password database (n + more) target)))
          h
      ∙ rounds-Redirected more rest

  -- Where the handshake starts: no stream to use again.
  abbrev pub first_target : Text → ℕ → Target net
  first_target host port = record { current_host = host; current_port = port; reused_stream = none }

  -- A login that succeeds behind at most nine redirects, of either kind, is the outcome of the
  -- handshake, with its stream and with the world as the last round leaves it.
  pub perform_handshake-logged_in :
      (host : Text) (port n : ℕ) {t : Target net} {w w' w'' : W} {stream : S}
      → Redirected n (first_target host port) w t w'
      → n ≤ 9
      → round t w' ≡ (ok (logged_in stream), w'')
      → perform_handshake net crates fuel username password database host port w ≡ (ok stream, w'')
  unfolding perform_handshake handshake_rounds
  perform_handshake-logged_in host port n {t} {w} {w'} h le last =
      ap
        (λ k.
          handshake_rounds net crates fuel username password database k (first_target host port) w)
        {x = 10} {y = n + suc (9 - n)} (omega arith)
      ∙ rounds-Redirected (suc (9 - n)) h
      ∙ ap
          (λ r. continue r (
            after_round net crates fuel username password database (λ target.
              handshake_rounds net crates fuel username password database (9 - n) target)))
          last

  -- A round that stops, behind at most nine redirects, stops the handshake with its reason.
  pub perform_handshake-stopped :
      (host : Text) (port n : ℕ) {t : Target net} {w w' w'' : W} {reason : Stop}
      → Redirected n (first_target host port) w t w'
      → n ≤ 9
      → round t w' ≡ (err reason, w'')
      → perform_handshake net crates fuel username password database host port w ≡ (err reason, w'')
  unfolding perform_handshake handshake_rounds
  perform_handshake-stopped host port n {t} {w} {w'} h le last =
      ap
        (λ k.
          handshake_rounds net crates fuel username password database k (first_target host port) w)
        {x = 10} {y = n + suc (9 - n)} (omega arith)
      ∙ rounds-Redirected (suc (9 - n)) h
      ∙ ap
          (λ r. continue r (
            after_round net crates fuel username password database (λ target.
              handshake_rounds net crates fuel username password database (9 - n) target)))
          last

  -- The tenth redirect ends the handshake with an error: it is not followed, and nothing more is
  -- sent or read.
  pub perform_handshake-tenth :
      (host : Text) (port : ℕ) {t : Target net} {w w' : W}
      → Redirected 10 (first_target host port) w t w'
      → perform_handshake net crates fuel username password database host port w
        ≡ (err too_many_redirects, w')
  unfolding perform_handshake handshake_rounds
  perform_handshake-tenth host port {t} {w} {w'} h =
      ap
        (λ k.
          handshake_rounds net crates fuel username password database k (first_target host port) w)
        {x = 10} {y = 10 + 0} (omega arith)
      ∙ rounds-Redirected 0 h
