-- ===== src/Session/Settles.antt =====
-- Actions of the conversation with a server that end with a value or an error, and the servers of
-- which that is shown: src/protocol/mod.rs and the documented behaviour of its socket.
use sqlx_monetdb.Prelude.{ℕ, ◌≤◌, ◌≡◌, refl, Result, ok, err, Fault, error, panic, length}
use sqlx_monetdb.Text.{Text}
use sqlx_monetdb.Error.{MonetError}
use sqlx_monetdb.Framing.{Bytes}
use sqlx_monetdb.Session.Actions.{
  Io, Stop, failed, panicked, unfinished, continue, ◌>>=◌, lift, lift_fault,
}
use sqlx_monetdb.Session.{Network}
use sqlx_monetdb.Session.Slices.{Closed}

-- An error of the driver: no panic, and no loop that goes on.
abbrev pub IsError : Stop → Type 0
IsError (failed e) = Unit
IsError panicked = ⊥
IsError unfinished = ⊥

-- The outcome is a value of which `Q` holds, or an error.
abbrev pub Settles : {W A : Type 0} → (A → W → Type 0) → Result Stop A × W → Type 0
Settles Q (ok a, world) = Q a world
Settles Q (err reason, world) = IsError reason

abbrev pub Leads : {W A : Type 0} → (W → Type 0) → Io W A → (A → W → Type 0) → Type 0
Leads {W} P m Q = (world : W) → P world → Settles Q (m world)

module _ {W : Type 0} where
  pub continue-Settles :
      {A B : Type 0} (Q : A → W → Type 0) (R : B → W → Type 0) (r : Result Stop A × W)
      (k : A → Io W B)
      → Settles Q r
      → ((a : A) → Leads (Q a) (k a) R)
      → Settles R (continue r k)
  continue-Settles Q R (ok a, world) k h hk = hk a world h
  continue-Settles Q R (err (failed e), world) k h hk = tt
  continue-Settles Q R (err panicked, world) k h hk = h
  continue-Settles Q R (err unfinished, world) k h hk = h

  pub bind-Leads :
      {A B : Type 0} (P : W → Type 0) (Q : A → W → Type 0) (R : B → W → Type 0) (m : Io W A)
      (k : A → Io W B)
      → Leads P m Q
      → ((a : A) → Leads (Q a) (k a) R)
      → Leads P (m >>= k) R
  bind-Leads P Q R m k h hk world hp = continue-Settles Q R (m world) k (h world hp) hk

  pub lift-Leads :
      {A : Type 0} (P : W → Type 0) (r : Result MonetError A) → Leads P (lift r) (λ _. P)
  lift-Leads P (ok a) world h = h
  lift-Leads P (err e) world h = tt

  pub lift_fault-Leads :
      {A : Type 0} (P : W → Type 0) (r : Result (Fault MonetError) A)
      → (r ≡ err panic → ⊥)
      → Leads P (lift_fault r) (λ _. P)
  lift_fault-Leads P (ok a) h world hp = hp
  lift_fault-Leads P (err (error e)) h world hp = tt
  lift_fault-Leads P (err panic) h world hp = h refl

-- At most `most` bytes are still to be read of a stream.
abbrev pub Holding : {W S : Type 0} {net : Network W S} → Closed net → ℕ → S → W → Type 0
Holding closed most stream world =
    (bytes : Bytes) × closed.Holds world stream bytes × (length bytes ≤ most)

-- Servers that close each connection behind at most `most` bytes; what a connection attempt or a
-- write comes to is a success or an error.
pub record Servers {W S : Type 0} (net : Network W S) (most : ℕ) : Type 1 where
  pub closed : Closed net
  pub connects :
      (host : Text) (port : ℕ) (world : W)
      → Settles (λ stream after. Holding closed most stream after) (net.connect_tcp host port world)
  pub writes :
      (stream : S) (payload : Bytes) (world : W)
      → Holding closed most stream world
      → Settles
          (λ _ after. Holding closed most stream after)
          (net.flush stream (net.put_slice stream payload world))
