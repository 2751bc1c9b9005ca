-- ===== src/Session/Actions.antt =====
-- An `async fn` as a function of the world outside the driver: it answers with a value or stops,
-- and leaves the world changed. `unfinished` is a loop whose fuel has run out.
use sqlx_monetdb.Prelude.{Result, ok, err, Fault, error, panic}
use sqlx_monetdb.Error.{SqlxError, MonetError, from_monet_error}

pub data Stop : Type 0 where
  failed : SqlxError → Stop
  panicked unfinished : Stop

abbrev pub Io : Type 0 → Type 0 → Type 0
Io W A = W → Result Stop A × W

module _ {W : Type 0} where
  abbrev pub pure : {A : Type 0} → A → Io W A
  pure a world = (ok a, world)

  abbrev pub stop : {A : Type 0} → Stop → Io W A
  stop reason world = (err reason, world)

  abbrev pub continue : {A B : Type 0} → Result Stop A × W → (A → Io W B) → Result Stop B × W
  continue (ok a, world) k = k a world
  continue (err reason, world) k = (err reason, world)

  infixl 20 ◌>>=◌
  abbrev pub ◌>>=◌ : {A B : Type 0} → Io W A → (A → Io W B) → Io W B
  (m >>= k) world = continue (m world) k

  infixl 20 ◌>>◌
  abbrev pub ◌>>◌ : {A B : Type 0} → Io W A → Io W B → Io W B
  m >> k = m >>= λ _. k

  -- `?` on a result of the driver's own functions.
  abbrev pub lift : {A : Type 0} → Result MonetError A → Io W A
  lift (ok a) world = (ok a, world)
  lift (err e) world = (err (failed (from_monet_error e)), world)

  abbrev pub lift_fault : {A : Type 0} → Result (Fault MonetError) A → Io W A
  lift_fault (ok a) world = (ok a, world)
  lift_fault (err (error e)) world = (err (failed (from_monet_error e)), world)
  lift_fault (err panic) world = (err panicked, world)
