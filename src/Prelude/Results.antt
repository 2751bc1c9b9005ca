-- ===== src/Prelude/Results.antt =====
-- Rust's `Result`, the early return of `?` as a bind, and a panic as an outcome of its own.
use mathlib.Core.Option.{Option, none, some}
use mathlib.Core.Logic.{◌⊎◌, inl, inr}
use mathlib.Core.Path.{◌≡◌, refl}

pub data Result {ℓ κ} (E : Type ℓ) (A : Type κ) : Type (ℓ ⊔ κ) where
  ok : A → Result E A
  err : E → Result E A

-- What stops a computation that may also panic.
pub data Fault {ℓ} (E : Type ℓ) : Type ℓ where
  error : E → Fault E
  panic : Fault E

-- The value goes on to the rest of the computation, an error leaves it.
abbrev pub ◌>>=◌ {ℓ κ μ} :
    {E : Type ℓ} {X : Type κ} {Y : Type μ} (first : Result E X) (rest : X → Result E Y) → Result E Y
err reason >>= rest = err reason
ok x >>= rest = rest x

abbrev pub ◌>>◌ {ℓ κ μ} :
    {E : Type ℓ} {X : Type κ} {Y : Type μ} (first : Result E X) (second : Result E Y) → Result E Y
first >> second = first >>= λ x. second

infixl 5 ◌>>=◌ ◌>>◌
-- `ok_or_else`, `map_err` and `Result::ok`.
abbrev pub ok_or {ℓ κ} : {E : Type ℓ} {A : Type κ} → Option A → E → Result E A
ok_or none e = err e
ok_or (some a) e = ok a

abbrev pub map_err {ℓ κ μ} :
    {E : Type ℓ} {F : Type κ} {A : Type μ} → (E → F) → Result E A → Result F A
map_err f (ok a) = ok a
map_err f (err e) = err (f e)

-- Success of a bind, and of a converted result.
pub bind-ok {ℓ κ μ} :
    {E : Type ℓ} {X : Type κ} {Y : Type μ} (m : Result E X) (f : X → Result E Y) {y : Y}
    → (m >>= f) ≡ ok y
    → (x : X) × (m ≡ ok x) × (f x ≡ ok y)
bind-ok (err e) f h = cc h
bind-ok (ok x) f h = (x, refl, h)

pub map_err-ok {ℓ κ μ} :
    {E : Type ℓ} {F : Type κ} {X : Type μ} (f : E → F) (m : Result E X) {x : X}
    → map_err f m ≡ ok x
    → m ≡ ok x
map_err-ok f (err e) h = cc h
map_err-ok f (ok x) h = cc h

pub ok_or-ok {ℓ κ} :
    {E : Type ℓ} {X : Type κ} (o : Option X) (e : E) {x : X} → ok_or o e ≡ ok x → o ≡ some x
ok_or-ok none e h = cc h
ok_or-ok (some x) e h = cc h

-- Failure of a bind, and of converted results.
pub bind-err {ℓ κ μ} :
    {E : Type ℓ} {X : Type κ} {Y : Type μ} (m : Result E X) (f : X → Result E Y) {e : E}
    → (m >>= f) ≡ err e
    → (m ≡ err e) ⊎ ((x : X) × (m ≡ ok x) × (f x ≡ err e))
bind-err (err x) f h = inl (cc h)
bind-err (ok x) f h = inr (x, refl, h)

pub map_err-err {ℓ κ μ} :
    {E : Type ℓ} {F : Type κ} {X : Type μ} (f : E → F) (m : Result E X) {r : F}
    → map_err f m ≡ err r
    → (e : E) × (m ≡ err e) × (f e ≡ r)
map_err-err f (ok x) h = cc h
map_err-err f (err e) h = (e, refl, cc h)

pub ok_or-err {ℓ κ} :
    {E : Type ℓ} {X : Type κ} (o : Option X) (e : E) {r : E}
    → ok_or o e ≡ err r
    → (o ≡ none) × (e ≡ r)
ok_or-err none e h = (refl, cc h)
ok_or-err (some x) e h = cc h
