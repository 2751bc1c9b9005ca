-- ===== src/Rows/SqlxCore.antt =====
-- What the tests of src/row.rs and src/connection.rs take from other crates: `Row::try_get` and the
-- decoding of an optional value from sqlx_core, and the decimals of rust_decimal.
use sqlx_monetdb.Prelude.{ℕ, Bool, true, false, List, Option, none, some, Result, ◌==◌, get_elem?}
use sqlx_monetdb.Text.{Text, text_eq}
use sqlx_monetdb.Text.Number.{ℤ, pos, negsuc}
use sqlx_monetdb.Error.{SqlxError}
use sqlx_monetdb.Types.{SqlType, i32_type, string_type, boolean_type, decimal_type}
use sqlx_monetdb.Rows.{MonetRow, index_at, index_of}

-- `try_get` is none where it fails, which the tests unwrap.
pub record SqlxCore (Decimal : Type 0) : Type 1 where
  pub try_get : {A : Type 0} → SqlType A → Result SqlxError ℕ → MonetRow → Option A
  pub optional : {A : Type 0} → SqlType A → SqlType (Option A)
  pub from_text : Text → Option Decimal
  pub to_text : Decimal → Text
  pub same : Decimal → Decimal → Bool

abbrev holds {ℓ} : {A : Type ℓ} → (A → Bool) → Option A → Bool
holds test none = false
holds test (some a) = test a

abbrev is_int : ℕ → ℤ → Bool
is_int n (pos m) = m == n
is_int n (negsuc m) = false

abbrev is_none {ℓ} : {A : Type ℓ} → Option A → Bool
is_none none = true
is_none (some a) = false

module _ {Decimal : Type 0} (core : SqlxCore Decimal) where
  abbrev pub decimal : SqlType Decimal
  decimal = decimal_type core.from_text core.to_text

  -- `rows[i].try_get::<A, _>(index).unwrap()`, where the row and the value are there.
  abbrev got :
      {A : Type 0} → List MonetRow → ℕ → SqlType A → (MonetRow → Result SqlxError ℕ) → Option A
  got rows i type index = elim (get_elem? rows i) [
    | none ↦ none
    | some row ↦ core.try_get type (index row) row
  ]

  abbrev pub int_at : List MonetRow → ℕ → ℕ → ℕ → Bool
  int_at rows i column n = holds (is_int n) (got rows i i32_type (index_at column))

  abbrev pub text_at : List MonetRow → ℕ → ℕ → Text → Bool
  text_at rows i column s = holds (λ t. text_eq t s) (got rows i string_type (index_at column))

  abbrev pub text_named : List MonetRow → ℕ → Text → Text → Bool
  text_named rows i name s = holds (λ t. text_eq t s) (got rows i string_type (index_of name))

  abbrev pub no_text_at : List MonetRow → ℕ → ℕ → Bool
  no_text_at rows i column =
      holds is_none (got rows i (core.optional string_type) (index_at column))

  abbrev pub bool_at : List MonetRow → ℕ → ℕ → (Bool → Bool) → Bool
  bool_at rows i column test = holds test (got rows i boolean_type (index_at column))

  -- `Decimal::from_str(s).unwrap()` on the right.
  abbrev pub decimal_at : List MonetRow → ℕ → ℕ → Text → Bool
  decimal_at rows i column s =
      holds (λ d. holds (core.same d) (core.from_text s)) (got rows i decimal (index_at column))
