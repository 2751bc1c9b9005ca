-- ===== src/Response/Lines/Refused.antt =====
-- Why a response is refused: the error paths of the loop of `parse_response`,
-- src/protocol/response.rs.
pub mod Sound
pub mod Complete
use sqlx_monetdb.Prelude.{◌≡◌, ◌≢◌, List, [], ◌∷◌, ◌++◌, Option, none, some, ok, err}
use sqlx_monetdb.Text.{Text, codes, strip_prefix}
use sqlx_monetdb.Text.Split.{split}
use sqlx_monetdb.Error.{MonetError, header_before_table, tuple_before_table, unrecognized_line}
use sqlx_monetdb.Error as E
use sqlx_monetdb.Response.{TableResult, ResponseError, protocol, database}
use sqlx_monetdb.Response.Fields.{parse_tuple_fields}
use sqlx_monetdb.Response.Headers.{apply_header_values, parse_header_values}
use sqlx_monetdb.Response.Lines.{
  Progress, parse_lines, parse_table_header, parse_update_line, parse_transaction_line,
}
use sqlx_monetdb.Response.Lines.Errors.{start}
use sqlx_monetdb.Response.Lines.Steps.{Opening}

-- A line that begins with none of the prefixes.
abbrev pub Unrecognized : Text → Type 0
Unrecognized line =
    (line ≢ [])
    × (line ≢ codes "=OK")
    × (strip_prefix line (codes "!") ≡ none)
    × (strip_prefix line (codes "#") ≡ none)
    × (strip_prefix line (codes "&1") ≡ none)
    × (strip_prefix line (codes "&5") ≡ none)
    × (strip_prefix line (codes "&2") ≡ none)
    × (strip_prefix line (codes "&3") ≡ none)
    × (strip_prefix line (codes "&4") ≡ none)
    × (strip_prefix line (codes "%") ≡ none)
    × (strip_prefix line (codes "[") ≡ none)

-- Why a line is refused, and with which error.
pub data Refusal (p : Progress) (line : Text) : ResponseError → Type 0 where
  reported : (m : Text) → line ≡ b'!' ∷ m → Refusal p line (database (record { message = m }))
  bad_summary :
      (rest : Text) (e : MonetError)
      → Opening line rest
      → parse_table_header rest ≡ err e
      → Refusal p line (protocol e)
  bad_count :
      (rest : Text) (e : MonetError)
      → line ≡ codes "&2" ++ rest
      → parse_update_line rest ≡ err e
      → Refusal p line (protocol e)
  bad_flag :
      (rest : Text) (e : MonetError)
      → line ≡ codes "&4" ++ rest
      → parse_transaction_line line ≡ err e
      → Refusal p line (protocol e)
  bad_header :
      (rest : Text) (e : MonetError)
      → line ≡ b'%' ∷ rest
      → parse_header_values rest ≡ err e
      → Refusal p line (protocol e)
  early_header :
      (rest : Text) (values : Text × List Text)
      → line ≡ b'%' ∷ rest
      → parse_header_values rest ≡ ok values
      → p.table ≡ none
      → Refusal p line (protocol (E.protocol (header_before_table line)))
  bad_values :
      (rest : Text) (values : Text × List Text) (t : TableResult) (e : MonetError)
      → line ≡ b'%' ∷ rest
      → parse_header_values rest ≡ ok values
      → p.table ≡ some t
      → apply_header_values t values.0 values.1 ≡ err e
      → Refusal p line (protocol e)
  bad_tuple :
      (rest : Text) (e : MonetError)
      → line ≡ b'[' ∷ rest
      → parse_tuple_fields rest ≡ err e
      → Refusal p line (protocol e)
  early_tuple :
      (rest : Text) (fields : List (Option Text))
      → line ≡ b'[' ∷ rest
      → parse_tuple_fields rest ≡ ok fields
      → p.table ≡ none
      → Refusal p line (protocol (E.protocol (tuple_before_table line)))
  strange : Unrecognized line → Refusal p line (protocol (E.protocol (unrecognized_line line)))

-- The line that a response is refused for: those before it parse.
abbrev pub Refused : Text → ResponseError → Type 0
Refused text e =
    (before : List Text) × (line : Text) × (after : List Text) × (p : Progress) × (split text b'\n'
      ≡ before ++ (line ∷ after))
    × (parse_lines start before ≡ ok p)
    × Refusal p line e
