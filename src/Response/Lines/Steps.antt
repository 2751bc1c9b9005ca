-- ===== src/Response/Lines/Steps.antt =====
-- What one line does to the table of a response, as a step relation: the loop of `parse_response`,
-- src/protocol/response.rs.
use sqlx_monetdb.Prelude.{
  bind-ok, map_err-ok, ok_or-ok, ◌≡◌, ◌⊎◌, inl, inr, refl, ap, sym, List, [], ◌∷◌, ◌++◌, Option,
  none, some, ok, ok_or, map_err, Bool-cases, length,
}
use sqlx_monetdb.Text.{Text, codes, text_eq, text_eq_iff, strip_prefix, strip_prefix_sound}
use sqlx_monetdb.Response.{TableResult, protocol, schema}
use sqlx_monetdb.Response.Fields.{parse_tuple_fields}
use sqlx_monetdb.Response.Headers.{
  apply_header_values, parse_header_values, setter, update_columns, grow,
}
use sqlx_monetdb.Response.Lines.{
  Progress, Line, skipped, failure, opens_table, updates, schemas, transacts, header, tuple,
  unknown, classify_by, classify, run_line, parse_line, parse_table_header, parse_update_line,
  parse_transaction_line,
}

-- The kinds of line that matter to a table.
abbrev pub Opening : Text → Text → Type 0
Opening line rest = (line ≡ codes "&1" ++ rest) ⊎ (line ≡ codes "&5" ++ rest)

abbrev pub NotOpening : Text → Type 0
NotOpening line = (strip_prefix line (codes "&1") ≡ none) × (strip_prefix line (codes "&5") ≡ none)

abbrev pub NotTuple : Text → Type 0
NotTuple line = strip_prefix line (codes "[") ≡ none

abbrev Kind : Text → Line → Type 0
Kind line (opens_table rest) = Opening line rest
Kind line (tuple rest) = NotOpening line × (line ≡ b'[' ∷ rest)
Kind line skipped = NotOpening line × NotTuple line
Kind line (failure m) = NotOpening line × NotTuple line
Kind line (updates rest) = NotOpening line × NotTuple line
Kind line schemas = NotOpening line × NotTuple line
Kind line transacts = NotOpening line × NotTuple line
Kind line (header rest) = NotOpening line × NotTuple line
Kind line unknown = NotOpening line × NotTuple line

module _ (line : Text) where
  begins : (p rest : Text) → strip_prefix line p ≡ some rest → line ≡ p ++ rest
  begins p rest e = strip_prefix_sound line p rest e

  classify_by-Kind :
      (a b c d e f g i j : Option Text)
      → strip_prefix line (codes "!") ≡ a
      → strip_prefix line (codes "#") ≡ b
      → strip_prefix line (codes "&1") ≡ c
      → strip_prefix line (codes "&5") ≡ d
      → strip_prefix line (codes "&2") ≡ e
      → strip_prefix line (codes "&3") ≡ f
      → strip_prefix line (codes "&4") ≡ g
      → strip_prefix line (codes "%") ≡ i
      → strip_prefix line (codes "[") ≡ j
      → Kind line (classify_by a b c d e f g i j)
  unfolding classify_by strip_prefix
  classify_by-Kind (some m) b c d e f g i j ha hb hc hd he hf hg hi hj =
      rw (begins (codes "!") m ha) ((refl, refl), refl)
  classify_by-Kind none (some m) c d e f g i j ha hb hc hd he hf hg hi hj =
      rw (begins (codes "#") m hb) ((refl, refl), refl)
  classify_by-Kind none none (some m) d e f g i j ha hb hc hd he hf hg hi hj =
      inl (begins (codes "&1") m hc)
  classify_by-Kind none none none (some m) e f g i j ha hb hc hd he hf hg hi hj =
      inr (begins (codes "&5") m hd)
  classify_by-Kind none none none none (some m) f g i j ha hb hc hd he hf hg hi hj =
      ((hc, hd), rw (begins (codes "&2") m he) refl)
  classify_by-Kind none none none none none (some m) g i j ha hb hc hd he hf hg hi hj =
      ((hc, hd), rw (begins (codes "&3") m hf) refl)
  classify_by-Kind none none none none none none (some m) i j ha hb hc hd he hf hg hi hj =
      ((hc, hd), rw (begins (codes "&4") m hg) refl)
  classify_by-Kind none none none none none none none (some m) j ha hb hc hd he hf hg hi hj =
      ((hc, hd), rw (begins (codes "%") m hi) refl)
  classify_by-Kind none none none none none none none none (some m) ha hb hc hd he hf hg hi hj =
      ((hc, hd), begins (codes "[") m hj)
  classify_by-Kind none none none none none none none none none ha hb hc hd he hf hg hi hj =
      ((hc, hd), hj)

  classify-Kind : Kind line (classify line)
  unfolding classify strip_prefix
  classify-Kind = elim (Bool-cases (text_eq line [])) [
    | inl e ↦ rw ((text_eq_iff line []).0 e) ((refl, refl), refl)
    | inr e ↦ elim (Bool-cases (text_eq line (codes "=OK"))) [
      | inl e' ↦ rw ((text_eq_iff line (codes "=OK")).0 e') ((refl, refl), refl)
      | inr e' ↦
          rw (e, e')
            (classify_by-Kind _ _ _ _ _ _ _ _ _ refl refl refl refl refl refl refl refl refl)
    ]
  ]

-- What a table keeps once it is opened: the numbers of its summary.
abbrev pub SameSummary : TableResult → TableResult → Type 0
SameSummary t t' =
    (t'.query_id ≡ t.query_id)
    × (t'.row_count ≡ t.row_count)
    × (t'.declared_columns ≡ t.declared_columns)
    × (t'.embedded_tuples ≡ t.embedded_tuples)

-- A step of the loop, seen by the table.
pub data Step (p : Progress) (line : Text) (q : Progress) : Type 0 where
  opens :
      (rest : Text) (t : TableResult)
      → Opening line rest
      → parse_table_header rest ≡ ok t
      → q.table ≡ some t
      → Step p line q
  describes :
      (t t' : TableResult)
      → NotOpening line
      → NotTuple line
      → p.table ≡ some t
      → q.table ≡ some t'
      → SameSummary t t'
      → t'.rows ≡ t.rows
      → Step p line q
  adds :
      (rest : Text) (fields : List (Option Text)) (t t' : TableResult)
      → NotOpening line
      → line ≡ b'[' ∷ rest
      → parse_tuple_fields rest ≡ ok fields
      → p.table ≡ some t
      → q.table ≡ some t'
      → SameSummary t t'
      → t'.rows ≡ t.rows ++ fields ∷ []
      → Step p line q
  keeps : NotOpening line → NotTuple line → q.table ≡ p.table → Step p line q

apply_header_values-keeps :
    (t t' : TableResult) (identity : Text) (values : List Text)
    → apply_header_values t identity values ≡ ok t'
    → SameSummary t t' × (t'.rows ≡ t.rows)
unfolding apply_header_values
apply_header_values-keeps t t' identity values h =
    let (set, _, h1) = bind-ok (setter identity) _ h in
    let (columns, _, h2) =
      bind-ok (update_columns set (grow t.columns (length values)) values) _ h1 in
    let same : record t { columns = columns } ≡ t' = cc h2 in
    rw (← same) ((refl, refl, refl, refl), refl)

run_line-Step :
    (p q : Progress) (line : Text) (k : Line)
    → Kind line k
    → run_line p line k ≡ ok q
    → Step p line q
unfolding run_line
run_line-Step p q line skipped (ho, ht) h =
    let same : p ≡ q = cc h in keeps ho ht (ap (λ r. r.table) (sym same))
run_line-Step p q line (failure m) kind h = cc h
run_line-Step p q line (opens_table rest) kind h =
    let (t, parsed, h1) = bind-ok (map_err protocol (parse_table_header rest)) _ h in
    let same : record p { table = some t } ≡ q = cc h1 in
    opens rest t kind (map_err-ok protocol (parse_table_header rest) parsed)
      (ap (λ r. r.table) (sym same))
run_line-Step p q line (updates rest) (ho, ht) h =
    let (u, _, h1) = bind-ok (map_err protocol (parse_update_line rest)) _ h in
    let same : record p { result = some u } ≡ q = cc h1 in
    keeps ho ht (ap (λ r. r.table) (sym same))
run_line-Step p q line schemas (ho, ht) h =
    let same : record p { result = some schema } ≡ q = cc h in
    keeps ho ht (ap (λ r. r.table) (sym same))
run_line-Step p q line transacts (ho, ht) h =
    let (u, _, h1) = bind-ok (map_err protocol (parse_transaction_line line)) _ h in
    let same : record p { result = some u } ≡ q = cc h1 in
    keeps ho ht (ap (λ r. r.table) (sym same))
run_line-Step p q line (header rest) (ho, ht) h =
    let ((identity, values), _, h2) =
      bind-ok (parse_header_values rest) _ (map_err-ok protocol _ h) in
    let (t, opened, h3) = bind-ok (ok_or p.table _) _ h2 in
    let (t', applied, h4) = bind-ok (apply_header_values t identity values) _ h3 in
    let same : record p { table = some t' } ≡ q = cc h4 in
    let (summary, rows) = apply_header_values-keeps t t' identity values applied in
    describes t t' ho ht (ok_or-ok p.table _ opened) (ap (λ r. r.table) (sym same)) summary rows
run_line-Step p q line (tuple rest) (ho, hl) h =
    let (fields, parsed, h2) = bind-ok (parse_tuple_fields rest) _ (map_err-ok protocol _ h) in
    let (t, opened, h3) = bind-ok (ok_or p.table _) _ h2 in
    let same : record p { table = some (record t { rows = t.rows ++ fields ∷ [] }) } ≡ q = cc h3 in
    adds rest fields t (record t { rows = t.rows ++ fields ∷ [] }) ho hl parsed
      (ok_or-ok p.table _ opened) (ap (λ r. r.table) (sym same)) (refl, refl, refl, refl) refl
run_line-Step p q line unknown kind h = cc h

-- Every line that the loop accepts is a step of the relation: it opens a table anew, describes or
-- extends the open one, keeping the numbers of its summary and the rows that it has, or leaves the
-- table alone.
pub parse_line-Step : (p q : Progress) (line : Text) → parse_line p line ≡ ok q → Step p line q
unfolding parse_line
parse_line-Step p q line h = run_line-Step p q line (classify line) (classify-Kind line) h
