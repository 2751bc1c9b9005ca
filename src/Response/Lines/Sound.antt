-- ===== src/Response/Lines/Sound.antt =====
-- Every table that `parse_response` of src/protocol/response.rs gives is one that the text holds.
use sqlx_monetdb.Prelude.{
  bind-ok, ◌≡◌, ◌⊎◌, inl, inr, refl, ap, ◌∙◌, sym, List, [], ◌∷◌, ◌++◌, append_assoc, append-nil,
  Option, none, some, ok,
}
use sqlx_monetdb.Text.{Text}
use sqlx_monetdb.Text.Split.{split}
use sqlx_monetdb.Response.{TableResult, QueryResponse, table, update, schema, transaction, success}
use sqlx_monetdb.Response.Fields.{parse_tuple_fields}
use sqlx_monetdb.Response.Lines.{
  Progress, parse_line, parse_lines, parse_table_header, finish, by_table, parse_response,
}
use sqlx_monetdb.Response.Lines.Errors.{start}
use sqlx_monetdb.Response.Lines.Steps.{
  Opening, NotOpening, NotTuple, SameSummary, Step, opens, describes, adds, keeps, parse_line-Step,
}
use sqlx_monetdb.Response.Lines.Others.{IsNoTable, parse_lines-IsNoTable}

-- The rows of the tuple lines among lines none of which opens a table.
pub data Tuples : List Text → List (List (Option Text)) → Type 0 where
  end : Tuples [] []
  row :
      (line rest : Text) (fields : List (Option Text)) (lines : List Text)
      (rows : List (List (Option Text)))
      → NotOpening line
      → line ≡ b'[' ∷ rest
      → parse_tuple_fields rest ≡ ok fields
      → Tuples lines rows
      → Tuples (line ∷ lines) (fields ∷ rows)
  other :
      (line : Text) (lines : List Text) (rows : List (List (Option Text)))
      → NotOpening line
      → NotTuple line
      → Tuples lines rows
      → Tuples (line ∷ lines) rows

-- A table that stands in lines: the last line that opens one, its summary, and the rows behind it.
pub record Stands (lines : List Text) (t : TableResult) : Type 0 where
  pub before : List Text
  pub opening : Text
  pub after : List Text
  pub summary : Text
  pub opened : TableResult
  pub split_at : lines ≡ before ++ (opening ∷ after)
  pub is_opening : Opening opening summary
  pub parsed : parse_table_header summary ≡ ok opened
  pub same : SameSummary opened t
  pub rows_read : List (List (Option Text))
  pub tuples : Tuples after rows_read
  pub rows : t.rows ≡ opened.rows ++ rows_read

-- What the table at the end of lines comes from: it stands in them, or it was open before them.
abbrev From : Progress → List Text → TableResult → Type 0
From p lines t =
    Stands lines t
    ⊎ ((tp : TableResult) × (rs : List (List (Option Text))) × (p.table ≡ some tp)
        × Tuples lines rs
        × SameSummary tp t
        × (t.rows ≡ tp.rows ++ rs))

later :
    {lines : List Text} {t : TableResult} (line : Text) → Stands lines t → Stands (line ∷ lines) t
later line s = record {
  before = line ∷ s.before;
  opening = s.opening;
  after = s.after;
  summary = s.summary;
  opened = s.opened;
  split_at = ap (λ r. line ∷ r) s.split_at;
  is_opening = s.is_opening;
  parsed = s.parsed;
  same = s.same;
  rows_read = s.rows_read;
  tuples = s.tuples;
  rows = s.rows;
}

SameSummary-trans : (a b c : TableResult) → SameSummary a b → SameSummary b c → SameSummary a c
SameSummary-trans a b c (e1, e2, e3, e4) (f1, f2, f3, f4) = (f1 ∙ e1, f2 ∙ e2, f3 ∙ e3, f4 ∙ e4)

From-Step :
    (p q : Progress) (line : Text) (lines : List Text) (t : TableResult)
    → Step p line q
    → From q lines t
    → From p (line ∷ lines) t
From-Step p q line lines t st (inl s) = inl (later line s)
From-Step p q line lines t (opens rest t0 ho hp hq) (inr (tq, rs, e, ts, sum, rows)) =
    let same : t0 ≡ tq = cc (hq, e) in
    inl (record {
      before = [];
      opening = line;
      after = lines;
      summary = rest;
      opened = tq;
      split_at = refl;
      is_opening = ho;
      parsed = hp ∙ ap ok same;
      same = sum;
      rows_read = rs;
      tuples = ts;
      rows = rows;
    })
From-Step p q line lines t (describes t0 t1 ho ht hp hq s r) (inr (tq, rs, e, ts, sum, rows)) =
    let same : t1 ≡ tq = cc (hq, e) in
    inr (
      t0,
      rs,
      hp,
      other line lines rs ho ht ts,
      SameSummary-trans t0 tq t (rw (← same) s) sum,
      rows ∙ ap (λ z. z ++ rs) (ap (λ z. z.rows) (sym same) ∙ r),
    )
From-Step p q line lines t (adds rest fields t0 t1 ho hl hf hp hq s r)
      (inr (tq, rs, e, ts, sum, rows)) =
    let same : t1 ≡ tq = cc (hq, e) in
    inr (
      t0,
      fields ∷ rs,
      hp,
      row line rest fields lines rs ho hl hf ts,
      SameSummary-trans t0 tq t (rw (← same) s) sum,
      rows
          ∙ ap (λ z. z ++ rs) (ap (λ z. z.rows) (sym same) ∙ r)
          ∙ append_assoc t0.rows (fields ∷ []) rs,
    )
From-Step p q line lines t (keeps ho ht hq) (inr (tq, rs, e, ts, sum, rows)) =
    inr (tq, rs, sym hq ∙ e, other line lines rs ho ht ts, sum, rows)

parse_lines-From :
    (p q : Progress) (lines : List Text) (t : TableResult)
    → parse_lines p lines ≡ ok q
    → q.table ≡ some t
    → From p lines t
unfolding parse_lines
parse_lines-From p q [] t h e =
    let same : p ≡ q = cc h in
    inr (t, [], ap (λ r. r.table) same ∙ e, end, (refl, refl, refl, refl), sym (append-nil t.rows))
parse_lines-From p q (line ∷ lines) t h e =
    let (p1, h1, h2) = bind-ok (parse_line p line) _ h in
    From-Step p p1 line lines t (parse_line-Step p p1 line h1) (parse_lines-From p1 q lines t h2 e)

by_table-table :
    (o : Option TableResult) (r : Option QueryResponse) (t : TableResult)
    → IsNoTable r
    → by_table o r ≡ table t
    → o ≡ some t
unfolding by_table
by_table-table (some t') r t n h = cc h
by_table-table none none t n h = cc h
by_table-table none (some (table t')) t n h = absurd n
by_table-table none (some (update a l)) t n h = cc h
by_table-table none (some schema) t n h = cc h
by_table-table none (some (transaction a)) t n h = cc h
by_table-table none (some success) t n h = cc h

-- A response that is read as a table holds it: a line of the text opens it, no later line opens
-- another, its numbers are those of that line, and its rows are exactly the tuple lines behind it,
-- in their order, each with the fields that it is parsed to.
pub parse_response-Stands :
    (text : Text) (t : TableResult)
    → parse_response text ≡ ok (table t)
    → Stands (split text b'\n') t
unfolding parse_response finish
parse_response-Stands text t h =
    let lines = split text b'\n' in
    let (q, h1, h2) = bind-ok (parse_lines start lines) _ h in
    let found : q.table ≡ some t =
      by_table-table q.table q.result t (parse_lines-IsNoTable start q lines tt h1) (cc h2) in
    from_start lines t (parse_lines-From start q lines t h1 found)
  where
    from_start : (lines : List Text) (t : TableResult) → From start lines t → Stands lines t
    from_start lines t (inl s) = s
    from_start lines t (inr (tp, rs, e, _, _, _)) = cc e
