-- ===== src/Response/Lines/Select.antt =====
-- A whole SELECT response as a server writes it, read by `parse_response` of
-- src/protocol/response.rs.
use sqlx_monetdb.Prelude.{
  ◌≡◌, ◌≢◌, refl, ap, ◌∙◌, sym, List, [], ◌∷◌, ◌++◌, Option, none, some, Result, ok, ◌>>=◌, All,
  arith, map, map_err, append-nil, append_assoc,
}
use sqlx_monetdb.Text.{Text, codes, Lacks}
use sqlx_monetdb.Text.Split.{join}
use sqlx_monetdb.Text.Trim.{is_whitespace}
use sqlx_monetdb.Text.Number.{print_unsigned}
use sqlx_monetdb.Response.{TableResult, QueryResponse, table, protocol, ResponseError}
use sqlx_monetdb.Response.Fields.{parse_tuple_fields}
use sqlx_monetdb.Response.Fields.Escape.{Field, IsField, value}
use sqlx_monetdb.Response.Fields.Tuples.{
  render_tuple, render_tuple-Lacks, parse_tuple_fields-render_tuple,
}
use sqlx_monetdb.Response.Headers.{parse_header_values, apply_header_values}
use sqlx_monetdb.Response.Headers.Columns.{
  Described, unnamed, named, typed, sized, print_unsigned-IsValue, apply-table_name, apply-name,
  apply-type, apply-length,
}
use sqlx_monetdb.Response.Headers.Sizes.{
  Sizes, print_sizes, print_sizes-IsValue, measured, apply-typesizes,
}
use sqlx_monetdb.Response.Headers.Update.{
  render_header-Lacks, parse_header_values-render_header, IsValue,
}
use sqlx_monetdb.Response.Lines.{
  Progress, parse_line, parse_lines, parse_response, finish, parse_table_header,
}
use sqlx_monetdb.Response.Lines.Summary.{
  render_summary, render_summary-Lacks, parse_table_header-render,
}
use sqlx_monetdb.Response.Lines.Replies.{
  Reply, IsReply, render_lines, table_of_reply, columns_of, shown, sizes_lines, MeasuresFit,
}
use sqlx_monetdb.Response.Lines.Errors.{start, parse_response-join}

abbrev opened : Option TableResult → Progress
opened t = record { table = t; result = none }

-- One line of each kind.
opens_line :
    (p : Progress) (s : Text) {t : TableResult}
    → parse_table_header s ≡ ok t
    → parse_line p (b'&' ∷ b'1' ∷ s) ≡ ok (record p { table = some t })
unfolding parse_line
opens_line p [] h = ap (λ r. map_err protocol r >>= λ t. ok (record p { table = some t })) h
opens_line p (c ∷ s) h = ap (λ r. map_err protocol r >>= λ t. ok (record p { table = some t })) h

header_line :
    (p : Progress) (s identity : Text) (values : List Text) (t t' : TableResult)
    → p.table ≡ some t
    → parse_header_values s ≡ ok (identity, values)
    → apply_header_values t identity values ≡ ok t'
    → parse_line p (b'%' ∷ s) ≡ ok (record p { table = some t' })
unfolding parse_line
header_line p s identity values t t' ht hv ha = rw (hv, ht, ha)

tuple_line :
    (p : Progress) (s : Text) (fields : List (Option Text)) (t : TableResult)
    → p.table ≡ some t
    → parse_tuple_fields s ≡ ok fields
    → parse_line p (b'[' ∷ s)
      ≡ ok (record p { table = some (record t { rows = t.rows ++ fields ∷ [] }) })
unfolding parse_line
tuple_line p s fields t ht hf = rw (hf, ht)

-- Tuple lines add their rows at the end, in the order of the lines.
tuple_lines :
    (t : TableResult) (rows : List (List Field))
    → All (All IsField) rows
    → parse_lines (opened (some t)) (map (λ r. b'[' ∷ render_tuple r) rows)
      ≡ ok (opened (some (record t { rows = t.rows ++ map (map value) rows })))
unfolding parse_lines
tuple_lines t [] h = ap (λ r. ok (opened (some (record t { rows = r })))) (sym (append-nil t.rows))
tuple_lines t (r ∷ rows) (hr, h) =
    ap (λ x. x >>= λ p. parse_lines p (map (λ r. b'[' ∷ render_tuple r) rows))
      (tuple_line (opened (some t)) (render_tuple r) (map value r) t refl
        (parse_tuple_fields-render_tuple r hr))
    ∙ tuple_lines (record t { rows = t.rows ++ map value r ∷ [] }) rows h
    ∙ ap (λ x. ok (opened (some (record t { rows = x }))))
        (append_assoc t.rows (map value r ∷ []) (map (map value) rows))

next_line :
    (p q : Progress) (line : Text) (lines : List Text)
    → parse_line p line ≡ ok q
    → parse_lines p (line ∷ lines) ≡ parse_lines q lines
unfolding parse_lines
next_line p q line lines h = ap (λ r. r >>= λ p'. parse_lines p' lines) h

printed_sizes : (cols : List Described) → All IsValue (map (λ c. print_unsigned c.size) cols)
printed_sizes [] = tt
printed_sizes (c ∷ cols) = (print_unsigned-IsValue c.size, printed_sizes cols)

printed_measures :
    (m : Described → Sizes) (cols : List Described)
    → All IsValue (map (λ c. print_sizes (m c)) cols)
printed_measures m [] = tt
printed_measures m (c ∷ cols) = (print_sizes-IsValue (m c), printed_measures m cols)

-- The line of the type sizes, if there is one.
measure_lines :
    (ms : Option (Described → Sizes)) (t : TableResult) (c : Described) (cols : List Described)
    (lines : List Text)
    → MeasuresFit ms (c ∷ cols)
    → t.columns ≡ map sized (c ∷ cols)
    → parse_lines (opened (some t)) (sizes_lines ms (c ∷ cols) ++ lines)
      ≡ parse_lines (opened (some (record t { columns = map (shown ms) (c ∷ cols) }))) lines
measure_lines none t c cols lines h e =
    ap (λ cs. parse_lines (opened (some (record t { columns = cs }))) lines) e
measure_lines (some m) t c cols lines h e =
    let t' : TableResult = record t { columns = map (measured m) (c ∷ cols) } in
    next_line (opened (some t)) (opened (some t')) _ _ (
      header_line (opened (some t)) _ (codes "typesizes") (map (λ c. print_sizes (m c)) (c ∷ cols))
        t t' refl
        (parse_header_values-render_header _ _ (codes "typesizes") (printed_measures m (c ∷ cols))
          (omega arith) (unfold is_whitespace in (refl, refl)))
        (apply-typesizes t m (c ∷ cols) h e))

-- The parse of a reply's lines.
lines_of_reply :
    (r : Reply)
    → IsReply r
    → parse_lines start (render_lines r) ≡ ok (opened (some (table_of_reply r)))
unfolding render_lines
lines_of_reply r h =
    let cols = columns_of r in
    let t0 : TableResult = record (table_of_reply r) { columns = []; rows = [] } in
    let t1 : TableResult = record t0 { columns = map unnamed cols } in
    let t2 : TableResult = record t0 { columns = map named cols } in
    let t3 : TableResult = record t0 { columns = map typed cols } in
    let t4 : TableResult = record t0 { columns = map sized cols } in
    next_line start (opened (some t0)) _ _ (
      opens_line start (render_summary r.query_id r.row_count r.column_count r.tuple_count r.extra)
        (parse_table_header-render r.query_id r.row_count r.column_count r.tuple_count r.extra
          h.id_fits h.rows_fit h.columns_fit h.tuples_fit h.words))
    ∙ next_line (opened (some t0)) (opened (some t1)) _ _ (
        header_line (opened (some t0)) _ (codes "table_name") (map r.table_of cols) t0 t1 refl
          (parse_header_values-render_header _ _ (codes "table_name") h.tables (omega arith)
            (unfold is_whitespace in (refl, refl)))
          (apply-table_name t0 cols r.table_of refl))
    ∙ next_line (opened (some t1)) (opened (some t2)) _ _ (
        header_line (opened (some t1)) _ (codes "name") (map (λ c. c.label) cols) t1 t2 refl
          (parse_header_values-render_header _ _ (codes "name") h.labels (omega arith)
            (unfold is_whitespace in (refl, refl)))
          (apply-name t1 cols refl))
    ∙ next_line (opened (some t2)) (opened (some t3)) _ _ (
        header_line (opened (some t2)) _ (codes "type") (map (λ c. c.sql_type) cols) t2 t3 refl
          (parse_header_values-render_header _ _ (codes "type") h.sql_types (omega arith)
            (unfold is_whitespace in (refl, refl)))
          (apply-type t2 cols refl))
    ∙ next_line (opened (some t3)) (opened (some t4)) _ _ (
        header_line (opened (some t3)) _ (codes "length") (map (λ c. print_unsigned c.size) cols) t3
          t4 refl
          (parse_header_values-render_header _ _ (codes "length") (printed_sizes cols) (omega arith)
            (unfold is_whitespace in (refl, refl)))
          (apply-length t3 cols h.sizes refl))
    ∙ measure_lines r.measures t4 r.first_column r.more_columns _ h.measures_fit refl
    ∙ tuple_lines (record t4 { columns = map (shown r.measures) cols }) r.rows h.fields

finish_table :
    (t : TableResult)
    → ◌≡◌ {A = Result ResponseError QueryResponse} (ok (finish (opened (some t)))) (ok (table t))
unfolding finish
finish_table t = refl

rows-Lacks :
    (rows : List (List Field))
    → All (All IsField) rows
    → All (Lacks b'\n') (map (λ row. b'[' ∷ render_tuple row) rows)
rows-Lacks [] h = tt
rows-Lacks (r ∷ rows) (hr, h) = ((omega arith, render_tuple-Lacks r hr), rows-Lacks rows h)

sizes_lines-Lacks :
    (ms : Option (Described → Sizes)) (cols : List Described) (lines : List Text)
    → All (Lacks b'\n') lines
    → All (Lacks b'\n') (sizes_lines ms cols ++ lines)
sizes_lines-Lacks none cols lines h = h
sizes_lines-Lacks (some m) cols lines h = (
  (omega arith, render_header-Lacks _ (codes "typesizes") (printed_measures m cols) (omega arith)),
  h,
)

render_lines-Lacks : (r : Reply) → IsReply r → All (Lacks b'\n') (render_lines r)
unfolding render_lines
render_lines-Lacks r h = (
  (
    omega arith,
    (
      omega arith,
      render_summary-Lacks r.query_id r.row_count r.column_count r.tuple_count r.extra h.words,
    ),
  ),
  (
    (omega arith, render_header-Lacks _ (codes "table_name") h.tables (omega arith)),
    (
      (omega arith, render_header-Lacks _ (codes "name") h.labels (omega arith)),
      (
        (omega arith, render_header-Lacks _ (codes "type") h.sql_types (omega arith)),
        (
          (
            omega arith,
            render_header-Lacks _ (codes "length") (printed_sizes (columns_of r)) (omega arith),
          ),
          sizes_lines-Lacks r.measures (columns_of r) _ (rows-Lacks r.rows h.fields),
        ),
      ),
    ),
  ),
)

render_lines-ne-nil : (r : Reply) → render_lines r ≢ []
unfolding render_lines
render_lines-ne-nil r h = cc h

-- The text of a SELECT reply, with one or more columns and any rows, is read as the table that it
-- stands for: the numbers of the summary, each column's name, type, length and, if they are sent,
-- sizes in its place, and every row with every value, NULLs and escaped texts included. The numbers
-- have to fit their types, the header values may hold no comma, tab or line end, and bare literals
-- have to look like no quoted text and no NULL.
pub parse_response-render_lines :
    (r : Reply)
    → IsReply r
    → parse_response (join (render_lines r) b'\n') ≡ ok (table (table_of_reply r))
parse_response-render_lines r h =
    parse_response-join (render_lines r) (render_lines-ne-nil r) (render_lines-Lacks r h)
    ∙ ap (λ x. x >>= λ p. ok (finish p)) (lines_of_reply r h)
    ∙ (finish_table (table_of_reply r))
