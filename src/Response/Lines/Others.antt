-- ===== src/Response/Lines/Others.antt =====
-- The result that a response without a table has: the loop of `parse_response`,
-- src/protocol/response.rs.
use sqlx_monetdb.Prelude.{
  bind-ok, map_err-ok, ◌≡◌, inl, inr, true, false, List, [], ◌∷◌, ◌++◌, Option, none, some, ok,
  ok_or, map_err, Bool-cases, subst, get_elem?, ◌==◌,
}
use sqlx_monetdb.Text.{Text}
use sqlx_monetdb.Text.Trim.{split_whitespace}
use sqlx_monetdb.Text.Number.{parse_unsigned}
use sqlx_monetdb.Response.{
  QueryResponse, protocol, table, update, schema, transaction, success, u64_max,
}
use sqlx_monetdb.Response.Fields.{parse_tuple_fields}
use sqlx_monetdb.Response.Headers.{apply_header_values, parse_header_values}
use sqlx_monetdb.Response.Lines.{
  Progress, Line, skipped, failure, opens_table, updates, schemas, transacts, header, tuple,
  unknown, classify, run_line, parse_line, parse_table_header, parse_update_line,
  parse_transaction_line, update_of_parts, last_id, transaction_of_flag, parse_lines,
}

-- The other result of the loop is never a table.
abbrev pub IsNoTable : Option QueryResponse → Type 0
IsNoTable (some (table t)) = ⊥
IsNoTable (some (update a l)) = Unit
IsNoTable (some schema) = Unit
IsNoTable (some (transaction b)) = Unit
IsNoTable (some success) = Unit
IsNoTable none = Unit

update-IsNoTable :
    (rest : Text) (u : QueryResponse) → parse_update_line rest ≡ ok u → IsNoTable (some u)
unfolding parse_update_line update_of_parts
update-IsNoTable rest u h = by_parts (split_whitespace rest) h
  where
    by_parts : (parts : List Text) → update_of_parts rest parts ≡ ok u → IsNoTable (some u)
    by_parts [] h = cc h
    by_parts (a ∷ parts) h =
        let (affected, _, h1) = bind-ok (ok_or (parse_unsigned u64_max a) _) _ h in
        let (last, _, h2) = bind-ok (last_id parts) _ h1 in
        let same : update affected last ≡ u = cc h2 in subst (λ v. IsNoTable (some v)) same tt

transaction-IsNoTable :
    (line : Text) (u : QueryResponse) → parse_transaction_line line ≡ ok u → IsNoTable (some u)
unfolding parse_transaction_line transaction_of_flag
transaction-IsNoTable line u h =
    let (flag, _, h1) = bind-ok (ok_or (get_elem? line 3) _) _ h in
    elim (Bool-cases (flag == b't')) [
      | inl e ↦
          let same : transaction true ≡ u = cc (rw e at h1) in
          subst (λ v. IsNoTable (some v)) same tt
      | inr e ↦ elim (Bool-cases (flag == b'f')) [
        | inl e' ↦
            let same : transaction false ≡ u = cc (rw (e, e') at h1) in
            subst (λ v. IsNoTable (some v)) same tt
        | inr e' ↦ cc (rw (e, e') at h1)
      ]
    ]

run_line-IsNoTable :
    (p q : Progress) (line : Text) (k : Line)
    → IsNoTable p.result
    → run_line p line k ≡ ok q
    → IsNoTable q.result
unfolding run_line
run_line-IsNoTable p q line skipped n h =
    let same : p ≡ q = cc h in subst (λ r. IsNoTable r.result) same n
run_line-IsNoTable p q line (failure m) n h = cc h
run_line-IsNoTable p q line (opens_table rest) n h =
    let (t, _, h1) = bind-ok (map_err protocol (parse_table_header rest)) _ h in
    let same : record p { table = some t } ≡ q = cc h1 in subst (λ r. IsNoTable r.result) same n
run_line-IsNoTable p q line (updates rest) n h =
    let (u, parsed, h1) = bind-ok (map_err protocol (parse_update_line rest)) _ h in
    let same : record p { result = some u } ≡ q = cc h1 in
    subst (λ r. IsNoTable r.result) same
      (update-IsNoTable rest u (map_err-ok protocol (parse_update_line rest) parsed))
run_line-IsNoTable p q line schemas n h =
    let same : record p { result = some schema } ≡ q = cc h in
    subst (λ r. IsNoTable r.result) same tt
run_line-IsNoTable p q line transacts n h =
    let (u, parsed, h1) = bind-ok (map_err protocol (parse_transaction_line line)) _ h in
    let same : record p { result = some u } ≡ q = cc h1 in
    subst (λ r. IsNoTable r.result) same
      (transaction-IsNoTable line u (map_err-ok protocol (parse_transaction_line line) parsed))
run_line-IsNoTable p q line (header rest) n h =
    let ((identity, values), _, h2) =
      bind-ok (parse_header_values rest) _ (map_err-ok protocol _ h) in
    let (t, _, h3) = bind-ok (ok_or p.table _) _ h2 in
    let (t', _, h4) = bind-ok (apply_header_values t identity values) _ h3 in
    let same : record p { table = some t' } ≡ q = cc h4 in subst (λ r. IsNoTable r.result) same n
run_line-IsNoTable p q line (tuple rest) n h =
    let (fields, _, h2) = bind-ok (parse_tuple_fields rest) _ (map_err-ok protocol _ h) in
    let (t, _, h3) = bind-ok (ok_or p.table _) _ h2 in
    let same : record p { table = some (record t { rows = t.rows ++ fields ∷ [] }) } ≡ q = cc h3 in
    subst (λ r. IsNoTable r.result) same n
run_line-IsNoTable p q line unknown n h = cc h

pub parse_lines-IsNoTable :
    (p q : Progress) (lines : List Text)
    → IsNoTable p.result
    → parse_lines p lines ≡ ok q
    → IsNoTable q.result
unfolding parse_lines parse_line
parse_lines-IsNoTable p q [] n h = let same : p ≡ q = cc h in subst (λ r. IsNoTable r.result) same n
parse_lines-IsNoTable p q (line ∷ lines) n h =
    let (p1, h1, h2) = bind-ok (run_line p line (classify line)) _ h in
    parse_lines-IsNoTable p1 q lines (run_line-IsNoTable p p1 line (classify line) n h1) h2
