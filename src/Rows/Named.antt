-- ===== src/Rows/Named.antt =====
-- Reading a column of a reply's row by its name, src/row.rs behind the parser of
-- src/protocol/response.rs.
use sqlx_monetdb.Prelude.{
  Option, none, some, ℕ, zero, suc, ◌+◌, ◌≡◌, ◌≢◌, refl, ap, ◌∙◌, List, [], ◌∷◌, ◌++◌, ok, All, map,
  length, get_elem?, arith, inl, inr, Bool-cases,
}
use sqlx_monetdb.Text.{text_eq, text_eq_iff, text_eq_refl}
use sqlx_monetdb.Text.Split.{join}
use sqlx_monetdb.Values.{new_type_info}
use sqlx_monetdb.Response.{TableResult, table}
use sqlx_monetdb.Response.Fields.Escape.{Field, value}
use sqlx_monetdb.Response.Headers.Columns.{Described}
use sqlx_monetdb.Response.Headers.Sizes.{Sizes}
use sqlx_monetdb.Response.Lines.{parse_response}
use sqlx_monetdb.Response.Lines.Replies.{
  Reply, shown, IsReply, render_lines, table_of_reply, columns_of,
}
use sqlx_monetdb.Response.Lines.Select.{parse_response-render_lines}
use sqlx_monetdb.Rows.{
  MonetRow, columns_from, from_meta, find_column, index_of, try_get_raw, from_table_result,
}
use sqlx_monetdb.Rows.Access.{get-columns_from, value_ref_lem}

get_elem?-map {ℓ κ} :
    {A : Type ℓ} {B : Type κ} (f : A → B) (xs : List A) (k : ℕ) {y : A}
    → get_elem? xs k ≡ some y
    → get_elem? (map f xs) k ≡ some (f y)
get_elem?-map f [] k h = cc h
get_elem?-map f (x ∷ xs) zero {y} h = let same : x ≡ y = cc h in ap (λ z. some (f z)) same
get_elem?-map f (x ∷ xs) (suc k) h = get_elem?-map f xs k h

-- The first of the columns that has its name.
abbrev pub IsFirst : List Described → Described → Type 0
IsFirst before c = All (λ b. b.label ≢ c.label) before

shown-keeps :
    (ms : Option (Described → Sizes)) (c : Described)
    → ((shown ms c).name ≡ c.label) × ((shown ms c).type_name ≡ c.sql_type)
shown-keeps none c = (refl, refl)
shown-keeps (some m) c = (refl, refl)

find-first :
    (ms : Option (Described → Sizes)) (n : ℕ) (before after : List Described) (c : Described)
    → IsFirst before c
    → find_column c.label (columns_from n (map (shown ms) (before ++ (c ∷ after))))
      ≡ some (from_meta (n + length before) (shown ms c))
unfolding find_column columns_from
find-first ms n [] after c h =
    rw ((shown-keeps ms c).0, text_eq_refl c.label)
      (ap
        (λ j. some (record {
          ordinal = j;
          name = c.label;
          type_info = new_type_info (shown ms c).type_name;
        }))
        {x = n} {y = n + 0} (omega arith))
find-first ms n (b ∷ before) after c (hb, h) = elim (Bool-cases (text_eq b.label c.label)) [
  | inl e ↦ absurd (hb ((text_eq_iff b.label c.label).0 e))
  | inr e ↦
      rw ((shown-keeps ms b).0, e)
        (find-first ms (suc n) before after c h
          ∙ ap (λ j. some (from_meta j (shown ms c))) {x = suc n + length before}
              {y = n + suc (length before)} (omega arith))
]

get-middle {ℓ} :
    {A : Type ℓ} (before : List A) (x : A) (after : List A)
    → get_elem? (before ++ (x ∷ after)) (length before) ≡ some x
get-middle [] x after = refl
get-middle (b ∷ before) x after = get-middle before x after

-- The row of a reply at a place.
abbrev row_of : Reply → List Field → MonetRow
row_of r fields = record {
  columns = columns_from 0 (table_of_reply r).columns;
  values = map value fields;
}

named_at :
    (r : Reply) (before after : List Described) (c : Described) (fields : List Field)
    → columns_of r ≡ before ++ (c ∷ after)
    → IsFirst before c
    → index_of c.label (row_of r fields) ≡ ok (length before)
unfolding index_of
named_at r before after c fields split first =
    let found : find_column c.label (columns_from 0 (map (shown r.measures) (columns_of r)))
        ≡ some (from_meta (0 + length before) (shown r.measures c)) =
      ap (λ cs. find_column c.label (columns_from 0 (map (shown r.measures) cs))) split
      ∙ find-first r.measures 0 before after c first in
    rw (index_of, found) (ap ok {x = 0 + length before} {y = length before} (omega arith))

-- A field of a reply's row is read by the name of its column: the text of the reply parses to a
-- table, the row at each place of it is the one that the server sent there, and the name gives the
-- field below the first column of that name, unescaped or NULL, with that column's type. The row has
-- to have a field in that place.
pub try_get_raw-reply :
    (r : Reply) (before after : List Described) (c : Described) (k : ℕ) {fields : List Field}
    {f : Field}
    → IsReply r
    → columns_of r ≡ before ++ (c ∷ after)
    → IsFirst before c
    → get_elem? r.rows k ≡ some fields
    → get_elem? fields (length before) ≡ some f
    → (t : TableResult) × (row : MonetRow) × (parse_response (join (render_lines r) b'\n')
        ≡ ok (table t))
      × (get_elem? (from_table_result t) k ≡ some row)
      × (try_get_raw (index_of c.label row) row
          ≡ ok (record { value_data = value f; type_info = new_type_info c.sql_type }))
unfolding from_table_result try_get_raw
try_get_raw-reply r before after c k {fields} {f} h split first hk hf = (
  table_of_reply r,
  row_of r fields,
  parse_response-render_lines r h,
  get_elem?-map
      (λ values. record { columns = columns_from 0 (table_of_reply r).columns; values = values })
      (map (map value) r.rows) k (get_elem?-map (map value) r.rows k hk),
  rw
      (
        named_at r before after c fields split first,
        column,
        get_elem?-map value fields (length before) hf,
        try_get_raw,
      )
      (ap ok (
        value_ref_lem (new_type_info (shown r.measures c).type_name) (value f)
        ∙ ap (λ n. record { value_data = value f; type_info = new_type_info n })
            (shown-keeps r.measures c).1)),
)
  where
    column :
        get_elem? (columns_from 0 (map (shown r.measures) (columns_of r))) (length before)
        ≡ some (from_meta (0 + length before) (shown r.measures c))
    column = get-columns_from 0 (length before) (map (shown r.measures) (columns_of r)) (
        get_elem?-map (shown r.measures) (columns_of r) (length before)
          (ap (λ cs. get_elem? cs (length before)) split ∙ get-middle before c after))
