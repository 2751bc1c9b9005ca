-- ===== src/Response/Lines/Replies.antt =====
-- The text of a SELECT response as a server writes it, and the table that it stands for:
-- src/protocol/response.rs.
use sqlx_monetdb.Prelude.{ℕ, List, [], ◌∷◌, ◌++◌, Option, none, some, All, map, ◌≤◌}
use sqlx_monetdb.Text.{Text, codes}
use sqlx_monetdb.Text.Trim.{IsWord}
use sqlx_monetdb.Text.Number.{ℤ, print_unsigned}
use sqlx_monetdb.Text.Number.Print.{Fits}
use sqlx_monetdb.Response.{TableResult, u64_max}
use sqlx_monetdb.Response.Fields.Escape.{Field, IsField, value}
use sqlx_monetdb.Response.Fields.Tuples.{render_tuple}
use sqlx_monetdb.Response.Headers.Columns.{Described, sized}
use sqlx_monetdb.Response.{ColumnMeta}
use sqlx_monetdb.Response.Headers.Sizes.{Sizes, SizesFit, print_sizes, measured}
use sqlx_monetdb.Response.Headers.Update.{render_header, IsValue}
use sqlx_monetdb.Response.Lines.Summary.{render_summary}

-- What a server answers to a SELECT: the summary, one or more columns with the table that each is
-- of and, where they are asked for, the sizes of each type, and the rows that it sends along.
pub record Reply : Type 0 where
  pub query_id : ℤ
  pub row_count : ℕ
  pub column_count : ℕ
  pub tuple_count : ℕ
  pub extra : List Text
  pub first_column : Described
  pub more_columns : List Described
  pub table_of : Described → Text
  pub measures : Option (Described → Sizes)
  pub rows : List (List Field)

abbrev pub columns_of : Reply → List Described
columns_of r = r.first_column ∷ r.more_columns

-- The line of the type sizes, and what is known of a column with it or without it.
abbrev pub sizes_lines : Option (Described → Sizes) → List Described → List Text
sizes_lines none cols = []
sizes_lines (some m) cols =
    (b'%' ∷ render_header (map (λ c. print_sizes (m c)) cols) (codes "typesizes")) ∷ []

abbrev pub shown : Option (Described → Sizes) → Described → ColumnMeta
shown none c = sized c
shown (some m) c = measured m c

abbrev pub MeasuresFit : Option (Described → Sizes) → List Described → Type 0
MeasuresFit none cols = Unit
MeasuresFit (some m) cols = All (λ c. SizesFit (m c)) cols

-- The summary line, the four or five header lines and a line for each row.
unfoldable pub render_lines : Reply → List Text
render_lines r =
    (b'&' ∷ b'1' ∷ render_summary r.query_id r.row_count r.column_count r.tuple_count r.extra)
    ∷ (b'%' ∷ render_header (map r.table_of (columns_of r)) (codes "table_name"))
    ∷ (b'%' ∷ render_header (map (λ c. c.label) (columns_of r)) (codes "name"))
    ∷ (b'%' ∷ render_header (map (λ c. c.sql_type) (columns_of r)) (codes "type"))
    ∷ (b'%' ∷ render_header (map (λ c. print_unsigned c.size) (columns_of r)) (codes "length"))
    ∷ (sizes_lines r.measures (columns_of r) ++ map (λ row. b'[' ∷ render_tuple row) r.rows)

-- The table that the reply stands for.
abbrev pub table_of_reply : Reply → TableResult
table_of_reply r = record {
  query_id = r.query_id;
  row_count = r.row_count;
  declared_columns = r.column_count;
  embedded_tuples = r.tuple_count;
  columns = map (shown r.measures) (columns_of r);
  rows = map (map value) r.rows;
}

-- The numbers fit, the names hold no comma, no tab and no line end, and the fields are fields.
pub record IsReply (r : Reply) : Type 0 where
  pub id_fits : Fits 64 r.query_id
  pub rows_fit : r.row_count ≤ u64_max
  pub columns_fit : r.column_count ≤ u64_max
  pub tuples_fit : r.tuple_count ≤ u64_max
  pub words : All IsWord r.extra
  pub tables : All IsValue (map r.table_of (columns_of r))
  pub labels : All IsValue (map (λ c. c.label) (columns_of r))
  pub sql_types : All IsValue (map (λ c. c.sql_type) (columns_of r))
  pub sizes : All (λ c. c.size ≤ u64_max) (columns_of r)
  pub measures_fit : MeasuresFit r.measures (columns_of r)
  pub fields : All (All IsField) r.rows
