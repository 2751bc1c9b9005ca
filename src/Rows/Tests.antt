-- ===== src/Rows/Tests.antt =====
-- Access to a row of two columns.
use sqlx_monetdb.Prelude.{
  ◌≡◌, ◌<◌, ◌+◌, ◌%◌, ◌^◌, ◌-◌, refl, get_elem?, [], ◌∷◌, List, arith, ok, some, none,
}
use sqlx_monetdb.Text.{codes}
use sqlx_monetdb.Response.{ColumnMeta}
use sqlx_monetdb.Values.{new_type_info}
use sqlx_monetdb.Rows.Sums.{total, extend-total}
use sqlx_monetdb.Rows.{
  MonetQueryResult, extend, MonetRow, columns_from, from_table_result, index_at, index_of,
  try_get_raw,
}
use sqlx_monetdb.Text.Split.{join}
use sqlx_monetdb.Response.{TableResult, table}
use sqlx_monetdb.Response.Fields.Escape.{Field, quoted, double, value}
use sqlx_monetdb.Response.Headers.Columns.{Described}
use sqlx_monetdb.Response.Lines.{parse_response}
use sqlx_monetdb.Response.Lines.Replies.{render_lines}
use sqlx_monetdb.Response.Lines.Tests.{reply, reply-IsReply}
use sqlx_monetdb.Rows.Named.{try_get_raw-reply}
use sqlx_monetdb.Rows.Access.{
  NamedAt, index_of-NamedAt, try_get_raw-value, Accessed, try_get_raw-Accessed,
}

abbrev metas : List ColumnMeta
metas =
    record { name = codes "id"; type_name = codes "int"; length = none; typesizes = none }
    ∷ record { name = codes "label"; type_name = codes "varchar"; length = none; typesizes = none }
    ∷ []

index_of-NamedAt_example :
    NamedAt
      (codes "label")
      metas
      (index_of (codes "label") (record { columns = columns_from 0 metas; values = [] }))
index_of-NamedAt_example = index_of-NamedAt (codes "label") metas []

abbrev short_row : MonetRow
short_row = record {
  columns =
      record { ordinal = 0; name = codes "id"; type_info = new_type_info (codes "int") }
      ∷ record { ordinal = 1; name = codes "label"; type_info = new_type_info (codes "varchar") }
      ∷ [];
  values = some (codes "42") ∷ [];
}

raw_at_0 :
    try_get_raw (index_at 0 short_row) short_row
    ≡ ok (record { value_data = some (codes "42"); type_info = new_type_info (codes "int") })
raw_at_0 = try_get_raw-value short_row 0 refl refl (omega arith)

try_get_raw-Accessed_example : Accessed short_row 1 (try_get_raw (index_at 1 short_row) short_row)
try_get_raw-Accessed_example = try_get_raw-Accessed short_row 1

-- The second column of the first row.
abbrev label_column : Described
label_column = record { label = codes "label"; sql_type = codes "label"; size = 20 }

abbrev label_field : Field
label_field = quoted double (codes "it's, \"so\"")

try_get_raw-reply_example :
    (t : TableResult) × (row : MonetRow) × (parse_response (join (render_lines reply) b'\n')
      ≡ ok (table t))
    × (get_elem? (from_table_result t) 0 ≡ some row)
    × (try_get_raw (index_of (codes "label") row) row
        ≡ ok (record { value_data = value label_field; type_info = new_type_info (codes "label") }))
try_get_raw-reply_example =
    try_get_raw-reply reply (reply.first_column ∷ []) [] label_column 0 {f = label_field}
      reply-IsReply refl ((λ e. cc e), tt) refl refl

abbrev last_count : MonetQueryResult
last_count = record { rows_affected = 2 ^ 64 - 1 }

abbrev two_counts : List MonetQueryResult
two_counts = record { rows_affected = 3 } ∷ record { rows_affected = 4 } ∷ []

extend-total_example :
    ((extend last_count two_counts).rows_affected
      ≡ (last_count.rows_affected + total two_counts) % 2 ^ 64)
    × (last_count.rows_affected + total two_counts < 2 ^ 64
        → (extend last_count two_counts).rows_affected
          ≡ last_count.rows_affected + total two_counts)
extend-total_example = extend-total last_count two_counts (omega arith)

wrapped_count : (extend last_count two_counts).rows_affected ≡ 6
unfolding extend
wrapped_count = refl
