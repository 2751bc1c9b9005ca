-- ===== src/Response/Lines/Summary.antt =====
-- The `&1` line as a server writes it, read by `parse_table_header` of src/protocol/response.rs.
use sqlx_monetdb.Prelude.{ℕ, ◌≡◌, ◌≢◌, ap, ◌∙◌, false, List, [], ◌∷◌, ok, All, arith, ◌≤◌}
use sqlx_monetdb.Text.{Text, codes, Lacks}
use sqlx_monetdb.Text.Trim.{is_whitespace, IsWord, split_whitespace-join}
use sqlx_monetdb.Text.Split.{join, join-Lacks}
use sqlx_monetdb.Text.Number.{ℤ, print_signed, print_unsigned}
use sqlx_monetdb.Text.Number.Words.{print_unsigned-IsWord, print_signed-IsWord}
use sqlx_monetdb.Text.Number.Print.{Fits, parse_signed-print_signed}
use sqlx_monetdb.Response.{u64_max}
use sqlx_monetdb.Response.Headers.Columns.{parse_field-print}
use sqlx_monetdb.Response.Lines.{parse_table_header, table_of_parts}

-- The summary of a table as the server writes it behind `&1`: four numbers and any further words.
unfoldable pub render_summary : ℤ → ℕ → ℕ → ℕ → List Text → Text
render_summary query_id rows columns tuples extra =
    b' '
    ∷ join
        (print_signed query_id
          ∷ print_unsigned rows
          ∷ print_unsigned columns
          ∷ print_unsigned tuples
          ∷ extra)
        b' '

table_of_parts-print :
    (query_id : ℤ) (rows columns tuples : ℕ) (extra : List Text)
    → Fits 64 query_id
    → rows ≤ u64_max
    → columns ≤ u64_max
    → tuples ≤ u64_max
    → table_of_parts (
        print_signed query_id
        ∷ print_unsigned rows
        ∷ print_unsigned columns
        ∷ print_unsigned tuples
        ∷ extra)
      ≡ ok (record {
        query_id = query_id;
        row_count = rows;
        declared_columns = columns;
        embedded_tuples = tuples;
        columns = [];
        rows = [];
      })
unfolding table_of_parts
table_of_parts-print query_id rows columns tuples extra hq hr hc ht = rw (
  (parse_signed-print_signed 64 query_id hq),
  (parse_field-print rows (codes "rowcount") hr),
  (parse_field-print columns (codes "columns") hc),
  (parse_field-print tuples (codes "tuples") ht),
)

-- The four numbers of a table line are read back if they fit their types, and the words behind
-- them are ignored.
pub parse_table_header-render :
    (query_id : ℤ) (rows columns tuples : ℕ) (extra : List Text)
    → Fits 64 query_id
    → rows ≤ u64_max
    → columns ≤ u64_max
    → tuples ≤ u64_max
    → All IsWord extra
    → parse_table_header (render_summary query_id rows columns tuples extra)
      ≡ ok (record {
        query_id = query_id;
        row_count = rows;
        declared_columns = columns;
        embedded_tuples = tuples;
        columns = [];
        rows = [];
      })
unfolding parse_table_header render_summary
parse_table_header-render query_id rows columns tuples extra hq hr hc ht he =
    ap table_of_parts (
      split_whitespace-join (print_signed query_id)
        (print_unsigned rows ∷ print_unsigned columns ∷ print_unsigned tuples ∷ extra)
        (
          print_signed-IsWord query_id,
          (
            print_unsigned-IsWord rows,
            (print_unsigned-IsWord columns, (print_unsigned-IsWord tuples, he)),
          ),
        ))
    ∙ table_of_parts-print query_id rows columns tuples extra hq hr hc ht

line_end_blank : (c : ℕ) → is_whitespace c ≡ false → c ≢ b'\n'
unfolding is_whitespace
line_end_blank c h = ground arith

word-Lacks : (w : Text) → All (λ c. is_whitespace c ≡ false) w → Lacks b'\n' w
word-Lacks [] h = tt
word-Lacks (c ∷ w) (hc, h) = (line_end_blank c hc, word-Lacks w h)

pub words-Lacks : (ws : List Text) → All IsWord ws → All (Lacks b'\n') ws
words-Lacks [] h = tt
words-Lacks (w ∷ ws) ((_, hw), h) = (word-Lacks w hw, words-Lacks ws h)

pub print_unsigned-Lacks : (n : ℕ) → Lacks b'\n' (print_unsigned n)
print_unsigned-Lacks n = word-Lacks (print_unsigned n) (print_unsigned-IsWord n).1

-- The summary is one line.
pub render_summary-Lacks :
    (query_id : ℤ) (rows columns tuples : ℕ) (extra : List Text)
    → All IsWord extra
    → Lacks b'\n' (render_summary query_id rows columns tuples extra)
unfolding render_summary
render_summary-Lacks query_id rows columns tuples extra h = (
  omega arith,
  join-Lacks b'\n' b' ' words (omega arith) (
      words-Lacks words (
        print_signed-IsWord query_id,
        (
          print_unsigned-IsWord rows,
          (print_unsigned-IsWord columns, (print_unsigned-IsWord tuples, h)),
        ),
      )),
)
  where
    words : List Text
    words =
        print_signed query_id
        ∷ print_unsigned rows
        ∷ print_unsigned columns
        ∷ print_unsigned tuples
        ∷ extra
