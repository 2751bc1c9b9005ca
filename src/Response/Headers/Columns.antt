-- ===== src/Response/Headers/Columns.antt =====
-- The header lines of one table, one after another: `apply_header_values` of
-- src/protocol/response.rs.
use sqlx_monetdb.Prelude.{
  ℕ, suc, ◌-◌, ◌≡◌, ◌≢◌, refl, ap, ◌∙◌, List, [], ◌∷◌, none, some, Result, ok, ◌>>=◌, All, map,
  lt→ltb, length, length-map, replicate, arith, ◌≤◌, false,
}
use sqlx_monetdb.Text.{Text, codes, text_eq, Lacks}
use sqlx_monetdb.Text.Trim.{trim_of_IsTrimmed, EndsClear, is_whitespace}
use sqlx_monetdb.Text.Number.{print_unsigned}
use sqlx_monetdb.Text.Number.Print.{parse_unsigned-print_unsigned, print_unsigned-cons, IsDigit}
use sqlx_monetdb.Error.{MonetError}
use sqlx_monetdb.Response.{ColumnMeta, TableResult, u64_max}
use sqlx_monetdb.Response.Headers.{
  update_columns, set_name, set_type, set_length, keep_column, grow, empty_column,
  apply_header_values, setter, length_value, parse_field,
}
use sqlx_monetdb.Response.Headers.Update.{IsValue}

-- A column as the server describes it.
pub record Described : Type 0 where
  pub label : Text
  pub sql_type : Text
  pub size : ℕ

abbrev pub unnamed : Described → ColumnMeta
unnamed c = empty_column

abbrev pub named : Described → ColumnMeta
named c = record { name = c.label; type_name = []; length = none; typesizes = none }

abbrev pub typed : Described → ColumnMeta
typed c = record { name = c.label; type_name = c.sql_type; length = none; typesizes = none }

-- What the driver knows of the column after the four header lines.
abbrev pub sized : Described → ColumnMeta
sized c = record { name = c.label; type_name = c.sql_type; length = some c.size; typesizes = none }

update_columns-map :
    (set : ColumnMeta → Text → Result MonetError ColumnMeta) (f g : Described → ColumnMeta)
    (v : Described → Text) (cols : List Described)
    → All (λ c. set (f c) (v c) ≡ ok (g c)) cols
    → update_columns set (map f cols) (map v cols) ≡ ok (map g cols)
unfolding update_columns
update_columns-map set f g v [] h = refl
update_columns-map set f g v (c ∷ cols) (hc, h) = rw (hc, (update_columns-map set f g v cols h))

grow_same : (columns : List ColumnMeta) (n : ℕ) → n ≤ length columns → grow columns n ≡ columns
unfolding grow
grow_same columns n h = ground arith

replicate-map : (cols : List Described) → replicate (length cols) empty_column ≡ map unnamed cols
replicate-map [] = refl
replicate-map (c ∷ cols) = ap (λ r. empty_column ∷ r) (replicate-map cols)

grow-nil : (cols : List Described) → grow [] (length cols) ≡ map unnamed cols
unfolding grow
grow-nil [] = refl
grow-nil (c ∷ cols) =
    let all : length (c ∷ cols) - 0 ≡ length (c ∷ cols) = omega arith in
    rw ((lt→ltb 0 (suc (length cols)) (omega arith)), grow)
      (ap (λ n. replicate n empty_column) all ∙ replicate-map (c ∷ cols))

-- A line of as many values as there are columns sets its attribute in each column.
pub apply_header_values-map :
    (t : TableResult) (identity : Text) (set : ColumnMeta → Text → Result MonetError ColumnMeta)
    (f g : Described → ColumnMeta) (v : Described → Text) (cols : List Described)
    → setter identity ≡ ok set
    → All (λ c. set (f c) (v c) ≡ ok (g c)) cols
    → grow t.columns (length (map v cols)) ≡ map f cols
    → apply_header_values t identity (map v cols) ≡ ok (record t { columns = map g cols })
unfolding apply_header_values
apply_header_values-map t identity set f g v cols hs h e =
    ap
      (λ r. r >>= λ s.
        update_columns s (grow t.columns (length (map v cols))) (map v cols) >>= λ columns.
        ok (record t { columns = columns }))
      hs
    ∙ ap (λ r. r >>= λ columns. ok (record t { columns = columns }))
        (ap (λ columns. update_columns set columns (map v cols)) e
          ∙ update_columns-map set f g v cols h)

all_same : (P : Described → Type 0) → ((c : Described) → P c) → (cols : List Described) → All P cols
all_same P h [] = tt
all_same P h (c ∷ cols) = (h c, all_same P h cols)

pub grow_described :
    (f : Described → ColumnMeta) (v : Described → Text) (cols : List Described)
    → grow (map f cols) (length (map v cols)) ≡ map f cols
grow_described f v cols =
    grow_same (map f cols) (length (map v cols))
      (omega (arith, length-map f cols, length-map v cols))

digit_not_blank :
    (c : ℕ) → IsDigit c → (is_whitespace c ≡ false) × (c ≢ b',') × (c ≢ b'\t') × (c ≢ b'\n')
unfolding is_whitespace
digit_not_blank c h = (ground arith, ground arith, ground arith, ground arith)

EndsClear-of_IsDigit : (s : Text) → All IsDigit s → EndsClear is_whitespace s
EndsClear-of_IsDigit [] h = tt
EndsClear-of_IsDigit (c ∷ []) (hc, h) = (digit_not_blank c hc).0
EndsClear-of_IsDigit (c ∷ d ∷ s) (hc, h) = EndsClear-of_IsDigit (d ∷ s) h

Lacks-of_IsDigit : (s : Text) → All IsDigit s → Lacks b',' s × Lacks b'\t' s × Lacks b'\n' s
Lacks-of_IsDigit [] h = (tt, tt, tt)
Lacks-of_IsDigit (c ∷ s) (hc, h) =
    let (x, y, z) = Lacks-of_IsDigit s h in
    let (_, nc, nt, ne) = digit_not_blank c hc in ((nc, x), (nt, y), (ne, z))

pub print_unsigned-IsValue : (n : ℕ) → IsValue (print_unsigned n)
print_unsigned-IsValue n =
    let (d, r, eq, h) = print_unsigned-cons n in
    let (no_comma, no_tab, no_end) = Lacks-of_IsDigit (d ∷ r) h in
    rw eq (
      no_comma,
      no_end,
      ((λ e. cc e), no_tab, ((digit_not_blank d h.0).0, EndsClear-of_IsDigit (d ∷ r) h)),
    )

pub parse_field-print :
    (n : ℕ) (field : Text) → n ≤ u64_max → parse_field (print_unsigned n) field ≡ ok n
unfolding parse_field
parse_field-print n field h = rw (parse_unsigned-print_unsigned u64_max n h)

pub text_eq-nil : (s : Text) → s ≢ [] → text_eq s [] ≡ false
unfolding text_eq
text_eq-nil [] h = absurd (h refl)
text_eq-nil (c ∷ s) h = refl

length_value-print : (n : ℕ) → n ≤ u64_max → length_value (print_unsigned n) ≡ ok (some n)
unfolding length_value
length_value-print n h =
    let (_, _, (ne, _, trimmed)) = print_unsigned-IsValue n in
    rw (
      trim_of_IsTrimmed (print_unsigned n) trimmed,
      text_eq-nil (print_unsigned n) ne,
      parse_field-print n (codes "length") h,
    )

-- The printed size is read as a length.
set_length-print :
    (c : Described) → c.size ≤ u64_max → set_length (typed c) (print_unsigned c.size) ≡ ok (sized c)
unfolding set_length
set_length-print c h =
    ap (λ r. r >>= λ n. ok (record (typed c) { length = n })) (length_value-print c.size h)

sizes_read :
    (cols : List Described)
    → All (λ c. c.size ≤ u64_max) cols
    → All (λ c. set_length (typed c) (print_unsigned c.size) ≡ ok (sized c)) cols
sizes_read [] h = tt
sizes_read (c ∷ cols) (hc, h) = (set_length-print c hc, sizes_read cols h)

module _ (t : TableResult) (cols : List Described) where
  -- The line of the table names opens the columns and sets nothing.
  pub apply-table_name :
      (v : Described → Text)
      → t.columns ≡ []
      → apply_header_values t (codes "table_name") (map v cols)
        ≡ ok (record t { columns = map unnamed cols })
  unfolding setter text_eq keep_column
  apply-table_name v e =
      apply_header_values-map t (codes "table_name") keep_column unnamed unnamed v cols refl
        (all_same (λ c. keep_column (unnamed c) (v c) ≡ ok (unnamed c)) (λ c. refl) cols)
        (ap (λ columns. grow columns (length (map v cols))) e
          ∙ ap (grow []) (length-map v cols)
          ∙ grow-nil cols)

  pub apply-name :
      t.columns ≡ map unnamed cols
      → apply_header_values t (codes "name") (map (λ c. c.label) cols)
        ≡ ok (record t { columns = map named cols })
  unfolding setter text_eq set_name
  apply-name e =
      apply_header_values-map t (codes "name") set_name unnamed named (λ c. c.label) cols refl
        (all_same (λ c. set_name (unnamed c) c.label ≡ ok (named c)) (λ c. refl) cols)
        (ap (λ columns. grow columns (length (map (λ c. c.label) cols))) e
          ∙ grow_described unnamed (λ c. c.label) cols)

  pub apply-type :
      t.columns ≡ map named cols
      → apply_header_values t (codes "type") (map (λ c. c.sql_type) cols)
        ≡ ok (record t { columns = map typed cols })
  unfolding setter text_eq set_type
  apply-type e =
      apply_header_values-map t (codes "type") set_type named typed (λ c. c.sql_type) cols refl
        (all_same (λ c. set_type (named c) c.sql_type ≡ ok (typed c)) (λ c. refl) cols)
        (ap (λ columns. grow columns (length (map (λ c. c.sql_type) cols))) e
          ∙ grow_described named (λ c. c.sql_type) cols)

  pub apply-length :
      All (λ c. c.size ≤ u64_max) cols
      → t.columns ≡ map typed cols
      → apply_header_values t (codes "length") (map (λ c. print_unsigned c.size) cols)
        ≡ ok (record t { columns = map sized cols })
  unfolding setter text_eq
  apply-length h e =
      apply_header_values-map t (codes "length") set_length typed sized (λ c. print_unsigned c.size)
        cols refl (sizes_read cols h)
        (ap (λ columns. grow columns (length (map (λ c. print_unsigned c.size) cols))) e
          ∙ grow_described typed (λ c. print_unsigned c.size) cols)
