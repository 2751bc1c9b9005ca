-- ===== src/Response/UnitTests/Tables.antt =====
-- The unit tests of src/protocol/response.rs on whole tables.
use sqlx_monetdb.Prelude.{ℕ, ◌≡◌, refl, [], ◌∷◌, ◌++◌, none, some, ok, Option, length, get_elem?}
use sqlx_monetdb.Text.{Text, codes}
use sqlx_monetdb.Text.Trim.{is_whitespace, split_whitespace}
use sqlx_monetdb.Text.Split.{split, rsplit_once}
use sqlx_monetdb.Text.Number.{pos}
use sqlx_monetdb.Response.{TableResult, ColumnMeta, table}
use sqlx_monetdb.Response.Fields.{unescape_field, parse_tuple_fields}
use sqlx_monetdb.Response.Headers.{parse_header_values, apply_header_values}
use sqlx_monetdb.Response.Lines.{parse_response, parse_line, parse_table_header}

-- What a column that is indexed says.
abbrev column {ℓ} : {A : Type ℓ} → TableResult → ℕ → (ColumnMeta → A) → Option A
column t i f = elim (get_elem? t.columns i) [ none ↦ none | some c ↦ some (f c) ]

abbrev synthetic_text : Text
synthetic_text =
    codes "&1 0 3 4 2\n"
    ++ (codes "% sys.t,sys.t,sys.t # table_name\n"
        ++ (codes "% a,b,c # name\n"
            ++ (codes "% int,varchar,decimal # type\n"
                ++ (codes "% 0,0,20 2 # typesizes\n"
                    ++ (codes "[ 1,\t'hello',\t3.50\t]\n" ++ codes "[ 2,\tNULL,\t9.99\t]")))))

abbrev ParsesASyntheticSelectResponseWithTypesizes : Type 0
ParsesASyntheticSelectResponseWithTypesizes =
    (t : TableResult) × (parse_response synthetic_text ≡ ok (table t))
    × (t.query_id ≡ pos 0)
    × (t.row_count ≡ 3)
    × (t.declared_columns ≡ 4)
    × (t.embedded_tuples ≡ 2)
    × (length t.columns ≡ 3)
    × (column t 0 (λ c. c.name) ≡ some (codes "a"))
    × (column t 0 (λ c. c.type_name) ≡ some (codes "int"))
    × (column t 1 (λ c. c.name) ≡ some (codes "b"))
    × (column t 1 (λ c. c.type_name) ≡ some (codes "varchar"))
    × (column t 2 (λ c. c.name) ≡ some (codes "c"))
    × (column t 2 (λ c. c.type_name) ≡ some (codes "decimal"))
    × (column t 2 (λ c. c.typesizes) ≡ some (some (20, some 2)))
    × (t.rows
        ≡ (some (codes "1") ∷ some (codes "hello") ∷ some (codes "3.50") ∷ [])
          ∷ (some (codes "2") ∷ none ∷ some (codes "9.99") ∷ [])
          ∷ [])

parses_a_synthetic_select_response_with_typesizes : ParsesASyntheticSelectResponseWithTypesizes
unfolding parse_response parse_line split is_whitespace rsplit_once parse_header_values
    apply_header_values unescape_field parse_tuple_fields parse_table_header split_whitespace
    sqlx_monetdb.Response.Headers.setter sqlx_monetdb.Response.Headers.update_columns
    sqlx_monetdb.Response.Headers.grow sqlx_monetdb.Response.Headers.set_name
    sqlx_monetdb.Response.Headers.set_type sqlx_monetdb.Response.Headers.set_typesizes
parses_a_synthetic_select_response_with_typesizes =
    (_, refl, refl, refl, refl, refl, refl, refl, refl, refl, refl, refl, refl, refl, refl)

abbrev captured_text : Text
captured_text =
    codes "&1 0 2 3 2 14 1706 104 125\n"
    ++ (codes
          "% .sqlx_monetdb_crud_test,\tsys.sqlx_monetdb_crud_test,\tsys.sqlx_monetdb_crud_test # table_name\n"
        ++ (codes "% id,\tname,\tprice # name\n"
            ++ (codes "% int,\tvarchar,\tdecimal # type\n"
                ++ (codes "% 1,\t6,\t12 # length\n"
                    ++ (codes "[ 1,\t\"widget\",\t9.99\t]\n"
                        ++ codes "[ 2,\t\"gadget\",\t19.50\t]")))))

abbrev ParsesARealCapturedSelectResponse : Type 0
ParsesARealCapturedSelectResponse =
    (t : TableResult) × (parse_response captured_text ≡ ok (table t))
    × (t.row_count ≡ 2)
    × (column t 0 (λ c. c.name) ≡ some (codes "id"))
    × (column t 1 (λ c. c.name) ≡ some (codes "name"))
    × (column t 2 (λ c. c.name) ≡ some (codes "price"))
    × (column t 2 (λ c. c.type_name) ≡ some (codes "decimal"))
    × (column t 2 (λ c. c.length) ≡ some (some 12))
    × (column t 2 (λ c. c.typesizes) ≡ some none)
    × (t.rows
        ≡ (some (codes "1") ∷ some (codes "widget") ∷ some (codes "9.99") ∷ [])
          ∷ (some (codes "2") ∷ some (codes "gadget") ∷ some (codes "19.50") ∷ [])
          ∷ [])

parses_a_real_captured_select_response : ParsesARealCapturedSelectResponse
unfolding parse_response parse_line split is_whitespace rsplit_once parse_header_values
    apply_header_values unescape_field parse_tuple_fields parse_table_header split_whitespace
    sqlx_monetdb.Response.Headers.setter sqlx_monetdb.Response.Headers.update_columns
    sqlx_monetdb.Response.Headers.grow sqlx_monetdb.Response.Headers.set_name
    sqlx_monetdb.Response.Headers.set_type sqlx_monetdb.Response.Headers.set_length
    sqlx_monetdb.Response.Headers.length_value
parses_a_real_captured_select_response = (_, refl, refl, refl, refl, refl, refl, refl, refl, refl)

abbrev TableHeaderWithTrailingUndocumentedFieldsIsAccepted : Type 0
TableHeaderWithTrailingUndocumentedFieldsIsAccepted =
    (t : TableResult) × (parse_table_header (codes "0 2 3 2 6 6764 372 1565") ≡ ok t)
    × (t.query_id ≡ pos 0)
    × (t.row_count ≡ 2)
    × (t.declared_columns ≡ 3)
    × (t.embedded_tuples ≡ 2)

table_header_with_trailing_undocumented_fields_is_accepted :
    TableHeaderWithTrailingUndocumentedFieldsIsAccepted
unfolding parse_table_header is_whitespace split_whitespace
table_header_with_trailing_undocumented_fields_is_accepted = (_, refl, refl, refl, refl, refl)
