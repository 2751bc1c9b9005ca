-- ===== src/Rows/Access.antt =====
-- Access to the columns of a row, src/row.rs.
use sqlx_monetdb.Prelude.{
  ℕ, zero, suc, ◌+◌, ◌≤◌, ◌<◌, ◌≡◌, ◌≢◌, refl, ap, ◌∙◌, sym, true, List, [], ◌∷◌, ◌++◌, Option,
  none, some, Result, ok, err, Fault, error, panic, leb, length, get_elem?, arith, All, Bool-cases,
  inl, inr, subst,
}
use sqlx_monetdb.Text.{Text, text_eq, text_eq_iff}
use sqlx_monetdb.Error.{SqlxError, column_index_out_of_bounds, column_not_found}
use sqlx_monetdb.Response.{ColumnMeta}
use sqlx_monetdb.Values.{MonetTypeInfo, MonetValueRef}
use sqlx_monetdb.Rows.{
  MonetColumn, MonetRow, columns_from, from_meta, index_at, find_column, index_of, try_get_raw,
  value_ref,
}

length-columns_from :
    (n : ℕ) (metas : List ColumnMeta) → length (columns_from n metas) ≡ length metas
unfolding columns_from
length-columns_from n [] = refl
length-columns_from n (m ∷ metas) = ap suc (length-columns_from (suc n) metas)

pub get-columns_from :
    (n k : ℕ) (metas : List ColumnMeta) {m : ColumnMeta}
    → get_elem? metas k ≡ some m
    → get_elem? (columns_from n metas) k ≡ some (from_meta (n + k) m)
unfolding columns_from
get-columns_from n k [] h = cc h
get-columns_from n zero (m ∷ metas) {m = m'} h =
    let same : m ≡ m' = cc h in
    ap (λ c. some (from_meta n c)) same
    ∙ ap (λ j. some (from_meta j m')) {x = n} {y = n + 0} (omega arith)
get-columns_from n (suc k) (m ∷ metas) {m = m'} h =
    get-columns_from (suc n) k metas {m = m'} h
    ∙ ap (λ j. some (from_meta j m')) {x = suc n + k} {y = n + suc k} (omega arith)

-- Where a name is found among columns: the first column of that name, and its place.
abbrev pub FirstNamed : Text → List ColumnMeta → ℕ → Type 0
FirstNamed name metas k =
    (before : List ColumnMeta) × (m : ColumnMeta) × (after : List ColumnMeta) × (metas
      ≡ before ++ (m ∷ after))
    × (length before ≡ k)
    × (m.name ≡ name)
    × All (λ b. b.name ≢ name) before

abbrev pub NamedAt : Text → List ColumnMeta → Result SqlxError ℕ → Type 0
NamedAt name metas (ok k) = FirstNamed name metas k
NamedAt name metas (err e) = (e ≡ column_not_found name) × All (λ b. b.name ≢ name) metas

abbrev Found : ℕ → Text → List ColumnMeta → Option MonetColumn → Type 0
Found n name metas none = All (λ b. b.name ≢ name) metas
Found n name metas (some c) = (k : ℕ) × (c.ordinal ≡ n + k) × FirstNamed name metas k

Found-later :
    (n : ℕ) (name : Text) (m : ColumnMeta) (metas : List ColumnMeta) (o : Option MonetColumn)
    → m.name ≢ name
    → Found (suc n) name metas o
    → Found n name (m ∷ metas) o
Found-later n name m metas none ne h = (ne, h)
Found-later n name m metas (some c) ne (k, at, (before, m', after, e, len, same, none_before)) = (
  suc k,
  at ∙ omega arith,
  (m ∷ before, m', after, ap (λ r. m ∷ r) e, ap suc len, same, (ne, none_before)),
)

find_column-Found :
    (n : ℕ) (name : Text) (metas : List ColumnMeta)
    → Found n name metas (find_column name (columns_from n metas))
unfolding find_column columns_from
find_column-Found n name [] = tt
find_column-Found n name (m ∷ metas) = elim (Bool-cases (text_eq m.name name)) [
  | inl e ↦ rw e (0, (omega arith), ([], m, metas, refl, refl, (text_eq_iff m.name name).0 e, tt))
  | inr e ↦
      let ne : m.name ≢ name = (λ same.
        let yes : text_eq m.name name ≡ true = (text_eq_iff m.name name).1 same in cc (e, yes)) in
      rw e (
        Found-later n name m metas (find_column name (columns_from (suc n) metas)) ne
          (find_column-Found (suc n) name metas))
]

-- A column of a table's row is found by its name exactly where the first header of that name
-- stands, and the name is reported as not found only if no header has it.
pub index_of-NamedAt :
    (name : Text) (metas : List ColumnMeta) (values : List (Option Text))
    → NamedAt name metas
        (index_of name (record { columns = columns_from 0 metas; values = values }))
unfolding index_of
index_of-NamedAt name metas values =
    by_found (find_column name (columns_from 0 metas)) (find_column-Found 0 name metas)
  where
    by_found :
        (o : Option MonetColumn)
        → Found 0 name metas o
        → NamedAt name metas (elim o [ none ↦ err (column_not_found name) | some c ↦ ok c.ordinal ])
    by_found none h = (refl, h)
    by_found (some c) (k, at, first) =
        subst (FirstNamed name metas) {x = k} {y = c.ordinal} (omega (arith, at)) first

get_elem?-lt {ℓ} :
    {A : Type ℓ} (xs : List A) (k : ℕ) → k < length xs → (x : A) × (get_elem? xs k ≡ some x)
get_elem?-lt [] k h = absurd (omega arith)
get_elem?-lt (x ∷ xs) zero h = (x, refl)
get_elem?-lt (x ∷ xs) (suc k) h = get_elem?-lt xs k (omega arith)

get_elem?-ge {ℓ} : {A : Type ℓ} (xs : List A) (k : ℕ) → length xs ≤ k → get_elem? xs k ≡ none
get_elem?-ge [] k h = refl
get_elem?-ge (x ∷ xs) zero h = absurd (omega arith)
get_elem?-ge (x ∷ xs) (suc k) h = get_elem?-ge xs k (omega arith)

pub value_ref_lem :
    (t : MonetTypeInfo) (v : Option Text) → value_ref t v ≡ record { value_data = v; type_info = t }
unfolding value_ref
value_ref_lem t none = refl
value_ref_lem t (some text) = refl

index_at-lt : (row : MonetRow) (k : ℕ) → k < length row.columns → index_at k row ≡ ok k
unfolding index_at
index_at-lt row k h = ground arith

-- The value at a position of a row, NULL or not, comes with the type of the column there, for
-- every row that has a value at that position.
pub try_get_raw-value :
    (row : MonetRow) (k : ℕ) {c : MonetColumn} {v : Option Text}
    → get_elem? row.columns k ≡ some c
    → get_elem? row.values k ≡ some v
    → k < length row.columns
    → try_get_raw (index_at k row) row ≡ ok (record { value_data = v; type_info = c.type_info })
unfolding try_get_raw
try_get_raw-value row k {c} {v} ec ev hc =
    rw (index_at-lt row k hc, ec, ev, try_get_raw) (ap ok (value_ref_lem c.type_info v))

-- What access by position comes to: a value with the type of its column, NULL or not, an index out
-- of bounds, or a panic.
abbrev pub Accessed : MonetRow → ℕ → Result (Fault SqlxError) MonetValueRef → Type 0
Accessed row k (ok value) =
    (get_elem? row.values k ≡ some value.value_data)
    × ((c : MonetColumn) × (get_elem? row.columns k ≡ some c) × (value.type_info ≡ c.type_info))
Accessed row k (err (error e)) =
    (length row.columns ≤ k) × (e ≡ column_index_out_of_bounds k (length row.columns))
Accessed row k (err panic) = (k < length row.columns) × (length row.values ≤ k)

-- Access by position gives the value there with the type of the column there, if the row has both;
-- the position is reported as out of bounds, with the number of columns, exactly behind the last
-- column, and the access panics exactly at a column for which the row has no value.
pub try_get_raw-Accessed :
    (row : MonetRow) (k : ℕ) → Accessed row k (try_get_raw (index_at k row) row)
unfolding try_get_raw
try_get_raw-Accessed row k = elim (Bool-cases (leb (length row.columns) k)) [
  | inl e ↦
      let out : index_at k row ≡ err (column_index_out_of_bounds k (length row.columns)) =
        (unfold index_at in rw e refl) in
      rw (out, try_get_raw) (ground (arith, e), refl)
  | inr e ↦
      let hc : k < length row.columns = ground (arith, e) in
      let (c, ec) = get_elem?-lt row.columns k hc in
      elim (Bool-cases (leb (length row.values) k)) [
        | inl e' ↦
            let hv : length row.values ≤ k = ground (arith, e') in
            rw (index_at-lt row k hc, ec, get_elem?-ge row.values k hv, try_get_raw) (hc, hv)
        | inr e' ↦
            let (v, ev) = get_elem?-lt row.values k (ground (arith, e')) in
            subst (Accessed row k) (sym (try_get_raw-value row k {c = c} {v = v} ec ev hc))
              (ev, (c, ec, refl))
      ]
]
