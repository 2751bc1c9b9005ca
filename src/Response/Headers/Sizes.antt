-- ===== src/Response/Headers/Sizes.antt =====
-- The header line of type sizes: `parse_typesizes_value` and `apply_header_values` of
-- src/protocol/response.rs.
use sqlx_monetdb.Prelude.{
  ℕ, ◌≡◌, ◌≢◌, refl, ap, ◌∙◌, sym, List, [], ◌∷◌, ◌++◌, Option, none, some, ok, All, All-append,
  map, length, ◌≤◌, arith, ◌>>=◌, Bool,
}
use sqlx_monetdb.Text.{Text, codes, Lacks}
use sqlx_monetdb.Text.Trim.{
  is_whitespace, EndsClear, StartsClear, IsWord, trim_of_IsTrimmed, split_whitespace,
  split_whitespace-words,
}
use sqlx_monetdb.Text.Number.Words.{print_unsigned-IsWord}
use sqlx_monetdb.Text.Split.{join}
use sqlx_monetdb.Text.Number.{print_unsigned}
use sqlx_monetdb.Text.Number.Print.{parse_unsigned-print_unsigned}
use sqlx_monetdb.Response.{ColumnMeta, TableResult, u64_max}
use sqlx_monetdb.Response.Headers.{
  parse_typesizes_value, sizes, second_size, set_typesizes, setter, apply_header_values, grow,
}
use sqlx_monetdb.Response.Headers.Columns.{
  Described, sized, print_unsigned-IsValue, text_eq-nil, apply_header_values-map, grow_described,
}
use sqlx_monetdb.Response.Headers.Update.{IsValue}

-- The sizes of a type: one number, or two with a blank between them.
abbrev pub Sizes : Type 0
Sizes = ℕ × Option ℕ

abbrev words_of : Sizes → List Text
words_of (a, none) = print_unsigned a ∷ []
words_of (a, some b) = print_unsigned a ∷ print_unsigned b ∷ []

abbrev pub print_sizes : Sizes → Text
print_sizes s = join (words_of s) b' '

abbrev pub SizesFit : Sizes → Type 0
SizesFit (a, none) = a ≤ u64_max
SizesFit (a, some b) = (a ≤ u64_max) × (b ≤ u64_max)

EndsClear-append : (p : ℕ → Bool) (t s : Text) → s ≢ [] → EndsClear p s → EndsClear p (t ++ s)
EndsClear-append p [] s ne h = h
EndsClear-append p (a ∷ t) [] ne h = absurd (ne refl)
EndsClear-append p (a ∷ []) (c ∷ s) ne h = h
EndsClear-append p (a ∷ b ∷ t) (c ∷ s) ne h = EndsClear-append p (b ∷ t) (c ∷ s) ne h

StartsClear-append : (p : ℕ → Bool) (t s : Text) → t ≢ [] → StartsClear p t → StartsClear p (t ++ s)
StartsClear-append p [] s ne h = absurd (ne refl)
StartsClear-append p (a ∷ t) s ne h = h

append-ne-nil : (t s : Text) → t ≢ [] → t ++ s ≢ []
append-ne-nil [] s ne e = ne refl
append-ne-nil (c ∷ t) s ne e = cc e

pub print_sizes-IsValue : (s : Sizes) → IsValue (print_sizes s)
unfolding join
print_sizes-IsValue (a, none) = print_unsigned-IsValue a
print_sizes-IsValue (a, some b) =
    let (ca, na, (ea, ta, (sa, _))) = print_unsigned-IsValue a in
    let (cb, nb, (eb, tb, (_, zb))) = print_unsigned-IsValue b in
    let back : b' ' ∷ print_unsigned b ≢ [] = λ e. cc e in
    (
      All-append _ (print_unsigned a) (b' ' ∷ print_unsigned b) ca (omega arith, cb),
      All-append _ (print_unsigned a) (b' ' ∷ print_unsigned b) na (omega arith, nb),
      (
        append-ne-nil (print_unsigned a) (b' ' ∷ print_unsigned b) ea,
        All-append _ (print_unsigned a) (b' ' ∷ print_unsigned b) ta (omega arith, tb),
        (
          StartsClear-append is_whitespace (print_unsigned a) (b' ' ∷ print_unsigned b) ea sa,
          EndsClear-append is_whitespace (print_unsigned a) (b' ' ∷ print_unsigned b) back
              (EndsClear-append is_whitespace (b' ' ∷ []) (print_unsigned b) eb zb),
        ),
      ),
    )

words_of-IsWord :
    (s : Sizes) → (w : Text) × (ws : List Text) × (words_of s ≡ w ∷ ws) × All IsWord (w ∷ ws)
words_of-IsWord (a, none) = (print_unsigned a, [], refl, (print_unsigned-IsWord a, tt))
words_of-IsWord (a, some b) = (
  print_unsigned a,
  print_unsigned b ∷ [],
  refl,
  (print_unsigned-IsWord a, (print_unsigned-IsWord b, tt)),
)

sizes-print : (value : Text) (s : Sizes) → SizesFit s → sizes value (words_of s) ≡ ok (some s)
unfolding sizes second_size
sizes-print value (a, none) h = rw (parse_unsigned-print_unsigned u64_max a h) refl
sizes-print value (a, some b) (ha, hb) =
    rw (parse_unsigned-print_unsigned u64_max a ha, parse_unsigned-print_unsigned u64_max b hb) refl

pub parse_typesizes_value-print :
    (s : Sizes) → SizesFit s → parse_typesizes_value (print_sizes s) ≡ ok (some s)
unfolding parse_typesizes_value
parse_typesizes_value-print s h =
    let (_, _, (ne, _, trimmed)) = print_sizes-IsValue s in
    let (w, ws, e, words) = words_of-IsWord s in
    let found : split_whitespace (print_sizes s) ≡ words_of s =
      ap (λ r. split_whitespace (join r b' ')) e ∙ split_whitespace-words w ws words ∙ sym e in
    rw (trim_of_IsTrimmed (print_sizes s) trimmed, text_eq-nil (print_sizes s) ne, found)
      (sizes-print (print_sizes s) s h)

-- What the driver knows of a column behind a line of type sizes.
abbrev pub measured : (Described → Sizes) → Described → ColumnMeta
measured m c = record (sized c) { typesizes = some (m c) }

measures_read :
    (m : Described → Sizes) (cols : List Described)
    → All (λ c. SizesFit (m c)) cols
    → All (λ c. set_typesizes (sized c) (print_sizes (m c)) ≡ ok (measured m c)) cols
unfolding set_typesizes
measures_read m [] h = tt
measures_read m (c ∷ cols) (hc, h) = (
  ap (λ r. r >>= λ sizes. ok (record (sized c) { typesizes = sizes }))
      (parse_typesizes_value-print (m c) hc),
  measures_read m cols h,
)

pub apply-typesizes :
    (t : TableResult) (m : Described → Sizes) (cols : List Described)
    → All (λ c. SizesFit (m c)) cols
    → t.columns ≡ map sized cols
    → apply_header_values t (codes "typesizes") (map (λ c. print_sizes (m c)) cols)
      ≡ ok (record t { columns = map (measured m) cols })
unfolding setter sqlx_monetdb.Text.text_eq
apply-typesizes t m cols h e =
    apply_header_values-map t (codes "typesizes") set_typesizes sized (measured m)
      (λ c. print_sizes (m c)) cols refl (measures_read m cols h)
      (ap (λ columns. grow columns (length (map (λ c. print_sizes (m c)) cols))) e
        ∙ grow_described sized (λ c. print_sizes (m c)) cols)
