-- ===== src/Response/Fields/Escape.antt =====
-- How a server writes one field, and `unescape_field` of src/protocol/response.rs on it.
use sqlx_monetdb.Prelude.{
  ℕ, ◌≡◌, ◌≢◌, refl, ap, ◌∙◌, ◌||◌, [], ◌∷◌, ◌++◌, Option, none, some, ok, ◌==◌, if◌then◌else◌,
  arith, ◌⊎◌, Bool-cases, inl, inr, ==_ne,
}
use sqlx_monetdb.Text.{
  Text, codes, text_eq, text_eq_iff, strip_prefix-append, strip_suffix-append, Lacks,
}
use sqlx_monetdb.Text.Trim.{IsTrimmed}
use sqlx_monetdb.Response.Fields.{
  backslash, reveal, unescape, strip_quotes, unescape_field, unquote,
}

abbrev pub single : ℕ
single = b'\''

abbrev pub double : ℕ
double = b'"'

-- The characters that cannot stand as they are between quotes are written behind a backslash.
unfoldable pub escape_char : ℕ → ℕ → Text
escape_char quote c =
    if c == b'\n'
    then backslash ∷ b'n' ∷ []
    else if c == b'\t'
    then backslash ∷ b't' ∷ []
    else if c == b'\r'
    then backslash ∷ b'r' ∷ []
    else if (c == backslash) || (c == quote)
    then backslash ∷ c ∷ []
    else c ∷ []

unfoldable pub escape : ℕ → Text → Text
escape quote [] = []
escape quote (c ∷ s) = escape_char quote c ++ escape quote s

abbrev pub IsQuote : ℕ → Type 0
IsQuote quote = (quote ≡ single) ⊎ (quote ≡ double)

unescape_plain : (c : ℕ) (r : Text) → c ≢ backslash → unescape (c ∷ r) ≡ c ∷ unescape r
unfolding unescape
unescape_plain c [] h = rw (==_ne c backslash h, unescape)
unescape_plain c (d ∷ r) h = rw (==_ne c backslash h, unescape)

unescape_pair : (d : ℕ) (r : Text) → unescape (backslash ∷ d ∷ r) ≡ reveal d ++ unescape r
unfolding unescape
unescape_pair d r = refl

unescape-escape_char :
    (quote c : ℕ) (r : Text) → IsQuote quote → unescape (escape_char quote c ++ r) ≡ c ∷ unescape r
unfolding escape_char reveal
unescape-escape_char quote c r h = ground (
  arith,
  unescape_plain c r,
  unescape_pair c r,
  unescape_pair b'n' r,
  unescape_pair b't' r,
  unescape_pair b'r' r,
)

-- Unescaping undoes the escaping of every text, for either quote character.
unescape-escape : (quote : ℕ) (s : Text) → IsQuote quote → unescape (escape quote s) ≡ s
unfolding escape
unescape-escape quote [] h = unfold unescape in refl
unescape-escape quote (c ∷ s) h =
    unescape-escape_char quote c (escape quote s) h ∙ ap (λ r. c ∷ r) (unescape-escape quote s h)

-- A field as the server has it: NULL, a quoted text, or a bare literal such as a number.
pub data Field : Type 0 where
  null : Field
  quoted : (quote : ℕ) → Text → Field
  bare : (c : ℕ) → Text → Field

unfoldable pub render : Field → Text
render null = codes "NULL"
render (quoted quote s) = quote ∷ (escape quote s ++ quote ∷ [])
render (bare c s) = c ∷ s

unfoldable pub value : Field → Option Text
value null = none
value (quoted quote s) = some s
value (bare c s) = some (c ∷ s)

-- A bare literal begins with no quote, is not the word NULL, holds no tab and no line end, and has
-- no white space at its ends.
abbrev pub IsField : Field → Type 0
IsField null = Unit
IsField (quoted quote s) = IsQuote quote
IsField (bare c s) =
    (c ≢ single)
    × (c ≢ double)
    × (c ∷ s ≢ codes "NULL")
    × Lacks b'\t' (c ∷ s)
    × Lacks b'\n' (c ∷ s)
    × IsTrimmed (c ∷ s)

strip_quotes_lem : (quote : ℕ) (s : Text) → strip_quotes quote (quote ∷ (s ++ quote ∷ [])) ≡ some s
unfolding strip_quotes
strip_quotes_lem quote s =
    rw (strip_prefix-append (quote ∷ []) (s ++ quote ∷ []), strip_quotes)
      (strip_suffix-append s quote)

unescape_field-quote :
    (quote : ℕ) (s : Text)
    → IsQuote quote
    → unescape_field (quote ∷ s) ≡ ok (some (unquote (strip_quotes quote (quote ∷ s)) (quote ∷ s)))
unfolding unescape_field
unescape_field-quote quote s (inl e) = rw e
unescape_field-quote quote s (inr e) = rw e

-- Every well-formed field that the server writes is read as the value that it stands for: NULL as
-- no value, a text between either quote with all its escapes undone, whatever characters it
-- holds, a bare literal as it is.
pub unescape_field-render : (f : Field) → IsField f → unescape_field (render f) ≡ ok (value f)
unfolding render value
unescape_field-render null h = unfold unescape_field in refl
unescape_field-render (quoted quote s) h =
    unescape_field-quote quote (escape quote s ++ quote ∷ []) h
    ∙ ap (λ o. ok (some (unquote o (quote ∷ (escape quote s ++ quote ∷ [])))))
        (strip_quotes_lem quote (escape quote s))
    ∙ (unfold unquote in ap (λ r. ok (some r)) (unescape-escape quote s h))
unescape_field-render (bare c s) (hs, hd, hn, _, _, _) =
    unfold unescape_field in
    rw ((==_ne c single hs), (==_ne c double hd))
      (elim (Bool-cases (text_eq (c ∷ s) (codes "NULL"))) [
        | inl e ↦ absurd (hn ((text_eq_iff (c ∷ s) (codes "NULL")).0 e))
        | inr e ↦ rw e
      ])
