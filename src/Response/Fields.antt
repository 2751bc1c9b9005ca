-- ===== src/Response/Fields.antt =====
-- One field of a tuple line: `unescape_field` of src/protocol/response.rs.
pub mod Escape
pub mod Tuples
use sqlx_monetdb.Prelude.{
  ℕ, Bool, true, false, ◌||◌, List, [], ◌∷◌, ◌++◌, Option, none, some, Result, ok, err, ◌>>=◌,
  ok_or, ◌==◌, if◌then◌else◌,
}
use sqlx_monetdb.Text.{Text, codes, text_eq, strip_prefix, strip_suffix}
use sqlx_monetdb.Text.Trim.{trim}
use sqlx_monetdb.Text.Split.{split_pair}
use sqlx_monetdb.Error.{MonetError, protocol, unclosed_tuple}

abbrev pub backslash : ℕ
backslash = b'\\'

-- What stands for a backslash and the character behind it.
unfoldable pub reveal : ℕ → Text
reveal c =
    if c == b'n'
    then b'\n' ∷ []
    else if c == b't'
    then b'\t' ∷ []
    else if c == b'r'
    then b'\r' ∷ []
    else if c == backslash
    then backslash ∷ []
    else if (c == b'\'') || (c == b'"')
    then c ∷ []
    else backslash ∷ c ∷ []

-- The loop over the quoted characters.
unfoldable pub unescape : Text → Text
unfolding reveal
unescape [] = []
unescape (c ∷ []) = elim (c == backslash) [ true ↦ backslash ∷ [] | false ↦ c ∷ [] ]
unescape (c ∷ d ∷ s) = elim (c == backslash) [
  | true ↦ reveal d ++ unescape s
  | false ↦ c ∷ unescape (d ∷ s)
]

-- The text between the quotes, if the field begins and ends with `quote`.
unfoldable pub strip_quotes : ℕ → Text → Option Text
unfolding strip_prefix strip_suffix
strip_quotes quote field = elim (strip_prefix field (quote ∷ [])) [
  | none ↦ none
  | some s ↦ strip_suffix s quote
]

unquote : Option Text → Text → Text
unquote none field = field
unquote (some quoted) field = unescape quoted

unfoldable pub unescape_field : Text → Result MonetError (Option Text)
unfolding unescape strip_quotes text_eq unquote
unescape_field [] = ok (some [])
unescape_field (c ∷ field) =
    if text_eq (c ∷ field) (codes "NULL")
    then ok none
    else if (c == b'\'') || (c == b'"')
    then ok (some (unquote (strip_quotes c (c ∷ field)) (c ∷ field)))
    else ok (some (c ∷ field))

-- `.map(|field| unescape_field(field.trim())).collect()`
unfoldable pub unescape_all : List Text → Result MonetError (List (Option Text))
unfolding unescape_field trim
unescape_all [] = ok []
unescape_all (field ∷ fields) = do
  value ← unescape_field (trim field)
  values ← unescape_all fields
  ok (value ∷ values)

parse_inner : Text → Result MonetError (List (Option Text))
parse_inner [] = ok []
parse_inner (c ∷ inner) = unescape_all (split_pair b',' b'\t' (c ∷ inner))

unfoldable pub parse_tuple_fields : Text → Result MonetError (List (Option Text))
unfolding strip_suffix trim parse_inner unescape_all split_pair
parse_tuple_fields rest = do
  inner ← ok_or (strip_suffix rest b']') (protocol (unclosed_tuple rest))
  parse_inner (trim inner)
