-- ===== src/Types/Literals.antt =====
-- The string literal of src/types/str.rs, read by the rules of standard SQL.
use sqlx_monetdb.Prelude.{
  ℕ, ◌-◌, ◌≡◌, ◌≢◌, refl, ap, ◌∙◌, sym, true, List, [], ◌∷◌, ◌++◌, Option, none, some, All,
  append_assoc, append-nil, arith, ◌==◌, ==_ne, ==_iff, length, if◌then◌else◌, Bool-cases, inl, inr,
  take, length-append, take-append, All-append,
}
use sqlx_monetdb.Text.{Text}
use sqlx_monetdb.Text.Split.{split, onto_first, split-ne-nil}
use sqlx_monetdb.Text.Utf8.{
  as_bytes, from_utf8, from_utf8-as_bytes, IsScalar, encode_char, as_bytes-append,
}
use sqlx_monetdb.Types.{push_chunks, encode_string_literal}

abbrev pub quote : ℕ
quote = b'\''

-- A text with every quote written twice, and between quotes.
abbrev pub doubled : Text → Text
doubled [] = []
doubled (c ∷ s) = if c == quote then quote ∷ quote ∷ doubled s else c ∷ doubled s

abbrev pub sql_literal : Text → Text
sql_literal s = quote ∷ (doubled s ++ quote ∷ [])

-- A reader of standard SQL behind the opening quote: a quote written twice is a quote, and a
-- single one ends the literal. It returns the text and what stands behind the literal.
abbrev cons_read : ℕ → Option (Text × Text) → Option (Text × Text)
cons_read c none = none
cons_read c (some (s, rest)) = some (c ∷ s, rest)

unfoldable pub read_quoted : Text → Option (Text × Text)
read_quoted [] = none
read_quoted (c ∷ []) = if c == quote then some ([], []) else none
read_quoted (c ∷ d ∷ s) =
    let pair = cons_read quote (read_quoted s) in
    let plain = cons_read c (read_quoted (d ∷ s)) in
    if c == quote then (if d == quote then pair else some ([], d ∷ s)) else plain

unfoldable pub read_literal : Text → Option (Text × Text)
unfolding read_quoted
read_literal [] = none
read_literal (c ∷ s) = if c == quote then read_quoted s else none

-- What may stand behind a literal: anything but another quote.
abbrev pub StartsNoQuote : Text → Type 0
StartsNoQuote [] = Unit
StartsNoQuote (c ∷ s) = c ≢ quote

read_quoted_end : (rest : Text) → StartsNoQuote rest → read_quoted (quote ∷ rest) ≡ some ([], rest)
unfolding read_quoted
read_quoted_end [] h = refl
read_quoted_end (c ∷ rest) h = rw (==_ne c quote h, read_quoted) refl

read_quoted_plain :
    (c : ℕ) (s : Text) → c ≢ quote → s ≢ [] → read_quoted (c ∷ s) ≡ cons_read c (read_quoted s)
unfolding read_quoted
read_quoted_plain c [] h ne = absurd (ne refl)
read_quoted_plain c (d ∷ s) h ne = rw (==_ne c quote h, read_quoted) refl

behind-ne-nil : (t rest : Text) → t ++ (quote ∷ rest) ≢ []
behind-ne-nil [] rest e = cc e
behind-ne-nil (c ∷ t) rest e = cc e

read_quoted-doubled :
    (s rest : Text)
    → StartsNoQuote rest
    → read_quoted (doubled s ++ (quote ∷ rest)) ≡ some (s, rest)
unfolding read_quoted
read_quoted-doubled [] rest h = read_quoted_end rest h
read_quoted-doubled (c ∷ s) rest h =
    let ih = read_quoted-doubled s rest h in
    elim (Bool-cases (c == quote)) [
      | inl e ↦
          rw e (ap (cons_read quote) ih ∙ ap (λ x. some (x ∷ s, rest)) (sym ((==_iff c quote).0 e)))
      | inr e ↦
          let ne : c ≢ quote = (λ same.
            let true_too : (c == quote) ≡ true = (==_iff c quote).1 same in cc (e, true_too)) in
          rw e (
            read_quoted_plain c (doubled s ++ (quote ∷ rest)) ne (behind-ne-nil (doubled s) rest)
            ∙ ap (cons_read c) ih)
    ]

push_chunks-onto_first :
    (c : ℕ) (ps : List Text) (buf : List ℕ)
    → ps ≢ []
    → push_chunks (onto_first c ps) buf ≡ push_chunks ps (buf ++ encode_char c)
unfolding push_chunks as_bytes
push_chunks-onto_first c [] buf ne = absurd (ne refl)
push_chunks-onto_first c (p ∷ ps) buf ne =
    ap (λ b. push_chunks ps (b ++ (quote ∷ quote ∷ [])))
      (sym (append_assoc buf (encode_char c) (as_bytes p)))

push_chunks-split :
    (s : Text) (buf : List ℕ)
    → push_chunks (split s quote) buf ≡ buf ++ (as_bytes (doubled s) ++ (quote ∷ quote ∷ []))
unfolding push_chunks split as_bytes encode_char
push_chunks-split [] buf = ap (λ b. b ++ (quote ∷ quote ∷ [])) (append-nil buf)
push_chunks-split (c ∷ s) buf = elim (Bool-cases (c == quote)) [
  | inl e ↦
      rw (e, push_chunks)
        (push_chunks-split s ((buf ++ []) ++ (quote ∷ quote ∷ []))
          ∙ ap (λ b. (b ++ (quote ∷ quote ∷ [])) ++ (as_bytes (doubled s) ++ (quote ∷ quote ∷ [])))
              (append-nil buf)
          ∙ append_assoc buf (quote ∷ quote ∷ []) (as_bytes (doubled s) ++ (quote ∷ quote ∷ [])))
  | inr e ↦
      rw (e, split)
        (push_chunks-onto_first c (split s quote) buf (split-ne-nil s quote)
          ∙ push_chunks-split s (buf ++ encode_char c)
          ∙ append_assoc buf (encode_char c) (as_bytes (doubled s) ++ (quote ∷ quote ∷ []))
          ∙ ap (λ b. buf ++ b)
              (sym (append_assoc (encode_char c) (as_bytes (doubled s)) (quote ∷ quote ∷ []))))
]

-- The bytes that are pushed are those of the literal, and one quote more.
encode_string_literal-bytes : (s : Text) → encode_string_literal s [] ≡ as_bytes (sql_literal s)
unfolding encode_string_literal as_bytes encode_char
encode_string_literal-bytes s =
    let front = quote ∷ (as_bytes (doubled s) ++ quote ∷ []) in
    let all : push_chunks (split s quote) (quote ∷ []) ≡ front ++ quote ∷ [] =
      push_chunks-split s (quote ∷ [])
      ∙ ap (λ b. quote ∷ b) (sym (append_assoc (as_bytes (doubled s)) (quote ∷ []) (quote ∷ []))) in
    ap (λ out. take (length out - 1) out) all
    ∙ ap (λ n. take n (front ++ quote ∷ [])) {y = length front}
        (omega (arith, length-append front (quote ∷ [])))
    ∙ take-append front (quote ∷ [])
    ∙ ap (λ b. quote ∷ b) (sym (as_bytes-append (doubled s) (quote ∷ [])))

doubled-IsScalar : (s : Text) → All IsScalar s → All IsScalar (doubled s)
doubled-IsScalar [] h = tt
doubled-IsScalar (c ∷ s) (hc, h) = elim (Bool-cases (c == quote)) [
  | inl e ↦ rw e (quote-IsScalar, (quote-IsScalar, doubled-IsScalar s h))
  | inr e ↦ rw e (hc, doubled-IsScalar s h)
]
  where
    quote-IsScalar : IsScalar quote
    quote-IsScalar = omega arith

-- A bound text of Unicode scalar values becomes one literal of standard SQL that stands for
-- exactly that text, whatever quotes it holds: the buffer is UTF-8, and a reader of the query
-- finds the text in the literal and goes on behind it, if no quote stands directly behind the
-- literal.
pub encode_string_literal_lem :
    (s rest : Text)
    → All IsScalar s
    → StartsNoQuote rest
    → (from_utf8 (encode_string_literal s []) ≡ some (sql_literal s))
      × (read_literal (sql_literal s ++ rest) ≡ some (s, rest))
unfolding read_literal
encode_string_literal_lem s rest h hr = (written, found)
  where
    written : from_utf8 (encode_string_literal s []) ≡ some (sql_literal s)
    written =
        ap from_utf8 (encode_string_literal-bytes s)
        ∙ from_utf8-as_bytes (sql_literal s) (
          omega arith,
          All-append _ (doubled s) (quote ∷ []) (doubled-IsScalar s h) (omega arith, tt),
        )

    found : read_literal (sql_literal s ++ rest) ≡ some (s, rest)
    found =
        ap read_quoted (append_assoc (doubled s) (quote ∷ []) rest) ∙ read_quoted-doubled s rest hr
