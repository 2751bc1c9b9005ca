-- ===== src/Arguments/Reader.antt =====
-- A reader of standard SQL, for the queries that src/arguments.rs makes with the literals of
-- src/types.
use sqlx_monetdb.Prelude.{
  ℕ, ◌≡◌, ◌≢◌, refl, ap, ◌∙◌, sym, List, [], ◌∷◌, ◌++◌, append_assoc, append-nil, ◌==◌, ==_ne,
  ==_iff, if◌then◌else◌, Bool-cases, inl, inr,
}
use sqlx_monetdb.Text.{Text}
use sqlx_monetdb.Types.Literals.{quote, doubled, sql_literal}

-- What a reader of standard SQL sees: the characters outside of string literals, and whole literals.
pub data Token : Type 0 where
  plain : ℕ → Token
  string : Text → Token

-- Where the reader stands: outside, in a string literal with the text so far, behind a quote that
-- ends it unless another follows, in a quoted identifier, or in or at the edge of a comment.
pub data Mode : Type 0 where
  outside identifier dash line_comment slash block_comment star : Mode
  inside closing : Text → Mode

abbrev pub step_outside : ℕ → Mode × List Token
step_outside c =
    if c == quote
    then (inside [], [])
    else if c == b'"'
    then (identifier, plain c ∷ [])
    else if c == b'-'
    then (dash, plain c ∷ [])
    else if c == b'/'
    then (slash, plain c ∷ [])
    else (outside, plain c ∷ [])

abbrev emit_string : Text → Mode × List Token → Mode × List Token
emit_string s r = (r.0, string s ∷ r.1)

unfoldable pub step : Mode → ℕ → Mode × List Token
step outside c = step_outside c
step (inside s) c = if c == quote then (closing s, []) else (inside (s ++ c ∷ []), [])
step (closing s) c =
    if c == quote then (inside (s ++ quote ∷ []), []) else emit_string s (step_outside c)
step identifier c = if c == b'"' then (outside, plain c ∷ []) else (identifier, plain c ∷ [])
step dash c = if c == b'-' then (line_comment, plain c ∷ []) else step_outside c
step line_comment c = if c == b'\n' then (outside, plain c ∷ []) else (line_comment, plain c ∷ [])
step slash c = if c == b'*' then (block_comment, plain c ∷ []) else step_outside c
step block_comment c = if c == b'*' then (star, plain c ∷ []) else (block_comment, plain c ∷ [])
step star c =
    if c == b'/'
    then (outside, plain c ∷ [])
    else if c == b'*'
    then (star, plain c ∷ [])
    else (block_comment, plain c ∷ [])

unfoldable pub mode_after : Mode → Text → Mode
unfolding step
mode_after m [] = m
mode_after m (c ∷ s) = mode_after (step m c).0 s

unfoldable pub tokens_from : Mode → Text → List Token
unfolding step
tokens_from m [] = []
tokens_from m (c ∷ s) = (step m c).1 ++ tokens_from (step m c).0 s

-- A literal that the query ends behind.
abbrev pub last_token : Mode → List Token
last_token (closing s) = string s ∷ []
last_token outside = []
last_token identifier = []
last_token dash = []
last_token line_comment = []
last_token slash = []
last_token block_comment = []
last_token star = []
last_token (inside s) = []

abbrev pub tokens : Text → List Token
tokens s = tokens_from outside s ++ last_token (mode_after outside s)

pub mode_after-append :
    (m : Mode) (s t : Text) → mode_after m (s ++ t) ≡ mode_after (mode_after m s) t
unfolding mode_after
mode_after-append m [] t = refl
mode_after-append m (c ∷ s) t = mode_after-append (step m c).0 s t

tokens_from-append :
    (m : Mode) (s t : Text)
    → tokens_from m (s ++ t) ≡ tokens_from m s ++ tokens_from (mode_after m s) t
unfolding tokens_from mode_after
tokens_from-append m [] t = refl
tokens_from-append m (c ∷ s) t =
    ap (λ r. (step m c).1 ++ r) (tokens_from-append (step m c).0 s t)
    ∙ sym (
        append_assoc (step m c).1 (tokens_from (step m c).0 s)
          (tokens_from (mode_after (step m c).0 s) t))

step_inside : (s : Text) (c : ℕ) → c ≢ quote → step (inside s) c ≡ (inside (s ++ c ∷ []), [])
unfolding step
step_inside s c h = rw (==_ne c quote h, step) refl

step_closing : (s : Text) (c : ℕ) → c ≢ quote → step (closing s) c ≡ emit_string s (step outside c)
unfolding step
step_closing s c h = rw (==_ne c quote h, step) refl

-- A quote written twice is one quote of the literal.
through_quote :
    (s acc : Text)
    → mode_after (inside (acc ++ quote ∷ [])) (doubled s) ≡ inside ((acc ++ quote ∷ []) ++ s)
    → tokens_from (inside (acc ++ quote ∷ [])) (doubled s) ≡ []
    → (mode_after (inside acc) (quote ∷ quote ∷ doubled s) ≡ inside (acc ++ quote ∷ s))
      × (tokens_from (inside acc) (quote ∷ quote ∷ doubled s) ≡ [])
unfolding mode_after tokens_from step
through_quote s acc m t = (m ∙ ap inside (append_assoc acc (quote ∷ []) s), t)

-- The reader goes through a doubled text inside the literal, and emits nothing.
through_doubled :
    (s acc : Text)
    → (mode_after (inside acc) (doubled s) ≡ inside (acc ++ s))
      × (tokens_from (inside acc) (doubled s) ≡ [])
unfolding mode_after tokens_from
through_doubled [] acc = (ap inside (sym (append-nil acc)), refl)
through_doubled (c ∷ s) acc = elim (Bool-cases (c == quote)) [
  | inl e ↦
      let same : c ≡ quote = (==_iff c quote).0 e in
      let (m, t) = through_doubled s (acc ++ quote ∷ []) in rw same (through_quote s acc m t)
  | inr e ↦
      let other : c ≢ quote = λ same. let yes = (==_iff c quote).1 same in cc (e, yes) in
      let (m, t) = through_doubled s (acc ++ c ∷ []) in
      rw (e) (
        ap (λ r. mode_after r.0 (doubled s)) (step_inside acc c other)
            ∙ m
            ∙ ap inside (append_assoc acc (c ∷ []) s),
        ap (λ r. r.1 ++ tokens_from r.0 (doubled s)) (step_inside acc c other) ∙ t,
      )
]

through_literal :
    (s : Text)
    → (mode_after outside (sql_literal s) ≡ closing s) × (tokens_from outside (sql_literal s) ≡ [])
unfolding mode_after tokens_from step
through_literal s =
    let (m, t) = through_doubled s [] in
    (
      mode_after-append (inside []) (doubled s) (quote ∷ [])
          ∙ ap (λ k. mode_after k (quote ∷ [])) m,
      tokens_from-append (inside []) (doubled s) (quote ∷ [])
          ∙ ap (λ ts. ts ++ tokens_from (mode_after (inside []) (doubled s)) (quote ∷ [])) t
          ∙ ap (λ k. tokens_from k (quote ∷ [])) m,
    )

-- Behind a literal, a character that is no quote is read as it is outside, and the literal comes out.
behind_literal :
    (s : Text) (c : ℕ) (t : Text)
    → c ≢ quote
    → (mode_after (closing s) (c ∷ t) ≡ mode_after outside (c ∷ t))
      × (tokens_from (closing s) (c ∷ t) ≡ string s ∷ tokens_from outside (c ∷ t))
unfolding mode_after tokens_from
behind_literal s c t h = (
  ap (λ r. mode_after r.0 t) (step_closing s c h),
  ap (λ r. r.1 ++ tokens_from r.0 t) (step_closing s c h),
)

-- What is found in the rest of a query.
abbrev pub read_on : Mode → Text → List Token
read_on m s = tokens_from m s ++ last_token (mode_after m s)

pub read_on-append :
    (m : Mode) (s t : Text) → read_on m (s ++ t) ≡ tokens_from m s ++ read_on (mode_after m s) t
read_on-append m s t =
    ap (λ ts. ts ++ last_token (mode_after m (s ++ t))) (tokens_from-append m s t)
    ∙ ap (λ k. (tokens_from m s ++ tokens_from (mode_after m s) t) ++ last_token k)
        (mode_after-append m s t)
    ∙ append_assoc (tokens_from m s) (tokens_from (mode_after m s) t)
        (last_token (mode_after (mode_after m s) t))

pub read_on-literal : (v t : Text) → read_on outside (sql_literal v ++ t) ≡ read_on (closing v) t
read_on-literal v t =
    let (m, ts) = through_literal v in
    read_on-append outside (sql_literal v) t
    ∙ ap (λ us. us ++ read_on (mode_after outside (sql_literal v)) t) ts
    ∙ ap (λ k. read_on k t) m

pub read_on-closing :
    (v : Text) (c : ℕ) (t : Text)
    → c ≢ quote
    → read_on (closing v) (c ∷ t) ≡ string v ∷ read_on outside (c ∷ t)
read_on-closing v c t h =
    let (m, ts) = behind_literal v c t h in
    ap (λ k. tokens_from (closing v) (c ∷ t) ++ last_token k) m
    ∙ ap (λ us. us ++ last_token (mode_after outside (c ∷ t))) ts
