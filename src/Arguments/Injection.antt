-- ===== src/Arguments/Injection.antt =====
-- Bound values in a query: what a reader of SQL finds in the text that `substitute_into` of
-- src/arguments.rs makes with the literals of src/types.
use sqlx_monetdb.Prelude.{
  ℕ, suc, none, some, Option, ◌>>=◌, ◌≡◌, ◌≢◌, refl, ap, ◌∙◌, sym, Bool, true, false, List, [], ◌∷◌,
  ◌++◌, append_assoc, append-nil, Result, ok, All, ==_ne, map, arith,
}
use sqlx_monetdb.Text.{Text, codes, Lacks}
use sqlx_monetdb.Text.Number.{ℤ, pos, negsuc, print_signed}
use sqlx_monetdb.Text.Number.Print.{Fits, IsDigit, print_unsigned-cons}
use sqlx_monetdb.Text.Utf8.{IsScalar}
use sqlx_monetdb.Error.{Message}
use sqlx_monetdb.Values.{null_type_info}
use sqlx_monetdb.Types.{string_type, integer_type, boolean_type, boolean_literal}
use sqlx_monetdb.Types.Literals.{quote, sql_literal, encode_string_literal_lem, StartsNoQuote}
use sqlx_monetdb.Types.RoundTrip.{integer_type-RoundTrips, boolean_type-RoundTrips}
use sqlx_monetdb.Arguments.{
  MonetArguments, new_arguments, add_argument, literal_of, substitute_into,
}
use sqlx_monetdb.Arguments.Substitution.{
  template, filled, literals_of, pieces_of, substitute_into-template,
}
use sqlx_monetdb.Arguments.Reader.{
  Token, plain, string, Mode, outside, dash, step_outside, step, mode_after, tokens_from,
  last_token, tokens, read_on, read_on-append, read_on-literal, read_on-closing,
}

-- A value that is bound: a text, an integer of a width, a Boolean, or NULL.
pub data Value : Type 0 where
  text_value : Text → Value
  integer_value : ℕ → ℤ → Value
  boolean_value : Bool → Value
  null_value : Value

-- What the value's `encode` leaves behind.
abbrev pub encoded : Value → Option (List ℕ)
encoded (text_value v) = some (string_type.encode_by_ref v [])
encoded (integer_value width z) = some ((integer_type width [] []).encode_by_ref z [])
encoded (boolean_value b) = some (boolean_type.encode_by_ref b [])
encoded null_value = none

-- Texts of Unicode scalar values, and integers that fit their width.
abbrev pub IsValue : Value → Type 0
IsValue (text_value v) = All IsScalar v
IsValue (integer_value width z) = Fits width z
IsValue (boolean_value b) = Unit
IsValue null_value = Unit

-- What a value is to a reader: one string, or the characters of a number or a word.
abbrev pub meaning : Value → List Token
meaning (text_value v) = string v ∷ []
meaning (integer_value width z) = map plain (print_signed z)
meaning (boolean_value b) = map plain (boolean_literal b)
meaning null_value = map plain (codes "NULL")

-- The literal that is written.
abbrev pub written : Value → Text
written (text_value v) = sql_literal v
written (integer_value width z) = print_signed z
written (boolean_value b) = boolean_literal b
written null_value = codes "NULL"

literal_of-written : (v : Value) → IsValue v → literal_of (encoded v) ≡ ok (written v)
unfolding literal_of string_type
literal_of-written (text_value v) h = rw ((encode_string_literal_lem v [] h tt).0, literal_of) refl
literal_of-written (integer_value width z) h =
    (integer_type-RoundTrips width [] [] null_type_info z h).0
literal_of-written (boolean_value b) h = (boolean_type-RoundTrips null_type_info b).0
literal_of-written null_value h = refl

-- A character that is itself outside of literals.
abbrev IsPlain : ℕ → Type 0
IsPlain c = (c ≢ quote) × (c ≢ b'"') × (c ≢ b'-') × (c ≢ b'/')

step_outside-IsPlain : (c : ℕ) → IsPlain c → step_outside c ≡ (outside, plain c ∷ [])
step_outside-IsPlain c (h1, h2, h3, h4) =
    rw (==_ne c quote h1, ==_ne c b'"' h2, ==_ne c b'-' h3, ==_ne c b'/' h4) refl

step_dash-IsPlain : (c : ℕ) → IsPlain c → step dash c ≡ (outside, plain c ∷ [])
unfolding step
step_dash-IsPlain c (h1, h2, h3, h4) =
    rw (==_ne c b'-' h3, ==_ne c quote h1, ==_ne c b'"' h2, ==_ne c b'/' h4) refl

read_on-step :
    (m k : Mode) (c : ℕ) (ts : List Token) (t : Text)
    → step m c ≡ (k, ts)
    → read_on m (c ∷ t) ≡ ts ++ read_on k t
unfolding mode_after tokens_from
read_on-step m k c ts t e =
    ap (λ r. (r.1 ++ tokens_from r.0 t) ++ last_token (mode_after r.0 t)) e
    ∙ append_assoc ts (tokens_from k t) (last_token (mode_after k t))

read_on-plain :
    (w t : Text) → All IsPlain w → read_on outside (w ++ t) ≡ map plain w ++ read_on outside t
unfolding step
read_on-plain [] t h = refl
read_on-plain (c ∷ w) t (hc, h) =
    read_on-step outside outside c (plain c ∷ []) (w ++ t) (step_outside-IsPlain c hc)
    ∙ ap (λ ts. plain c ∷ ts) (read_on-plain w t h)

digits-IsPlain : (s : Text) → All IsDigit s → All IsPlain s
digits-IsPlain [] h = tt
digits-IsPlain (c ∷ s) (hc, h) =
    ((omega arith, omega arith, omega arith, omega arith), digits-IsPlain s h)

read_on-negative :
    (n : ℕ) (t : Text)
    → read_on outside (print_signed (negsuc n) ++ t)
      ≡ map plain (print_signed (negsuc n)) ++ read_on outside t
unfolding print_signed step
read_on-negative n t =
    let (d, r, eq, (hd, hr)) = print_unsigned-cons (suc n) in
    let digit : step dash d ≡ (outside, plain d ∷ []) =
      step_dash-IsPlain d (digits-IsPlain (d ∷ []) (hd, tt)).0 in
    rw eq (
      read_on-step outside dash b'-' (plain b'-' ∷ []) (d ∷ (r ++ t)) refl
      ∙ ap (λ ts. plain b'-' ∷ ts)
          (read_on-step dash outside d (plain d ∷ []) (r ++ t) digit
            ∙ ap (λ ts. plain d ∷ ts) (read_on-plain r t (digits-IsPlain r hr))))

read_on-integer :
    (z : ℤ) (t : Text)
    → read_on outside (print_signed z ++ t) ≡ map plain (print_signed z) ++ read_on outside t
unfolding print_signed
read_on-integer (pos n) t =
    let (d, r, eq, h) = print_unsigned-cons n in
    rw eq (read_on-plain (d ∷ r) t (digits-IsPlain (d ∷ r) h))
read_on-integer (negsuc n) t = read_on-negative n t

read_on-text :
    (v t : Text)
    → StartsNoQuote t
    → read_on outside (sql_literal v ++ t) ≡ string v ∷ read_on outside t
unfolding mode_after tokens_from
read_on-text v [] h = read_on-literal v []
read_on-text v (c ∷ t) h = read_on-literal v (c ∷ t) ∙ read_on-closing v c t h

read_on-written :
    (v : Value) (t : Text)
    → StartsNoQuote t
    → read_on outside (written v ++ t) ≡ meaning v ++ read_on outside t
read_on-written (text_value v) t h = read_on-text v t h
read_on-written (integer_value width z) t h = read_on-integer z t
read_on-written (boolean_value true) t h = read_on-plain (codes "true") t (omega arith)
read_on-written (boolean_value false) t h = read_on-plain (codes "false") t (omega arith)
read_on-written null_value t h = read_on-plain (codes "NULL") t (omega arith)

-- What may stand behind a placeholder: no quote, and something if another placeholder follows.
abbrev pub Behind : Text → List (Value × Text) → Type 0
Behind [] [] = Unit
Behind [] (next ∷ rest) = ⊥
Behind (c ∷ piece) rest = c ≢ quote

-- Placeholders stand outside of literals, quoted identifiers and comments, and not behind a single
-- minus sign or slash.
abbrev pub Clean : Text → List (Value × Text) → Type 0
Clean first [] = Unit
Clean first ((v, piece) ∷ rest) =
    (mode_after outside first ≡ outside) × Behind piece rest × Clean piece rest

-- The tokens that are meant: those of the pieces, and those of each bound value.
abbrev pub meant : Text → List (Value × Text) → List Token
meant first [] = tokens first
meant first ((v, piece) ∷ rest) = tokens_from outside first ++ (meaning v ++ meant piece rest)

-- The literals of bound values.
abbrev pub all_written : List (Value × Text) → List (Text × Text)
all_written [] = []
all_written ((v, piece) ∷ rest) = (written v, piece) ∷ all_written rest

filled-StartsNoQuote :
    (piece : Text) (rest : List (Value × Text))
    → Behind piece rest
    → StartsNoQuote (filled piece (all_written rest))
filled-StartsNoQuote [] [] h = tt
filled-StartsNoQuote [] (next ∷ rest) h = absurd h
filled-StartsNoQuote (c ∷ piece) [] h = h
filled-StartsNoQuote (c ∷ piece) ((w, next) ∷ rest) h = h

pub tokens-filled :
    (first : Text) (bound : List (Value × Text))
    → Clean first bound
    → tokens (filled first (all_written bound)) ≡ meant first bound
tokens-filled first [] h = refl
tokens-filled first ((v, piece) ∷ rest) (out, behind, h) =
    let after = filled piece (all_written rest) in
    read_on-append outside first (written v ++ after)
    ∙ ap (λ k. tokens_from outside first ++ read_on k (written v ++ after)) out
    ∙ ap (λ us. tokens_from outside first ++ us)
        (read_on-written v after (filled-StartsNoQuote piece rest behind)
          ∙ ap (λ us. meaning v ++ us) (tokens-filled piece rest h))

-- `query.bind(v)` for each value in order.
abbrev pub bind_all : MonetArguments → List (Value × Text) → Result Message MonetArguments
bind_all arguments [] = ok arguments
bind_all arguments ((v, piece) ∷ rest) =
    add_argument arguments (ok (encoded v)) >>= λ longer. bind_all longer rest

abbrev pub AllValues : List (Value × Text) → Type 0
AllValues [] = Unit
AllValues ((v, piece) ∷ rest) = IsValue v × AllValues rest

pub bind_all-ok :
    (bound : List (Value × Text)) (literals : List Text)
    → AllValues bound
    → bind_all (record { literals = literals }) bound
      ≡ ok (record { literals = literals ++ literals_of (all_written bound) })
unfolding add_argument
bind_all-ok [] literals h = ap (λ l. ok (record { literals = l })) (sym (append-nil literals))
bind_all-ok ((v, piece) ∷ rest) literals (hv, h) = rw (literal_of-written v hv) (
    bind_all-ok rest (literals ++ written v ∷ []) h
    ∙ ap (λ l. ok (record { literals = l }))
        (append_assoc literals (written v ∷ []) (literals_of (all_written rest))))

-- No injection: whatever texts of Unicode scalar values, integers that fit their types, Booleans and
-- NULLs are bound to the placeholders of a query, they are bound and substituted without an error,
-- and a reader of standard SQL finds in the substituted query the tokens of the query's own pieces
-- and, in the place of each placeholder, the value's alone: one string literal that stands for
-- exactly the bound text, or the characters of the number or the word. The query's placeholders
-- stand outside of its literals, quoted identifiers and comments and not behind a single minus sign
-- or slash, its pieces hold no other question mark, and behind a placeholder stands neither a quote
-- nor at once another placeholder.
pub substitute_into-tokens :
    (first : Text) (bound : List (Value × Text))
    → AllValues bound
    → All (Lacks b'?') (pieces_of first (all_written bound))
    → Clean first bound
    → (arguments : MonetArguments) × (sql : Text) × (bind_all new_arguments bound ≡ ok arguments)
      × (substitute_into arguments (template first (all_written bound)) ≡ ok sql)
      × (tokens sql ≡ meant first bound)
substitute_into-tokens first bound hs hl hc = (
  record { literals = literals_of (all_written bound) },
  filled first (all_written bound),
  bind_all-ok bound [] hs,
  substitute_into-template first (all_written bound) hl,
  tokens-filled first bound hc,
)
