-- ===== src/Types/RoundTrip.antt =====
-- Values written by `Encode` and read by `Decode`, src/types.
use sqlx_monetdb.Prelude.{
  ℕ, ◌≡◌, refl, ap, ◌∙◌, Bool, true, false, List, [], ◌∷◌, Option, none, some, ok, ◌>>=◌, ok_or,
  suc, Bool-cases, inl, inr, All, arith, ◌↔◌,
}
use sqlx_monetdb.Text.{Text, codes, text_eq, text_eq_iff}
use sqlx_monetdb.Text.Number.{ℤ, pos, negsuc, parse_signed, print_signed, print_unsigned}
use sqlx_monetdb.Text.Number.Print.{Fits, IsDigit, print_unsigned-cons, parse_signed-print_signed}
use sqlx_monetdb.Text.Number.Numerals.{Numeral, parse_signed-Numeral}
use sqlx_monetdb.Text.Utf8.{as_bytes, from_utf8, from_utf8-as_bytes, IsScalar}
use sqlx_monetdb.Error.{invalid_number, unexpected_null}
use sqlx_monetdb.Values.{MonetTypeInfo, MonetValueRef, new_value, value_text}
use sqlx_monetdb.Types.{
  SqlType, boolean_type, integer_type, printed_type, boolean_of, boolean_literal,
}
use sqlx_monetdb.Arguments.{literal_of}

digits-IsScalar : (s : Text) → All IsDigit s → All IsScalar s
digits-IsScalar [] h = tt
digits-IsScalar (c ∷ s) (hc, h) = ((omega arith), digits-IsScalar s h)

print_unsigned-IsScalar : (n : ℕ) → All IsScalar (print_unsigned n)
print_unsigned-IsScalar n =
    let (d, r, eq, h) = print_unsigned-cons n in rw eq (digits-IsScalar (d ∷ r) h)

print_signed-IsScalar : (z : ℤ) → All IsScalar (print_signed z)
unfolding print_signed
print_signed-IsScalar (pos n) = print_unsigned-IsScalar n
print_signed-IsScalar (negsuc n) = ((omega arith), print_unsigned-IsScalar (suc n))

-- What binding a value puts into a query, and what reading that text from a row gives back.
abbrev pub RoundTrips : {A : Type 0} → SqlType A → MonetTypeInfo → A → Text → Type 0
RoundTrips sql ty x text =
    (literal_of (some (sql.encode_by_ref x [])) ≡ ok text) × (sql.decode (new_value text ty) ≡ ok x)

-- An integer that fits a width is bound as its decimal print, the least one included, and that
-- text is read back as the same integer, whatever the type's names.
pub integer_type-RoundTrips :
    (width : ℕ) (name : Text) (aliases : List Text) (ty : MonetTypeInfo) (z : ℤ)
    → Fits width z
    → RoundTrips (integer_type width name aliases) ty z (print_signed z)
unfolding integer_type literal_of value_text
integer_type-RoundTrips width name aliases ty z h = (
  rw (from_utf8-as_bytes (print_signed z) (print_signed-IsScalar z), literal_of) refl,
  rw (parse_signed-print_signed width z h) refl,
)

ok_or-some {ℓ κ} :
    {E : Type ℓ} {A : Type κ} (o : Option A) (e : E) {a : A} → (ok_or o e ≡ ok a) ↔ (o ≡ some a)
ok_or-some none e = ((λ h. cc h), (λ h. cc h))
ok_or-some (some b) e = ((λ h. cc h), (λ h. cc h))

-- A value is decoded as an integer of a width exactly if it is a text, so not NULL, that is a decimal
-- numeral of this integer, with a sign or without, and the integer lies in the range of the width:
-- any other text is refused, and a numeral out of range is refused and does not wrap around.
pub integer_type-Numeral :
    (width : ℕ) (name : Text) (aliases : List Text) (value : MonetValueRef) (z : ℤ)
    → ((integer_type width name aliases).decode value ≡ ok z)
      ↔ ((text : Text) × (value.value_data ≡ some text) × Numeral text z × Fits width z)
unfolding integer_type value_text
integer_type-Numeral width name aliases value z = (forth value.value_data refl, back)
  where
    forth :
        (o : Option Text)
        → value.value_data ≡ o
        → ((ok_or o unexpected_null) >>= λ text.
            ok_or (parse_signed width text) (invalid_number text))
          ≡ ok z
        → (text : Text) × (value.value_data ≡ some text) × Numeral text z × Fits width z
    forth none e h = cc h
    forth (some text) e h =
        let (numeral, fits) =
          (parse_signed-Numeral width text z).0
            ((ok_or-some (parse_signed width text) (invalid_number text)).0 h) in
        (text, e, numeral, fits)

    back :
        (text : Text) × (value.value_data ≡ some text) × Numeral text z × Fits width z
        → ((ok_or value.value_data unexpected_null) >>= λ text.
            ok_or (parse_signed width text) (invalid_number text))
          ≡ ok z
    back (text, e, numeral, fits) =
        rw (e, (parse_signed-Numeral width text z).1 (numeral, fits)) refl

-- Both Booleans are bound as SQL's words for them and read back.
pub boolean_type-RoundTrips :
    (ty : MonetTypeInfo) (b : Bool) → RoundTrips boolean_type ty b (boolean_literal b)
unfolding boolean_type literal_of value_text boolean_of text_eq from_utf8 as_bytes
boolean_type-RoundTrips ty true = (refl, refl)
boolean_type-RoundTrips ty false = (refl, refl)

-- A text is decoded as a Boolean exactly if it is SQL's word for it.
pub boolean_type-decode_iff :
    (ty : MonetTypeInfo) (b : Bool) (text : Text)
    → (boolean_type.decode (new_value text ty) ≡ ok b) ↔ (text ≡ boolean_literal b)
unfolding boolean_type value_text boolean_of text_eq
boolean_type-decode_iff ty b text = (only b, back b)
  where
    back : (b : Bool) → text ≡ boolean_literal b → boolean_of text ≡ ok b
    back true e = rw (e, boolean_of) refl
    back false e = rw (e, boolean_of) refl

    only : (b : Bool) → boolean_of text ≡ ok b → text ≡ boolean_literal b
    only b h = elim (Bool-cases (text_eq text (codes "true"))) [
      | inl e ↦
          let h' : ok true ≡ ok b = rw (e, boolean_of) at h in
          (text_eq_iff text (codes "true")).0 e ∙ ap boolean_literal {x = true} {y = b} (cc h')
      | inr e ↦ elim (Bool-cases (text_eq text (codes "false"))) [
        | inl e' ↦
            let h' : ok false ≡ ok b = rw (e, e', boolean_of) at h in
            (text_eq_iff text (codes "false")).0 e' ∙ ap boolean_literal {x = false} {y = b} (cc h')
        | inr e' ↦ let h' = rw (e, e', boolean_of) at h in cc h'
      ]
    ]

-- A float or a decimal survives binding and reading if the crate that prints it prints only
-- Unicode text which it reads back.
pub printed_type-RoundTrips :
    {A : Type 0} (parse : Text → Option A) (print : A → Text) (name : Text) (aliases : List Text)
    (ty : MonetTypeInfo) (x : A)
    → All IsScalar (print x)
    → parse (print x) ≡ some x
    → RoundTrips (printed_type parse print name aliases) ty x (print x)
unfolding printed_type literal_of value_text
printed_type-RoundTrips parse print name aliases ty x hs h =
    (rw (from_utf8-as_bytes (print x) hs, literal_of) refl, rw h refl)
