-- ===== src/Text/Number.antt =====
-- Decimal numbers: `str::parse` for the integer types, and `to_string`.
pub mod Print
pub mod Parse
pub mod Words
pub mod Numerals
use sqlx_monetdb.Prelude.{
  ℕ, zero, suc, ◌+◌, ◌-◌, ◌*◌, ◌/◌, ◌%◌, ◌^◌, Bool, true, false, ◌||◌, List, [], ◌∷◌, ◌++◌, Option,
  none, some, ltb, ◌==◌, if◌then◌else◌,
}
use sqlx_monetdb.Text.{Text}

-- `negsuc n` is -(n + 1).
pub data ℤ : Type 0 where
  pos : ℕ → ℤ
  negsuc : ℕ → ℤ

-- `-n`
abbrev pub neg : ℕ → ℤ
neg zero = pos zero
neg (suc n) = negsuc n

-- The digits behind a sign, added up with a checked multiplication and a checked addition: none
-- where a character is no digit, and none where the value passes `most`.
unfoldable pub scan : ℕ → Text → ℕ → Option ℕ
scan most [] n = some n
scan most (c ∷ s) n =
    let d = c - b'0' in
    if ltb c b'0' || ltb b'9' c
    then none
    else if ltb most (n * 10 + d)
    then none
    else scan most s (n * 10 + d)

unfoldable pub digits : ℕ → Text → Option ℕ
unfolding scan
digits most [] = none
digits most (c ∷ s) = scan most (c ∷ s) 0

-- `s.parse::<u64>()` for the unsigned type whose largest value is `most`: a `+` may stand in front.
unfoldable pub parse_unsigned : ℕ → Text → Option ℕ
unfolding digits
parse_unsigned most [] = none
parse_unsigned most (c ∷ s) = if c == b'+' then digits most s else digits most (c ∷ s)

abbrev signed_digits : (ℕ → ℤ) → Option ℕ → Option ℤ
signed_digits f none = none
signed_digits f (some n) = some (f n)

-- `s.parse::<i64>()` for the signed type of `width` bits; its least value is -(2 ^ (width - 1)).
unfoldable pub parse_signed : ℕ → Text → Option ℤ
unfolding digits
parse_signed width [] = none
parse_signed width (c ∷ s) =
    if c == b'-'
    then signed_digits neg (digits (2 ^ (width - 1)) s)
    else if c == b'+'
    then signed_digits pos (digits (2 ^ (width - 1) - 1) s)
    else signed_digits pos (digits (2 ^ (width - 1) - 1) (c ∷ s))

-- The decimal digits of a number in front of `out`, on fuel: each round divides by ten, so a fuel
-- above the number is enough.
unfoldable pub emit : ℕ → ℕ → Text → Text
emit zero n out = out
emit (suc fuel) n out = elim (n == 0) [
  | true ↦ out
  | false ↦ emit fuel (n / 10) ((b'0' + n % 10) ∷ out)
]

-- `n.to_string()` for the unsigned types.
unfoldable pub print_unsigned : ℕ → Text
unfolding emit
print_unsigned n = if n == 0 then b'0' ∷ [] else emit (suc n) n []

-- `n.to_string()` for the signed types.
unfoldable pub print_signed : ℤ → Text
unfolding print_unsigned
print_signed (pos n) = print_unsigned n
print_signed (negsuc n) = b'-' ∷ print_unsigned (suc n)
