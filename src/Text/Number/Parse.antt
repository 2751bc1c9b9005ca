-- ===== src/Text/Number/Parse.antt =====
-- What the integer parsers return lies in the range of the type.
use sqlx_monetdb.Prelude.{
  ℕ, zero, suc, ◌+◌, ◌-◌, ◌*◌, ◌^◌, ◌≤◌, ◌<◌, ◌≡◌, refl, [], ◌∷◌, some, none, arith, Option, ◌==◌,
  Bool-cases, inl, inr,
}
use sqlx_monetdb.Text.{Text}
use sqlx_monetdb.Text.Number.{
  ℤ, pos, negsuc, scan, digits, parse_unsigned, parse_signed, signed_digits, neg,
}
use sqlx_monetdb.Text.Number.Print.{Fits}

scan-le : (most : ℕ) (s : Text) (n r : ℕ) → n ≤ most → scan most s n ≡ some r → r ≤ most
unfolding scan
scan-le most [] n r le h = ground arith
scan-le most (c ∷ s) n r le h = ground (arith, scan-le most s (n * 10 + (c - b'0')) r)

digits-le : (most : ℕ) (s : Text) (r : ℕ) → digits most s ≡ some r → r ≤ most
unfolding digits
digits-le most [] r h = cc h
digits-le most (c ∷ s) r h = scan-le most (c ∷ s) 0 r (omega arith) h

pub parse_unsigned-le : (most : ℕ) (s : Text) (r : ℕ) → parse_unsigned most s ≡ some r → r ≤ most
unfolding parse_unsigned
parse_unsigned-le most [] r h = cc h
parse_unsigned-le most (c ∷ s) r h = ground (arith, digits-le most s r, digits-le most (c ∷ s) r)

Fits-signed :
    (width : ℕ) (o : Option ℕ) (z : ℤ)
    → ((n : ℕ) → o ≡ some n → n ≤ 2 ^ (width - 1) - 1)
    → 0 < 2 ^ (width - 1)
    → signed_digits pos o ≡ some z
    → Fits width z
Fits-signed width none z le p h = cc h
Fits-signed width (some n) (pos m) le p h = ground (arith, le n refl)
Fits-signed width (some n) (negsuc m) le p h = cc h

Fits-neg :
    (width : ℕ) (o : Option ℕ) (z : ℤ)
    → ((n : ℕ) → o ≡ some n → n ≤ 2 ^ (width - 1))
    → 0 < 2 ^ (width - 1)
    → signed_digits neg o ≡ some z
    → Fits width z
Fits-neg width none z le p h = cc h
Fits-neg width (some zero) (pos m) le p h = ground arith
Fits-neg width (some zero) (negsuc m) le p h = cc h
Fits-neg width (some (suc n)) (pos m) le p h = cc h
Fits-neg width (some (suc n)) (negsuc m) le p h = ground (arith, le (suc n) refl)

-- A parsed signed integer is a value of its type: nothing wraps around.
pub parse_signed-Fits :
    (width : ℕ) (s : Text) (z : ℤ)
    → 0 < 2 ^ (width - 1)
    → parse_signed width s ≡ some z
    → Fits width z
unfolding parse_signed
parse_signed-Fits width [] z p h = cc h
parse_signed-Fits width (c ∷ s) z p h = elim (Bool-cases (c == b'-')) [
  | inl e ↦
      Fits-neg width (digits (2 ^ (width - 1)) s) z (digits-le (2 ^ (width - 1)) s) p (rw e at h)
  | inr e ↦ elim (Bool-cases (c == b'+')) [
    | inl e' ↦
        Fits-signed width (digits (2 ^ (width - 1) - 1) s) z (digits-le (2 ^ (width - 1) - 1) s) p
          (rw (e, e') at h)
    | inr e' ↦
        Fits-signed width (digits (2 ^ (width - 1) - 1) (c ∷ s)) z
          (digits-le (2 ^ (width - 1) - 1) (c ∷ s)) p (rw (e, e') at h)
  ]
]
