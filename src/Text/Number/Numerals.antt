-- ===== src/Text/Number/Numerals.antt =====
-- Decimal numerals and the integers that they denote, apart from the parser, and that the parser of
-- the signed types accepts exactly the numerals of its range.
use sqlx_monetdb.Prelude.{
  ℕ, zero, suc, ◌+◌, ◌-◌, ◌*◌, ◌^◌, ◌≤◌, ◌<◌, ◌≡◌, ◌↔◌, refl, ap, ◌∙◌, [], ◌∷◌, some, none, Option,
  arith, ◌==◌, ==_ne, All, Bool-cases, inl, inr, subst,
}
use sqlx_monetdb.Text.{Text}
use sqlx_monetdb.Text.Number.{ℤ, pos, scan, digits, parse_signed, signed_digits, neg}
use sqlx_monetdb.Text.Number.Print.{Fits, IsDigit}
use sqlx_monetdb.Text.Number.Parse.{parse_signed-Fits}

-- The number that digits write behind a number.
abbrev pub written : ℕ → Text → ℕ
written n [] = n
written n (c ∷ s) = written (n * 10 + (c - b'0')) s

-- One or more digits.
abbrev pub Digits : Text → Type 0
Digits [] = ⊥
Digits (c ∷ s) = All IsDigit (c ∷ s)

-- A numeral, with a sign or without, and its integer.
pub data Numeral : Text → ℤ → Type 0 where
  plain : (s : Text) → Digits s → Numeral s (pos (written 0 s))
  plus : (s : Text) → Digits s → Numeral (b'+' ∷ s) (pos (written 0 s))
  minus : (s : Text) → Digits s → Numeral (b'-' ∷ s) (neg (written 0 s))

written-ge : (n : ℕ) (s : Text) → n ≤ written n s
written-ge n [] = omega arith
written-ge n (c ∷ s) = omega (arith, written-ge (n * 10 + (c - b'0')) s)

scan-written :
    (most n : ℕ) (s : Text)
    → All IsDigit s
    → written n s ≤ most
    → scan most s n ≡ some (written n s)
unfolding scan
scan-written most n [] hs h = refl
scan-written most n (c ∷ s) (hc, hs) h =
    let n' = n * 10 + (c - b'0') in ground (arith, scan-written most n' s hs h, written-ge n' s)

written-scan :
    (most n r : ℕ) (s : Text)
    → n ≤ most
    → scan most s n ≡ some r
    → All IsDigit s × (written n s ≡ r) × (r ≤ most)
unfolding scan
written-scan most n r [] le h = ground arith
written-scan most n r (c ∷ s) le h = ground (arith, written-scan most (n * 10 + (c - b'0')) r s)

digits-written :
    (most : ℕ) (s : Text) → Digits s → written 0 s ≤ most → digits most s ≡ some (written 0 s)
unfolding digits
digits-written most [] hs h = absurd hs
digits-written most (c ∷ s) hs h = scan-written most 0 (c ∷ s) hs h

written-digits :
    (most : ℕ) (s : Text) {r : ℕ}
    → digits most s ≡ some r
    → Digits s × (written 0 s ≡ r) × (r ≤ most)
unfolding digits
written-digits most [] h = cc h
written-digits most (c ∷ s) {r} h = written-scan most 0 r (c ∷ s) (omega arith) h

signed-some :
    (f : ℕ → ℤ) (o : Option ℕ) {z : ℤ}
    → signed_digits f o ≡ some z
    → (n : ℕ) × (o ≡ some n) × (f n ≡ z)
signed-some f none h = cc h
signed-some f (some n) h = (n, refl, cc h)

neg-le : (width n : ℕ) → Fits width (neg n) → n ≤ 2 ^ (width - 1)
neg-le width zero h = omega arith
neg-le width (suc n) h = omega (arith, h)

Numeral-parsed :
    (width : ℕ) (s : Text) (z : ℤ) → Numeral s z → Fits width z → parse_signed width s ≡ some z
unfolding parse_signed
Numeral-parsed width s z (plain [] hs) h = absurd hs
Numeral-parsed width s z (plain (c ∷ t) hs) h =
    rw (==_ne c b'-' (omega (arith, hs.0)), ==_ne c b'+' (omega (arith, hs.0)))
      (ap (signed_digits pos) (digits-written (2 ^ (width - 1) - 1) (c ∷ t) hs (omega (arith, h))))
Numeral-parsed width s z (plus t hs) h =
    ap (signed_digits pos) (digits-written (2 ^ (width - 1) - 1) t hs (omega (arith, h)))
Numeral-parsed width s z (minus t hs) h =
    ap (signed_digits neg) (digits-written (2 ^ (width - 1)) t hs (neg-le width (written 0 t) h))

-- A text whose digits are read, as a numeral with the sign that `f` stands for.
read_as :
    (f : ℕ → ℤ) (most : ℕ) (s t : Text) {z : ℤ}
    → (Digits t → Numeral s (f (written 0 t)))
    → signed_digits f (digits most t) ≡ some z
    → Numeral s z
read_as f most s t {z} numeral h =
    let (n, read, same) = signed-some f (digits most t) h in
    let (hs, e, _) = written-digits most t read in
    subst (Numeral s) (ap f {x = written 0 t} {y = n} e ∙ same) (numeral hs)

parsed-Numeral : (width : ℕ) (s : Text) (z : ℤ) → parse_signed width s ≡ some z → Numeral s z
unfolding parse_signed
parsed-Numeral width [] z h = cc h
parsed-Numeral width (c ∷ s) z h = elim (Bool-cases (c == b'-')) [
  | inl e ↦
      let same : b'-' ≡ c = ground (arith, e) in
      subst (λ d. Numeral (d ∷ s) z) {x = b'-'} {y = c} same
        (read_as neg (2 ^ (width - 1)) (b'-' ∷ s) s (minus s) (rw e at h))
  | inr e ↦ elim (Bool-cases (c == b'+')) [
    | inl e' ↦
        let same : b'+' ≡ c = ground (arith, e') in
        subst (λ d. Numeral (d ∷ s) z) {x = b'+'} {y = c} same
          (read_as pos (2 ^ (width - 1) - 1) (b'+' ∷ s) s (plus s) (rw (e, e') at h))
    | inr e' ↦ read_as pos (2 ^ (width - 1) - 1) (c ∷ s) (c ∷ s) (plain (c ∷ s)) (rw (e, e') at h)
  ]
]

power-positive : (k : ℕ) → 0 < 2 ^ k
power-positive zero = omega arith
power-positive (suc k) = omega (arith, power-positive k)

-- A text parses at a signed type exactly as the integer that it denotes, if that is of the type.
pub parse_signed-Numeral :
    (width : ℕ) (s : Text) (z : ℤ) → (parse_signed width s ≡ some z) ↔ (Numeral s z × Fits width z)
parse_signed-Numeral width s z = (
  (λ h. (parsed-Numeral width s z h, parse_signed-Fits width s z (power-positive (width - 1)) h)),
  (λ h. Numeral-parsed width s z h.0 h.1),
)
