-- ===== src/Text/Number/Print.antt =====
-- A printed number is read back: `parse` after `to_string`.
use sqlx_monetdb.Prelude.{
  ℕ, zero, suc, ◌+◌, ◌-◌, ◌/◌, ◌%◌, ◌^◌, ◌≤◌, ◌<◌, ◌≡◌, refl, sym, ap, ◌∙◌, true, false, [], ◌∷◌,
  some, arith, ◌==◌, All, Bool-cases, ==_ne, subst, inl, inr,
}
use sqlx_monetdb.Text.{Text}
use sqlx_monetdb.Text.Number.{
  ℤ, pos, negsuc, scan, digits, parse_unsigned, parse_signed, emit, print_unsigned, print_signed,
  signed_digits,
}

abbrev pub IsDigit : ℕ → Type 0
IsDigit c = (b'0' ≤ c) × (c ≤ b'9')

scan_last :
    (most n : ℕ) (out : Text)
    → n ≤ most
    → scan most ((b'0' + n % 10) ∷ out) (n / 10) ≡ scan most out n
unfolding scan
scan_last most n out h = ground arith

emit_done : (fuel n : ℕ) (out : Text) → (n == 0) ≡ true → emit (suc fuel) n out ≡ out
unfolding emit
emit_done fuel n out e = rw (e, emit)

emit_round :
    (fuel n : ℕ) (out : Text)
    → (n == 0) ≡ false
    → emit (suc fuel) n out ≡ emit fuel (n / 10) ((b'0' + n % 10) ∷ out)
unfolding emit
emit_round fuel n out e = rw (e, emit)

scan-emit :
    (fuel most n : ℕ) (out : Text)
    → n < fuel
    → n ≤ most
    → scan most (emit fuel n out) 0 ≡ scan most out n
scan-emit zero most n out h le = absurd (omega arith)
scan-emit (suc fuel) most n out h le = elim (Bool-cases (n == 0)) [
  | inl e ↦ rw (emit_done fuel n out e) (ap (scan most out) (ground arith))
  | inr e ↦ rw (emit_round fuel n out e) (
      scan-emit fuel most (n / 10) ((b'0' + n % 10) ∷ out) (ground arith) (omega arith)
      ∙ scan_last most n out le)
]

-- Digits in front of digits.
emit-IsDigit : (fuel n : ℕ) (out : Text) → All IsDigit out → All IsDigit (emit fuel n out)
emit-IsDigit zero n out h = unfold emit in h
emit-IsDigit (suc fuel) n out h = elim (Bool-cases (n == 0)) [
  | inl e ↦ rw (emit_done fuel n out e) h
  | inr e ↦
      rw (emit_round fuel n out e)
        (emit-IsDigit fuel (n / 10) ((b'0' + n % 10) ∷ out) ((omega arith, omega arith), h))
]

emit-cons :
    (fuel n : ℕ) (c : ℕ) (out : Text) → (d : ℕ) × (r : Text) × (emit fuel n (c ∷ out) ≡ d ∷ r)
emit-cons zero n c out = unfold emit in (c, out, refl)
emit-cons (suc fuel) n c out = elim (Bool-cases (n == 0)) [
  | inl e ↦ (c, out, emit_done fuel n (c ∷ out) e)
  | inr e ↦
      let (d, r, eq) = emit-cons fuel (n / 10) (b'0' + n % 10) (c ∷ out) in
      (d, r, emit_round fuel n (c ∷ out) e ∙ eq)
]

-- A printed number is one or more digits.
pub print_unsigned-cons :
    (n : ℕ) → (d : ℕ) × (r : Text) × (print_unsigned n ≡ d ∷ r) × All IsDigit (d ∷ r)
unfolding print_unsigned
print_unsigned-cons n = elim (Bool-cases (n == 0)) [
  | inl e ↦ (b'0', [], rw e, ((omega arith, omega arith), tt))
  | inr e ↦
      let (d, r, eq) = emit-cons n (n / 10) (b'0' + n % 10) [] in
      let same : emit (suc n) n [] ≡ d ∷ r = emit_round n n [] e ∙ eq in
      (d, r, rw e same, subst (All IsDigit) same (emit-IsDigit (suc n) n [] tt))
]

digits-print_unsigned : (most n : ℕ) → n ≤ most → digits most (print_unsigned n) ≡ some n
unfolding digits print_unsigned
digits-print_unsigned most n le = elim (Bool-cases (n == 0)) [
  | inl e ↦ rw e (unfold scan in ground arith)
  | inr e ↦
      let (d, r, eq) = emit-cons n (n / 10) (b'0' + n % 10) [] in
      let same : emit (suc n) n [] ≡ d ∷ r = emit_round n n [] e ∙ eq in
      rw e (
        rw same (
          ap (λ s. scan most s 0) (sym same)
          ∙ scan-emit (suc n) most n [] (omega arith) le
          ∙ (unfold scan in refl)))
]

-- Every number up to the type's largest value is read back from its decimal print.
pub parse_unsigned-print_unsigned :
    (most n : ℕ) → n ≤ most → parse_unsigned most (print_unsigned n) ≡ some n
unfolding parse_unsigned
parse_unsigned-print_unsigned most n le =
    let (d, r, eq, (hd, _)) = print_unsigned-cons n in
    rw eq (
      rw (==_ne d b'+' (omega arith)) (ap (digits most) (sym eq) ∙ digits-print_unsigned most n le))

-- The values of a signed type of `width` bits.
abbrev pub Fits : ℕ → ℤ → Type 0
Fits width (pos n) = n < 2 ^ (width - 1)
Fits width (negsuc n) = n < 2 ^ (width - 1)

-- Every value of a signed integer type is read back from its decimal print, the least one included.
pub parse_signed-print_signed :
    (width : ℕ) (z : ℤ) → Fits width z → parse_signed width (print_signed z) ≡ some z
unfolding parse_signed print_signed
parse_signed-print_signed width (pos n) h =
    let (d, r, eq, (hd, _)) = print_unsigned-cons n in
    rw eq (
      rw (==_ne d b'-' (omega arith), ==_ne d b'+' (omega arith))
        (ap (signed_digits pos) (
          ap (digits (2 ^ (width - 1) - 1)) (sym eq)
          ∙ digits-print_unsigned (2 ^ (width - 1) - 1) n (omega arith))))
parse_signed-print_signed width (negsuc n) h =
    rw (digits-print_unsigned (2 ^ (width - 1)) (suc n) (omega arith))
