-- ===== src/Text/Number/Words.antt =====
-- Printed numbers are words, without white space.
use sqlx_monetdb.Prelude.{ℕ, suc, ◌≡◌, refl, false, [], ◌∷◌, All, arith}
use sqlx_monetdb.Text.{Text}
use sqlx_monetdb.Text.Trim.{is_whitespace, IsWord}
use sqlx_monetdb.Text.Number.{ℤ, pos, negsuc, print_signed, print_unsigned}
use sqlx_monetdb.Text.Number.Print.{IsDigit, print_unsigned-cons}

digit_not_blank : (c : ℕ) → IsDigit c → is_whitespace c ≡ false
unfolding is_whitespace
digit_not_blank c h = ground arith

digits_not_blank : (s : Text) → All IsDigit s → All (λ c. is_whitespace c ≡ false) s
digits_not_blank [] h = tt
digits_not_blank (c ∷ s) (hc, h) = (digit_not_blank c hc, digits_not_blank s h)

pub print_unsigned-IsWord : (n : ℕ) → IsWord (print_unsigned n)
print_unsigned-IsWord n =
    let (d, r, eq, h) = print_unsigned-cons n in rw eq ((λ e. cc e), digits_not_blank (d ∷ r) h)

pub print_signed-IsWord : (z : ℤ) → IsWord (print_signed z)
unfolding print_signed
print_signed-IsWord (pos n) = print_unsigned-IsWord n
print_signed-IsWord (negsuc n) =
    ((λ e. cc e), ((unfold is_whitespace in refl), (print_unsigned-IsWord (suc n)).1))
