-- ===== src/Text.antt =====
-- Text as the driver handles it: a `str` is its list of code points. The functions of Rust's
-- standard library that the sources call are defined here and in the children.
pub mod Split
pub mod Trim
pub mod Number
pub mod Utf8
use Prim.Native.Char.{code}
use Prim.Native.String.{String}
use sqlx_monetdb.Prelude.{
  ℕ, ◌-◌, ◌+◌, ◌≡◌, ◌≢◌, refl, ap, sym, ◌∙◌, ◌↔◌, Bool, true, false, ◌&&◌, ◌||◌, List, [], ◌∷◌,
  ◌++◌, Option, none, some, arith, leb, ◌==◌, ==_iff, if◌then◌else◌, All,
}

abbrev pub Text : Type 0
Text = List ℕ

-- The code points of a literal.
abbrev pub codes : String → Text
codes String.[] = []
codes (String.◌∷◌ c s) = code c ∷ codes s

-- `==` on texts.
unfoldable pub text_eq : Text → Text → Bool
text_eq [] [] = true
text_eq (a ∷ x) (b ∷ y) = (a == b) && text_eq x y
text_eq _ _ = false

pub text_eq_iff : (x y : Text) → (text_eq x y ≡ true) ↔ (x ≡ y)
unfolding text_eq
text_eq_iff [] [] = ((λ _. refl), (λ _. refl))
text_eq_iff [] (b ∷ y) = ((λ h. cc h), (λ h. cc h))
text_eq_iff (a ∷ x) [] = ((λ h. cc h), (λ h. cc h))
text_eq_iff (a ∷ x) (b ∷ y) = let ih = text_eq_iff x y in ground (arith, ih)

pub text_eq_refl : (x : Text) → text_eq x x ≡ true
text_eq_refl x = (text_eq_iff x x).1 refl

-- `s.strip_prefix(prefix)`
unfoldable pub strip_prefix : Text → Text → Option Text
strip_prefix s [] = some s
strip_prefix [] (p ∷ ps) = none
strip_prefix (c ∷ s) (p ∷ ps) = if c == p then strip_prefix s ps else none

pub strip_prefix-append : (p s : Text) → strip_prefix (p ++ s) p ≡ some s
unfolding strip_prefix
strip_prefix-append [] [] = refl
strip_prefix-append [] (c ∷ s) = refl
strip_prefix-append (c ∷ p) s = ground (arith, strip_prefix-append p s)

pub strip_prefix_sound : (s p r : Text) → strip_prefix s p ≡ some r → s ≡ p ++ r
unfolding strip_prefix
strip_prefix_sound s [] r h = cc h
strip_prefix_sound [] (p ∷ ps) r h = cc h
strip_prefix_sound (c ∷ s) (p ∷ ps) r h = ground (arith, strip_prefix_sound s ps r)

-- `s.starts_with(prefix)`
unfoldable pub starts_with : Text → Text → Bool
unfolding strip_prefix
starts_with s p = elim (strip_prefix s p) [ none ↦ false | some _ ↦ true ]

-- `s.contains(needle)`
unfoldable pub contains : Text → Text → Bool
unfolding starts_with
contains [] needle = starts_with [] needle
contains (c ∷ s) needle = starts_with (c ∷ s) needle || contains s needle

-- `s.strip_suffix(c)` for a character.
unfoldable pub strip_suffix : Text → ℕ → Option Text
strip_suffix [] c = none
strip_suffix (a ∷ []) c = if a == c then some [] else none
strip_suffix (a ∷ b ∷ s) c = elim (strip_suffix (b ∷ s) c) [ none ↦ none | some r ↦ some (a ∷ r) ]

pub strip_suffix-append : (s : Text) (c : ℕ) → strip_suffix (s ++ c ∷ []) c ≡ some s
unfolding strip_suffix
strip_suffix-append [] c = ground arith
strip_suffix-append (a ∷ []) c = ground arith
strip_suffix-append (a ∷ b ∷ s) c = ground (arith, strip_suffix-append (b ∷ s) c)

-- A character does not occur in a text.
abbrev pub Lacks : ℕ → Text → Type 0
Lacks c = All (λ b. b ≢ c)
