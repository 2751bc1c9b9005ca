-- ===== src/Text/Trim.antt =====
-- White space as `char::is_whitespace` has it, the `trim` functions and `split_whitespace`.
use sqlx_monetdb.Prelude.{
  ℕ, ◌≡◌, ◌≢◌, refl, ap, sym, ◌∙◌, Bool, true, false, ◌&&◌, ◌||◌, List, [], ◌∷◌, ◌++◌, ◌==◌, leb,
  if◌then◌else◌, All, append-nil,
}
use sqlx_monetdb.Text.{Text}
use sqlx_monetdb.Text.Split.{split_by, split_by-join, join}

abbrev in_range : ℕ → ℕ → ℕ → Bool
in_range lo hi c = leb lo c && leb c hi

-- The characters with the Unicode property White_Space.
unfoldable pub is_whitespace : ℕ → Bool
is_whitespace c =
    in_range 9 13 c
    || (c == 32)
    || (c == 0x85)
    || (c == 0xA0)
    || (c == 0x1680)
    || in_range 0x2000 0x200A c
    || in_range 0x2028 0x2029 c
    || (c == 0x202F)
    || (c == 0x205F)
    || (c == 0x3000)

-- `trim_start_matches` and `trim_end_matches` for a test on characters.
unfoldable pub trim_start_by : (ℕ → Bool) → Text → Text
trim_start_by p [] = []
trim_start_by p (c ∷ s) = if p c then trim_start_by p s else c ∷ s

unfoldable pub unless_blank : Bool → ℕ → Text → Text
unless_blank true c [] = []
unless_blank _ c s = c ∷ s

pub unless_blank_cons : (b : Bool) (c d : ℕ) (s : Text) → unless_blank b c (d ∷ s) ≡ c ∷ d ∷ s
unfolding unless_blank
unless_blank_cons true c d s = refl
unless_blank_cons _ c d s = refl

unfoldable pub trim_end_by : (ℕ → Bool) → Text → Text
unfolding unless_blank
trim_end_by p [] = []
trim_end_by p (c ∷ s) = unless_blank (p c) c (trim_end_by p s)

unfoldable pub trim : Text → Text
unfolding trim_start_by trim_end_by is_whitespace
trim s = trim_end_by is_whitespace (trim_start_by is_whitespace s)

unfoldable pub non_empty : List Text → List Text
non_empty [] = []
non_empty ([] ∷ ps) = non_empty ps
non_empty ((c ∷ p) ∷ ps) = (c ∷ p) ∷ non_empty ps

-- `s.split_whitespace()`
unfoldable pub split_whitespace : Text → List Text
unfolding split_by is_whitespace non_empty
split_whitespace s = non_empty (split_by is_whitespace s)

-- A text that neither begins nor ends with a character of the test.
abbrev pub EndsClear : (ℕ → Bool) → Text → Type 0
EndsClear p [] = Unit
EndsClear p (c ∷ []) = p c ≡ false
EndsClear p (c ∷ d ∷ s) = EndsClear p (d ∷ s)

abbrev pub StartsClear : (ℕ → Bool) → Text → Type 0
StartsClear p [] = Unit
StartsClear p (c ∷ s) = p c ≡ false

abbrev pub IsTrimmed : Text → Type 0
IsTrimmed s = StartsClear is_whitespace s × EndsClear is_whitespace s

abbrev pub AllBlank : (ℕ → Bool) → Text → Type 0
AllBlank p = All (λ c. p c ≡ true)

module _ (p : ℕ → Bool) where
  pub trim_start-StartsClear : (s : Text) → StartsClear p s → trim_start_by p s ≡ s
  unfolding trim_start_by
  trim_start-StartsClear [] h = refl
  trim_start-StartsClear (c ∷ s) h = rw h

  pub trim_start-blank : (b s : Text) → AllBlank p b → trim_start_by p (b ++ s) ≡ trim_start_by p s
  unfolding trim_start_by
  trim_start-blank [] s h = refl
  trim_start-blank (c ∷ b) s (hc, h) = rw hc (trim_start-blank b s h)

  pub trim_end-AllBlank : (b : Text) → AllBlank p b → trim_end_by p b ≡ []
  unfolding trim_end_by
  trim_end-AllBlank [] h = refl
  trim_end-AllBlank (c ∷ b) (hc, h) = rw (trim_end-AllBlank b h, hc)

  -- Blanks behind a text with a clear end are cut off, and no more.
  pub trim_end-EndsClear : (s b : Text) → EndsClear p s → AllBlank p b → trim_end_by p (s ++ b) ≡ s
  unfolding trim_end_by
  trim_end-EndsClear [] b h hb = trim_end-AllBlank b hb
  trim_end-EndsClear (c ∷ []) b h hb = rw (trim_end-AllBlank b hb, h)
  trim_end-EndsClear (c ∷ d ∷ s) b h hb =
      rw (trim_end-EndsClear (d ∷ s) b h hb) (unless_blank_cons (p c) c d s)

-- Trimming gives back a trimmed text from between blanks.
pub trim-IsTrimmed :
    (a s b : Text)
    → AllBlank is_whitespace a
    → IsTrimmed s
    → AllBlank is_whitespace b
    → trim (a ++ (s ++ b)) ≡ s
unfolding trim
trim-IsTrimmed a [] b ha (hs, he) hb = ap (trim_end_by is_whitespace) (
    trim_start-blank is_whitespace a b ha
    ∙ ap (trim_start_by is_whitespace) (sym (append-nil b))
    ∙ trim_start-blank is_whitespace b [] hb)
trim-IsTrimmed a (c ∷ s) b ha (hs, he) hb =
    ap (trim_end_by is_whitespace) (
      trim_start-blank is_whitespace a ((c ∷ s) ++ b) ha
      ∙ trim_start-StartsClear is_whitespace ((c ∷ s) ++ b) hs)
    ∙ trim_end-EndsClear is_whitespace (c ∷ s) b he hb

pub trim_of_IsTrimmed : (s : Text) → IsTrimmed s → trim s ≡ s
trim_of_IsTrimmed s h = ap trim (sym (append-nil s)) ∙ trim-IsTrimmed [] s [] tt h tt

-- A word: not empty, and no white space in it.
abbrev pub IsWord : Text → Type 0
IsWord w = (w ≢ []) × All (λ c. is_whitespace c ≡ false) w

clear_of_IsWord : (ws : List Text) → All IsWord ws → All (All (λ c. is_whitespace c ≡ false)) ws
clear_of_IsWord [] h = tt
clear_of_IsWord (w ∷ ws) ((_, hw), h) = (hw, clear_of_IsWord ws h)

non_empty-IsWord : (ws : List Text) → All IsWord ws → non_empty ws ≡ ws
unfolding non_empty
non_empty-IsWord [] h = refl
non_empty-IsWord ([] ∷ ws) ((ne, _), h) = absurd (ne refl)
non_empty-IsWord ((c ∷ w) ∷ ws) (_, h) = ap (λ r. (c ∷ w) ∷ r) (non_empty-IsWord ws h)

-- Words with single blanks between them are found again.
pub split_whitespace-words :
    (w : Text) (ws : List Text)
    → All IsWord (w ∷ ws)
    → split_whitespace (join (w ∷ ws) b' ') ≡ w ∷ ws
unfolding split_whitespace join
split_whitespace-words w ws h =
    ap non_empty (split_by-join is_whitespace w ws b' ' (clear_of_IsWord (w ∷ ws) h) refl)
    ∙ non_empty-IsWord (w ∷ ws) h

-- Words behind a blank, with single blanks between them, are found again.
pub split_whitespace-join :
    (w : Text) (ws : List Text)
    → All IsWord (w ∷ ws)
    → split_whitespace (b' ' ∷ join (w ∷ ws) b' ') ≡ w ∷ ws
unfolding split_whitespace join
split_whitespace-join w ws h =
    ap non_empty
      (split_by-join is_whitespace [] (w ∷ ws) b' ' (tt, clear_of_IsWord (w ∷ ws) h) refl)
    ∙ non_empty-IsWord (w ∷ ws) h
