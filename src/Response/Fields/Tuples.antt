-- ===== src/Response/Fields/Tuples.antt =====
-- A whole tuple line: `parse_tuple_fields` of src/protocol/response.rs on what a server writes.
use sqlx_monetdb.Prelude.{
  ℕ, ◌≡◌, ◌≢◌, refl, ap, ◌∙◌, sym, Bool, true, false, List, [], ◌∷◌, ◌++◌, ok, ◌==◌, arith, ◌⊎◌,
  All, All-append, inl, inr, ==_ne, map,
}
use sqlx_monetdb.Text.{Text, strip_suffix-append, Lacks}
use sqlx_monetdb.Text.Trim.{
  IsTrimmed, StartsClear, EndsClear, is_whitespace, trim, trim-IsTrimmed, trim_of_IsTrimmed,
}
use sqlx_monetdb.Text.Split.{split_pair, onto_first}
use sqlx_monetdb.Response.Fields.{unescape_all, parse_inner, parse_tuple_fields}
use sqlx_monetdb.Response.Fields.Escape.{
  Field, null, quoted, bare, IsField, IsQuote, render, value, escape, escape_char,
  unescape_field-render,
}

abbrev comma : ℕ
comma = b','

abbrev tab : ℕ
tab = b'\t'

-- The fields with a comma and a tab between them.
unfoldable pub commas : List Text → Text
commas [] = []
commas (p ∷ []) = p
commas (p ∷ q ∷ ps) = p ++ (comma ∷ tab ∷ commas (q ∷ ps))

-- A tuple line behind its `[`, with the blank, the tab and the bracket that the server writes.
unfoldable pub render_tuple : List Field → Text
render_tuple fs = (b' ' ∷ (commas (map render fs) ++ tab ∷ [])) ++ b']' ∷ []

split_pair_plain :
    (c : ℕ) (s : Text)
    → (c ≢ comma) ⊎ StartsClear (λ d. d == tab) s
    → split_pair comma tab (c ∷ s) ≡ onto_first c (split_pair comma tab s)
unfolding split_pair
split_pair_plain c [] h = refl
split_pair_plain c (d ∷ s) (inl h) = rw (==_ne c comma h, split_pair)
split_pair_plain c (d ∷ s) (inr h) = rw (h, split_pair) (ground arith)

split_pair-sep :
    (p s : Text)
    → Lacks tab p
    → split_pair comma tab (p ++ (comma ∷ tab ∷ s)) ≡ p ∷ split_pair comma tab s
split_pair-sep [] s h = unfold split_pair in refl
split_pair-sep (c ∷ []) s (hc, h) =
    split_pair_plain c (comma ∷ tab ∷ s) (inr refl) ∙ ap (onto_first c) (split_pair-sep [] s tt)
split_pair-sep (c ∷ d ∷ p) s (hc, (hd, h)) =
    split_pair_plain c (d ∷ p ++ (comma ∷ tab ∷ s)) (inr (==_ne d tab hd))
    ∙ ap (onto_first c) (split_pair-sep (d ∷ p) s (hd, h))

split_pair-Lacks : (p : Text) → Lacks tab p → split_pair comma tab p ≡ p ∷ []
split_pair-Lacks [] h = unfold split_pair in refl
split_pair-Lacks (c ∷ []) h = unfold split_pair in refl
split_pair-Lacks (c ∷ d ∷ p) (hc, (hd, h)) =
    split_pair_plain c (d ∷ p) (inr (==_ne d tab hd))
    ∙ ap (onto_first c) (split_pair-Lacks (d ∷ p) (hd, h))

split_pair-commas :
    (p : Text) (ps : List Text)
    → All (Lacks tab) (p ∷ ps)
    → split_pair comma tab (commas (p ∷ ps)) ≡ p ∷ ps
unfolding commas
split_pair-commas p [] (h, _) = split_pair-Lacks p h
split_pair-commas p (q ∷ ps) (h, hs) =
    split_pair-sep p (commas (q ∷ ps)) h ∙ ap (λ r. p ∷ r) (split_pair-commas q ps hs)

-- Neither a tab nor a line end stands in an escaped text.
abbrev pub IsHidden : ℕ → Type 0
IsHidden b = (b ≡ tab) ⊎ (b ≡ b'\n')

escape_char-Lacks : (b quote c : ℕ) → IsHidden b → IsQuote quote → Lacks b (escape_char quote c)
unfolding escape_char
escape_char-Lacks b quote c hb h = ground arith

escape-Lacks : (b quote : ℕ) (s : Text) → IsHidden b → IsQuote quote → Lacks b (escape quote s)
unfolding escape
escape-Lacks b quote [] hb h = tt
escape-Lacks b quote (c ∷ s) hb h =
    All-append _ (escape_char quote c) (escape quote s) (escape_char-Lacks b quote c hb h)
      (escape-Lacks b quote s hb h)

quote_not_end : (quote : ℕ) → IsQuote quote → quote ≢ b'\n'
quote_not_end quote h = omega arith

-- No rendered field holds a line end.
render-Lacks : (f : Field) → IsField f → Lacks b'\n' (render f)
unfolding render
render-Lacks null h = omega arith
render-Lacks (quoted quote s) h = (
  quote_not_end quote h,
  All-append _ (escape quote s) (quote ∷ []) (escape-Lacks b'\n' quote s (inr refl) h)
      (quote_not_end quote h, tt),
)
render-Lacks (bare c s) (_, _, _, _, no_end, _) = no_end

pub commas-Lacks :
    (b : ℕ) (ps : List Text) → b ≢ comma → b ≢ tab → All (Lacks b) ps → Lacks b (commas ps)
unfolding commas
commas-Lacks b [] nc nt h = tt
commas-Lacks b (p ∷ []) nc nt (hp, h) = hp
commas-Lacks b (p ∷ q ∷ ps) nc nt (hp, h) =
    All-append _ p (comma ∷ tab ∷ commas (q ∷ ps)) hp
      ((λ e. nc (sym e)), ((λ e. nt (sym e)), commas-Lacks b (q ∷ ps) nc nt h))

map-Lacks : (fs : List Field) → All IsField fs → All (Lacks b'\n') (map render fs)
map-Lacks [] h = tt
map-Lacks (f ∷ fs) (hf, h) = (render-Lacks f hf, map-Lacks fs h)

-- A tuple line is one line.
pub render_tuple-Lacks : (fs : List Field) → All IsField fs → Lacks b'\n' (render_tuple fs)
unfolding render_tuple
render_tuple-Lacks fs h =
    All-append _ (b' ' ∷ (commas (map render fs) ++ tab ∷ [])) (b']' ∷ [])
      (
        omega arith,
        All-append _ (commas (map render fs)) (tab ∷ [])
            (commas-Lacks b'\n' (map render fs) (omega arith) (omega arith) (map-Lacks fs h))
            (omega arith),
      )
      (omega arith)

EndsClear-append :
    (p : ℕ → Bool) (t : Text) (c : ℕ) (s : Text) → EndsClear p (c ∷ s) → EndsClear p (t ++ (c ∷ s))
EndsClear-append p [] c s h = h
EndsClear-append p (a ∷ []) c s h = h
EndsClear-append p (a ∷ b ∷ t) c s h = EndsClear-append p (b ∷ t) c s h

abbrev pub Looks : Text → Type 0
Looks s = (s ≢ []) × Lacks tab s × IsTrimmed s

quote_not_blank : (quote : ℕ) → IsQuote quote → (is_whitespace quote ≡ false) × (quote ≢ tab)
unfolding is_whitespace
quote_not_blank quote (inl e) = (rw e, ground arith)
quote_not_blank quote (inr e) = (rw e, ground arith)

render-Looks : (f : Field) → IsField f → Looks (render f)
unfolding render
render-Looks null h = ((λ e. cc e), omega arith, (unfold is_whitespace in (refl, refl)))
render-Looks (quoted quote s) h =
    let (clear, no_tab) = quote_not_blank quote h in
    (
      (λ e. cc e),
      (
        no_tab,
        All-append _ (escape quote s) (quote ∷ []) (escape-Lacks tab quote s (inl refl) h)
            (no_tab, tt),
      ),
      (clear, EndsClear-append is_whitespace (quote ∷ escape quote s) quote [] clear),
    )
render-Looks (bare c s) (_, _, _, lacks, _, trimmed) = ((λ e. cc e), lacks, trimmed)

map-Looks : (fs : List Field) → All IsField fs → All Looks (map render fs)
map-Looks [] h = tt
map-Looks (f ∷ fs) (hf, h) = (render-Looks f hf, map-Looks fs h)

Lacks-of_Looks : (ps : List Text) → All Looks ps → All (Lacks tab) ps
Lacks-of_Looks [] h = tt
Lacks-of_Looks (p ∷ ps) ((_, hp, _), h) = (hp, Lacks-of_Looks ps h)

StartsClear-append : (p : ℕ → Bool) (s t : Text) → s ≢ [] → StartsClear p s → StartsClear p (s ++ t)
StartsClear-append p [] t ne h = absurd (ne refl)
StartsClear-append p (c ∷ s) t ne h = h

pub EndsClear-commas :
    (p : Text) (ps : List Text)
    → All Looks (p ∷ ps)
    → (commas (p ∷ ps) ≢ []) × EndsClear is_whitespace (commas (p ∷ ps))
unfolding commas
EndsClear-commas p [] ((ne, _, (_, ends)), _) = (ne, ends)
EndsClear-commas p (q ∷ ps) (hp, h) = behind p (commas (q ∷ ps)) (EndsClear-commas q ps h)
  where
    behind :
        (p s : Text)
        → (s ≢ []) × EndsClear is_whitespace s
        → (p ++ (comma ∷ tab ∷ s) ≢ []) × EndsClear is_whitespace (p ++ (comma ∷ tab ∷ s))
    behind p [] (ne, _) = absurd (ne refl)
    behind [] (c ∷ s) (ne, ends) = ((λ e. cc e), ends)
    behind (a ∷ p) (c ∷ s) (ne, ends) =
        ((λ e. cc e), EndsClear-append is_whitespace (a ∷ p) comma (tab ∷ c ∷ s) ends)

pub StartsClear-commas :
    (p : Text) (ps : List Text) → All Looks (p ∷ ps) → StartsClear is_whitespace (commas (p ∷ ps))
unfolding commas
StartsClear-commas p [] ((_, _, (starts, _)), _) = starts
StartsClear-commas p (q ∷ ps) ((ne, _, (starts, _)), _) =
    StartsClear-append is_whitespace p _ ne starts

unescape_all-render :
    (fs : List Field) → All IsField fs → unescape_all (map render fs) ≡ ok (map value fs)
unfolding unescape_all
unescape_all-render [] h = refl
unescape_all-render (f ∷ fs) (hf, h) = rw (
  (trim_of_IsTrimmed (render f) (render-Looks f hf).2),
  unescape_field-render f hf,
  unescape_all-render fs h,
)

parse_inner-cons : (s : Text) → s ≢ [] → parse_inner s ≡ unescape_all (split_pair comma tab s)
unfolding parse_inner
parse_inner-cons [] h = absurd (h refl)
parse_inner-cons (c ∷ s) h = refl

blank_tab : (is_whitespace b' ' ≡ true) × (is_whitespace tab ≡ true)
unfolding is_whitespace
blank_tab = (refl, refl)

-- The blank and the tab at the ends of the line are cut off.
trim-line : (s : Text) → IsTrimmed s → trim (b' ' ∷ (s ++ tab ∷ [])) ≡ s
trim-line s h = trim-IsTrimmed (b' ' ∷ []) s (tab ∷ []) (blank_tab.0, tt) h (blank_tab.1, tt)

parse_line :
    (s : Text)
    → s ≢ []
    → IsTrimmed s
    → parse_tuple_fields ((b' ' ∷ (s ++ tab ∷ [])) ++ b']' ∷ [])
      ≡ unescape_all (split_pair comma tab s)
unfolding parse_tuple_fields unescape_all
parse_line s ne h =
    rw ((strip_suffix-append (b' ' ∷ (s ++ tab ∷ [])) b']'), parse_tuple_fields)
      (rw (trim-line s h) (parse_inner-cons s ne))

-- A tuple line of any number of well-formed fields is read field by field: as many values as
-- fields, in their order, NULL as no value, quoted texts unescaped, also where a text holds
-- commas, tabs, quotes, brackets or line ends.
pub parse_tuple_fields-render_tuple :
    (fs : List Field) → All IsField fs → parse_tuple_fields (render_tuple fs) ≡ ok (map value fs)
unfolding render_tuple
parse_tuple_fields-render_tuple [] h = unfold parse_tuple_fields commas in refl
parse_tuple_fields-render_tuple (f ∷ fs) (hf, h) =
    let hs = map-Looks (f ∷ fs) (hf, h) in
    let s = commas (map render (f ∷ fs)) in
    let (ne, ends) = EndsClear-commas (render f) (map render fs) hs in
    let starts = StartsClear-commas (render f) (map render fs) hs in
    parse_line s ne (starts, ends)
    ∙ ap unescape_all
        (split_pair-commas (render f) (map render fs) (Lacks-of_Looks (map render (f ∷ fs)) hs))
    ∙ unescape_all-render (f ∷ fs) (hf, h)
