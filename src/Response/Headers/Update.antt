-- ===== src/Response/Headers/Update.antt =====
-- The header lines of a table on what a server writes.
use sqlx_monetdb.Prelude.{
  ◌≡◌, ◌≢◌, refl, ap, ◌∙◌, sym, List, [], ◌∷◌, ◌++◌, ok, All, All-append, map, arith, append-nil,
  true,
}
use sqlx_monetdb.Text.{Text, Lacks}
use sqlx_monetdb.Text.Trim.{
  IsTrimmed, trim, trim-IsTrimmed, trim_of_IsTrimmed, is_whitespace, trim_end_by, trim_start-blank,
}
use sqlx_monetdb.Text.Split.{
  split, split-sep, split-Lacks, split_ne, split-ne-nil, onto_first, rsplit_once-sep,
}
use sqlx_monetdb.Response.Fields.Tuples.{
  commas, commas-Lacks, Looks, EndsClear-commas, StartsClear-commas,
}
use sqlx_monetdb.Response.Headers.{parse_header_values}

-- A value of a header line: not empty, no comma, no tab, no line end, and no white space at its
-- ends.
abbrev pub IsValue : Text → Type 0
IsValue v = Lacks b',' v × Lacks b'\n' v × Looks v

-- `% v,<tab>w # identity`, behind its `%`.
unfoldable pub render_header : List Text → Text → Text
render_header vs identity = (b' ' ∷ (commas vs ++ b' ' ∷ [])) ++ (b'#' ∷ b' ' ∷ identity)

blanks : (is_whitespace b' ' ≡ true) × (is_whitespace b'\t' ≡ true)
unfolding is_whitespace
blanks = (refl, refl)

trim_tab : (s : Text) → trim (b'\t' ∷ s) ≡ trim s
unfolding trim
trim_tab s =
    ap (trim_end_by is_whitespace) (trim_start-blank is_whitespace (b'\t' ∷ []) s (blanks.1, tt))

map-trim-onto_first : (ps : List Text) → ps ≢ [] → map trim (onto_first b'\t' ps) ≡ map trim ps
map-trim-onto_first [] h = absurd (h refl)
map-trim-onto_first (p ∷ ps) h = ap (λ q. q ∷ map trim ps) (trim_tab p)

map-trim-split :
    (v : Text) (vs : List Text)
    → All IsValue (v ∷ vs)
    → map trim (split (commas (v ∷ vs)) b',') ≡ v ∷ vs
unfolding commas
map-trim-split v [] ((lacks, _, (_, _, trimmed)), _) =
    ap (map trim) (split-Lacks v b',' lacks) ∙ ap (λ q. q ∷ []) (trim_of_IsTrimmed v trimmed)
map-trim-split v (w ∷ vs) ((lacks, _, (_, _, trimmed)), h) =
    let tail = commas (w ∷ vs) in
    ap (map trim) (split-sep v (b'\t' ∷ tail) b',' lacks)
    ∙ ap (λ q. q ∷ map trim (split (b'\t' ∷ tail) b',')) (trim_of_IsTrimmed v trimmed)
    ∙ ap (λ r. v ∷ r)
        (ap (map trim) (split_ne b'\t' tail b',' (omega arith))
          ∙ map-trim-onto_first (split tail b',') (split-ne-nil tail b',')
          ∙ map-trim-split w vs h)

Looks-of_IsValue : (vs : List Text) → All IsValue vs → All Looks vs
Looks-of_IsValue [] h = tt
Looks-of_IsValue (v ∷ vs) ((_, _, hv), h) = (hv, Looks-of_IsValue vs h)

cut :
    (front back : Text)
    → Lacks b'#' back
    → parse_header_values (front ++ (b'#' ∷ back))
      ≡ ok (trim back, map trim (split (trim front) b','))
unfolding parse_header_values
cut front back h = rw (rsplit_once-sep front back b'#' h)

-- A header line of one or more values without commas, tabs, line ends or outer white space is
-- read as these values, in their order, and its identity, if that holds no `#` and no outer white
-- space.
pub parse_header_values-render_header :
    (v : Text) (vs : List Text) (identity : Text)
    → All IsValue (v ∷ vs)
    → Lacks b'#' identity
    → IsTrimmed identity
    → parse_header_values (render_header (v ∷ vs) identity) ≡ ok (identity, v ∷ vs)
unfolding render_header
parse_header_values-render_header v vs identity h hi ti =
    let looks = Looks-of_IsValue (v ∷ vs) h in
    let ends = (EndsClear-commas v vs looks).1 in
    let starts = StartsClear-commas v vs looks in
    cut (b' ' ∷ (commas (v ∷ vs) ++ b' ' ∷ [])) (b' ' ∷ identity) (omega arith, hi)
    ∙ ap (λ t. ok (t, map trim (split (trim (b' ' ∷ (commas (v ∷ vs) ++ b' ' ∷ []))) b',')))
        (ap trim (ap (λ s. b' ' ∷ s) (sym (append-nil identity)))
          ∙ trim-IsTrimmed (b' ' ∷ []) identity [] (blanks.0, tt) ti tt)
    ∙ ap (λ t. ok (identity, map trim (split t b',')))
        (trim-IsTrimmed (b' ' ∷ []) (commas (v ∷ vs)) (b' ' ∷ []) (blanks.0, tt) (starts, ends)
          (blanks.0, tt))
    ∙ ap (λ t. ok (identity, t)) (map-trim-split v vs h)

line_end_of_IsValue : (vs : List Text) → All IsValue vs → All (Lacks b'\n') vs
line_end_of_IsValue [] h = tt
line_end_of_IsValue (v ∷ vs) ((_, hv, _), h) = (hv, line_end_of_IsValue vs h)

-- A header line is one line.
pub render_header-Lacks :
    (vs : List Text) (identity : Text)
    → All IsValue vs
    → Lacks b'\n' identity
    → Lacks b'\n' (render_header vs identity)
unfolding render_header
render_header-Lacks vs identity h hi =
    All-append _ (b' ' ∷ (commas vs ++ b' ' ∷ [])) (b'#' ∷ b' ' ∷ identity)
      (
        omega arith,
        All-append _ (commas vs) (b' ' ∷ [])
            (commas-Lacks b'\n' vs (omega arith) (omega arith) (line_end_of_IsValue vs h))
            (omega arith),
      )
      (omega arith, (omega arith, hi))
