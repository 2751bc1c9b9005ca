-- ===== src/Response/Lines/Refused/Complete.antt =====
-- A reason to refuse a line is an error of `parse_response`, src/protocol/response.rs, and the
-- errors are exactly these.
use sqlx_monetdb.Prelude.{
  ◌≡◌, ◌≢◌, ◌↔◌, ◌∙◌, inl, inr, refl, ap, [], ◌∷◌, ◌++◌, err, Bool-cases, false,
}
use sqlx_monetdb.Text.{Text, codes, text_eq, text_eq_iff, strip_prefix}
use sqlx_monetdb.Response.{ResponseError}
use sqlx_monetdb.Response.Lines.{
  Progress, Line, failure, opens_table, updates, transacts, header, tuple, unknown, classify_by,
  classify, run_line, parse_line, parse_lines, parse_response,
}
use sqlx_monetdb.Response.Lines.Errors.{start, parse_lines-append}
use sqlx_monetdb.Response.Lines.Steps.{Opening}
use sqlx_monetdb.Response.Lines.Refused.{
  Unrecognized, Refusal, Refused, reported, bad_summary, bad_count, bad_flag, bad_header,
  early_header, bad_values, bad_tuple, early_tuple, strange,
}
use sqlx_monetdb.Response.Lines.Refused.Sound.{parse_response-Refused}

classify-failure : (m : Text) → classify (b'!' ∷ m) ≡ failure m
unfolding classify text_eq strip_prefix classify_by
classify-failure [] = refl
classify-failure (c ∷ m) = refl

classify-Opening : (line rest : Text) → Opening line rest → classify line ≡ opens_table rest
unfolding classify text_eq strip_prefix classify_by
classify-Opening line rest (inl h) = rw h refl
classify-Opening line rest (inr h) = rw h refl

classify-updates : (rest : Text) → classify (codes "&2" ++ rest) ≡ updates rest
unfolding classify text_eq strip_prefix classify_by
classify-updates rest = refl

classify-transacts : (rest : Text) → classify (codes "&4" ++ rest) ≡ transacts
unfolding classify text_eq strip_prefix classify_by
classify-transacts rest = refl

classify-header : (rest : Text) → classify (b'%' ∷ rest) ≡ header rest
unfolding classify text_eq strip_prefix classify_by
classify-header [] = refl
classify-header (c ∷ rest) = refl

classify-tuple : (rest : Text) → classify (b'[' ∷ rest) ≡ tuple rest
unfolding classify text_eq strip_prefix classify_by
classify-tuple [] = refl
classify-tuple (c ∷ rest) = refl

not_equal : (x y : Text) → x ≢ y → text_eq x y ≡ false
not_equal x y ne = elim (Bool-cases (text_eq x y)) [
  | inl e ↦ absurd (ne ((text_eq_iff x y).0 e))
  | inr e ↦ e
]

classify-unknown : (line : Text) → Unrecognized line → classify line ≡ unknown
unfolding classify classify_by
classify-unknown line (filled, not_ok, ha, hb, hc, hd, he, hf, hg, hi, hj) =
    rw
      (
        not_equal line [] filled,
        not_equal line (codes "=OK") not_ok,
        ha,
        hb,
        hc,
        hd,
        he,
        hf,
        hg,
        hi,
        hj,
      )
      refl

refused_by :
    (p : Progress) (line line' : Text) (k : Line) {e : ResponseError}
    → line ≡ line'
    → classify line' ≡ k
    → run_line p line k ≡ err e
    → parse_line p line ≡ err e
unfolding parse_line
refused_by p line line' k hl hk h = ap (run_line p line) (ap classify hl ∙ hk) ∙ h

parse_line-refused :
    (p : Progress) (line : Text) (e : ResponseError) → Refusal p line e → parse_line p line ≡ err e
unfolding run_line
parse_line-refused p line e (reported m hl) =
    refused_by p line (b'!' ∷ m) (failure m) hl (classify-failure m) refl
parse_line-refused p line e (bad_summary rest x hl bad) =
    refused_by p line line (opens_table rest) refl (classify-Opening line rest hl) (rw bad refl)
parse_line-refused p line e (bad_count rest x hl bad) =
    refused_by p line (codes "&2" ++ rest) (updates rest) hl (classify-updates rest) (rw bad refl)
parse_line-refused p line e (bad_flag rest x hl bad) =
    refused_by p line (codes "&4" ++ rest) transacts hl (classify-transacts rest) (rw bad refl)
parse_line-refused p line e (bad_header rest x hl bad) =
    refused_by p line (b'%' ∷ rest) (header rest) hl (classify-header rest) (rw bad refl)
parse_line-refused p line e (early_header rest values hl parsed closed) =
    refused_by p line (b'%' ∷ rest) (header rest) hl (classify-header rest)
      (rw (parsed, closed) refl)
parse_line-refused p line e (bad_values rest values t x hl parsed opened bad) =
    refused_by p line (b'%' ∷ rest) (header rest) hl (classify-header rest)
      (rw (parsed, opened, bad) refl)
parse_line-refused p line e (bad_tuple rest x hl bad) =
    refused_by p line (b'[' ∷ rest) (tuple rest) hl (classify-tuple rest) (rw bad refl)
parse_line-refused p line e (early_tuple rest fields hl parsed closed) =
    refused_by p line (b'[' ∷ rest) (tuple rest) hl (classify-tuple rest) (rw (parsed, closed) refl)
parse_line-refused p line e (strange hl) =
    refused_by p line line unknown refl (classify-unknown line hl) refl

-- A response fails with an error exactly if one of its lines, behind lines that parse, is refused
-- with that error: a `!` line for the database error with its text, and for an error of the driver
-- a summary, count, flag, header or tuple line whose text does not parse, a header line whose values
-- cannot be applied to the open table, a header or tuple line where no table is open, or a line with
-- none of the known prefixes. The lines behind it do not matter.
pub parse_response-Refused_iff :
    (text : Text) (e : ResponseError) → (parse_response text ≡ err e) ↔ Refused text e
unfolding parse_response parse_lines
parse_response-Refused_iff text e = (parse_response-Refused text e, back)
  where
    back : Refused text e → parse_response text ≡ err e
    back (before, line, after, p, split_at, parsed, why) =
        rw
          (
            split_at,
            parse_lines-append start before (line ∷ after),
            parsed,
            parse_line-refused p line e why,
          )
          refl
