-- ===== src/Response/Lines/Refused/Sound.antt =====
-- Every line that the loop of `parse_response`, src/protocol/response.rs, refuses has a reason.
use sqlx_monetdb.Prelude.{
  bind-err, map_err-err, ok_or-ok, ok_or-err, ◌>>=◌, ◌≡◌, ◌≢◌, ◌∙◌, inl, inr, refl, ap, subst, List,
  [], ◌∷◌, ◌++◌, Option, none, some, Result, ok, err, ok_or, map_err, Bool-cases, false,
}
use sqlx_monetdb.Text.{Text, codes, text_eq, text_eq_iff, strip_prefix, strip_prefix_sound}
use sqlx_monetdb.Text.Split.{split}
use sqlx_monetdb.Error.{
  MonetError, MonetDatabaseError, header_before_table, tuple_before_table, unrecognized_line,
}
use sqlx_monetdb.Error as E
use sqlx_monetdb.Response.{ResponseError, protocol}
use sqlx_monetdb.Response.Fields.{parse_tuple_fields}
use sqlx_monetdb.Response.Headers.{apply_header_values, parse_header_values}
use sqlx_monetdb.Response.Lines.{
  Progress, Line, skipped, failure, opens_table, updates, schemas, transacts, header, tuple,
  unknown, classify_by, classify, run_line, parse_line, parse_lines, parse_response,
  parse_table_header, parse_update_line, parse_transaction_line,
}
use sqlx_monetdb.Response.Lines.Errors.{start}
use sqlx_monetdb.Response.Lines.Steps.{Opening}
use sqlx_monetdb.Response.Lines.Refused.{
  Unrecognized, Refusal, Refused, reported, bad_summary, bad_count, bad_flag, bad_header,
  early_header, bad_values, bad_tuple, early_tuple, strange,
}

-- What a line says by its kind.
abbrev Says : Text → Line → Type 0
Says line skipped = Unit
Says line (failure m) = line ≡ b'!' ∷ m
Says line (opens_table rest) = Opening line rest
Says line (updates rest) = line ≡ codes "&2" ++ rest
Says line schemas = Unit
Says line transacts = (rest : Text) × (line ≡ codes "&4" ++ rest)
Says line (header rest) = line ≡ b'%' ∷ rest
Says line (tuple rest) = line ≡ b'[' ∷ rest
Says line unknown = Unrecognized line

module _ (line : Text) (filled : line ≢ []) (not_ok : line ≢ codes "=OK") where
  begins : (p rest : Text) → strip_prefix line p ≡ some rest → line ≡ p ++ rest
  begins p rest e = strip_prefix_sound line p rest e

  classify_by-Says :
      (a b c d e f g i j : Option Text)
      → strip_prefix line (codes "!") ≡ a
      → strip_prefix line (codes "#") ≡ b
      → strip_prefix line (codes "&1") ≡ c
      → strip_prefix line (codes "&5") ≡ d
      → strip_prefix line (codes "&2") ≡ e
      → strip_prefix line (codes "&3") ≡ f
      → strip_prefix line (codes "&4") ≡ g
      → strip_prefix line (codes "%") ≡ i
      → strip_prefix line (codes "[") ≡ j
      → Says line (classify_by a b c d e f g i j)
  unfolding classify_by
  classify_by-Says (some m) b c d e f g i j ha hb hc hd he hf hg hi hj = begins (codes "!") m ha
  classify_by-Says none (some m) c d e f g i j ha hb hc hd he hf hg hi hj = tt
  classify_by-Says none none (some m) d e f g i j ha hb hc hd he hf hg hi hj =
      inl (begins (codes "&1") m hc)
  classify_by-Says none none none (some m) e f g i j ha hb hc hd he hf hg hi hj =
      inr (begins (codes "&5") m hd)
  classify_by-Says none none none none (some m) f g i j ha hb hc hd he hf hg hi hj =
      begins (codes "&2") m he
  classify_by-Says none none none none none (some m) g i j ha hb hc hd he hf hg hi hj = tt
  classify_by-Says none none none none none none (some m) i j ha hb hc hd he hf hg hi hj =
      (m, begins (codes "&4") m hg)
  classify_by-Says none none none none none none none (some m) j ha hb hc hd he hf hg hi hj =
      begins (codes "%") m hi
  classify_by-Says none none none none none none none none (some m) ha hb hc hd he hf hg hi hj =
      begins (codes "[") m hj
  classify_by-Says none none none none none none none none none ha hb hc hd he hf hg hi hj =
      (filled, not_ok, ha, hb, hc, hd, he, hf, hg, hi, hj)

not-text : (x y : Text) → text_eq x y ≡ false → x ≢ y
not-text x y h e = cc (h, (text_eq_iff x y).1 e)

classify-Says : (line : Text) → Says line (classify line)
unfolding classify
classify-Says line = elim (Bool-cases (text_eq line [])) [
  | inl e ↦ rw e tt
  | inr e ↦ elim (Bool-cases (text_eq line (codes "=OK"))) [
    | inl e' ↦ rw (e, e') tt
    | inr e' ↦
        rw (e, e')
          (classify_by-Says line (not-text line [] e) (not-text line (codes "=OK") e') _ _ _ _ _ _ _
            _ _ refl refl refl refl refl refl refl refl refl)
  ]
]

module _ (p : Progress) (line : Text) where
  -- A step that cannot fail behind a converted result fails with that result's error.
  converted_err :
      {A : Type 0} (m : Result MonetError A) (f : A → Progress) {e : ResponseError}
      → (map_err protocol m >>= λ a. ok (f a)) ≡ err e
      → (x : MonetError) × (m ≡ err x) × (protocol x ≡ e)
  converted_err (ok a) f h = cc h
  converted_err (err x) f h = (x, refl, cc h)

  header-Refusal :
      (rest : Text) (e : MonetError)
      → line ≡ b'%' ∷ rest
      → (parse_header_values rest >>= λ v.
          (ok_or p.table (E.protocol (header_before_table line)) >>= λ t.
          (apply_header_values t v.0 v.1 >>= λ t'. ok (record p { table = some t' }))))
        ≡ err e
      → Refusal p line (protocol e)
  header-Refusal rest e hl h = elim (bind-err (parse_header_values rest) _ h) [
    | inl bad ↦ bad_header rest e hl bad
    | inr (values, parsed, h1) ↦ elim (bind-err (ok_or p.table _) _ h1) [
      | inl closed ↦
          let (none_open, same) = ok_or-err p.table _ closed in
          subst (λ x. Refusal p line (protocol x)) same
            (early_header rest values hl parsed none_open)
      | inr (t, opened, h2) ↦ elim (bind-err (apply_header_values t values.0 values.1) _ h2) [
        | inl bad ↦ bad_values rest values t e hl parsed (ok_or-ok p.table _ opened) bad
        | inr (t', _, h3) ↦ cc h3
      ]
    ]
  ]

  tuple-Refusal :
      (rest : Text) (e : MonetError)
      → line ≡ b'[' ∷ rest
      → (parse_tuple_fields rest >>= λ fields.
          (ok_or p.table (E.protocol (tuple_before_table line)) >>= λ t.
          ok (record p { table = some (record t { rows = t.rows ++ fields ∷ [] }) })))
        ≡ err e
      → Refusal p line (protocol e)
  tuple-Refusal rest e hl h = elim (bind-err (parse_tuple_fields rest) _ h) [
    | inl bad ↦ bad_tuple rest e hl bad
    | inr (fields, parsed, h1) ↦ elim (bind-err (ok_or p.table _) _ h1) [
      | inl closed ↦
          let (none_open, same) = ok_or-err p.table _ closed in
          subst (λ x. Refusal p line (protocol x)) same
            (early_tuple rest fields hl parsed none_open)
      | inr (t, _, h2) ↦ cc h2
    ]
  ]

  run_line-Refusal :
      (k : Line) (e : ResponseError) → Says line k → run_line p line k ≡ err e → Refusal p line e
  unfolding run_line
  run_line-Refusal skipped e hl h = cc h
  run_line-Refusal (failure m) e hl h = subst (Refusal p line) (cc h) (reported m hl)
  run_line-Refusal (opens_table rest) e hl h =
      let (x, bad, same) = converted_err (parse_table_header rest) _ h in
      subst (Refusal p line) same (bad_summary rest x hl bad)
  run_line-Refusal (updates rest) e hl h =
      let (x, bad, same) = converted_err (parse_update_line rest) _ h in
      subst (Refusal p line) same (bad_count rest x hl bad)
  run_line-Refusal schemas e hl h = cc h
  run_line-Refusal transacts e (rest, hl) h =
      let (x, bad, same) = converted_err (parse_transaction_line line) _ h in
      subst (Refusal p line) same (bad_flag rest x hl bad)
  run_line-Refusal (header rest) e hl h =
      let (x, bad, same) = map_err-err protocol _ h in
      subst (Refusal p line) same (header-Refusal rest x hl bad)
  run_line-Refusal (tuple rest) e hl h =
      let (x, bad, same) = map_err-err protocol _ h in
      subst (Refusal p line) same (tuple-Refusal rest x hl bad)
  run_line-Refusal unknown e hl h = subst (Refusal p line) (cc h) (strange hl)

pub parse_line-Refusal :
    (p : Progress) (line : Text) (e : ResponseError) → parse_line p line ≡ err e → Refusal p line e
unfolding parse_line
parse_line-Refusal p line e h = run_line-Refusal p line (classify line) e (classify-Says line) h

lines-Refused :
    (p : Progress) (lines : List Text) (e : ResponseError)
    → parse_lines p lines ≡ err e
    → (before : List Text) × (line : Text) × (after : List Text) × (q : Progress) × (lines
        ≡ before ++ (line ∷ after))
      × (parse_lines p before ≡ ok q)
      × Refusal q line e
unfolding parse_lines
lines-Refused p [] e h = cc h
lines-Refused p (line ∷ lines) e h = elim (bind-err (parse_line p line) _ h) [
  | inl bad ↦ ([], line, lines, p, refl, refl, parse_line-Refusal p line e bad)
  | inr (q, good, h1) ↦
      let (before, line', after, r, split_at, parsed, why) = lines-Refused q lines e h1 in
      (
        line ∷ before,
        line',
        after,
        r,
        ap (λ ls. line ∷ ls) split_at,
        ap (λ x. x >>= λ p'. parse_lines p' before) good ∙ parsed,
        why,
      )
]

pub parse_response-Refused :
    (text : Text) (e : ResponseError) → parse_response text ≡ err e → Refused text e
unfolding parse_response
parse_response-Refused text e h = elim (bind-err (parse_lines start (split text b'\n')) _ h) [
  | inl bad ↦ lines-Refused start (split text b'\n') e bad
  | inr (q, _, h1) ↦ cc h1
]
