-- ===== src/Response/Lines/Errors.antt =====
-- Error lines: `parse_response` of src/protocol/response.rs where the server reports a failure.
use sqlx_monetdb.Prelude.{
  Bool, true, false, if◌then◌else◌, ◌≡◌, ◌≢◌, refl, ap, ◌∙◌, sym, List, [], ◌∷◌, ◌++◌, Option, none,
  some, Result, ok, err, ◌>>=◌, All, All-append, arith, map_err,
}
use mathlib.Core.List.{Memᴰ}
use sqlx_monetdb.Text.{Text, codes, Lacks, strip_prefix_sound}
use sqlx_monetdb.Text.Split.{split, join, split-join_ne}
use sqlx_monetdb.Error.{MonetDatabaseError, MonetError}
use sqlx_monetdb.Response.{ResponseError, protocol, database}
use sqlx_monetdb.Response.Lines.{
  Progress, Line, failure, skipped, opens_table, updates, header, tuple, schemas, transacts,
  unknown, classify, classify_by, run_line, parse_line, parse_lines, parse_response, finish,
}

append-ne-nil : (xs : List Text) (y : Text) (ys : List Text) → xs ++ (y ∷ ys) ≢ []
append-ne-nil [] y ys h = cc h
append-ne-nil (x ∷ xs) y ys h = cc h

abbrev pub start : Progress
start = record { table = none; result = none }

pub parse_lines-append :
    (p : Progress) (xs ys : List Text)
    → parse_lines p (xs ++ ys) ≡ (parse_lines p xs >>= λ p'. parse_lines p' ys)
unfolding parse_lines
parse_lines-append p [] ys = refl
parse_lines-append p (x ∷ xs) ys =
    elim (parse_line p x)
      as (λ r.
        (r >>= λ q. parse_lines q (xs ++ ys))
        ≡ ((r >>= λ q. parse_lines q xs) >>= λ p'. parse_lines p' ys)) [
          | ok q ↦ parse_lines-append q xs ys
          | err e ↦ refl
        ]

-- A failure line stops the parse with its message.
parse_line-failure :
    (p : Progress) (m : Text) → parse_line p (b'!' ∷ m) ≡ err (database (record { message = m }))
unfolding parse_line
parse_line-failure p m = failed m
  where
    failed :
        (m : Text)
        → run_line p (b'!' ∷ m) (classify (b'!' ∷ m)) ≡ err (database (record { message = m }))
    failed [] = refl
    failed (c ∷ m) = refl

parse_lines-failure :
    (p : Progress) (m : Text) (after : List Text)
    → parse_lines p ((b'!' ∷ m) ∷ after) ≡ err (database (record { message = m }))
unfolding parse_lines
parse_lines-failure p m after = ap (λ r. r >>= λ q. parse_lines q after) (parse_line-failure p m)

-- A response of known lines is their fold.
pub parse_response-join :
    (lines : List Text)
    → lines ≢ []
    → All (Lacks b'\n') lines
    → parse_response (join lines b'\n') ≡ (parse_lines start lines >>= λ p. ok (finish p))
unfolding parse_response
parse_response-join lines ne h =
    ap (λ ls. parse_lines start ls >>= λ p. ok (finish p)) (split-join_ne lines b'\n' ne h)

-- A `!` line behind lines that parse gives a database error with exactly its text, whatever was
-- collected before it, an open table included, and whatever lines stand behind it.
pub parse_response-failure :
    (before after : List Text) (m : Text) {p : Progress}
    → All (Lacks b'\n') before
    → Lacks b'\n' m
    → All (Lacks b'\n') after
    → parse_lines start before ≡ ok p
    → parse_response (join (before ++ ((b'!' ∷ m) ∷ after)) b'\n')
      ≡ err (database (record { message = m }))
parse_response-failure before after m {p} hb hm ha h =
    parse_response-join (before ++ ((b'!' ∷ m) ∷ after)) (append-ne-nil before (b'!' ∷ m) after)
      (All-append _ before ((b'!' ∷ m) ∷ after) hb ((omega arith, hm), ha))
    ∙ ap (λ r. r >>= λ q. ok (finish q))
        (parse_lines-append start before ((b'!' ∷ m) ∷ after)
          ∙ ap (λ r. r >>= λ q. parse_lines q ((b'!' ∷ m) ∷ after)) h
          ∙ parse_lines-failure p m after)

not_database {ℓ} :
    {A : Type ℓ} (m : Result MonetError A) (e : MonetDatabaseError)
    → map_err protocol m ≢ err (database e)
not_database (ok a) e h = cc h
not_database (err x) e h = cc h

-- A bind with a continuation that succeeds fails only where its first part does.
bind_ok-ne {ℓ κ} :
    {A : Type ℓ} {B : Type κ} (m : Result MonetError A) (f : A → B) (e : MonetDatabaseError)
    → (map_err protocol m >>= λ a. ok (f a)) ≢ err (database e)
bind_ok-ne (ok a) f e h = cc h
bind_ok-ne (err x) f e h = cc h

run_line-database :
    (p : Progress) (line : Text) (k : Line) (e : MonetDatabaseError)
    → run_line p line k ≡ err (database e)
    → k ≡ failure e.message
unfolding run_line
run_line-database p line skipped e h = cc h
run_line-database p line (failure m) e h = cc h
run_line-database p line (opens_table rest) e h = absurd (bind_ok-ne _ _ e h)
run_line-database p line (updates rest) e h = absurd (bind_ok-ne _ _ e h)
run_line-database p line schemas e h = cc h
run_line-database p line transacts e h = absurd (bind_ok-ne _ _ e h)
run_line-database p line (header rest) e h = absurd (not_database _ e h)
run_line-database p line (tuple rest) e h = absurd (not_database _ e h)
run_line-database p line unknown e h = cc h

classify_by-failure :
    (a b c d e f g i j : Option Text) (m : Text)
    → classify_by a b c d e f g i j ≡ failure m
    → a ≡ some m
unfolding classify_by
classify_by-failure (some n) _ _ _ _ _ _ _ _ m h = cc h
classify_by-failure none (some _) _ _ _ _ _ _ _ m h = cc h
classify_by-failure none none (some _) _ _ _ _ _ _ m h = cc h
classify_by-failure none none none (some _) _ _ _ _ _ m h = cc h
classify_by-failure none none none none (some _) _ _ _ _ m h = cc h
classify_by-failure none none none none none (some _) _ _ _ m h = cc h
classify_by-failure none none none none none none (some _) _ _ m h = cc h
classify_by-failure none none none none none none none (some _) _ m h = cc h
classify_by-failure none none none none none none none none (some _) m h = cc h
classify_by-failure none none none none none none none none none m h = cc h

unless_skipped :
    (b : Bool) (k : Line) (m : Text) → (if b then skipped else k) ≡ failure m → k ≡ failure m
unless_skipped true k m h = cc h
unless_skipped false k m h = h

classify-failure : (line m : Text) → classify line ≡ failure m → line ≡ b'!' ∷ m
unfolding classify
classify-failure line m h =
    strip_prefix_sound line (codes "!") m
      (classify_by-failure _ _ _ _ _ _ _ _ _ m (unless_skipped _ _ m h))

parse_line_database :
    (p : Progress) (line : Text) (e : MonetDatabaseError)
    → parse_line p line ≡ err (database e)
    → line ≡ b'!' ∷ e.message
unfolding parse_line
parse_line_database p line e h =
    classify-failure line e.message (run_line-database p line (classify line) e h)

lines_database :
    (p : Progress) (lines : List Text) (e : MonetDatabaseError)
    → parse_lines p lines ≡ err (database e)
    → Memᴰ (b'!' ∷ e.message) lines
lines_database p [] e h = unfold parse_lines in cc h
lines_database p (line ∷ lines) e h =
    by_first (parse_line p line) refl (unfold parse_lines in h) (λ q. lines_database q lines e)
  where
    by_first :
        (r : Result ResponseError Progress)
        → parse_line p line ≡ r
        → (r >>= λ q. parse_lines q lines) ≡ err (database e)
        → ((q : Progress) → parse_lines q lines ≡ err (database e) → Memᴰ (b'!' ∷ e.message) lines)
        → Memᴰ (b'!' ∷ e.message) (line ∷ lines)
    by_first (ok q) eq h rest = Memᴰ.tail (rest q h)
    by_first (err x) eq h rest = Memᴰ.head (sym (parse_line_database p line e (eq ∙ cc h)))

-- A database error is never the driver's own: its text stands, behind a `!`, on a line of the
-- response.
pub parse_response_database :
    (text : Text) (e : MonetDatabaseError)
    → parse_response text ≡ err (database e)
    → Memᴰ (b'!' ∷ e.message) (split text b'\n')
unfolding parse_response
parse_response_database text e h =
    lines_database start (split text b'\n') e (from_bind (parse_lines start (split text b'\n')) h)
  where
    from_bind :
        (r : Result ResponseError Progress)
        → (r >>= λ p. ok (finish p)) ≡ err (database e)
        → r ≡ err (database e)
    from_bind (ok p) h = cc h
    from_bind (err x) h = cc h
