-- ===== src/Arguments/Minus.antt =====
-- A negative number behind a minus sign: `substitute_into` of src/arguments.rs with the literals of
-- src/types/int.rs.
use sqlx_monetdb.Prelude.{
  ℕ, suc, ◌≡◌, ◌≢◌, refl, ap, ◌∙◌, List, [], ◌∷◌, ◌++◌, some, ok, ==_ne, ◌>>=◌,
}
use sqlx_monetdb.Text.{Text, Lacks}
use sqlx_monetdb.Text.Number.{negsuc, print_signed, print_unsigned}
use sqlx_monetdb.Text.Number.Print.{Fits}
use sqlx_monetdb.Types.{integer_type}
use sqlx_monetdb.Types.RoundTrip.{integer_type-RoundTrips}
use sqlx_monetdb.Values.{null_type_info}
use sqlx_monetdb.Response.Lines.Summary.{print_unsigned-Lacks}
use sqlx_monetdb.Arguments.{MonetArguments, new_arguments, add_argument, substitute_into}
use sqlx_monetdb.Arguments.Substitution.{substitute_into-template}
use sqlx_monetdb.Arguments.Reader.{outside, dash, line_comment, mode_after, step, mode_after-append}

step_line_comment : (c : ℕ) → c ≢ b'\n' → (step line_comment c).0 ≡ line_comment
unfolding step
step_line_comment c h = rw (==_ne c b'\n' h, step) refl

-- A comment goes on to the end of its line.
comment-Lacks : (s : Text) → Lacks b'\n' s → mode_after line_comment s ≡ line_comment
unfolding mode_after
comment-Lacks [] h = refl
comment-Lacks (c ∷ s) (hc, h) =
    ap (λ m. mode_after m s) (step_line_comment c hc) ∙ comment-Lacks s h

-- Behind a minus sign, a negative number opens a comment that swallows the rest of its line.
behind_dash :
    (n : ℕ) (piece : Text)
    → Lacks b'\n' piece
    → mode_after dash (print_signed (negsuc n) ++ piece) ≡ line_comment
unfolding print_signed mode_after step
behind_dash n piece h =
    mode_after-append line_comment (print_unsigned (suc n)) piece
    ∙ ap (λ m. mode_after m piece)
        (comment-Lacks (print_unsigned (suc n)) (print_unsigned-Lacks (suc n)))
    ∙ comment-Lacks piece h

-- A negative integer that is bound to a placeholder directly behind a minus sign turns the rest of
-- the query's line into a comment of standard SQL: the query is substituted without an error, and a
-- reader ends it inside a line comment, if the integer fits its width, the query has no other
-- question mark, and its text behind the placeholder is one line.
pub substitute_into-comment :
    (width : ℕ) (name : Text) (aliases : List Text) (first piece : Text) (n : ℕ)
    → Fits width (negsuc n)
    → Lacks b'?' first
    → Lacks b'?' piece
    → Lacks b'\n' piece
    → mode_after outside first ≡ dash
    → (arguments : MonetArguments) × (sql : Text) × (add_argument new_arguments
          (ok (some ((integer_type width name aliases).encode_by_ref (negsuc n) [])))
        ≡ ok arguments)
      × (substitute_into arguments (first ++ (b'?' ∷ piece)) ≡ ok sql)
      × (mode_after outside sql ≡ line_comment)
unfolding add_argument
substitute_into-comment width name aliases first piece n hn hf hp hl hd =
    let number = print_signed (negsuc n) in
    (
      record { literals = number ∷ [] },
      first ++ (number ++ piece),
      ap (λ r. r >>= λ l. ok (record { literals = l ∷ [] }))
          (integer_type-RoundTrips width name aliases null_type_info (negsuc n) hn).0,
      substitute_into-template first ((number, piece) ∷ []) (hf, (hp, tt)),
      mode_after-append outside first (number ++ piece)
          ∙ ap (λ m. mode_after m (number ++ piece)) hd
          ∙ behind_dash n piece hl,
    )
