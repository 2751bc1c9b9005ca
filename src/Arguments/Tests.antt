-- ===== src/Arguments/Tests.antt =====
-- Substitution at concrete queries.
use sqlx_monetdb.Prelude.{some, true, ◌≡◌, ◌↔◌, refl, [], ◌∷◌, List, arith, ok}
use sqlx_monetdb.Text.{Text, codes}
use sqlx_monetdb.Arguments.{MonetArguments, placeholder_count, substitute_into, argument_count}
use sqlx_monetdb.Arguments.Substitution.{
  template, filled, literals_of, substitute_into-template, substitute_into-ok_iff,
}
use sqlx_monetdb.Arguments.{new_arguments, add_argument}
use sqlx_monetdb.Arguments.Minus.{substitute_into-comment}
use sqlx_monetdb.Types.{i32_type}
use sqlx_monetdb.Text.Number.{negsuc}
use sqlx_monetdb.Arguments.Reader.{outside, dash, line_comment, tokens, mode_after, step}
use sqlx_monetdb.Arguments.Injection.{
  Value, text_value, integer_value, boolean_value, null_value, AllValues, all_written, bind_all,
  meant, Clean, substitute_into-tokens,
}

abbrev bound : List (Text × Text)
bound = (codes "42", codes " AND b = ") ∷ (codes "'what?'", []) ∷ []

substitute_into-template_example :
    substitute_into
      (record { literals = literals_of bound })
      (template (codes "SELECT a FROM t WHERE a = ") bound)
    ≡ ok (filled (codes "SELECT a FROM t WHERE a = ") bound)
substitute_into-template_example =
    substitute_into-template (codes "SELECT a FROM t WHERE a = ") bound (omega arith)

abbrev one_argument : MonetArguments
one_argument = record { literals = codes "42" ∷ [] }

one_mark :
    ((out : Text) × (substitute_into one_argument (codes "SELECT ?") ≡ ok out))
    ↔ (placeholder_count (codes "SELECT ?") ≡ argument_count one_argument)
one_mark = substitute_into-ok_iff one_argument (codes "SELECT ?")

abbrev pub query_head : Text
query_head = codes "SELECT a /* ' */ FROM t WHERE a = "

-- A text that tries to leave its literal, a negative number, a Boolean, NULL, and a text that holds a
-- placeholder.
abbrev pub hostile : List (Value × Text)
hostile =
    (text_value (codes "x' OR 1=1 --"), codes " AND b = ")
    ∷ (integer_value 32 (negsuc 4), codes " AND c = ")
    ∷ (boolean_value true, codes " AND d = ")
    ∷ (null_value, codes " AND e = ")
    ∷ (text_value (codes "it's?"), [])
    ∷ []

pub hostile-AllValues : AllValues hostile
hostile-AllValues = (omega arith, (omega arith, (tt, (tt, (omega arith, tt)))))

pub hostile-Clean : Clean query_head hostile
unfolding mode_after step
hostile-Clean = (
  refl,
  (λ e. cc e),
  (refl, (λ e. cc e), (refl, (λ e. cc e), (refl, (λ e. cc e), (refl, tt, tt)))),
)

substitute_into-tokens_example :
    (arguments : MonetArguments) × (sql : Text) × (bind_all new_arguments hostile ≡ ok arguments)
    × (substitute_into arguments (template query_head (all_written hostile)) ≡ ok sql)
    × (tokens sql ≡ meant query_head hostile)
substitute_into-tokens_example =
    substitute_into-tokens query_head hostile hostile-AllValues (omega arith) hostile-Clean

-- `SELECT 10 -? AS d` with -5.
minus_at_end : mode_after outside (codes "SELECT 10 -") ≡ dash
unfolding mode_after step
minus_at_end = refl

substitute_into-comment_example :
    (arguments : MonetArguments) × (sql : Text) × (add_argument new_arguments
        (ok (some (i32_type.encode_by_ref (negsuc 4) [])))
      ≡ ok arguments)
    × (substitute_into arguments (codes "SELECT 10 -? AS d") ≡ ok sql)
    × (mode_after outside sql ≡ line_comment)
substitute_into-comment_example =
    substitute_into-comment 32 (codes "int")
      (codes "int" ∷ codes "integer" ∷ codes "mediumint" ∷ codes "serial" ∷ [])
      (codes "SELECT 10 -") (codes " AS d") 4 (omega arith) (omega arith) (omega arith)
      (omega arith) minus_at_end
