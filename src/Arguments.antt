-- ===== src/Arguments.antt =====
-- Bound arguments, src/arguments.rs: the literals of a query and their substitution. The standard
-- library's `split` is a walk over the characters, `matches('?').count()` a count.
pub mod Substitution
pub mod Reader
pub mod Injection
pub mod Minus
pub mod Tests
pub mod UnitTests
use sqlx_monetdb.Prelude.{
  ℕ, suc, Bool, true, false, List, [], ◌∷◌, ◌++◌, Option, none, some, Result, ok, err, ◌>>=◌, ok_or,
  ◌==◌, if◌then◌else◌, length,
}
use sqlx_monetdb.Text.{Text, codes}
use sqlx_monetdb.Text.Split.{split}
use sqlx_monetdb.Text.Utf8.{from_utf8}
use sqlx_monetdb.Error.{Message, SqlxError, encode_error, placeholder_mismatch, not_utf8}

pub record MonetArguments : Type 0 where
  pub literals : List Text

abbrev pub new_arguments : MonetArguments
new_arguments = record { literals = [] }

-- `sql.matches('?').count()`
unfoldable pub placeholder_count : Text → ℕ
placeholder_count [] = 0
placeholder_count (c ∷ sql) =
    let rest = placeholder_count sql in if c == b'?' then suc rest else rest

-- The loop over the parts, a literal behind each part while there is one.
unfoldable pub push_parts : List Text → List Text → Text → Text
push_parts [] literals out = out
push_parts (part ∷ parts) [] out = push_parts parts [] (out ++ part)
push_parts (part ∷ parts) (literal ∷ literals) out =
    push_parts parts literals ((out ++ part) ++ literal)

unfoldable pub substitute_into : MonetArguments → Text → Result SqlxError Text
unfolding push_parts split placeholder_count
substitute_into arguments sql =
    if placeholder_count sql == length arguments.literals
    then ok (push_parts (split sql b'?') arguments.literals [])
    else err
        (encode_error (placeholder_mismatch (placeholder_count sql) (length arguments.literals)))

-- `IsNull` and the buffer that an `Encode` leaves behind: no value for NULL.
unfoldable pub literal_of : Option (List ℕ) → Result Message Text
literal_of none = ok (codes "NULL")
literal_of (some buf) = ok_or (from_utf8 buf) (not_utf8 buf)

-- `Arguments::add`: what the value's `encode` answers decides; an error leaves the list alone.
unfoldable pub add_argument :
    MonetArguments → Result Message (Option (List ℕ)) → Result Message MonetArguments
unfolding literal_of
add_argument arguments encoded = do
  buf ← encoded
  literal ← literal_of buf
  ok (record { literals = arguments.literals ++ literal ∷ [] })

-- `Arguments::len`
unfoldable pub argument_count : MonetArguments → ℕ
argument_count arguments = length arguments.literals
