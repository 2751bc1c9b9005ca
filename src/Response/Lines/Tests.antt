-- ===== src/Response/Lines/Tests.antt =====
-- The theorems on responses at concrete texts.
use mathlib.Core.List.{Memᴰ}
use sqlx_monetdb.Prelude.{
  false, ◌≡◌, ◌↔◌, refl, [], ◌∷◌, ◌++◌, List, some, none, ok, err, All, arith, map, inr,
}
use sqlx_monetdb.Text.{Text, codes}
use sqlx_monetdb.Text.Split.{split, join}
use sqlx_monetdb.Text.Trim.{is_whitespace, IsWord}
use sqlx_monetdb.Text.Number.{pos}
use sqlx_monetdb.Error.{MonetDatabaseError, tuple_before_table}
use sqlx_monetdb.Error as E
use sqlx_monetdb.Response.{table, database, schema, protocol, ResponseError}
use sqlx_monetdb.Response.Fields.{unescape_field, parse_tuple_fields}
use sqlx_monetdb.Response.Fields.Escape.{
  Field, null, quoted, bare, render, value, IsField, unescape_field-render, double,
}
use sqlx_monetdb.Response.Fields.Tuples.{render_tuple, parse_tuple_fields-render_tuple}
use sqlx_monetdb.Response.Headers.{parse_header_values}
use sqlx_monetdb.Response.Headers.Update.{IsValue, render_header, parse_header_values-render_header}
use sqlx_monetdb.Response.Lines.{parse_line, parse_table_header, parse_response, parse_lines}
use sqlx_monetdb.Response.Lines.Errors.{start, parse_response-failure, parse_response_database}
use sqlx_monetdb.Response.{TableResult}
use sqlx_monetdb.Response.Lines.{Progress}
use sqlx_monetdb.Response.Lines.Steps.{Step, parse_line-Step}
use sqlx_monetdb.Response.Lines.Sound.{Stands, parse_response-Stands}
use sqlx_monetdb.Response.Lines.Answers.{
  Answer, updated, changed, moded, IsAnswer, render_answer, response_to, last_of,
  parse_response-answers,
}
use sqlx_monetdb.Response.Lines.Refused.{Refused}
use sqlx_monetdb.Response.Lines.Refused.Complete.{parse_response-Refused_iff}
use sqlx_monetdb.Response.Lines.Summary.{render_summary, parse_table_header-render}
use sqlx_monetdb.Response.Lines.Replies.{Reply, IsReply, render_lines, table_of_reply}
use sqlx_monetdb.Response.Lines.Select.{parse_response-render_lines}

abbrev it_s : Field
it_s = quoted double (codes "it's, \"so\"")

abbrev forty_two : Field
forty_two = bare b'4' (codes "2")

forty_two-IsField : IsField forty_two
unfolding is_whitespace
forty_two-IsField =
    ((omega arith), (omega arith), (λ e. cc e), (omega arith), (omega arith), (refl, refl))

it_s-IsField : IsField it_s
it_s-IsField = inr refl

escaped_quotes : unescape_field (render it_s) ≡ ok (value it_s)
escaped_quotes = unescape_field-render it_s it_s-IsField

abbrev row : List Field
row = forty_two ∷ it_s ∷ null ∷ []

row-fields : All IsField row
row-fields = (forty_two-IsField, (it_s-IsField, (tt, tt)))

row_read : parse_tuple_fields (render_tuple row) ≡ ok (map value row)
row_read = parse_tuple_fields-render_tuple row row-fields

id-IsValue : IsValue (codes "id")
unfolding is_whitespace
id-IsValue = ((omega arith), (omega arith), ((λ e. cc e), (omega arith), (refl, refl)))

label-IsValue : IsValue (codes "label")
unfolding is_whitespace
label-IsValue = ((omega arith), (omega arith), ((λ e. cc e), (omega arith), (refl, refl)))

two_names :
    parse_header_values (render_header (codes "id" ∷ codes "label" ∷ []) (codes "name"))
    ≡ ok (codes "name", codes "id" ∷ codes "label" ∷ [])
two_names =
    parse_header_values-render_header (codes "id") (codes "label" ∷ []) (codes "name")
      (id-IsValue, (label-IsValue, tt)) (omega arith) (unfold is_whitespace in (refl, refl))

abbrev denied : Text
denied = codes "42000!no such table"

schema_read :
    parse_lines start (codes "&3" ∷ []) ≡ ok (record { table = none; result = some schema })
unfolding parse_lines parse_line
schema_read = refl

denied_batch :
    parse_response (join ((codes "&3" ∷ []) ++ ((b'!' ∷ denied) ∷ codes "=OK" ∷ [])) b'\n')
    ≡ err (database (record { message = denied }))
denied_batch =
    parse_response-failure (codes "&3" ∷ []) (codes "=OK" ∷ []) denied
      {p = record { table = none; result = some schema }} (omega arith) (omega arith) (omega arith)
      schema_read

abbrev denial : MonetDatabaseError
denial = record { message = denied }

denied_read : parse_response (b'!' ∷ denied) ≡ err (database denial)
unfolding parse_response parse_line
denied_read = refl

denial_line : Memᴰ (b'!' ∷ denied) (split (b'!' ∷ denied) b'\n')
denial_line = parse_response_database (b'!' ∷ denied) denial denied_read

abbrev more_words : List Text
more_words = codes "137" ∷ codes "205" ∷ []

more_words-IsWord : All IsWord more_words
unfolding is_whitespace
more_words-IsWord =
    (((λ e. cc e), (refl, (refl, (refl, tt)))), (((λ e. cc e), (refl, (refl, (refl, tt)))), tt))

small_summary :
    parse_table_header (render_summary (pos 7) 1 2 1 more_words)
    ≡ ok (record {
      query_id = pos 7;
      row_count = 1;
      declared_columns = 2;
      embedded_tuples = 1;
      columns = [];
      rows = [];
    })
small_summary =
    parse_table_header-render (pos 7) 1 2 1 more_words (omega arith) (omega arith) (omega arith)
      (omega arith) more_words-IsWord

abbrev pub reply : Reply
reply = record {
  query_id = pos 7;
  row_count = 1;
  column_count = 2;
  tuple_count = 1;
  extra = more_words;
  first_column = record { label = codes "id"; sql_type = codes "label"; size = 10 };
  more_columns = record { label = codes "label"; sql_type = codes "label"; size = 20 } ∷ [];
  table_of = λ c. codes "id";
  measures = some (λ c. (c.size, some 0));
  rows = (forty_two ∷ it_s ∷ []) ∷ (null ∷ null ∷ []) ∷ [];
}

pub reply-IsReply : IsReply reply
reply-IsReply = record {
  id_fits = omega arith;
  rows_fit = omega arith;
  columns_fit = omega arith;
  tuples_fit = omega arith;
  words = more_words-IsWord;
  tables = (id-IsValue, (id-IsValue, tt));
  labels = (id-IsValue, (label-IsValue, tt));
  sql_types = (label-IsValue, (label-IsValue, tt));
  sizes = (omega arith, (omega arith, tt));
  measures_fit = ((omega arith, omega arith), ((omega arith, omega arith), tt));
  fields = ((forty_two-IsField, (it_s-IsField, tt)), ((tt, (tt, tt)), tt));
}

parse_response-render_lines_example :
    parse_response (join (render_lines reply) b'\n') ≡ ok (table (table_of_reply reply))
parse_response-render_lines_example = parse_response-render_lines reply reply-IsReply

parse_response-Stands_example :
    Stands (split (join (render_lines reply) b'\n') b'\n') (table_of_reply reply)
parse_response-Stands_example =
    parse_response-Stands (join (render_lines reply) b'\n') (table_of_reply reply)
      (parse_response-render_lines reply reply-IsReply)

abbrev opened : TableResult
opened = record {
  query_id = pos 7;
  row_count = 1;
  declared_columns = 1;
  embedded_tuples = 1;
  columns = [];
  rows = [];
}

abbrev before_tuple : Progress
before_tuple = record { table = some opened; result = none }

abbrev behind_tuple : Progress
behind_tuple = record {
  table = some (record opened { rows = (some (codes "42") ∷ []) ∷ [] });
  result = none;
}

tuple_read : parse_line before_tuple (codes "[ 42\t]") ≡ ok behind_tuple
unfolding parse_line parse_tuple_fields unescape_field is_whitespace split
tuple_read = refl

parse_line-Step_example : Step before_tuple (codes "[ 42\t]") behind_tuple
parse_line-Step_example = parse_line-Step before_tuple behind_tuple (codes "[ 42\t]") tuple_read

-- A transaction, a schema change and an insertion whose id is 12.
abbrev later_answers : List Answer
later_answers = changed (codes " 4 5") ∷ updated 3 (some (pos 12)) (codes "137" ∷ []) ∷ []

answers-IsAnswer : All IsAnswer (moded false [] ∷ later_answers)
unfolding is_whitespace
answers-IsAnswer = (
  tt,
  (
    omega arith,
    (
      (omega arith, (omega arith, (λ e. cc e)), (((λ e. cc e), (refl, (refl, (refl, tt)))), tt)),
      tt,
    ),
  ),
)

parse_response-answers_example :
    parse_response (join (map render_answer (moded false [] ∷ later_answers)) b'\n')
    ≡ ok (response_to (last_of (moded false []) later_answers))
parse_response-answers_example =
    parse_response-answers (moded false []) later_answers answers-IsAnswer

-- A tuple line behind a schema change, and a line that is never reached.
abbrev early : Text
early = join (codes "&3 1 2" ∷ codes "[ 42\t]" ∷ codes "!unread" ∷ []) b'\n'

abbrev early_error : ResponseError
early_error = protocol (E.protocol (tuple_before_table (codes "[ 42\t]")))

parse_response-Refused_iff_example :
    (parse_response early ≡ err early_error) ↔ Refused early early_error
parse_response-Refused_iff_example = parse_response-Refused_iff early early_error

early_refused : parse_response early ≡ err early_error
unfolding parse_response join split is_whitespace unescape_field parse_line parse_tuple_fields
early_refused = refl
