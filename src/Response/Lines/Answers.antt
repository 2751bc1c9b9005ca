-- ===== src/Response/Lines/Answers.antt =====
-- Responses without a table as a server writes them, read by `parse_response` of
-- src/protocol/response.rs.
use sqlx_monetdb.Prelude.{
  ℕ, ◌≡◌, ◌≢◌, refl, ap, ◌∙◌, sym, Bool, true, false, List, [], ◌∷◌, Option, none, some, ok, ◌>>=◌,
  All, arith, map, ◌≤◌, Bool-cases, inl, inr,
}
use sqlx_monetdb.Text.{Text, codes, Lacks, text_eq, text_eq_iff}
use sqlx_monetdb.Text.Split.{join, join-Lacks}
use sqlx_monetdb.Text.Trim.{IsWord, is_whitespace, split_whitespace-join}
use sqlx_monetdb.Text.Number.{ℤ, negsuc, print_unsigned, print_signed, parse_signed}
use sqlx_monetdb.Text.Number.Print.{Fits, parse_unsigned-print_unsigned, parse_signed-print_signed}
use sqlx_monetdb.Response.{QueryResponse, u64_max, update, schema, transaction}
use sqlx_monetdb.Response.Lines.{
  Progress, parse_line, parse_lines, parse_response, finish, parse_update_line, update_of_parts,
  last_id, transaction_of_flag, parse_transaction_line,
}
use sqlx_monetdb.Text.Number.Words.{print_unsigned-IsWord, print_signed-IsWord}
use sqlx_monetdb.Response.Lines.Summary.{words-Lacks}
use sqlx_monetdb.Response.Lines.Errors.{start, parse_response-join}

-- What a server answers to a statement without a table: the rows that an update affected, the last
-- id that it generated, and words that are not read; a schema change; the mode after a transaction.
pub data Answer : Type 0 where
  updated : ℕ → Option ℤ → List Text → Answer
  changed : Text → Answer
  moded : Bool → Text → Answer

abbrev print_last : Option ℤ → Text
print_last none = codes "-1"
print_last (some z) = print_signed z

abbrev flag_of : Bool → ℕ
flag_of true = b't'
flag_of false = b'f'

abbrev words_of : ℕ → Option ℤ → List Text → List Text
words_of n last extra = print_unsigned n ∷ print_last last ∷ extra

unfoldable pub render_answer : Answer → Text
render_answer (updated n last extra) = b'&' ∷ b'2' ∷ b' ' ∷ join (words_of n last extra) b' '
render_answer (changed rest) = b'&' ∷ b'3' ∷ rest
render_answer (moded b rest) = b'&' ∷ b'4' ∷ b' ' ∷ flag_of b ∷ rest

abbrev pub response_to : Answer → QueryResponse
response_to (updated n last extra) = update n last
response_to (changed rest) = schema
response_to (moded b rest) = transaction b

-- A generated id is one that fits and is not the -1 that stands for none.
abbrev IsLast : Option ℤ → Type 0
IsLast none = Unit
IsLast (some z) = Fits 64 z × (z ≢ negsuc 0)

abbrev pub IsAnswer : Answer → Type 0
IsAnswer (updated n last extra) = (n ≤ u64_max) × IsLast last × All IsWord extra
IsAnswer (changed rest) = Lacks b'\n' rest
IsAnswer (moded b rest) = Lacks b'\n' rest

last_id-print :
    (last : Option ℤ) (extra : List Text)
    → IsLast last
    → last_id (print_last last ∷ extra) ≡ ok last
unfolding last_id text_eq print_signed
last_id-print none extra h = refl
last_id-print (some z) extra (hz, ne) = elim (Bool-cases (text_eq (print_signed z) (codes "-1"))) [
  | inl e ↦
      let minus_one : some z ≡ some (negsuc 0) =
        sym (parse_signed-print_signed 64 z hz)
        ∙ ap (parse_signed 64) ((text_eq_iff (print_signed z) (codes "-1")).0 e)
        ∙ parse_signed-print_signed 64 (negsuc 0) (omega arith) in
      absurd (ne (cc minus_one))
  | inr e ↦ rw (e, parse_signed-print_signed 64 z hz) refl
]

print_last-IsWord : (last : Option ℤ) → IsWord (print_last last)
unfolding is_whitespace
print_last-IsWord none = ((λ e. cc e), (refl, (refl, tt)))
print_last-IsWord (some z) = print_signed-IsWord z

words_of-IsWord :
    (n : ℕ) (last : Option ℤ) (extra : List Text)
    → All IsWord extra
    → All IsWord (words_of n last extra)
words_of-IsWord n last extra h = (print_unsigned-IsWord n, (print_last-IsWord last, h))

parse_update_line-print :
    (n : ℕ) (last : Option ℤ) (extra : List Text)
    → n ≤ u64_max
    → IsLast last
    → All IsWord extra
    → parse_update_line (b' ' ∷ join (words_of n last extra) b' ') ≡ ok (update n last)
unfolding parse_update_line update_of_parts
parse_update_line-print n last extra hn hl he =
    ap (update_of_parts (b' ' ∷ join (words_of n last extra) b' ')) (
      split_whitespace-join (print_unsigned n) (print_last last ∷ extra)
        (words_of-IsWord n last extra he))
    ∙ rw (parse_unsigned-print_unsigned u64_max n hn, last_id-print last extra hl) refl

abbrev with_result : Progress → QueryResponse → Progress
with_result p r = record p { result = some r }

parse_line-render_answer :
    (p : Progress) (a : Answer)
    → IsAnswer a
    → parse_line p (render_answer a) ≡ ok (with_result p (response_to a))
unfolding parse_line render_answer
parse_line-render_answer p (updated n last extra) (hn, hl, he) =
    rw (parse_update_line-print n last extra hn hl he) refl
parse_line-render_answer p (changed []) h = refl
parse_line-render_answer p (changed (c ∷ rest)) h = refl
parse_line-render_answer p (moded true rest) h =
    (unfold parse_transaction_line transaction_of_flag in refl)
parse_line-render_answer p (moded false rest) h =
    (unfold parse_transaction_line transaction_of_flag in refl)

abbrev pub last_of : Answer → List Answer → Answer
last_of a [] = a
last_of a (b ∷ rest) = last_of b rest

parse_lines-answers :
    (p : Progress) (a : Answer) (rest : List Answer)
    → All IsAnswer (a ∷ rest)
    → parse_lines p (map render_answer (a ∷ rest))
      ≡ ok (with_result p (response_to (last_of a rest)))
unfolding parse_lines
parse_lines-answers p a [] (ha, _) = ap (λ r. r >>= λ q. ok q) (parse_line-render_answer p a ha)
parse_lines-answers p a (b ∷ rest) (ha, h) =
    ap (λ r. r >>= λ q. parse_lines q (map render_answer (b ∷ rest)))
      (parse_line-render_answer p a ha)
    ∙ parse_lines-answers (with_result p (response_to a)) b rest h

render_answer-Lacks : (a : Answer) → IsAnswer a → Lacks b'\n' (render_answer a)
unfolding render_answer
render_answer-Lacks (updated n last extra) (hn, hl, he) = (
  omega arith,
  (
    omega arith,
    (
      omega arith,
      join-Lacks b'\n' b' ' (words_of n last extra) (omega arith)
          (words-Lacks (words_of n last extra) (words_of-IsWord n last extra he)),
    ),
  ),
)
render_answer-Lacks (changed rest) h = (omega arith, (omega arith, h))
render_answer-Lacks (moded true rest) h =
    (omega arith, (omega arith, (omega arith, (omega arith, h))))
render_answer-Lacks (moded false rest) h =
    (omega arith, (omega arith, (omega arith, (omega arith, h))))

answers-Lacks :
    (answers : List Answer) → All IsAnswer answers → All (Lacks b'\n') (map render_answer answers)
answers-Lacks [] h = tt
answers-Lacks (a ∷ answers) (ha, h) = (render_answer-Lacks a ha, answers-Lacks answers h)

-- A response of one or more lines for updates, schema changes and transactions is read as the last
-- of them, with every number that it holds: the affected rows up to the largest u64, and a generated
-- id, where -1 stands for none.
pub parse_response-answers :
    (a : Answer) (rest : List Answer)
    → All IsAnswer (a ∷ rest)
    → parse_response (join (map render_answer (a ∷ rest)) b'\n') ≡ ok (response_to (last_of a rest))
unfolding finish
parse_response-answers a rest h =
    parse_response-join (map render_answer (a ∷ rest)) (λ e. cc e) (answers-Lacks (a ∷ rest) h)
    ∙ ap (λ r. r >>= λ p. ok (finish p)) (parse_lines-answers start a rest h)
