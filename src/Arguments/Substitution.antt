-- ===== src/Arguments/Substitution.antt =====
-- What `substitute_into` of src/arguments.rs gives.
use sqlx_monetdb.Prelude.{
  suc, ◌≡◌, refl, ap, ◌∙◌, sym, List, [], ◌∷◌, ◌++◌, ok, All, append_assoc, append-nil, ◌==◌, ==_ne,
  ==_refl, ==_iff, length, Bool-cases, inl, inr, ◌↔◌,
}
use sqlx_monetdb.Text.{Text, Lacks}
use sqlx_monetdb.Text.Split.{split, split-sep, split-Lacks}
use sqlx_monetdb.Arguments.{
  MonetArguments, placeholder_count, push_parts, substitute_into, argument_count,
}

-- A query as pieces around its placeholders: a first piece, then a literal and a piece for each.
abbrev pub template : Text → List (Text × Text) → Text
template first [] = first
template first ((literal, piece) ∷ rest) = first ++ (b'?' ∷ template piece rest)

abbrev pub filled : Text → List (Text × Text) → Text
filled first [] = first
filled first ((literal, piece) ∷ rest) = first ++ (literal ++ filled piece rest)

abbrev pub literals_of : List (Text × Text) → List Text
literals_of [] = []
literals_of ((literal, piece) ∷ rest) = literal ∷ literals_of rest

abbrev pub pieces_of : Text → List (Text × Text) → List Text
pieces_of first [] = first ∷ []
pieces_of first ((literal, piece) ∷ rest) = first ∷ pieces_of piece rest

split-template :
    (first : Text) (rest : List (Text × Text))
    → All (Lacks b'?') (pieces_of first rest)
    → split (template first rest) b'?' ≡ pieces_of first rest
split-template first [] (h, _) = split-Lacks first b'?' h
split-template first ((literal, piece) ∷ rest) (h, hs) =
    split-sep first (template piece rest) b'?' h
    ∙ ap (λ ps. first ∷ ps) (split-template piece rest hs)

count-Lacks : (s t : Text) → Lacks b'?' s → placeholder_count (s ++ t) ≡ placeholder_count t
unfolding placeholder_count
count-Lacks [] t h = refl
count-Lacks (c ∷ s) t (hc, h) = rw (==_ne c b'?' hc, placeholder_count) (count-Lacks s t h)

count-template :
    (first : Text) (rest : List (Text × Text))
    → All (Lacks b'?') (pieces_of first rest)
    → placeholder_count (template first rest) ≡ length (literals_of rest)
unfolding placeholder_count
count-template first [] (h, _) =
    ap placeholder_count (sym (append-nil first)) ∙ count-Lacks first [] h
count-template first ((literal, piece) ∷ rest) (h, hs) =
    count-Lacks first (b'?' ∷ template piece rest) h ∙ ap suc (count-template piece rest hs)

push_parts-template :
    (first : Text) (rest : List (Text × Text)) (out : Text)
    → push_parts (pieces_of first rest) (literals_of rest) out ≡ out ++ filled first rest
unfolding push_parts
push_parts-template first [] out = refl
push_parts-template first ((literal, piece) ∷ rest) out =
    push_parts-template piece rest ((out ++ first) ++ literal)
    ∙ append_assoc (out ++ first) literal (filled piece rest)
    ∙ append_assoc out first (literal ++ filled piece rest)

-- In a query whose pieces between the placeholders hold no question mark, every placeholder is
-- replaced by its literal, in order, and everything else is kept; a `?` inside a literal is not
-- taken for a placeholder.
pub substitute_into-template :
    (first : Text) (rest : List (Text × Text))
    → All (Lacks b'?') (pieces_of first rest)
    → substitute_into (record { literals = literals_of rest }) (template first rest)
      ≡ ok (filled first rest)
unfolding substitute_into
substitute_into-template first rest h =
    rw
      (
        count-template first rest h,
        ==_refl (length (literals_of rest)),
        split-template first rest h,
        substitute_into,
      )
      (ap ok (push_parts-template first rest []))

-- A query is substituted exactly if it has as many question marks as there are arguments.
pub substitute_into-ok_iff :
    (arguments : MonetArguments) (sql : Text)
    → ((out : Text) × (substitute_into arguments sql ≡ ok out))
      ↔ (placeholder_count sql ≡ argument_count arguments)
unfolding substitute_into argument_count
substitute_into-ok_iff arguments sql = (forth, (λ e. (_, taken e)))
  where
    taken :
        placeholder_count sql ≡ length arguments.literals
        → substitute_into arguments sql ≡ ok (push_parts (split sql b'?') arguments.literals [])
    taken e = rw (e, ==_refl (length arguments.literals), substitute_into) refl

    forth :
        (out : Text) × (substitute_into arguments sql ≡ ok out)
        → placeholder_count sql ≡ length arguments.literals
    forth (out, h) = elim (Bool-cases (placeholder_count sql == length arguments.literals)) [
      | inl e ↦ (==_iff (placeholder_count sql) (length arguments.literals)).0 e
      | inr e ↦ let h' = rw (e, substitute_into) at h in cc h'
    ]
