-- ===== src/Handshake/Logins.antt =====
-- The login line and its answer, `build_login_response` and `parse_login_response` of
-- src/protocol/handshake.rs.
use sqlx_monetdb.Prelude.{
  ℕ, zero, suc, ◌≡◌, ◌≢◌, refl, ap, ◌∙◌, sym, ◌↔◌, ◌⊎◌, inl, inr, Bool, true, false, List, [], ◌∷◌,
  ◌++◌, Option, none, some, All, All-append, append_assoc, append-nil, arith, le→leb, take,
  All-take, Bool-cases, Option-cases,
}
use sqlx_monetdb.Text.{
  Text, codes, text_eq, text_eq_iff, strip_prefix, strip_prefix_sound, strip_prefix-append,
  starts_with, Lacks,
}
use sqlx_monetdb.Text.Split.{split, split-join_ne, join}
use sqlx_monetdb.Text.Number.{ℤ, pos, negsuc, print_signed, print_unsigned}
use sqlx_monetdb.Text.Number.Print.{print_unsigned-cons, IsDigit}
use sqlx_monetdb.Handshake.{
  Challenge, HandshakeOptions, auto_commit_field, unwrap_or_zero, push_options,
  build_login_response, accepted, parse_login_response, login_by,
}

-- The options in the order of the levels that bring them.
abbrev pub option_fields : HandshakeOptions → List Text
option_fields options =
    auto_commit_field options.auto_commit
    ∷ (codes "reply_size=" ++ print_signed options.reply_size)
    ∷ codes "size_header=1"
    ∷ []

take-nil {ℓ} : {A : Type ℓ} (n : ℕ) → take {A = A} n [] ≡ []
take-nil zero = refl
take-nil (suc n) = refl

push_options-take :
    (parts : List Text) (level : ℕ) (options : HandshakeOptions)
    → push_options parts level options ≡ parts ++ take level (option_fields options)
unfolding push_options
push_options-take parts zero options = sym (append-nil parts)
push_options-take parts (suc zero) options = refl
push_options-take parts (suc (suc zero)) options = append_assoc parts _ _
push_options-take parts (suc (suc (suc level))) options =
    let fields = option_fields options in
    rw
      (
        (le→leb 1 (suc (suc (suc level))) (omega arith)),
        (le→leb 2 (suc (suc (suc level))) (omega arith)),
        (le→leb 3 (suc (suc (suc level))) (omega arith)),
        push_options,
      )
      (append_assoc (parts ++ _ ∷ []) (_ ∷ []) (_ ∷ [])
        ∙ append_assoc parts (_ ∷ []) (_ ∷ _ ∷ [])
        ∙ ap
            (λ r.
              parts
              ++ (auto_commit_field options.auto_commit
                  ∷ (codes "reply_size=" ++ print_signed options.reply_size)
                  ∷ codes "size_header=1"
                  ∷ r))
            (sym (take-nil level)))

join-snoc :
    (p : Text) (ps : List Text) (c : ℕ) → join (p ∷ ps) c ++ c ∷ [] ≡ join ((p ∷ ps) ++ [] ∷ []) c
unfolding join
join-snoc p [] c = refl
join-snoc p (q ∷ ps) c =
    append_assoc p (c ∷ join (q ∷ ps) c) (c ∷ []) ∙ ap (λ r. p ++ (c ∷ r)) (join-snoc q ps c)

digits-Lacks : (s : Text) → All IsDigit s → Lacks b':' s
digits-Lacks [] h = tt
digits-Lacks (c ∷ s) (hc, h) = (omega arith, digits-Lacks s h)

print_unsigned-Lacks : (n : ℕ) → Lacks b':' (print_unsigned n)
print_unsigned-Lacks n = let (d, r, eq, h) = print_unsigned-cons n in rw eq (digits-Lacks (d ∷ r) h)

print_signed-Lacks : (z : ℤ) → Lacks b':' (print_signed z)
unfolding print_signed
print_signed-Lacks (pos n) = print_unsigned-Lacks n
print_signed-Lacks (negsuc n) = (omega arith, print_unsigned-Lacks (suc n))

auto_commit-Lacks : (b : Bool) → Lacks b':' (auto_commit_field b)
auto_commit-Lacks true = omega arith
auto_commit-Lacks false = omega arith

option_fields-Lacks : (options : HandshakeOptions) → All (Lacks b':') (option_fields options)
option_fields-Lacks options = (
  auto_commit-Lacks options.auto_commit,
  (
    All-append _ (codes "reply_size=") (print_signed options.reply_size) (omega arith)
        (print_signed-Lacks options.reply_size),
    ((omega arith), tt),
  ),
)

-- The six fixed fields of the login line.
abbrev pub fixed_fields : Text → Text → Text → Text → List Text
fixed_fields username algo digest database =
    codes "BIG"
    ∷ username
    ∷ (b'{' ∷ (algo ++ (b'}' ∷ digest)))
    ∷ codes "sql"
    ∷ database
    ∷ codes "FILETRANS"
    ∷ []

-- A server that splits the login line at its colons finds the six fixed fields, as many of the
-- three options as its level admits, in the order of the levels, and an empty field at the end, if
-- no colon stands in the user name, the algorithm, the digest or the database.
pub split-build_login_response :
    (challenge : Challenge) (username algo digest database : Text) (options : HandshakeOptions)
    → Lacks b':' username
    → Lacks b':' algo
    → Lacks b':' digest
    → Lacks b':' database
    → split (build_login_response challenge username algo digest database options) b':'
      ≡ (fixed_fields username algo digest database
          ++ take (unwrap_or_zero challenge.handshake_option_level) (option_fields options))
        ++ [] ∷ []
unfolding build_login_response
split-build_login_response challenge username algo digest database options hu ha hg hd =
    let level = unwrap_or_zero challenge.handshake_option_level in
    let fixed = fixed_fields username algo digest database in
    let opts = take level (option_fields options) in
    let lacks : All (Lacks b':') fixed = (
      (omega arith),
      (
        hu,
        (
          ((omega arith), All-append _ algo (b'}' ∷ digest) ha ((omega arith), hg)),
          ((omega arith), (hd, ((omega arith), tt))),
        ),
      ),
    ) in
    ap (λ ps. split (join ps b':' ++ b':' ∷ []) b':') (push_options-take fixed level options)
    ∙ ap (λ t. split t b':') (join-snoc (codes "BIG") _ b':')
    ∙ split-join_ne ((fixed ++ opts) ++ [] ∷ []) b':' (λ e. cc e)
        (All-append _ (fixed ++ opts) ([] ∷ [])
          (All-append _ fixed opts lacks
            (All-take _ level (option_fields options) (option_fields-Lacks options)))
          (tt, tt))

-- What the driver takes for a successful login.
abbrev pub IsWelcome : Text → Type 0
IsWelcome line = (line ≡ []) ⊎ ((line ≡ codes "=OK") ⊎ ((rest : Text) × (line ≡ b'#' ∷ rest)))

starts_with_sound : (s p : Text) → starts_with s p ≡ true → (rest : Text) × (s ≡ p ++ rest)
unfolding starts_with
starts_with_sound s p h = elim (Option-cases (strip_prefix s p)) [
  | inl e ↦ let h' = rw (e, starts_with) at h in cc h'
  | inr (rest, e) ↦ (rest, strip_prefix_sound s p rest e)
]

starts_with_self : (p rest : Text) → starts_with (p ++ rest) p ≡ true
unfolding starts_with
starts_with_self p rest = rw (strip_prefix-append p rest, starts_with) refl

login_by_ne : (line : Text) (e c : Option Text) → login_by line e c ≢ accepted
unfolding login_by
login_by_ne line (some r) c h = cc h
login_by_ne line none (some r) h = cc h
login_by_ne line none none h = cc h

-- The driver takes an answer for a successful login exactly if the answer is empty, is `=OK`, or
-- begins with `#`.
pub parse_login_response-accepted_iff :
    (line : Text) → (parse_login_response line ≡ accepted) ↔ IsWelcome line
unfolding parse_login_response
parse_login_response-accepted_iff line = (forth, back)
  where
    forth : parse_login_response line ≡ accepted → IsWelcome line
    forth h = elim (Bool-cases (text_eq line [])) [
      | inl e ↦ inl ((text_eq_iff line []).0 e)
      | inr e ↦ elim (Bool-cases (text_eq line (codes "=OK"))) [
        | inl e2 ↦ inr (inl ((text_eq_iff line (codes "=OK")).0 e2))
        | inr e2 ↦ elim (Bool-cases (starts_with line (codes "#"))) [
          | inl e3 ↦ inr (inr (starts_with_sound line (codes "#") e3))
          | inr e3 ↦ absurd (
              login_by_ne line (strip_prefix line (codes "!")) (strip_prefix line (codes "^"))
                (rw (e, e2, e3, parse_login_response) at h))
        ]
      ]
    ]

    back : IsWelcome line → parse_login_response line ≡ accepted
    back (inl e) = rw (e, parse_login_response) refl
    back (inr (inl e)) = rw (e, parse_login_response) refl
    back (inr (inr (rest, e))) = rw (e, parse_login_response) refl
