-- ===== src/Handshake/Tests.antt =====
-- The theorems on the handshake at concrete lines.
use sqlx_monetdb.Prelude.{
  ◌≡◌, ◌≢◌, ◌↔◌, refl, [], ◌∷◌, ◌++◌, List, some, none, ok, err, arith, take, panic, false, ◌==◌,
}
use sqlx_monetdb.Text.{Text, codes, strip_prefix, contains, text_eq}
use sqlx_monetdb.Text.Split.{split, join}
use sqlx_monetdb.Text.Number.{print_unsigned, parse_unsigned}
use sqlx_monetdb.Handshake.{
  little, Challenge, option_level, parse_challenge, parse_endian, hash_priority,
  select_hash_algorithm, Hashes, compute_password_hash, default_options, build_login_response,
  unwrap_or_zero, accepted, parse_login_response, reconnect, parse_redirect,
}
use sqlx_monetdb.Handshake.Accepted.{States, parse_challenge-States}
use sqlx_monetdb.Text.Trim.{trim_end_by}
use sqlx_monetdb.Handshake.Passwords.{
  IsBest, select_hash_algorithm-IsBest, compute_password_hash-ne-panic,
}
use sqlx_monetdb.Handshake.Outcomes.{Outcome, compute_password_hash-Outcome}
use sqlx_monetdb.Handshake.Challenges.{
  level_field, option_level-level_field, challenge_line, parse_challenge-challenge_line,
}
use sqlx_monetdb.Handshake.Logins.{
  option_fields, fixed_fields, split-build_login_response, IsWelcome,
  parse_login_response-accepted_iff,
}
use sqlx_monetdb.Handshake.Redirects.{target_of, parse_redirect-target_of}

abbrev offered : List Text
offered = codes "SHA1" ∷ codes "SHA512" ∷ []

offered-IsBest : IsBest hash_priority offered (select_hash_algorithm offered)
offered-IsBest = select_hash_algorithm-IsBest offered

-- Stand-ins for the digest crates.
abbrev toy_crates : Hashes
toy_crates = record {
  ripemd160 = λ s. s;
  sha512 = λ s. s;
  sha384 = λ s. s;
  sha256 = λ s. s;
  sha224 = λ s. s;
  sha1 = λ s. s;
  hex_encode = λ s. s;
}

abbrev toy_challenge : Challenge
toy_challenge = record {
  salt = codes "salt";
  server_type = codes "mserver";
  protocol_version = codes "9";
  hashes = offered;
  server_endian = little;
  server_hash = codes "SHA512";
  handshake_option_level = some 2;
}

toy_hash : compute_password_hash toy_crates toy_challenge (codes "secret") ≢ err panic
toy_hash = compute_password_hash-ne-panic toy_crates toy_challenge (codes "secret")

level_6 :
    option_level none ((codes "BINARY=1" ∷ []) ++ (level_field 6 ∷ codes "OOBINTR=1" ∷ [])) ≡ some 6
level_6 =
    option_level-level_field none (codes "BINARY=1" ∷ []) (codes "OOBINTR=1" ∷ []) 6 (omega arith)
      ((unfold strip_prefix in refl), tt)

challenge_read :
    parse_challenge (
      challenge_line
        (codes "salt")
        (codes "mserver")
        offered
        little
        (codes "SHA512")
        (codes "sql=6" ∷ []))
    ≡ ok (record {
      salt = codes "salt";
      server_type = codes "mserver";
      protocol_version = codes "9";
      hashes = offered;
      server_endian = little;
      server_hash = codes "SHA512";
      handshake_option_level = option_level none (codes "sql=6" ∷ []);
    })
challenge_read =
    parse_challenge-challenge_line (codes "salt") (codes "mserver") (codes "SHA1")
      (codes "SHA512" ∷ []) little (codes "SHA512") (codes "sql=6" ∷ []) (omega arith) (omega arith)
      (unfold join in omega arith) (omega arith) (omega arith) (λ e. cc e)

split-build_login_response_example :
    split
      (build_login_response toy_challenge
        (codes "monetdb")
        (codes "SHA1")
        (codes "ab12")
        (codes "demo")
        default_options)
      b':'
    ≡ (fixed_fields (codes "monetdb") (codes "SHA1") (codes "ab12") (codes "demo")
        ++ take (unwrap_or_zero (some 2)) (option_fields default_options))
      ++ [] ∷ []
split-build_login_response_example =
    split-build_login_response toy_challenge (codes "monetdb") (codes "SHA1") (codes "ab12")
      (codes "demo") default_options (omega arith) (omega arith) (omega arith) (omega arith)

parse_login_response-accepted_iff_example :
    (parse_login_response (codes "=OK") ≡ accepted) ↔ IsWelcome (codes "=OK")
parse_login_response-accepted_iff_example = parse_login_response-accepted_iff (codes "=OK")

not_local :
    contains (target_of (codes "db.example") 50001 (codes "demo")) (codes "merovingian") ≡ false
unfolding contains print_unsigned
not_local = refl

reconnect_read :
    parse_redirect (target_of (codes "db.example") 50001 (codes "demo"))
    ≡ ok (reconnect (codes "db.example") 50001)
reconnect_read =
    parse_redirect-target_of (codes "db.example") 50001 (codes "demo") not_local (omega arith)
      (omega arith)

-- A line that ends in several colons.
abbrev offered_line : Text
offered_line = codes "salt:mserver:9:SHA1,SHA512:LIT:SHA512:sql=2::"

parse_challenge-States_example :
    (parse_challenge offered_line ≡ ok toy_challenge)
    ↔ States (split (trim_end_by (λ x. x == b':') offered_line) b':') toy_challenge
parse_challenge-States_example = parse_challenge-States offered_line toy_challenge

offered_line_read : parse_challenge offered_line ≡ ok toy_challenge
unfolding parse_challenge option_level trim_end_by strip_prefix split text_eq parse_endian
    parse_unsigned
offered_line_read = refl

compute_password_hash-Outcome_example :
    Outcome toy_crates toy_challenge
      (codes "secret")
      (compute_password_hash toy_crates toy_challenge (codes "secret"))
compute_password_hash-Outcome_example =
    compute_password_hash-Outcome toy_crates toy_challenge (codes "secret")
