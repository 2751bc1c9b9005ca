-- ===== src/Handshake/UnitTests/LoginLines.antt =====
-- The unit tests of src/protocol/handshake.rs on the login line.
use sqlx_monetdb.Prelude.{ℕ, ◌≡◌, refl, Bool, true, false, [], ◌∷◌, some}
use sqlx_monetdb.Text.{Text, codes, starts_with, contains, strip_suffix}
use sqlx_monetdb.Text.Number.{negsuc}
use sqlx_monetdb.Handshake.{Challenge, little, build_login_response}

abbrev challenge_of_level : ℕ → Challenge
challenge_of_level level = record {
  salt = codes "salt";
  server_type = codes "mserver";
  protocol_version = codes "9";
  hashes = codes "SHA1" ∷ [];
  server_endian = little;
  server_hash = codes "SHA1";
  handshake_option_level = some level;
}

abbrev response_with : ℕ → Bool → Text
response_with level auto_commit =
    build_login_response (challenge_of_level level) (codes "monetdb") (codes "SHA1")
      (codes "deadbeef") (codes "monetdb")
      (record { auto_commit = auto_commit; reply_size = negsuc 0 })

abbrev BuildLoginResponseIncludesOptionsGatedBySqlLevel : Type 0
BuildLoginResponseIncludesOptionsGatedBySqlLevel =
    let response = response_with 3 true in
    (starts_with response (codes "BIG:monetdb:{SHA1}deadbeef:sql:monetdb:FILETRANS:") ≡ true)
    × (contains response (codes "auto_commit=1") ≡ true)
    × (contains response (codes "reply_size=-1") ≡ true)
    × (contains response (codes "size_header=1") ≡ true)
    × ((s : Text) × (strip_suffix response b':' ≡ some s))

build_login_response_includes_options_gated_by_sql_level :
    BuildLoginResponseIncludesOptionsGatedBySqlLevel
unfolding starts_with build_login_response sqlx_monetdb.Text.Split.join contains
    sqlx_monetdb.Text.Number.print_signed strip_suffix
build_login_response_includes_options_gated_by_sql_level = (refl, refl, refl, refl, (_, refl))

abbrev BuildLoginResponseOmitsHigherLevelOptionsBelowTheirLevel : Type 0
BuildLoginResponseOmitsHigherLevelOptionsBelowTheirLevel =
    let response = response_with 1 false in
    (contains response (codes "auto_commit=0") ≡ true)
    × (contains response (codes "reply_size") ≡ false)
    × (contains response (codes "size_header") ≡ false)

build_login_response_omits_higher_level_options_below_their_level :
    BuildLoginResponseOmitsHigherLevelOptionsBelowTheirLevel
unfolding contains build_login_response sqlx_monetdb.Text.Split.join
build_login_response_omits_higher_level_options_below_their_level = (refl, refl, refl)
