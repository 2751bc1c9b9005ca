-- ===== src/Handshake/UnitTests.antt =====
-- The unit tests of src/protocol/handshake.rs, under their names, as statements of the model: those
-- on challenges, on the answers to a login and on redirects, and in the children those on hashes
-- and on the login line.
pub mod Digests
pub mod LoginLines
use sqlx_monetdb.Prelude.{◌≡◌, refl, List, [], ◌∷◌, none, some, ok, err, Result}
use sqlx_monetdb.Text.{codes}
use sqlx_monetdb.Error.{MonetError, Message, handshake, text}
use sqlx_monetdb.Handshake.{
  Challenge, little, big, parse_challenge, accepted, rejected, redirect, parse_login_response,
  local_retry, reconnect, parse_redirect,
}

abbrev ParsesATypicalChallengeLine : Type 0
ParsesATypicalChallengeLine =
    (c : Challenge) × (parse_challenge
        (codes "rBuCQ9WTn3:mserver:9:RIPEMD160,SHA256,SHA1,MD5:LIT:SHA1:")
      ≡ ok c)
    × (c.salt ≡ codes "rBuCQ9WTn3")
    × (c.server_type ≡ codes "mserver")
    × (c.protocol_version ≡ codes "9")
    × (c.hashes ≡ codes "RIPEMD160" ∷ codes "SHA256" ∷ codes "SHA1" ∷ codes "MD5" ∷ [])
    × (c.server_endian ≡ little)
    × (c.server_hash ≡ codes "SHA1")
    × (c.handshake_option_level ≡ none)

parses_a_typical_challenge_line : ParsesATypicalChallengeLine
unfolding parse_challenge sqlx_monetdb.Text.Split.split sqlx_monetdb.Text.Trim.trim_end_by
    sqlx_monetdb.Text.text_eq sqlx_monetdb.Handshake.parse_endian
    sqlx_monetdb.Handshake.option_level
parses_a_typical_challenge_line = (_, refl, refl, refl, refl, refl, refl, refl, refl)

abbrev ParsesSqlLevelOption : Type 0
ParsesSqlLevelOption =
    (c : Challenge) × (parse_challenge
        (codes "salt:mserver:9:RIPEMD160,SHA1:BIG:SHA1:sql=6:BINARY=1:")
      ≡ ok c)
    × (c.handshake_option_level ≡ some 6)
    × (c.server_endian ≡ big)

parses_sql_level_option : ParsesSqlLevelOption
unfolding parse_challenge sqlx_monetdb.Text.Split.split sqlx_monetdb.Text.Trim.trim_end_by
    sqlx_monetdb.Text.text_eq sqlx_monetdb.Handshake.parse_endian
    sqlx_monetdb.Handshake.option_level sqlx_monetdb.Text.strip_prefix
    sqlx_monetdb.Text.Number.parse_unsigned
parses_sql_level_option = (_, refl, refl, refl)

abbrev RejectsUnsupportedProtocolVersion : Type 0
RejectsUnsupportedProtocolVersion =
    (m : Message) × (parse_challenge (codes "salt:mserver:8:RIPEMD160:BIG:SHA1:")
      ≡ err (handshake m))

rejects_unsupported_protocol_version : RejectsUnsupportedProtocolVersion
unfolding parse_challenge sqlx_monetdb.Text.Split.split sqlx_monetdb.Text.Trim.trim_end_by
    sqlx_monetdb.Text.text_eq
rejects_unsupported_protocol_version = (_, refl)

abbrev RejectsTooFewFields : Type 0
RejectsTooFewFields =
    (m : Message) × (parse_challenge (codes "salt:mserver:9:") ≡ err (handshake m))

rejects_too_few_fields : RejectsTooFewFields
unfolding parse_challenge sqlx_monetdb.Text.Split.split sqlx_monetdb.Text.Trim.trim_end_by
rejects_too_few_fields = (_, refl)

abbrev ParsesLoginOkVariants : Type 0
ParsesLoginOkVariants =
    (parse_login_response [] ≡ accepted)
    × (parse_login_response (codes "=OK") ≡ accepted)
    × (parse_login_response (codes "#some welcome message") ≡ accepted)

parses_login_ok_variants : ParsesLoginOkVariants
unfolding parse_login_response
parses_login_ok_variants = (refl, refl, refl)

abbrev ParsesLoginError : Type 0
ParsesLoginError =
    parse_login_response (codes "!InvalidCredentialsException:bad login")
    ≡ rejected (text (codes "InvalidCredentialsException:bad login"))

parses_login_error : ParsesLoginError
unfolding parse_login_response
parses_login_error = refl

abbrev ParsesLoginRedirect : Type 0
ParsesLoginRedirect =
    parse_login_response (codes "^mapi:monetdb://otherhost:12345/db")
    ≡ redirect (codes "mapi:monetdb://otherhost:12345/db")

parses_login_redirect : ParsesLoginRedirect
unfolding parse_login_response
parses_login_redirect = refl

abbrev UnexpectedLoginResponseIsTreatedAsErrorNotSilentlyOk : Type 0
UnexpectedLoginResponseIsTreatedAsErrorNotSilentlyOk =
    (m : Message) × (parse_login_response (codes "garbage") ≡ rejected m)

unexpected_login_response_is_treated_as_error_not_silently_ok :
    UnexpectedLoginResponseIsTreatedAsErrorNotSilentlyOk
unfolding parse_login_response
unexpected_login_response_is_treated_as_error_not_silently_ok = (_, refl)

abbrev ParsesRedirectToAnotherHost : Type 0
ParsesRedirectToAnotherHost =
    parse_redirect (codes "mapi:monetdb://otherhost:12345/mydb")
    ≡ ok (reconnect (codes "otherhost") 12345)

parses_redirect_to_another_host : ParsesRedirectToAnotherHost
unfolding parse_redirect sqlx_monetdb.Text.contains sqlx_monetdb.Text.Split.rsplit_once
    sqlx_monetdb.Text.Split.split sqlx_monetdb.Text.Number.parse_unsigned
parses_redirect_to_another_host = refl

abbrev ParsesLocalMerovingianRedirect : Type 0
ParsesLocalMerovingianRedirect = parse_redirect (codes "mapi:merovingian://proxy?") ≡ ok local_retry

parses_local_merovingian_redirect : ParsesLocalMerovingianRedirect
unfolding parse_redirect sqlx_monetdb.Text.contains
parses_local_merovingian_redirect = refl

abbrev RejectsUnrecognizedRedirectFormat : Type 0
RejectsUnrecognizedRedirectFormat =
    (e : MonetError) × (parse_redirect (codes "not-a-redirect") ≡ err e)

rejects_unrecognized_redirect_format : RejectsUnrecognizedRedirectFormat
unfolding parse_redirect sqlx_monetdb.Text.contains
rejects_unrecognized_redirect_format = (_, refl)
