-- ===== src/Options.antt =====
-- Connection options, src/options.rs. `Url` is the `url` crate's: the record has the parts that its
-- accessors return. The logging settings are a type of `sqlx_core` with its default and its setters.
pub mod Urls
pub mod Sessions
pub mod Tests
pub mod Addresses
pub mod UnitTests
pub mod ServerTests
pub mod Examples
use sqlx_monetdb.Prelude.{
  ℕ, Bool, true, false, List, [], ◌∷◌, ◌++◌, Option, none, some, Result, ok, err, ◌==◌, map_err,
  ◌>>=◌,
}
use sqlx_monetdb.Text.{Text, codes}
use sqlx_monetdb.Text.Trim.{trim_start_by}
use sqlx_monetdb.Text.Number.{print_unsigned}
use sqlx_monetdb.Error.{SqlxError, from_monet_error, handshake, invalid_url}
use sqlx_monetdb.Handshake.{Hashes}
use sqlx_monetdb.Session.{Network, perform_handshake}
use sqlx_monetdb.Session.Actions.{Io}

abbrev pub default_port : ℕ
default_port = 50000

pub record MonetConnectOptions (L : Type 0) : Type 0 where
  pub host : Text
  pub port : ℕ
  pub username : Text
  pub password : Text
  pub database : Text
  pub log_settings : L

-- `Default`, and `new`, which is the same; the argument is `LogSettings::default()`.
abbrev pub default_connect_options : {L : Type 0} → L → MonetConnectOptions L
default_connect_options default_log = record {
  host = codes "localhost";
  port = default_port;
  username = codes "monetdb";
  password = codes "monetdb";
  database = codes "monetdb";
  log_settings = default_log;
}

-- The builder methods.
unfoldable pub with_host : {L : Type 0} → MonetConnectOptions L → Text → MonetConnectOptions L
with_host options host = record options { host = host }

unfoldable pub with_port : {L : Type 0} → MonetConnectOptions L → ℕ → MonetConnectOptions L
with_port options port = record options { port = port }

unfoldable pub with_username : {L : Type 0} → MonetConnectOptions L → Text → MonetConnectOptions L
with_username options username = record options { username = username }

unfoldable pub with_password : {L : Type 0} → MonetConnectOptions L → Text → MonetConnectOptions L
with_password options password = record options { password = password }

unfoldable pub with_database : {L : Type 0} → MonetConnectOptions L → Text → MonetConnectOptions L
with_database options database = record options { database = database }

-- `Display`: the password is left out.
unfoldable pub display : {L : Type 0} → MonetConnectOptions L → Text
display options =
    codes "monetdb://"
    ++ (options.username
        ++ (b'@'
            ∷ (options.host
                ++ (b':' ∷ (print_unsigned options.port ++ (b'/' ∷ options.database))))))

pub record Url : Type 0 where
  pub host_str : Option Text
  pub url_port : Option ℕ
  pub url_username : Text
  pub url_password : Option Text
  pub path : Text

-- `if let Some(x) = .. { options.field = x }`, and the tests on an empty text.
or_keep : {A : Type 0} → Option A → A → A
or_keep none kept = kept
or_keep (some a) kept = a

unless_empty : Text → Text → Text
unless_empty [] kept = kept
unless_empty (c ∷ s) kept = c ∷ s

unfoldable pub from_url : {L : Type 0} → L → Url → MonetConnectOptions L
unfolding or_keep unless_empty trim_start_by
from_url default_log url =
    let options = default_connect_options default_log in
    record {
      host = or_keep url.host_str options.host;
      port = or_keep url.url_port options.port;
      username = unless_empty url.url_username options.username;
      password = or_keep url.url_password options.password;
      database = unless_empty (trim_start_by (λ c. c == b'/') url.path) options.database;
      log_settings = options.log_settings;
    }

-- `FromStr`; `parse` is `Url::parse`, whose error is kept as its display.
unfoldable pub from_str :
    {L : Type 0} → (Text → Result Text Url) → L → Text → Result SqlxError (MonetConnectOptions L)
from_str parse default_log s =
    map_err (λ e. from_monet_error (handshake (invalid_url e))) (parse s) >>= λ url.
    ok (from_url default_log url)

-- `log_statements` and `log_slow_statements`, with the setters of the logging settings.
unfoldable pub log_statements :
    {L Level : Type 0} → (L → Level → L) → MonetConnectOptions L → Level → MonetConnectOptions L
log_statements set options level = record options { log_settings = set options.log_settings level }

unfoldable pub log_slow_statements :
    {L Level Duration : Type 0}
    → (L → Level → Duration → L)
    → MonetConnectOptions L
    → Level
    → Duration
    → MonetConnectOptions L
log_slow_statements set options level duration = record options {
  log_settings = set options.log_settings level duration;
}

-- `connect`: the handshake with the options' fields.
unfoldable pub connect_with :
    {W S L : Type 0} → Network W S → Hashes → ℕ → MonetConnectOptions L → Io W S
connect_with net crates fuel options =
    perform_handshake net crates fuel options.username options.password options.database
      options.host options.port
