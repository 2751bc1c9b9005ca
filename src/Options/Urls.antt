-- ===== src/Options/Urls.antt =====
-- The options that a URL gives, src/options.rs.
use sqlx_monetdb.Prelude.{
  ℕ, zero, suc, ◌≡◌, ◌≢◌, refl, [], ◌∷◌, ◌++◌, none, some, ◌==◌, ==_ne, replicate, ok, Result, ap,
  ◌⊎◌, ◌≤◌, ◌-◌, ◌^◌, All, arith,
}
use sqlx_monetdb.Text.{Text, codes}
use sqlx_monetdb.Text.Trim.{trim_start_by, trim_start-blank, trim_start-StartsClear, AllBlank}
use sqlx_monetdb.Text.Number.{print_unsigned}
use sqlx_monetdb.Options.{
  MonetConnectOptions, Url, display, from_str, default_connect_options, from_url, or_keep,
  unless_empty, with_host, with_port, with_username, with_password, with_database,
}

slashes : (n : ℕ) → AllBlank (λ c. c == b'/') (replicate n b'/')
slashes zero = tt
slashes (suc n) = (refl, slashes n)

-- A URL with all its parts, a user name that is not empty and a path that names a database gives
-- the options that the builder gives for these parts: the database is the path without the
-- slashes in front, however many there are.
pub from_url-builder :
    {L : Type 0} (default_log : L) (host user password database : Text) (port slash_count first : ℕ)
    → user ≢ []
    → first ≢ b'/'
    → from_url default_log (record {
      host_str = some host;
      url_port = some port;
      url_username = user;
      url_password = some password;
      path = replicate slash_count b'/' ++ (first ∷ database);
    })
      ≡ with_database
          (with_password
            (with_username
              (with_port (with_host (default_connect_options default_log) host) port)
              user)
            password)
          (first ∷ database)
unfolding from_url or_keep unless_empty with_host with_port with_username with_password
    with_database
from_url-builder default_log host [] password database port n first hu hf = absurd (hu refl)
from_url-builder default_log host (u ∷ user) password database port n first hu hf =
    rw
      (
        trim_start-blank (λ c. c == b'/') (replicate n b'/') (first ∷ database) (slashes n),
        trim_start-StartsClear (λ c. c == b'/') (first ∷ database) (==_ne first b'/' hf),
      )
      refl

-- A path of slashes alone names no database, and a missing part keeps its default.
pub from_url-defaults :
    {L : Type 0} (default_log : L) (slash_count : ℕ)
    → from_url default_log (record {
      host_str = none;
      url_port = none;
      url_username = [];
      url_password = none;
      path = replicate slash_count b'/';
    })
      ≡ default_connect_options default_log
unfolding from_url or_keep unless_empty trim_start_by
from_url-defaults default_log n = rw (no_database n) refl
  where
    no_database : (n : ℕ) → trim_start_by (λ c. c == b'/') (replicate n b'/') ≡ []
    no_database zero = refl
    no_database (suc n) = no_database n

-- Letters, digits, `-` and `_`, which a URL may hold anywhere and in no encoded form, and the
-- characters of a host.
abbrev pub IsPlain : ℕ → Type 0
IsPlain c =
    ((b'0' ≤ c) × (c ≤ b'9'))
    ⊎ (((b'A' ≤ c) × (c ≤ b'Z')) ⊎ (((b'a' ≤ c) × (c ≤ b'z')) ⊎ ((c ≡ b'-') ⊎ (c ≡ b'_'))))

abbrev pub IsHost : ℕ → Type 0
IsHost c = IsPlain c ⊎ (c ≡ b'.')

-- What a URL parser makes of an address of the generic syntax, scheme://user@host:port/path: its
-- parts as they stand, where they are of plain characters, and no password.
pub record UrlParser (parse : Text → Result Text Url) : Type 0 where
  pub splits :
      (user host path : Text) (port : ℕ)
      → user ≢ []
      → host ≢ []
      → All IsPlain user
      → All IsHost host
      → All IsPlain path
      → port ≤ 2 ^ 16 - 1
      → parse (
          codes "monetdb://"
          ++ (user ++ (b'@' ∷ (host ++ (b':' ∷ (print_unsigned port ++ (b'/' ∷ path)))))))
        ≡ ok (record {
          host_str = some host;
          url_port = some port;
          url_username = user;
          url_password = none;
          path = b'/' ∷ path;
        })

kept : (name : Text) → name ≢ [] → unless_empty name (codes "monetdb") ≡ name
unfolding unless_empty
kept [] h = absurd (h refl)
kept (c ∷ name) h = refl

plain-ne : (c : ℕ) → IsPlain c → c ≢ b'/'
plain-ne c h = λ e. grind (arith, h, e)

database_kept :
    (name : Text)
    → name ≢ []
    → All IsPlain name
    → unless_empty (trim_start_by (λ c. c == b'/') (b'/' ∷ name)) (codes "monetdb") ≡ name
unfolding unless_empty trim_start_by
database_kept [] h hs = absurd (h refl)
database_kept (c ∷ name) h (hc, hs) =
    ap (λ t. unless_empty t (codes "monetdb"))
      (trim_start-StartsClear (λ d. d == b'/') (c ∷ name) (==_ne c b'/' (plain-ne c hc)))

-- Options that are printed and parsed again are the same but for the password, which is not
-- printed and so gets its default, and the logging settings, which are not part of a URL. This is
-- over any parser that splits an address of the generic syntax into its parts. The user name, the
-- host and the database are not empty and of plain characters, the host may hold dots, and the port
-- has 16 bits.
pub from_str-display :
    {L : Type 0} (parse : Text → Result Text Url) (default_log : L)
    (options : MonetConnectOptions L)
    → UrlParser parse
    → options.username ≢ []
    → options.host ≢ []
    → options.database ≢ []
    → All IsPlain options.username
    → All IsHost options.host
    → All IsPlain options.database
    → options.port ≤ 2 ^ 16 - 1
    → from_str parse default_log (display options)
      ≡ ok (record options { password = codes "monetdb"; log_settings = default_log })
unfolding from_str from_url or_keep display
from_str-display parse default_log options parser nu nh nd hu hh hd hp =
    rw
      (
        parser.splits options.username options.host options.database options.port nu nh hu hh hd hp,
        database_kept options.database nd hd,
        kept options.username nu,
      )
      refl
