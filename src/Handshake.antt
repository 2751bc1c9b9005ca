-- ===== src/Handshake.antt =====
-- The challenge/response handshake, src/protocol/handshake.rs. The digest functions and the hex
-- encoder are other crates: they enter as the record `Hashes`.
pub mod Challenges
pub mod Accepted
pub mod Passwords
pub mod Outcomes
pub mod Logins
pub mod Redirects
pub mod Tests
pub mod UnitTests
use sqlx_monetdb.Prelude.{
  ℕ, ◌-◌, ◌^◌, Bool, true, false, ◌||◌, List, [], ◌∷◌, ◌++◌, Option, none, some, Result, ok, err,
  Fault, error, panic, ◌>>=◌, ok_or, map_err, if◌then◌else◌, leb, length, map,
}
use sqlx_monetdb.Text.{Text, codes, text_eq, strip_prefix, starts_with, contains}
use sqlx_monetdb.Text.Trim.{trim_end_by}
use sqlx_monetdb.Text.Split.{split, rsplit_once, join}
use sqlx_monetdb.Prelude.{◌==◌}
use sqlx_monetdb.Text.Number.{ℤ, pos, negsuc, parse_unsigned, print_signed}
use sqlx_monetdb.Text.Utf8.{as_bytes}
use sqlx_monetdb.Error.{
  Message, text, MonetError, handshake, challenge_fields, unsupported_version, unexpected_endian,
  unsupported_server_hash, no_mutual_hash, unexpected_login, unrecognized_redirect,
  redirect_without_port, invalid_redirect_port,
}

pub data Endian : Type 0 where
  big little : Endian

pub record Challenge : Type 0 where
  pub salt : Text
  pub server_type : Text
  pub protocol_version : Text
  pub hashes : List Text
  pub server_endian : Endian
  pub server_hash : Text
  pub handshake_option_level : Option ℕ

unfoldable pub next_level : Option ℕ → Option Text → Option ℕ
next_level level (some rest) = parse_unsigned (2 ^ 8 - 1) rest
next_level level none = level

-- The loop over the extra fields: the last `sql=` field decides, also where its number is none.
unfoldable pub option_level : Option ℕ → List Text → Option ℕ
unfolding next_level
option_level level [] = level
option_level level (extra ∷ extras) =
    option_level (next_level level (strip_prefix extra (codes "sql="))) extras

unfoldable pub parse_endian : Text → Result MonetError Endian
parse_endian field =
    if text_eq field (codes "BIG")
    then ok big
    else if text_eq field (codes "LIT")
    then ok little
    else err (handshake (unexpected_endian field))

challenge_of_fields : Text → List Text → Result MonetError Challenge
challenge_of_fields line (salt ∷ server_type ∷ version ∷ hashes ∷ endian ∷ server_hash ∷ extras) =
    if text_eq version (codes "9")
    then (do
      e ← parse_endian endian
      ok (record {
        salt = salt;
        server_type = server_type;
        protocol_version = version;
        hashes = split hashes b',';
        server_endian = e;
        server_hash = server_hash;
        handshake_option_level = option_level none extras;
      }))
    else err (handshake (unsupported_version version))
challenge_of_fields line fields = err (handshake (challenge_fields (length fields) line))

unfoldable pub parse_challenge : Text → Result MonetError Challenge
unfolding challenge_of_fields
parse_challenge raw =
    let line = trim_end_by (λ c. c == b':') raw in challenge_of_fields line (split line b':')

abbrev pub hash_priority : List Text
hash_priority =
    codes "RIPEMD160"
    ∷ codes "SHA512"
    ∷ codes "SHA384"
    ∷ codes "SHA256"
    ∷ codes "SHA224"
    ∷ codes "SHA1"
    ∷ []

-- `server_hashes.iter().any(|h| h == candidate)`
unfoldable pub offers : List Text → Text → Bool
offers [] candidate = false
offers (h ∷ hs) candidate = text_eq h candidate || offers hs candidate

unfoldable pub first_offered : List Text → List Text → Option Text
first_offered [] server_hashes = none
first_offered (candidate ∷ rest) server_hashes =
    if offers server_hashes candidate then some candidate else first_offered rest server_hashes

unfoldable pub select_hash_algorithm : List Text → Option Text
unfolding first_offered offers
select_hash_algorithm server_hashes = first_offered hash_priority server_hashes

-- The crates `ripemd`, `sha1`, `sha2` and `hex`.
pub record Hashes : Type 0 where
  pub ripemd160 : List ℕ → List ℕ
  pub sha512 : List ℕ → List ℕ
  pub sha384 : List ℕ → List ℕ
  pub sha256 : List ℕ → List ℕ
  pub sha224 : List ℕ → List ℕ
  pub sha1 : List ℕ → List ℕ
  pub hex_encode : List ℕ → Text

module _ (crates : Hashes) where
  unfoldable pub hash_hex : Text → List ℕ → Option Text
  hash_hex algorithm input =
      if text_eq algorithm (codes "RIPEMD160")
      then some (crates.hex_encode (crates.ripemd160 input))
      else if text_eq algorithm (codes "SHA512")
      then some (crates.hex_encode (crates.sha512 input))
      else if text_eq algorithm (codes "SHA384")
      then some (crates.hex_encode (crates.sha384 input))
      else if text_eq algorithm (codes "SHA256")
      then some (crates.hex_encode (crates.sha256 input))
      else if text_eq algorithm (codes "SHA224")
      then some (crates.hex_encode (crates.sha224 input))
      else if text_eq algorithm (codes "SHA1")
      then some (crates.hex_encode (crates.sha1 input))
      else none

  -- The `expect` on the response hash is a panic where `hash_hex` has no digest.
  unfoldable pub compute_password_hash : Challenge → Text → Result (Fault MonetError) (Text × Text)
  compute_password_hash challenge password = do
    prehashed ←
        ok_or (hash_hex challenge.server_hash (as_bytes password))
          (error (handshake (unsupported_server_hash challenge.server_hash)))
    algo ←
        ok_or (select_hash_algorithm challenge.hashes)
          (error (handshake (no_mutual_hash challenge.hashes)))
    response_hash ← ok_or (hash_hex algo (as_bytes prehashed ++ as_bytes challenge.salt)) panic
    ok (algo, response_hash)

pub record HandshakeOptions : Type 0 where
  pub auto_commit : Bool
  pub reply_size : ℤ

abbrev pub default_options : HandshakeOptions
default_options = record { auto_commit = true; reply_size = negsuc 0 }

abbrev pub auto_commit_field : Bool → Text
auto_commit_field true = codes "auto_commit=1"
auto_commit_field false = codes "auto_commit=0"

abbrev pub unwrap_or_zero : Option ℕ → ℕ
unwrap_or_zero none = 0
unwrap_or_zero (some n) = n

-- The options that the server's level admits, one `push` after another.
unfoldable pub push_options : List Text → ℕ → HandshakeOptions → List Text
push_options parts level options =
    let parts1 =
      if leb 1 level then parts ++ auto_commit_field options.auto_commit ∷ [] else parts in
    let parts2 =
      if leb 2 level
      then parts1 ++ (codes "reply_size=" ++ print_signed options.reply_size) ∷ []
      else parts1 in
    if leb 3 level then parts2 ++ codes "size_header=1" ∷ [] else parts2

unfoldable pub build_login_response :
    Challenge → Text → Text → Text → Text → HandshakeOptions → Text
unfolding push_options
build_login_response challenge username password_algo password_hash_hex database options =
    let parts =
      codes "BIG"
      ∷ username
      ∷ (b'{' ∷ (password_algo ++ (b'}' ∷ password_hash_hex)))
      ∷ codes "sql"
      ∷ database
      ∷ codes "FILETRANS"
      ∷ [] in
    join (push_options parts (unwrap_or_zero challenge.handshake_option_level) options) b':'
    ++ b':' ∷ []

pub data LoginResponse : Type 0 where
  accepted : LoginResponse
  rejected : Message → LoginResponse
  redirect : Text → LoginResponse

login_by : Text → Option Text → Option Text → LoginResponse
login_by line (some rest) _ = rejected (text rest)
login_by line none (some rest) = redirect rest
login_by line none none = rejected (unexpected_login line)

unfoldable pub parse_login_response : Text → LoginResponse
unfolding login_by strip_prefix starts_with text_eq
parse_login_response line =
    if text_eq line [] || text_eq line (codes "=OK") || starts_with line (codes "#")
    then accepted
    else login_by line (strip_prefix line (codes "!")) (strip_prefix line (codes "^"))

pub data Redirect : Type 0 where
  local_retry : Redirect
  reconnect : (host : Text) (port : ℕ) → Redirect

-- `rest.split('/').next().unwrap_or(rest)`
abbrev first_or : List Text → Text → Text
first_or [] rest = rest
first_or (p ∷ _) rest = p

unfoldable pub parse_redirect : Text → Result MonetError Redirect
parse_redirect target = if contains target (codes "merovingian") then ok local_retry else do
  rest ←
      ok_or (strip_prefix target (codes "mapi:monetdb://"))
        (handshake (unrecognized_redirect target))
  (host, port_str) ←
      ok_or (rsplit_once (first_or (split rest b'/') rest) b':')
        (handshake (redirect_without_port target))
  port ← ok_or (parse_unsigned (2 ^ 16 - 1) port_str) (handshake (invalid_redirect_port target))
  ok (reconnect host port)
