-- ===== src/Error.antt =====
-- The driver's errors and their conversions, src/error.rs. A message that the source formats is
-- kept as the values it is formatted from, not as the rendered text.
use sqlx_monetdb.Prelude.{ℕ, List, Option, none, some, ◌++◌}
use sqlx_monetdb.Text.{Text, codes}

pub data Message : Type 0 where
  text : Text → Message
  handshake_failed : Message → Message
  not_utf8 : List ℕ → Message
  -- src/protocol/handshake.rs
  challenge_fields : ℕ → Text → Message
  unsupported_version unexpected_endian unsupported_server_hash : Text → Message
  no_mutual_hash : List Text → Message
  unexpected_login unrecognized_redirect redirect_without_port invalid_redirect_port :
      Text → Message
  -- src/protocol/response.rs
  header_before_table tuple_before_table unrecognized_line : Text → Message
  table_fields : List Text → Message
  invalid_field : Text → Text → Message
  missing_affected invalid_affected invalid_identity : Text → Message
  flag_missing : Text → Message
  unexpected_flag : ℕ → Text → Message
  missing_header_identity unknown_header_identity : Text → Message
  empty_typesizes invalid_typesizes unclosed_tuple : Text → Message
  -- src/options.rs
  invalid_url : Text → Message
  -- src/arguments.rs and src/types
  placeholder_mismatch : ℕ → ℕ → Message
  invalid_boolean : Text → Message
  invalid_number : Text → Message
  unexpected_null : Message

-- `std::io::Error`: the end of the stream, or an error number of the system.
pub data IoError : Type 0 where
  unexpected_eof : IoError
  os : ℕ → IoError

pub record MonetDatabaseError : Type 0 where
  pub message : Text

pub data MonetError : Type 0 where
  io : IoError → MonetError
  handshake protocol : Message → MonetError

-- The variants of `sqlx_core::Error` that the driver builds.
pub data SqlxError : Type 0 where
  io_error : IoError → SqlxError
  protocol_error encode_error : Message → SqlxError
  database_error : MonetDatabaseError → SqlxError
  column_index_out_of_bounds : ℕ → ℕ → SqlxError
  column_not_found : Text → SqlxError

-- `From<MonetError> for sqlx_core::Error`
unfoldable pub from_monet_error : MonetError → SqlxError
from_monet_error (io e) = io_error e
from_monet_error (handshake msg) = protocol_error (handshake_failed msg)
from_monet_error (protocol msg) = protocol_error msg

-- `std::error::Error::source`
unfoldable pub source : MonetError → Option IoError
source (io e) = some e
source (handshake msg) = none
source (protocol msg) = none

-- `From<std::io::Error> for MonetError`
unfoldable pub from_io_error : IoError → MonetError
from_io_error e = io e

-- `Display for MonetError`; the arguments print an I/O error and a message.
unfoldable pub display_monet_error : (IoError → Text) → (Message → Text) → MonetError → Text
display_monet_error show_io show (io e) = codes "I/O error: " ++ show_io e
display_monet_error show_io show (handshake msg) = codes "MAPI handshake failed: " ++ show msg
display_monet_error show_io show (protocol msg) = codes "MAPI protocol error: " ++ show msg

-- `MonetDatabaseError::new`, its `Display` and its `message`, and its `kind`, which is
-- `ErrorKind::Other` for every error.
unfoldable pub new_database_error : Text → MonetDatabaseError
new_database_error message = record { message = message }

unfoldable pub display_database_error : MonetDatabaseError → Text
display_database_error e = e.message

unfoldable pub database_message : MonetDatabaseError → Text
database_message e = e.message

unfoldable pub kind : {ErrorKind : Type 0} → ErrorKind → MonetDatabaseError → ErrorKind
kind other e = other
