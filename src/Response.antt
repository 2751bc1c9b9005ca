-- ===== src/Response.antt =====
-- The query protocol, src/protocol/response.rs: requests and the parser of responses. `u64` and
-- `usize` have 64 bits. The loop over the lines is a fold over the two variables `table` and
-- `result`; a `?` that returns early is a bind.
pub mod Fields
pub mod Headers
pub mod Lines
pub mod UnitTests
use sqlx_monetdb.Prelude.{
  ℕ, ◌-◌, ◌^◌, ◌≡◌, Bool, true, false, List, [], ◌∷◌, ◌++◌, Option, none, some, Result, ok, err,
}
use sqlx_monetdb.Text.{Text, codes}
use sqlx_monetdb.Text.Number.{ℤ}
use sqlx_monetdb.Text.Utf8.{as_bytes}
use sqlx_monetdb.Error.{MonetError, MonetDatabaseError, SqlxError, from_monet_error, database_error}

-- `encode_query`
unfoldable pub encode_query : Text → List ℕ
unfolding as_bytes
encode_query sql = b's' ∷ (as_bytes sql ++ (b'\n' ∷ b';' ∷ []))

pub record ColumnMeta : Type 0 where
  pub name : Text
  pub type_name : Text
  pub length : Option ℕ
  pub typesizes : Option (ℕ × Option ℕ)

pub record TableResult : Type 0 where
  pub query_id : ℤ
  pub row_count : ℕ
  pub declared_columns : ℕ
  pub embedded_tuples : ℕ
  pub columns : List ColumnMeta
  pub rows : List (List (Option Text))

pub data QueryResponse : Type 0 where
  table : TableResult → QueryResponse
  update : (affected : ℕ) (last_insert_id : Option ℤ) → QueryResponse
  schema : QueryResponse
  transaction : (auto_commit : Bool) → QueryResponse
  success : QueryResponse

pub data ResponseError : Type 0 where
  protocol : MonetError → ResponseError
  database : MonetDatabaseError → ResponseError

-- `From<ResponseError> for sqlx_core::Error`
unfoldable pub from_response_error : ResponseError → SqlxError
unfolding from_monet_error
from_response_error (protocol e) = from_monet_error e
from_response_error (database e) = database_error e

abbrev pub u64_max : ℕ
u64_max = 2 ^ 64 - 1
