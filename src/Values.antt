-- ===== src/Values.antt =====
-- Type names and values, src/type_info.rs and src/value.rs. A borrowed value and an owned one are
-- different records, as in the source.
use sqlx_monetdb.Prelude.{Bool, true, false, Option, none, some, Result, ok_or}
use sqlx_monetdb.Text.{Text, codes}
use sqlx_monetdb.Error.{Message, unexpected_null}

pub record MonetTypeInfo : Type 0 where
  pub name : Text
  pub is_null : Bool

abbrev pub new_type_info : Text → MonetTypeInfo
new_type_info name = record { name = name; is_null = false }

abbrev pub null_type_info : MonetTypeInfo
null_type_info = record { name = codes "null"; is_null = true }

pub record MonetValue : Type 0 where
  pub value_data : Option Text
  pub type_info : MonetTypeInfo

pub record MonetValueRef : Type 0 where
  pub value_data : Option Text
  pub type_info : MonetTypeInfo

abbrev pub null_value : MonetTypeInfo → MonetValueRef
null_value type_info = record { value_data = none; type_info = type_info }

abbrev pub new_value : Text → MonetTypeInfo → MonetValueRef
new_value text type_info = record { value_data = some text; type_info = type_info }

-- `MonetValueRef::text`
unfoldable pub value_text : MonetValueRef → Result Message Text
value_text value = ok_or value.value_data unexpected_null

abbrev is_none : Option Text → Bool
is_none none = true
is_none (some s) = false

-- `ValueRef::is_null`
unfoldable pub value_is_null : MonetValueRef → Bool
value_is_null value = is_none value.value_data

-- `ValueRef::to_owned` and `Value::as_ref`
unfoldable pub to_owned : MonetValueRef → MonetValue
to_owned value = record { value_data = value.value_data; type_info = value.type_info }

unfoldable pub as_ref : MonetValue → MonetValueRef
as_ref value = record { value_data = value.value_data; type_info = value.type_info }
