-- ===== src/Attributes/Typed.antt =====
-- The functions of app-framework/app-native-shared/attr_container.c that set and get the types which
-- Attributes and Attributes/Update leave: each is a call of attr_container_set_attr, or a body
-- TEMPLATE_ATTR_BUF_TO_VALUE. A value is its bit pattern, also that of a float or a double.
use wamr_app_framework.Prelude.{ℕ, ◌+◌, ◌/◌, ◌%◌, ◌^◌, List, [], ◌∷◌, ◌++◌, Bool, Option}
use wamr_app_framework.Restful.{Outcome, ok, ◌>>=◌}
use wamr_app_framework.Attributes.{
  AttrContainer, attr_type_byte, attr_type_short, attr_type_int, attr_type_int64, u16_bytes,
  u32_bytes, attr_buf_to_value, attr_container_get_as_bytearray,
}
use wamr_app_framework.Attributes.Update.{attr_container_set_attr}

abbrev attr_type_uint8 : ℕ
attr_type_uint8 = 4

abbrev attr_type_uint16 : ℕ
attr_type_uint16 = 5

abbrev attr_type_uint32 : ℕ
attr_type_uint32 = 6

abbrev attr_type_uint64 : ℕ
attr_type_uint64 = 7

abbrev attr_type_float : ℕ
attr_type_float = 10

abbrev attr_type_double : ℕ
attr_type_double = 11

abbrev u8_bytes : ℕ → List ℕ
u8_bytes n = (n % 256) ∷ []

abbrev u64_bytes : ℕ → List ℕ
u64_bytes n = u32_bytes (n % 2 ^ 32) ++ u32_bytes (n / 2 ^ 32)

abbrev attr_container_set_int16 :
    (ℕ → Option (List ℕ)) → AttrContainer → List ℕ → ℕ → Outcome (Bool × AttrContainer)
attr_container_set_int16 malloc c key value =
    attr_container_set_attr malloc c key attr_type_short (u16_bytes value) 2

abbrev attr_container_set_int32 :
    (ℕ → Option (List ℕ)) → AttrContainer → List ℕ → ℕ → Outcome (Bool × AttrContainer)
attr_container_set_int32 malloc c key value =
    attr_container_set_attr malloc c key attr_type_int (u32_bytes value) 4

abbrev attr_container_set_uint32 :
    (ℕ → Option (List ℕ)) → AttrContainer → List ℕ → ℕ → Outcome (Bool × AttrContainer)
attr_container_set_uint32 malloc c key value =
    attr_container_set_attr malloc c key attr_type_uint32 (u32_bytes value) 4

abbrev attr_container_set_int64 :
    (ℕ → Option (List ℕ)) → AttrContainer → List ℕ → ℕ → Outcome (Bool × AttrContainer)
attr_container_set_int64 malloc c key value =
    attr_container_set_attr malloc c key attr_type_int64 (u64_bytes value) 8

abbrev attr_container_set_uint64 :
    (ℕ → Option (List ℕ)) → AttrContainer → List ℕ → ℕ → Outcome (Bool × AttrContainer)
attr_container_set_uint64 malloc c key value =
    attr_container_set_attr malloc c key attr_type_uint64 (u64_bytes value) 8

abbrev attr_container_set_byte :
    (ℕ → Option (List ℕ)) → AttrContainer → List ℕ → ℕ → Outcome (Bool × AttrContainer)
attr_container_set_byte malloc c key value =
    attr_container_set_attr malloc c key attr_type_byte (u8_bytes value) 1

abbrev attr_container_set_int8 :
    (ℕ → Option (List ℕ)) → AttrContainer → List ℕ → ℕ → Outcome (Bool × AttrContainer)
attr_container_set_int8 malloc c key value =
    attr_container_set_attr malloc c key attr_type_byte (u8_bytes value) 1

abbrev attr_container_set_uint8 :
    (ℕ → Option (List ℕ)) → AttrContainer → List ℕ → ℕ → Outcome (Bool × AttrContainer)
attr_container_set_uint8 malloc c key value =
    attr_container_set_attr malloc c key attr_type_uint8 (u8_bytes value) 1

abbrev attr_container_set_uint16 :
    (ℕ → Option (List ℕ)) → AttrContainer → List ℕ → ℕ → Outcome (Bool × AttrContainer)
attr_container_set_uint16 malloc c key value =
    attr_container_set_attr malloc c key attr_type_uint16 (u16_bytes value) 2

abbrev attr_container_set_float :
    (ℕ → Option (List ℕ)) → AttrContainer → List ℕ → ℕ → Outcome (Bool × AttrContainer)
attr_container_set_float malloc c key value =
    attr_container_set_attr malloc c key attr_type_float (u32_bytes value) 4

abbrev attr_container_set_double :
    (ℕ → Option (List ℕ)) → AttrContainer → List ℕ → ℕ → Outcome (Bool × AttrContainer)
attr_container_set_double malloc c key value =
    attr_container_set_attr malloc c key attr_type_double (u64_bytes value) 8

abbrev attr_container_get_as_int16 : List ℕ → List ℕ → Outcome ℕ
attr_container_get_as_int16 = attr_buf_to_value 2

abbrev attr_container_get_as_int32 : List ℕ → List ℕ → Outcome ℕ
attr_container_get_as_int32 = attr_buf_to_value 4

abbrev attr_container_get_as_uint32 : List ℕ → List ℕ → Outcome ℕ
attr_container_get_as_uint32 = attr_buf_to_value 4

abbrev attr_container_get_as_uint64 : List ℕ → List ℕ → Outcome ℕ
attr_container_get_as_uint64 = attr_buf_to_value 8

abbrev attr_container_get_as_int8 : List ℕ → List ℕ → Outcome ℕ
attr_container_get_as_int8 = attr_buf_to_value 1

abbrev attr_container_get_as_uint8 : List ℕ → List ℕ → Outcome ℕ
attr_container_get_as_uint8 = attr_buf_to_value 1

abbrev attr_container_get_as_uint16 : List ℕ → List ℕ → Outcome ℕ
attr_container_get_as_uint16 = attr_buf_to_value 2

abbrev attr_container_get_as_float : List ℕ → List ℕ → Outcome ℕ
attr_container_get_as_float = attr_buf_to_value 4

abbrev attr_container_get_as_double : List ℕ → List ℕ → Outcome ℕ
attr_container_get_as_double = attr_buf_to_value 8

abbrev attr_container_get_as_bool : List ℕ → List ℕ → Outcome ℕ
attr_container_get_as_bool = attr_buf_to_value 1

-- The offset of the characters.
abbrev attr_container_get_as_string : List ℕ → List ℕ → Outcome ℕ
attr_container_get_as_string buf key =
    attr_container_get_as_bytearray buf key >>= λ found. ok found.0

-- The offset of the tag.
abbrev attr_container_get_tag : ℕ
attr_container_get_tag = 4 + 2
