-- ===== src/Attributes.antt =====
-- Attribute containers, the key-value payloads of messages:
-- app-framework/app-native-shared/attr_container.c and bi-inc/attr_container.h. The machine is
-- little-endian, and asserts are off. A pointer into a container is an offset in its `buf`; a read or
-- a write outside the memory of `buf` is a fault.
pub mod Update
pub mod Typed
pub mod Layout
pub mod Container
mod Examples
use wamr_app_framework.Prelude.{
  ℕ, zero, suc, ◌+◌, ◌*◌, ◌/◌, ◌%◌, ◌^◌, List, [], ◌∷◌, ◌++◌, Bool, true, false, not, ◌&&◌, Option,
  none, some, leb, ltb, ◌==◌, if◌then◌else◌, str_eq, take, drop, length,
}
use wamr_app_framework.Restful.{Outcome, ok, null, fault, ◌>>=◌, ◌>>◌}
use wamr_app_framework.Restful.Packet.{read_byte, guard}

-- `attr_container_t`: `flags` as the number of its two bytes, and the memory from `buf` on.
pub record AttrContainer : Type 0 where
  pub flags : ℕ
  pub buf : List ℕ

abbrev pub attr_type_byte : ℕ
attr_type_byte = 0

abbrev pub attr_type_short : ℕ
attr_type_short = 1

abbrev pub attr_type_int : ℕ
attr_type_int = 2

abbrev pub attr_type_int64 : ℕ
attr_type_int64 = 3

abbrev pub attr_type_boolean : ℕ
attr_type_boolean = 12

abbrev pub attr_type_string : ℕ
attr_type_string = 13

abbrev pub attr_type_bytearray : ℕ
attr_type_bytearray = 14

-- `set_uint16` and `set_uint32` of a number: the bytes that they write.
unfoldable pub u16_bytes : ℕ → List ℕ
u16_bytes n = (n % 256) ∷ (n / 256 % 256) ∷ []

unfoldable pub u32_bytes : ℕ → List ℕ
u32_bytes n = (n % 256) ∷ (n / 256 % 256) ∷ (n / 65536 % 256) ∷ (n / 16777216 % 256) ∷ []

unfoldable pub u16_of : List ℕ → Outcome ℕ
u16_of [] = fault
u16_of (a ∷ []) = fault
u16_of (a ∷ b ∷ rest) = ok (a + b * 256)

unfoldable pub u32_of : List ℕ → Outcome ℕ
u32_of (a ∷ b ∷ c ∷ d ∷ rest) = ok (a + b * 256 + c * 65536 + d * 16777216)
u32_of _ = fault

abbrev pub get_uint16 : List ℕ → ℕ → Outcome ℕ
get_uint16 buf p = u16_of (drop p buf)

abbrev pub get_uint32 : List ℕ → ℕ → Outcome ℕ
get_uint32 buf p = u32_of (drop p buf)

-- The source of a `memcpy` of `n` bytes at `p`: `bh_memcpy_s` as the applications are built with it,
-- where it is a `memcpy` (app-framework/base/app/bh_platform.h). In the native build, which is not
-- modelled, a copy that is longer than its destination is refused.
unfoldable pub read_bytes : List ℕ → ℕ → ℕ → Outcome (List ℕ)
read_bytes buf p n = if leb (p + n) (length buf) then ok (take n (drop p buf)) else fault

-- The memory after a `memcpy` to `p`.
unfoldable pub write_bytes : List ℕ → ℕ → List ℕ → Outcome (List ℕ)
write_bytes buf p bytes =
    if leb (p + length bytes) (length buf)
    then ok (take p buf ++ (bytes ++ drop (p + length bytes) buf))
    else fault

-- What `attr_container_get_attr_begin` finds: the first attribute, and the two numbers.
pub record Begin : Type 0 where
  pub at : ℕ
  pub total_length : ℕ
  pub attr_num : ℕ

unfoldable pub attr_container_get_attr_begin : List ℕ → Outcome Begin
attr_container_get_attr_begin buf = do
  total_length ← get_uint32 buf 0
  guard (not (total_length == 0))
  str_len ← get_uint16 buf 4
  guard (not (str_len == 0))
  guard (ltb (6 + str_len) total_length)
  attr_num ← get_uint16 buf (6 + str_len)
  guard (ltb (6 + str_len + 2) total_length)
  ok (record { at = 6 + str_len + 2; total_length = total_length; attr_num = attr_num })

-- The end of a value of a type.
unfoldable pub skip_value : List ℕ → ℕ → ℕ → Outcome ℕ
skip_value buf type p =
    if leb type attr_type_boolean
    then ok (p + 2 ^ (type % 4))
    else if type == attr_type_string
    then get_uint16 buf p >>= (λ n. ok (p + (2 + n)))
    else if type == attr_type_bytearray
    then get_uint32 buf p >>= (λ n. ok (p + (4 + n)))
    else null

unfoldable pub attr_container_get_attr_next : List ℕ → ℕ → Outcome ℕ
attr_container_get_attr_next buf p = do
  key_len ← get_uint16 buf p
  type ← read_byte buf (p + (2 + key_len))
  skip_value buf type (p + (2 + key_len + 1))

-- `str_len == strlen(key) + 1 && memcmp(p + 2, key, str_len) == 0`.
unfoldable pub key_matches : List ℕ → ℕ → ℕ → List ℕ → Outcome Bool
key_matches buf p str_len key =
    if str_len == length key + 1
    then read_bytes buf (p + 2) str_len >>= (λ bytes. ok (str_eq bytes (key ++ (0 ∷ []))))
    else ok false

-- The loop of `attr_container_find_attr` on `n` more attributes, the first of them at `p`.
unfoldable pub find_from : List ℕ → ℕ → List ℕ → ℕ → ℕ → Outcome ℕ
find_from buf total_length key zero p = null
find_from buf total_length key (suc n) p = get_uint16 buf p >>= λ str_len.
    guard (not (str_len == 0))
    >> (key_matches buf p str_len key >>= λ found. elim found [
      | true ↦ if leb total_length (p + 2 + str_len) then null else ok p
      | false ↦ attr_container_get_attr_next buf p >>= λ next. find_from buf total_length key n next
    ])

unfoldable pub attr_container_find_attr : List ℕ → List ℕ → Outcome ℕ
attr_container_find_attr buf key =
    attr_container_get_attr_begin buf >>= λ b. find_from buf b.total_length key b.attr_num b.at

unfoldable pub end_from : List ℕ → ℕ → ℕ → Outcome ℕ
end_from buf zero p = ok p
end_from buf (suc n) p = attr_container_get_attr_next buf p >>= λ next. end_from buf n next

unfoldable pub attr_container_get_attr_end : List ℕ → Outcome ℕ
attr_container_get_attr_end buf =
    attr_container_get_attr_begin buf >>= λ b. end_from buf b.attr_num b.at

unfoldable pub attr_container_get_attr_num : List ℕ → Outcome ℕ
attr_container_get_attr_num buf = get_uint16 buf 4 >>= λ str_len. get_uint16 buf (6 + str_len)

-- Where the type of an attribute stands.
unfoldable pub attr_container_get_attr : List ℕ → List ℕ → Outcome ℕ
attr_container_get_attr buf key =
    attr_container_find_attr buf key >>= λ p. ok (p + 2 + length key + 1)

-- The number of little-endian bytes.
unfoldable pub number_of : List ℕ → ℕ
number_of [] = 0
number_of (b ∷ bs) = b + number_of bs * 256

-- The types that the two switches list as numbers.
abbrev pub is_number_type : ℕ → Bool
is_number_type type = leb type attr_type_boolean && not (type == 8) && not (type == 9)

-- How many bytes `TEMPLATE_ATTR_BUF_TO_VALUE` copies into a value of `width` bytes, and from where.
unfoldable pub value_at : List ℕ → ℕ → ℕ → ℕ → Outcome (ℕ × ℕ)
value_at buf width type addr =
    if is_number_type type
    then ok (addr, 2 ^ (type % 4))
    else if type == attr_type_string
    then get_uint16 buf addr >>= (λ n. ok (addr + 2, if ltb width n then width else n))
    else if type == attr_type_bytearray
    then get_uint32 buf addr >>= (λ n. ok (addr + 4, if ltb width n then width else n))
    else ok (addr, 0)

-- `TEMPLATE_ATTR_BUF_TO_VALUE` for a value of `width` bytes, as the number of its bits: the value's
-- union of eight bytes starts with zeros.
unfoldable pub attr_buf_to_value : ℕ → List ℕ → List ℕ → Outcome ℕ
attr_buf_to_value width buf key = elim (attr_container_get_attr buf key) [
  | null ↦ ok 0
  | fault ↦ fault
  | ok addr ↦ do
    type ← read_byte buf addr
    place ← value_at buf width type (addr + 1)
    bytes ← read_bytes buf place.0 place.1
    ok (number_of bytes % 256 ^ width)
]

abbrev pub attr_container_get_as_short : List ℕ → List ℕ → Outcome ℕ
attr_container_get_as_short = attr_buf_to_value 2

abbrev pub attr_container_get_as_int : List ℕ → List ℕ → Outcome ℕ
attr_container_get_as_int = attr_buf_to_value 4

abbrev pub attr_container_get_as_int64 : List ℕ → List ℕ → Outcome ℕ
attr_container_get_as_int64 = attr_buf_to_value 8

abbrev pub attr_container_get_as_byte : List ℕ → List ℕ → Outcome ℕ
attr_container_get_as_byte = attr_buf_to_value 1

-- Where the bytes of a value of a type are, and how many.
unfoldable pub bytes_at : List ℕ → ℕ → ℕ → Outcome (ℕ × ℕ)
bytes_at buf type addr =
    if is_number_type type
    then ok (addr, 2 ^ (type % 4))
    else if type == attr_type_string
    then get_uint16 buf addr >>= (λ n. ok (addr + 2, n))
    else if type == attr_type_bytearray
    then get_uint32 buf addr >>= (λ n. ok (addr + 4, n))
    else null

-- The offset that is returned, and `*array_length`.
unfoldable pub attr_container_get_as_bytearray : List ℕ → List ℕ → Outcome (ℕ × ℕ)
attr_container_get_as_bytearray buf key = do
  addr ← attr_container_get_attr buf key
  type ← read_byte buf addr
  bytes_at buf type (addr + 1)

unfoldable pub attr_container_contain_key : List ℕ → List ℕ → Outcome Bool
attr_container_contain_key buf key =
    if length key == 0 then ok false else elim (attr_container_find_attr buf key) [
      | null ↦ ok false
      | fault ↦ fault
      | ok p ↦ ok true
    ]

unfoldable pub attr_container_get_serialize_length : AttrContainer → Outcome ℕ
attr_container_get_serialize_length c =
    get_uint32 c.buf 0 >>= λ total_length. ok ((2 + total_length) % 2 ^ 32)

abbrev pub is_readonly : ℕ → Bool
is_readonly flags = flags / 4 % 2 == 1

-- What `attr_container_serialize` writes to `buf`, whose memory is long enough.
unfoldable pub attr_container_serialize : AttrContainer → Outcome (List ℕ)
attr_container_serialize c = do
  total_length ← get_uint32 c.buf 0
  bytes ← read_bytes c.buf 0 total_length
  ok (u16_bytes (if is_readonly c.flags then c.flags else c.flags + 4) ++ bytes)

abbrev pub attr_container_is_constant : AttrContainer → Bool
attr_container_is_constant c = is_readonly c.flags
