-- ===== src/Attributes/Update.antt =====
-- The operations of app-framework/app-native-shared/attr_container.c that make a container and set its
-- attributes. `malloc n` is a block of `n` bytes with what stands in it, or `none`.
use wamr_app_framework.Prelude.{
  zeros, ℕ, ◌+◌, ◌-◌, ◌/◌, ◌%◌, ◌^◌, List, [], ◌∷◌, ◌++◌, Bool, true, false, not, ◌&&◌, Option,
  none, some, leb, ◌==◌, if◌then◌else◌, take, drop, length,
}
use wamr_app_framework.Restful.{Outcome, ok, null, fault, ◌>>=◌}
use wamr_app_framework.Attributes.{
  AttrContainer, attr_type_short, attr_type_int, attr_type_boolean, attr_type_string,
  attr_type_bytearray, u16_bytes, u32_bytes, get_uint16, get_uint32, read_bytes, write_bytes,
  attr_container_get_attr_next, attr_container_find_attr, attr_container_get_attr_end,
}

-- The bytes of the tag: `none` is NULL.
abbrev pub tag_bytes : Option (List ℕ) → List ℕ
tag_bytes none = 0 ∷ []
tag_bytes (some tag) = tag ++ (0 ∷ [])

-- `malloc` says whether the allocation succeeds; the block is cleared.
unfoldable pub attr_container_create : (ℕ → Bool) → Option (List ℕ) → Option AttrContainer
attr_container_create malloc tag =
    let tag_length : ℕ = length (tag_bytes tag) in
    let buf_length : ℕ = 4 + 2 + tag_length + 100 in
    if malloc (2 + buf_length)
    then some (record {
      flags = 0;
      buf = u32_bytes buf_length ++ (u16_bytes tag_length ++ (tag_bytes tag ++ zeros 100));
    })
    else none

-- `flags & ATTR_CONT_READONLY_SHIFT`, that is `flags & 2`; the key is not NULL.
unfoldable pub check_set_attr : AttrContainer → List ℕ → Bool
check_set_attr c key = not (length key == 0) && not (c.flags / 2 % 2 == 1)

-- The bytes of a value behind its type, where `value` is the memory at the pointer.
unfoldable pub value_bytes : ℕ → List ℕ → ℕ → Outcome (List ℕ)
value_bytes type value value_length =
    if leb type attr_type_boolean
    then read_bytes value 0 (2 ^ (type % 4))
    else if type == attr_type_string
    then read_bytes value 0 value_length >>= (λ bytes. ok (u16_bytes value_length ++ bytes))
    else if type == attr_type_bytearray
    then read_bytes value 0 value_length >>= (λ bytes. ok (u32_bytes value_length ++ bytes))
    else ok []

-- `attr_len`, a `uint32_t`.
unfoldable pub attr_len : List ℕ → ℕ → ℕ → ℕ
attr_len key type value_length =
    let head : ℕ = 2 + length key + 1 + 1 in
    (if leb type attr_type_boolean
      then head + 2 ^ (type % 4)
      else if type == attr_type_string
      then head + (2 + value_length)
      else if type == attr_type_bytearray
      then head + (4 + value_length)
      else head)
    % 2 ^ 32

-- `attr_buf`, written into its block. The length of the key is a `uint16_t`.
unfoldable pub fill_attr_buf : List ℕ → ℕ → List ℕ → ℕ → List ℕ → Outcome (List ℕ)
fill_attr_buf key type value value_length attr_block = do
  let str_len = (length key + 1) % 2 ^ 16
  bytes ← value_bytes type value value_length
  write_bytes attr_block 0
      (u16_bytes str_len ++ (take str_len (key ++ (0 ∷ [])) ++ ((type % 256) ∷ bytes)))

unfoldable pub attr_container_inc_attr_num : List ℕ → Outcome (List ℕ)
attr_container_inc_attr_num buf = do
  str_len ← get_uint16 buf 4
  attr_num ← get_uint16 buf (6 + str_len)
  write_bytes buf (6 + str_len) (u16_bytes (attr_num + 1))

-- The two ways in which a longer container is made: the bytes before an attribute, those behind it,
-- and the new attribute, in a new block.
unfoldable pub replace_in_block :
    AttrContainer → ℕ → ℕ → ℕ → ℕ → List ℕ → List ℕ → Outcome (Bool × AttrContainer)
replace_in_block c total_length p p1 attr_end attr_buf new_block = do
  before ← read_bytes c.buf 0 p
  behind ← read_bytes c.buf p1 (attr_end - p1)
  with_before ← write_bytes (drop 2 new_block) 0 before
  with_behind ← write_bytes with_before p behind
  with_attr ← write_bytes with_behind (p + (attr_end - p1)) attr_buf
  buf ← write_bytes with_attr 0 (u32_bytes total_length)
  ok (true, record c { buf = buf })

unfoldable pub append_in_block :
    AttrContainer → ℕ → ℕ → List ℕ → List ℕ → Outcome (Bool × AttrContainer)
append_in_block c total_length attr_end attr_buf new_block = do
  before ← read_bytes c.buf 0 attr_end
  with_before ← write_bytes (drop 2 new_block) 0 before
  with_attr ← write_bytes with_before attr_end attr_buf
  counted ← attr_container_inc_attr_num with_attr
  buf ← write_bytes counted 0 (u32_bytes total_length)
  ok (true, record c { buf = buf })

-- The branch for a key that is found at `p`; `p1` is the next attribute.
unfoldable pub replace_attr :
    (ℕ → Option (List ℕ)) → AttrContainer → ℕ → ℕ → List ℕ → ℕ → ℕ → Outcome (Bool × AttrContainer)
replace_attr malloc c total_length attr_end attr_buf p p1 =
    let len : ℕ = length attr_buf in
    let longer : ℕ = (total_length + len + 100) % 2 ^ 32 in
    if p1 - p == len
    then write_bytes c.buf p attr_buf >>= (λ buf. ok (true, record c { buf = buf }))
    else if leb len ((p1 - p + total_length + 2 ^ 32 - attr_end) % 2 ^ 32)
    then read_bytes c.buf p1 (attr_end - p1) >>= (λ moved. write_bytes c.buf p moved >>= (λ buf.
      write_bytes buf (p + (attr_end - p1)) attr_buf
      >>= (λ buf'. ok (true, record c { buf = buf' }))))
    else elim (malloc (2 + longer)) [
      | none ↦ ok (false, c)
      | some new_block ↦ replace_in_block c longer p p1 attr_end attr_buf new_block
    ]

-- The branch for a new key.
unfoldable pub append_attr :
    (ℕ → Option (List ℕ)) → AttrContainer → ℕ → ℕ → List ℕ → Outcome (Bool × AttrContainer)
append_attr malloc c total_length attr_end attr_buf =
    let len : ℕ = length attr_buf in
    let longer : ℕ = (total_length + len + 100) % 2 ^ 32 in
    if leb len ((total_length + 2 ^ 32 - attr_end) % 2 ^ 32)
    then write_bytes c.buf attr_end attr_buf
      >>= (λ buf. attr_container_inc_attr_num buf >>= (λ buf'. ok (true, record c { buf = buf' })))
    else elim (malloc (2 + longer)) [
      | none ↦ ok (false, c)
      | some new_block ↦ append_in_block c longer attr_end attr_buf new_block
    ]

-- `attr_container_get_attr_next` of an attribute that was found does not fail: the attributes have
-- been gone through before.
unfoldable pub place_attr :
    (ℕ → Option (List ℕ)) → AttrContainer → List ℕ → ℕ → ℕ → List ℕ → Outcome (Bool × AttrContainer)
place_attr malloc c key total_length attr_end attr_buf = elim (attr_container_find_attr c.buf key) [
  | fault ↦ fault
  | null ↦ append_attr malloc c total_length attr_end attr_buf
  | ok p ↦ elim (attr_container_get_attr_next c.buf p) [
    | ok p1 ↦ replace_attr malloc c total_length attr_end attr_buf p p1
    | null ↦ fault
    | fault ↦ fault
  ]
]

unfoldable pub attr_container_set_attr :
    (ℕ → Option (List ℕ)) → AttrContainer → List ℕ → ℕ → List ℕ → ℕ → Outcome (Bool × AttrContainer)
attr_container_set_attr malloc c key type value value_length =
    if not (check_set_attr c key)
    then ok (false, c)
    else get_uint32 c.buf 0 >>= λ total_length. elim (attr_container_get_attr_end c.buf) [
      | fault ↦ fault
      | null ↦ ok (false, c)
      | ok attr_end ↦ elim (malloc (attr_len key type value_length)) [
        | none ↦ ok (false, c)
        | some attr_block ↦ fill_attr_buf key type value value_length attr_block >>= λ attr_buf.
            place_attr malloc c key total_length attr_end attr_buf
      ]
    ]

abbrev pub attr_container_set_short :
    (ℕ → Option (List ℕ)) → AttrContainer → List ℕ → ℕ → Outcome (Bool × AttrContainer)
attr_container_set_short malloc c key value =
    attr_container_set_attr malloc c key attr_type_short (u16_bytes value) 2

abbrev pub attr_container_set_int :
    (ℕ → Option (List ℕ)) → AttrContainer → List ℕ → ℕ → Outcome (Bool × AttrContainer)
attr_container_set_int malloc c key value =
    attr_container_set_attr malloc c key attr_type_int (u32_bytes value) 4

abbrev pub attr_container_set_bool :
    (ℕ → Option (List ℕ)) → AttrContainer → List ℕ → Bool → Outcome (Bool × AttrContainer)
attr_container_set_bool malloc c key value =
    attr_container_set_attr malloc c key attr_type_boolean
      (elim value [ true ↦ 1 ∷ [] | false ↦ 0 ∷ [] ]) 1

-- `none` is NULL.
unfoldable pub attr_container_set_string :
    (ℕ → Option (List ℕ))
    → AttrContainer
    → List ℕ
    → Option (List ℕ)
    → Outcome (Bool × AttrContainer)
attr_container_set_string malloc c key none = ok (false, c)
attr_container_set_string malloc c key (some value) =
    attr_container_set_attr malloc c key attr_type_string (value ++ (0 ∷ [])) (length value + 1)

unfoldable pub attr_container_set_bytearray :
    (ℕ → Option (List ℕ))
    → AttrContainer
    → List ℕ
    → Option (List ℕ)
    → ℕ
    → Outcome (Bool × AttrContainer)
attr_container_set_bytearray malloc c key none value_length = ok (false, c)
attr_container_set_bytearray malloc c key (some value) value_length =
    attr_container_set_attr malloc c key attr_type_bytearray value value_length
