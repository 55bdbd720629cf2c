-- ===== src/Attributes/Examples.antt =====
-- The theorems on attribute containers at a concrete container.
use wamr_app_framework.Prelude.{
  zeros, length-zeros, ℕ, ◌≡◌, ◌⊎◌, inl, inr, refl, List, [], ◌∷◌, ◌++◌, true, Option, none, some,
  if◌then◌else◌, str_eq, length, All, arith,
}
use wamr_app_framework.Restful.{ok, null}
use wamr_app_framework.Attributes.{
  AttrContainer, is_readonly, u16_bytes, u32_bytes, read_bytes, attr_buf_to_value,
  attr_container_get_as_int, attr_container_get_as_bytearray, attr_container_serialize,
  attr_container_get_serialize_length,
}
use wamr_app_framework.Attributes.Update.{
  check_set_attr, value_bytes, attr_container_set_attr, attr_container_set_int,
}
use wamr_app_framework.Attributes.Layout.{
  Attr, encode, encode_head, encode_value, encode_all, IsAttr,
}
use wamr_app_framework.Attributes.Layout.Walk.{total_size}
use wamr_app_framework.Attributes.Container.{header, IsContainer}
use wamr_app_framework.Attributes.Container.Entries.{lookup, put, split_key}
use wamr_app_framework.Attributes.Container.Append.{
  IsAllocator, OutOfMemory, Sets, header-IsContainer,
}
use wamr_app_framework.Attributes.Container.Set.{attr_container_set_attr-put}
use wamr_app_framework.Attributes.Container.Read.{
  number_for, attr_buf_to_value-lookup, attr_container_get_as_bytearray-lookup,
}
use wamr_app_framework.Attributes.Container.RoundTrip.{
  IsDictionary, int_attr, attr_container_get_as_int-attr_container_set_int,
  check_set_attr-is_readonly, attr_container_serialize-IsContainer,
}

abbrev tag : List ℕ
tag = 0x74 ∷ 0 ∷ []

-- "a" is the text "hi", and "b" the number 7.
abbrev greeting : Attr
greeting = record { key = 0x61 ∷ []; type_of = 13; value = 0x68 ∷ 0x69 ∷ 0 ∷ [] }

abbrev seven : Attr
seven = record { key = 0x62 ∷ []; type_of = 2; value = 7 ∷ 0 ∷ 0 ∷ 0 ∷ [] }

abbrev two : List Attr
two = greeting ∷ seven ∷ []

abbrev spare : List ℕ
spare = 0 ∷ 0 ∷ 0 ∷ []

abbrev small : AttrContainer
small = record { flags = 0; buf = header 32 tag 2 ++ encode_all two spare }

two-IsAttr : All IsAttr two
two-IsAttr = (
  record { key_u16 = omega arith; size = inr (inl (refl, omega arith)) },
  (record { key_u16 = omega arith; size = inl (omega arith, refl) }, tt),
)

sizes_of_two : (total_size two ≡ 19) × (length (encode greeting) ≡ 10) × (length (encode seven) ≡ 9)
unfolding total_size encode encode_head encode_value u16_bytes u32_bytes
sizes_of_two = (refl, refl, refl)

small-IsContainer : IsContainer small tag two spare
small-IsContainer =
    let n = sizes_of_two in
    header-IsContainer 0 32 tag two spare (omega arith) (omega arith) (omega arith) (omega arith)
      two-IsAttr (omega arith) (omega arith)

small-IsDictionary : IsDictionary small tag two spare
unfolding lookup str_eq
small-IsDictionary = record {
  container = small-IsContainer;
  distinct = (refl, (refl, tt));
  known = (
    ((λ e. absurd (omega arith)), λ e. absurd (omega arith)),
    (((λ e. absurd (omega arith)), λ e. absurd (omega arith)), tt),
  );
}

length-small : length (header 32 tag 2 ++ encode_all two spare) ≡ 32
unfolding header encode_all encode encode_head encode_value u16_bytes u32_bytes
length-small = refl

-- An allocator of cleared blocks.
abbrev cleared : ℕ → Option (List ℕ)
cleared n = some (zeros n)

cleared-IsAllocator : IsAllocator cleared
cleared-IsAllocator n b e = ground (arith, e, length-zeros n)

length_of_eight : length (encode (int_attr (0x62 ∷ []) 8)) ≡ 9
unfolding encode encode_head encode_value u16_bytes u32_bytes
length_of_eight = refl

eight-IsAllowed : check_set_attr small (0x62 ∷ []) ≡ true
unfolding check_set_attr
eight-IsAllowed = refl

attr_container_get_as_int-attr_container_set_int_example :
    OutOfMemory cleared (attr_container_set_int cleared small (0x62 ∷ []) 8) small
    ⊎ ((c' : AttrContainer) × (slack' : List ℕ) × (attr_container_set_int cleared small
            (0x62 ∷ [])
            8
          ≡ ok (true, c'))
        × IsDictionary c' tag (put (int_attr (0x62 ∷ []) 8) two) slack'
        × ((other : List ℕ)
            → attr_container_get_as_int c'.buf other ≡ (
                if str_eq (0x62 ∷ []) other
                then ok 8
                else attr_container_get_as_int small.buf other)))
attr_container_get_as_int-attr_container_set_int_example =
    attr_container_get_as_int-attr_container_set_int cleared small tag two spare (0x62 ∷ []) 8
      small-IsDictionary cleared-IsAllocator (omega arith) (omega arith) eight-IsAllowed
      (omega arith) (omega (arith, length-small, length_of_eight))

-- A longer text for "a", which moves the number to the front.
abbrev longer_greeting : Attr
longer_greeting = record { key = 0x61 ∷ []; type_of = 13; value = 0x68 ∷ 0x65 ∷ 0x79 ∷ 0 ∷ [] }

length_of_longer : length (encode longer_greeting) ≡ 11
unfolding encode encode_head encode_value u16_bytes
length_of_longer = refl

longer_greeting-IsAttr : IsAttr longer_greeting
longer_greeting-IsAttr = record { key_u16 = omega arith; size = inr (inl (refl, omega arith)) }

longer_in_memory :
    value_bytes 13 (0x68 ∷ 0x65 ∷ 0x79 ∷ 0 ∷ []) 4
    ≡ ok (encode_value 13 (0x68 ∷ 0x65 ∷ 0x79 ∷ 0 ∷ []))
unfolding value_bytes encode_value read_bytes u16_bytes
longer_in_memory = refl

longer-IsAllowed : check_set_attr small (0x61 ∷ []) ≡ true
unfolding check_set_attr
longer-IsAllowed = refl

moved_to_the_end : put longer_greeting two ≡ seven ∷ longer_greeting ∷ []
unfolding put split_key str_eq encode encode_head encode_value u16_bytes
moved_to_the_end = refl

attr_container_set_attr-put_example :
    let o = attr_container_set_attr cleared small (0x61 ∷ []) 13 (0x68 ∷ 0x65 ∷ 0x79 ∷ 0 ∷ []) 4 in
    OutOfMemory cleared o small ⊎ Sets o small tag (put longer_greeting two)
attr_container_set_attr-put_example =
    attr_container_set_attr-put cleared small tag two spare small-IsContainer longer_greeting
      longer_greeting-IsAttr cleared-IsAllocator (omega arith)
      (omega (arith, length-small, length_of_longer)) (0x68 ∷ 0x65 ∷ 0x79 ∷ 0 ∷ []) 4
      (longer_in_memory, λ lt. refl) longer-IsAllowed

attr_buf_to_value-lookup_example :
    attr_buf_to_value 2 small.buf (0x61 ∷ [])
    ≡ ok (elim (lookup (0x61 ∷ []) two) [ none ↦ 0 | some x ↦ number_for 2 x ])
attr_buf_to_value-lookup_example =
    attr_buf_to_value-lookup small tag two spare small-IsContainer (0x61 ∷ []) 2
      small-IsDictionary.known

attr_container_get_as_bytearray-lookup_example :
    ((lookup (0x61 ∷ []) two ≡ none)
      × (attr_container_get_as_bytearray small.buf (0x61 ∷ []) ≡ null))
    ⊎ ((x : Attr) × (q : ℕ) × (lookup (0x61 ∷ []) two ≡ some x)
        × (attr_container_get_as_bytearray small.buf (0x61 ∷ []) ≡ ok (q, length x.value))
        × (read_bytes small.buf q (length x.value) ≡ ok x.value))
attr_container_get_as_bytearray-lookup_example =
    attr_container_get_as_bytearray-lookup small tag two spare small-IsContainer (0x61 ∷ [])
      small-IsDictionary.known

-- What `attr_container_serialize` gives of `small`, read as a container.
abbrev constant : AttrContainer
constant = record small { flags = 4 }

check_set_attr-is_readonly_example : check_set_attr constant (0x61 ∷ []) ≡ true
check_set_attr-is_readonly_example = check_set_attr-is_readonly constant (0x61 ∷ []) refl refl

attr_container_serialize-IsContainer_example :
    (flags : ℕ) × (attr_container_serialize small ≡ ok (u16_bytes flags ++ small.buf))
    × (is_readonly flags ≡ true)
    × (attr_container_get_serialize_length small ≡ ok (length (u16_bytes flags ++ small.buf)))
attr_container_serialize-IsContainer_example =
    attr_container_serialize-IsContainer small tag two spare small-IsContainer
      (omega (arith, length-small))
