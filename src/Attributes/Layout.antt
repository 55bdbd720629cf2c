-- ===== src/Attributes/Layout.antt =====
-- What the buffer of an attribute container holds: the format that bi-inc/attr_container.h gives, and
-- the walk over it in app-framework/app-native-shared/attr_container.c.
pub mod Walk
use wamr_app_framework.Prelude.{
  ℕ, zero, suc, ◌+◌, ◌^◌, ◌%◌, ◌/◌, ◌*◌, ◌≤◌, ◌<◌, ◌≡◌, ◌⊎◌, inl, inr, refl, sym, ap, subst, ◌∙◌,
  List, [], ◌∷◌, ◌++◌, append_assoc, Bool, true, false, Option, none, some, leb, ltb, ◌==◌,
  if◌then◌else◌, str_eq, str_eq_iff, str_eq_comm, str_eq_refl, take, drop, length, get_elem?,
  length-append, drop-append, drop-add, get_elem?-add, get_elem?-append, take-append, All,
  Bool-cases, arith,
}
use wamr_app_framework.Restful.{Outcome, ok, null, fault, ◌>>=◌}
use wamr_app_framework.Restful.Packet.{read_byte}
use wamr_app_framework.Attributes.{
  attr_type_boolean, attr_type_string, attr_type_bytearray, u16_bytes, u32_bytes, u16_of, u32_of,
  get_uint16, read_bytes, skip_value, attr_container_get_attr_next, key_matches,
}

-- An attribute: its key without the terminator, its type, and the bytes of its value.
pub record Attr : Type 0 where
  pub key : List ℕ
  pub type_of : ℕ
  pub value : List ℕ

unfoldable pub encode_value : ℕ → List ℕ → List ℕ
encode_value type value =
    if leb type attr_type_boolean
    then value
    else if type == attr_type_string
    then u16_bytes (length value) ++ value
    else u32_bytes (length value) ++ value

-- The key with its length, and the type.
unfoldable pub encode_head : Attr → List ℕ
encode_head a = u16_bytes (length a.key + 1) ++ (a.key ++ (0 ∷ a.type_of ∷ []))

unfoldable pub encode : Attr → List ℕ
encode a = encode_head a ++ encode_value a.type_of a.value

-- The attributes, and what is behind them.
unfoldable pub encode_all : List Attr → List ℕ → List ℕ
encode_all [] slack = slack
encode_all (a ∷ attrs) slack = encode a ++ encode_all attrs slack

-- The value is as long as its type says, or its length fits the field for it.
abbrev pub HasSize : Attr → Type 0
HasSize a =
    ((a.type_of ≤ attr_type_boolean) × (length a.value ≡ 2 ^ (a.type_of % 4)))
    ⊎ (((a.type_of ≡ attr_type_string) × (length a.value < 2 ^ 16))
        ⊎ ((a.type_of ≡ attr_type_bytearray) × (length a.value < 2 ^ 32)))

pub record IsAttr (a : Attr) : Type 0 where
  pub key_u16 : length a.key + 1 < 2 ^ 16
  pub size : HasSize a

pub length-encode_head : (a : Attr) → length (encode_head a) ≡ 2 + length a.key + 2
unfolding encode_head u16_bytes
length-encode_head a = omega (arith, length-append a.key (0 ∷ a.type_of ∷ []))

-- What is read at a pointer whose memory is known.
pub drop_behind :
    (buf : List ℕ) (p n : ℕ) (xs ys : List ℕ)
    → drop p buf ≡ xs ++ ys
    → length xs ≡ n
    → drop (p + n) buf ≡ ys
drop_behind buf p n xs ys e h = drop-add p n buf ∙ ap (drop n) e ∙ drop-append n xs ys h

pub get_uint16_at :
    (buf : List ℕ) (p n : ℕ) (rest : List ℕ)
    → drop p buf ≡ u16_bytes n ++ rest
    → n < 2 ^ 16
    → get_uint16 buf p ≡ ok n
unfolding u16_bytes u16_of
get_uint16_at buf p n rest e h =
    let digits : n % 256 + n / 256 % 256 * 256 ≡ n = omega arith in ap u16_of e ∙ ap ok digits

pub get_uint32_at :
    (buf : List ℕ) (p n : ℕ) (rest : List ℕ)
    → drop p buf ≡ u32_bytes n ++ rest
    → n < 2 ^ 32
    → u32_of (drop p buf) ≡ ok n
unfolding u32_bytes u32_of
get_uint32_at buf p n rest e h =
    let digits : n % 256
          + n / 256 % 256 * 256
          + n / 65536 % 256 * 65536
          + n / 16777216 % 256 * 16777216
        ≡ n =
      omega arith in
    ap u32_of e ∙ ap ok digits

pub read_byte_at :
    (buf : List ℕ) (p n b : ℕ) (xs ys : List ℕ)
    → drop p buf ≡ xs ++ (b ∷ ys)
    → length xs ≡ n
    → read_byte buf (p + n) ≡ ok b
read_byte_at buf p n b xs ys e h =
    let found : get_elem? buf (p + n) ≡ some b =
      get_elem?-add p n buf ∙ ap (λ l. get_elem? l n) e ∙ get_elem?-append n xs b ys h in
    ground (arith, found)
