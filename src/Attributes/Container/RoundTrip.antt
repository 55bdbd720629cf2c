-- ===== src/Attributes/Container/RoundTrip.antt =====
-- Setting attributes and getting them back: app-framework/app-native-shared/attr_container.c.
use wamr_app_framework.Prelude.{
  zeros, length-zeros, ℕ, ◌+◌, ◌^◌, ◌%◌, ◌<◌, ◌≡◌, ◌⊎◌, inl, inr, refl, sym, ap, subst, ◌∙◌, List,
  [], ◌∷◌, ◌++◌, append_assoc, Bool, true, false, not, Option, none, some, ◌==◌, if◌then◌else◌,
  take, take_all, length, length-append, str_eq, All, arith,
}
use wamr_app_framework.Restful.{ok}
use wamr_app_framework.Attributes.{
  AttrContainer, attr_container_serialize, attr_container_get_serialize_length, attr_type_int,
  u16_bytes, u32_bytes, read_bytes, number_of, is_readonly, attr_container_get_as_int,
}
use wamr_app_framework.Attributes.Update.{
  tag_bytes, attr_container_create, check_set_attr, value_bytes, attr_container_set_int,
}
use wamr_app_framework.Attributes.Layout.{Attr, encode_value, encode, encode_all, IsAttr}
use wamr_app_framework.Attributes.Layout.Walk.{total_size}
use wamr_app_framework.Attributes.Container.{header, IsContainer, total_at}
use wamr_app_framework.Attributes.Container.Write.{IsInMemory}
use wamr_app_framework.Attributes.Container.Entries.{put, put-All, lookup-put, HasDistinctKeys}
use wamr_app_framework.Attributes.Container.Keys.{put-HasDistinctKeys}
use wamr_app_framework.Attributes.Container.Append.{IsAllocator, OutOfMemory, header-IsContainer}
use wamr_app_framework.Attributes.Container.Set.{attr_container_set_attr-put}
use wamr_app_framework.Attributes.Container.Read.{
  HasKnownType, number_for, attr_buf_to_value-lookup,
}

-- A container with distinct keys and types that the public functions set.
pub record IsDictionary (c : AttrContainer) (tag : List ℕ) (attrs : List Attr) (slack : List ℕ)
    : Type 0 where
  pub container : IsContainer c tag attrs slack
  pub distinct : HasDistinctKeys attrs
  pub known : All HasKnownType attrs

-- `attr_container_create` gives, where its block can be allocated, an empty dictionary with the tag,
-- which is shorter than 65535 characters, and 98 bytes to spare; it is not constant.
pub attr_container_create-IsDictionary :
    (malloc : ℕ → Bool) (tag : Option (List ℕ))
    → length (tag_bytes tag) < 2 ^ 16
    → malloc (2 + (4 + 2 + length (tag_bytes tag) + 100)) ≡ true
    → (c : AttrContainer) × (attr_container_create malloc tag ≡ some c)
      × IsDictionary c (tag_bytes tag) [] (zeros 98)
      × (is_readonly c.flags ≡ false)
attr_container_create-IsDictionary malloc tag lt m =
    let t = tag_bytes tag in
    let total : ℕ = 4 + 2 + length t + 100 in
    let given : 0 < length t = tag_given tag in
    let spare = length-zeros 98 in
    let made = u32_bytes total ++ (u16_bytes (length t) ++ (t ++ zeros 100)) in
    let c : AttrContainer = record { flags = 0; buf = made } in
    let cleared : zeros 100 ≡ u16_bytes 0 ++ zeros 98 = unfold zeros u16_bytes in refl in
    let same : header total t 0 ++ encode_all [] (zeros 98) ≡ made =
      unfold header encode_all u32_bytes u16_bytes in
      ap (λ l. u32_bytes total ++ (u16_bytes (length t) ++ l))
        (append_assoc t (u16_bytes 0) (zeros 98) ∙ ap (λ z. t ++ z) (sym cleared)) in
    let nothing_yet : total_size [] ≡ 0 = unfold total_size in refl in
    let container : IsContainer
        (record { flags = 0; buf = header total t 0 ++ encode_all [] (zeros 98) }) t [] (zeros 98) =
      header-IsContainer 0 total t [] (zeros 98) (omega arith) given lt (omega arith) tt
        (omega arith) (omega arith) in
    (
      c,
      (unfold attr_container_create in ground (arith, m)),
      record {
        container =
            subst (λ b. IsContainer (record { flags = 0; buf = b }) t [] (zeros 98)) same container;
        distinct = tt;
        known = tt;
      },
      refl,
    )
  where
    tag_given : (tag : Option (List ℕ)) → 0 < length (tag_bytes tag)
    tag_given none = omega arith
    tag_given (some cs) = omega (arith, length-append cs (0 ∷ []))

-- An `int` as an attribute.
abbrev pub int_attr : List ℕ → ℕ → Attr
int_attr key value = record { key = key; type_of = attr_type_int; value = u32_bytes value }

int_attr-IsAttr : (key : List ℕ) (value : ℕ) → length key + 1 < 2 ^ 16 → IsAttr (int_attr key value)
unfolding u32_bytes
int_attr-IsAttr key value h = record { key_u16 = h; size = inl (omega arith, refl) }

number_of-u32_bytes : (value : ℕ) → value < 2 ^ 32 → number_of (u32_bytes value) % 256 ^ 4 ≡ value
unfolding u32_bytes number_of
number_of-u32_bytes value h = omega arith

number_for_int :
    (key : List ℕ) (value : ℕ) → value < 2 ^ 32 → number_for 4 (int_attr key value) ≡ value
number_for_int key value h =
    let four : take 4 (u32_bytes value) ≡ u32_bytes value = unfold u32_bytes in refl in
    let length_four : length (u32_bytes value) ≡ 4 = unfold u32_bytes in refl in
    ground (arith, four, length_four, number_of-u32_bytes value h)

-- A call of `attr_container_set_int` on a dictionary, and `attr_container_get_as_int` of any key after it: the
-- call succeeds, or fails for want of memory and changes nothing; after a success the key has the
-- value, an `int`, every other key what it had, and the container is a dictionary again. The key is
-- not empty and shorter than 65535 characters, the call is not refused, there are fewer than 65535
-- attributes, and the container with 100 bytes to spare stays below 2 ^ 32 bytes.
pub attr_container_get_as_int-attr_container_set_int :
    (malloc : ℕ → Option (List ℕ)) (c : AttrContainer) (tag : List ℕ) (attrs : List Attr)
    (slack key : List ℕ) (value : ℕ)
    → IsDictionary c tag attrs slack
    → IsAllocator malloc
    → value < 2 ^ 32
    → length key + 1 < 2 ^ 16
    → check_set_attr c key ≡ true
    → length attrs + 1 < 2 ^ 16
    → length c.buf + length (encode (int_attr key value)) + 100 < 2 ^ 32
    → OutOfMemory malloc (attr_container_set_int malloc c key value) c
      ⊎ ((c' : AttrContainer) × (slack' : List ℕ) × (attr_container_set_int malloc c key value
            ≡ ok (true, c'))
          × IsDictionary c' tag (put (int_attr key value) attrs) slack'
          × ((other : List ℕ)
              → attr_container_get_as_int c'.buf other
                ≡ (if str_eq key other then ok value else attr_container_get_as_int c.buf other)))
attr_container_get_as_int-attr_container_set_int malloc c tag attrs slack key value d allocator v k
      allowed count fits =
    let a = int_attr key value in
    let ha = int_attr-IsAttr key value k in
    let given : IsInMemory a (u32_bytes value) 4 = (
      (unfold value_bytes encode_value read_bytes u32_bytes in refl),
      λ lt. (unfold u32_bytes in refl),
    ) in
    elim (attr_container_set_attr-put malloc c tag attrs slack d.container a ha allocator count fits
      (u32_bytes value) 4 given allowed) [
        | inl out ↦ inl out
        | inr (buf, slack', done, after) ↦
            let c' : AttrContainer = record c { buf = buf } in
            let d' : IsDictionary c' tag (put a attrs) slack' = record {
              container = after;
              distinct = put-HasDistinctKeys a attrs d.distinct;
              known = put-All HasKnownType a attrs ((ground arith, ground arith)) d.known;
            } in
            let same = number_for_int key value v in
            inr (
              c',
              slack',
              done,
              d',
              λ other. ground (
                arith,
                attr_buf_to_value-lookup c' tag (put a attrs) slack' after other 4 d'.known,
                attr_buf_to_value-lookup c tag attrs slack d.container other 4 d.known,
                lookup-put other a attrs d.distinct,
                same,
              ),
            )
      ]

-- `attr_container_set_attr` is not refused on a constant container, whose implementation bits are 0 as
-- `attr_container_create` leaves them: only an empty key is.
pub check_set_attr-is_readonly :
    (c : AttrContainer) (key : List ℕ)
    → is_readonly c.flags ≡ true
    → c.flags % 4 ≡ 0
    → check_set_attr c key ≡ not (length key == 0)
unfolding check_set_attr
check_set_attr-is_readonly c key constant bits = ground arith

-- A call of `attr_container_serialize` writes the whole container, its buffer unchanged behind the flags, which
-- say that it is constant, and as many bytes as `attr_container_get_serialize_length` says; there is
-- room for two more bytes in a `uint32`.
pub attr_container_serialize-IsContainer :
    (c : AttrContainer) (tag : List ℕ) (attrs : List Attr) (slack : List ℕ)
    → IsContainer c tag attrs slack
    → length c.buf + 2 < 2 ^ 32
    → (flags : ℕ) × (attr_container_serialize c ≡ ok (u16_bytes flags ++ c.buf))
      × (is_readonly flags ≡ true)
      × (attr_container_get_serialize_length c ≡ ok (length (u16_bytes flags ++ c.buf)))
attr_container_serialize-IsContainer c tag attrs slack h lt =
    let total = total_at c tag attrs slack h in
    let whole : take (length c.buf) c.buf ≡ c.buf = take_all (length c.buf) c.buf (omega arith) in
    let read : read_bytes c.buf 0 (length c.buf) ≡ ok c.buf =
      unfold read_bytes in ground (arith, whole) in
    let flags : ℕ = if is_readonly c.flags then c.flags else c.flags + 4 in
    (
      flags,
      (unfold attr_container_serialize in ground (arith, total, read)),
      ground arith,
      (unfold attr_container_get_serialize_length u16_bytes in ground (arith, total, lt)),
    )
