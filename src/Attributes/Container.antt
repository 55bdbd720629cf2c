-- ===== src/Attributes/Container.antt =====
-- The whole buffer of a container of app-framework/app-native-shared/attr_container.c, and what the
-- functions that only read it find there.
pub mod Write
pub mod Entries
pub mod Append
pub mod Replace
pub mod Set
pub mod Read
pub mod Keys
pub mod RoundTrip
use wamr_app_framework.Prelude.{
  ℕ, zero, suc, ◌+◌, ◌^◌, ◌%◌, ◌*◌, ◌≤◌, ◌<◌, ◌≡◌, refl, sym, ap, subst, ◌∙◌, List, [], ◌∷◌, ◌++◌,
  append_assoc, Bool, true, false, Option, none, some, leb, ltb, ◌==◌, if◌then◌else◌, drop, length,
  length-append, drop-append, All, arith,
}
use wamr_app_framework.Restful.{Outcome, ok, null, fault, ◌>>=◌}
use wamr_app_framework.Attributes.{
  AttrContainer, Begin, u16_bytes, u32_bytes, u16_of, u32_of, get_uint16, get_uint32,
  attr_container_get_attr_begin, attr_container_find_attr, attr_container_get_attr_end,
}
use wamr_app_framework.Attributes.Layout.{
  Attr, encode_all, IsAttr, drop_behind, get_uint16_at, get_uint32_at,
}
use wamr_app_framework.Attributes.Layout.Walk.{
  total_size, length-encode_all, end_from-encode_all, position, place, find_from-encode_all,
}

-- What stands before the attributes: total length, tag length, tag and number of attributes. The tag
-- includes its terminator.
unfoldable pub header : ℕ → List ℕ → ℕ → List ℕ
header total tag n = u32_bytes total ++ (u16_bytes (length tag) ++ (tag ++ u16_bytes n))

pub length-header :
    (total : ℕ) (tag : List ℕ) (n : ℕ) → length (header total tag n) ≡ 8 + length tag
unfolding header u32_bytes u16_bytes
length-header total tag n = omega (arith, length-append tag (u16_bytes n))

-- A container with a tag, attributes and unused memory.
pub record IsContainer (c : AttrContainer) (tag : List ℕ) (attrs : List Attr) (slack : List ℕ)
    : Type 0 where
  pub whole : c.buf ≡ header (length c.buf) tag (length attrs) ++ encode_all attrs slack
  pub tag_given : 0 < length tag
  pub tag_u16 : length tag < 2 ^ 16
  pub count_u16 : length attrs < 2 ^ 16
  pub each : All IsAttr attrs
  pub room : 0 < total_size attrs + length slack
  pub total_u32 : length c.buf < 2 ^ 32

module _ (c : AttrContainer) (tag : List ℕ) (attrs : List Attr) (slack : List ℕ)
    (h : IsContainer c tag attrs slack) where
  header_assoc :
      (rest : List ℕ)
      → header (length c.buf) tag (length attrs) ++ rest
        ≡ u32_bytes (length c.buf)
          ++ (u16_bytes (length tag) ++ (tag ++ (u16_bytes (length attrs) ++ rest)))
  unfolding header u32_bytes u16_bytes
  header_assoc rest =
      ap (λ l. u32_bytes (length c.buf) ++ (u16_bytes (length tag) ++ l))
        (append_assoc tag (u16_bytes (length attrs)) rest)

  pub length-buf : length c.buf ≡ 8 + length tag + (total_size attrs + length slack)
  length-buf =
      ap length h.whole
      ∙ omega (
        arith,
        length-append (header (length c.buf) tag (length attrs)) (encode_all attrs slack),
        length-header (length c.buf) tag (length attrs),
        length-encode_all attrs slack,
      )

  pub total_at : get_uint32 c.buf 0 ≡ ok (length c.buf)
  total_at =
      get_uint32_at c.buf 0 (length c.buf) _ (h.whole ∙ header_assoc (encode_all attrs slack))
        h.total_u32

  tag_len_behind :
      drop 4 c.buf
      ≡ u16_bytes (length tag) ++ (tag ++ (u16_bytes (length attrs) ++ encode_all attrs slack))
  tag_len_behind =
      ap (drop 4) (h.whole ∙ header_assoc (encode_all attrs slack)) ∙ (unfold u32_bytes in refl)

  pub tag_len_at : get_uint16 c.buf 4 ≡ ok (length tag)
  tag_len_at = get_uint16_at c.buf 4 (length tag) _ tag_len_behind h.tag_u16

  count_behind : drop (6 + length tag) c.buf ≡ u16_bytes (length attrs) ++ encode_all attrs slack
  count_behind =
      let rest = u16_bytes (length attrs) ++ encode_all attrs slack in
      let tag_behind : drop 6 c.buf ≡ tag ++ rest =
        drop_behind c.buf 4 2 (u16_bytes (length tag)) (tag ++ rest) tag_len_behind
          (unfold u16_bytes in refl) in
      drop_behind c.buf 6 (length tag) tag rest tag_behind refl

  pub count_at : get_uint16 c.buf (6 + length tag) ≡ ok (length attrs)
  count_at = get_uint16_at c.buf (6 + length tag) (length attrs) _ count_behind h.count_u16

  pub attrs_behind : drop (8 + length tag) c.buf ≡ encode_all attrs slack
  attrs_behind =
      ap (drop (8 + length tag)) h.whole
      ∙ drop-append (8 + length tag) (header (length c.buf) tag (length attrs))
          (encode_all attrs slack) (length-header (length c.buf) tag (length attrs))

  pub attr_container_get_attr_begin-IsContainer :
      attr_container_get_attr_begin c.buf
      ≡ ok (record { at = 8 + length tag; total_length = length c.buf; attr_num = length attrs })
  unfolding attr_container_get_attr_begin
  attr_container_get_attr_begin-IsContainer =
      ground (arith, total_at, tag_len_at, count_at, length-buf, h.tag_given, h.room)

  pub attr_container_find_attr-position :
      (key : List ℕ)
      → attr_container_find_attr c.buf key ≡ place (8 + length tag) (position key attrs)
  unfolding attr_container_find_attr
  attr_container_find_attr-position key =
      let found =
        find_from-encode_all c.buf key attrs slack (8 + length tag) h.each attrs_behind
          (omega (arith, length-buf, length-encode_all attrs slack)) in
      ground (arith, attr_container_get_attr_begin-IsContainer, found)

  pub attr_container_get_attr_end-total_size :
      attr_container_get_attr_end c.buf ≡ ok (8 + length tag + total_size attrs)
  unfolding attr_container_get_attr_end
  attr_container_get_attr_end-total_size =
      let found = end_from-encode_all c.buf attrs slack (8 + length tag) h.each attrs_behind in
      ground (arith, attr_container_get_attr_begin-IsContainer, found)
