-- ===== src/Attributes/Container/Append.antt =====
-- The branch for a new key of `attr_container_set_attr` in
-- app-framework/app-native-shared/attr_container.c.
use wamr_app_framework.Prelude.{
  ℕ, ◌+◌, ◌-◌, ◌^◌, ◌%◌, ◌≤◌, ◌<◌, ◌≡◌, ◌⊎◌, inl, inr, refl, sym, ap, subst, ◌∙◌, List, [], ◌∷◌,
  ◌++◌, append-nil, append_assoc, Bool, true, false, Option, none, some, leb, take, drop, length,
  length-append, length-drop, length-take, take-append-drop, All, Bool-cases, Option-cases, arith,
}
use wamr_app_framework.Restful.{Outcome, ok}
use wamr_app_framework.Attributes.{AttrContainer, read_bytes, write_bytes}
use wamr_app_framework.Attributes.Update.{attr_container_inc_attr_num, append_attr, append_in_block}
use wamr_app_framework.Attributes.Layout.{
  Attr, encode, encode_head, encode_value, length-encode_head, encode_all, IsAttr,
}
use wamr_app_framework.Attributes.Layout.Walk.{total_size, length-encode_all}
use wamr_app_framework.Attributes.Container.{header, length-header, IsContainer, length-buf}
use wamr_app_framework.Attributes.Container.Write.{
  read_bytes-append, write_bytes-append, attr_container_inc_attr_num-header, write_bytes-header,
}
use wamr_app_framework.Attributes.Container.Entries.{
  All-append, encode_all-append, total_size-append,
}

-- `malloc` gives blocks of the size that was asked for.
abbrev pub IsAllocator : (ℕ → Option (List ℕ)) → Type 0
IsAllocator malloc = (n : ℕ) (b : List ℕ) → malloc n ≡ some b → length b ≡ n

-- A write over the first bytes behind `pre`.
pub write_bytes_over :
    (pre tail new : List ℕ) (p : ℕ)
    → length pre ≡ p
    → length new ≤ length tail
    → write_bytes (pre ++ tail) p new ≡ ok (pre ++ (new ++ drop (length new) tail))
write_bytes_over pre tail new p hp le =
    let n = length new in
    let taken : length (take n tail) ≡ n = omega (arith, length-take n tail) in
    ap (λ t. write_bytes (pre ++ t) p new) (sym (take-append-drop n tail))
    ∙ write_bytes-append pre (take n tail) (drop n tail) new p hp taken

pub encode_given : (a : Attr) → 0 < length (encode a)
unfolding encode
encode_given a =
    omega
      (arith, length-append (encode_head a) (encode_value a.type_of a.value), length-encode_head a)

-- A container made of its parts.
pub header-IsContainer :
    (flags total : ℕ) (tag : List ℕ) (attrs : List Attr) (slack : List ℕ)
    → total ≡ 8 + length tag + (total_size attrs + length slack)
    → 0 < length tag
    → length tag < 2 ^ 16
    → length attrs < 2 ^ 16
    → All IsAttr attrs
    → 0 < total_size attrs + length slack
    → total < 2 ^ 32
    → IsContainer
        (record { flags = flags; buf = header total tag (length attrs) ++ encode_all attrs slack })
        tag
        attrs
        slack
header-IsContainer flags total tag attrs slack e tag_given tag_u16 count_u16 each room total_u32 =
    let buf = header total tag (length attrs) ++ encode_all attrs slack in
    let len : length buf ≡ total = omega (
      arith,
      e,
      length-append (header total tag (length attrs)) (encode_all attrs slack),
      length-header total tag (length attrs),
      length-encode_all attrs slack,
    ) in
    record {
      whole = ap (λ t. header t tag (length attrs) ++ encode_all attrs slack) (sym len);
      tag_given = tag_given;
      tag_u16 = tag_u16;
      count_u16 = count_u16;
      each = each;
      room = room;
      total_u32 = omega arith;
    }

-- The call succeeds, and the container then has these attributes.
abbrev pub Sets : Outcome (Bool × AttrContainer) → AttrContainer → List ℕ → List Attr → Type 0
Sets o c tag attrs =
    (buf : List ℕ) × (slack : List ℕ) × (o ≡ ok (true, record c { buf = buf }))
    × IsContainer (record c { buf = buf }) tag attrs slack

-- The call fails for want of memory, and the container stays as it is.
abbrev pub OutOfMemory :
    (ℕ → Option (List ℕ)) → Outcome (Bool × AttrContainer) → AttrContainer → Type 0
OutOfMemory malloc o c = (o ≡ ok (false, c)) × ((n : ℕ) × (malloc n ≡ none))

module _ (malloc : ℕ → Option (List ℕ)) (c : AttrContainer) (tag : List ℕ) (attrs : List Attr)
    (slack : List ℕ) (h : IsContainer c tag attrs slack) (a : Attr) (ha : IsAttr a)
    (allocator : IsAllocator malloc) (count : length attrs + 1 < 2 ^ 16)
    (fits : length c.buf + length (encode a) + 100 < 2 ^ 32) where
  -- What stands before the end of the attributes, under any header.
  abbrev before_end : ℕ → ℕ → List ℕ
  before_end total n = header total tag n ++ encode_all attrs []

  length-before_end :
      (total n : ℕ) → length (before_end total n) ≡ 8 + length tag + total_size attrs
  length-before_end total n = omega (
    arith,
    length-append (header total tag n) (encode_all attrs []),
    length-header total tag n,
    length-encode_all attrs [],
  )

  rest_behind : (slack' : List ℕ) → encode_all attrs slack' ≡ encode_all attrs [] ++ slack'
  rest_behind slack' =
      ap (λ l. encode_all l slack') (sym (append-nil attrs))
      ∙ encode_all-append attrs [] slack'
      ∙ (unfold encode_all in refl)

  buf_split : c.buf ≡ before_end (length c.buf) (length attrs) ++ slack
  buf_split =
      h.whole
      ∙ ap (λ l. header (length c.buf) tag (length attrs) ++ l) (rest_behind slack)
      ∙ sym (append_assoc (header (length c.buf) tag (length attrs)) (encode_all attrs []) slack)

  -- The attributes with the new one.
  with_new :
      (total n : ℕ) (slack' : List ℕ)
      → before_end total n ++ (encode a ++ slack')
        ≡ header total tag n ++ encode_all (attrs ++ (a ∷ [])) slack'
  with_new total n slack' =
      append_assoc (header total tag n) (encode_all attrs []) (encode a ++ slack')
      ∙ ap (λ l. header total tag n ++ l)
          (sym (encode_all-append attrs (a ∷ []) slack' ∙ (unfold encode_all in refl)))

  appended :
      (total : ℕ) (slack' : List ℕ)
      → total ≡ 8 + length tag + (total_size attrs + length (encode a) + length slack')
      → total < 2 ^ 32
      → IsContainer
          (record c {
            buf = header total tag (length attrs + 1) ++ encode_all (attrs ++ (a ∷ [])) slack';
          })
          tag
          (attrs ++ (a ∷ []))
          slack'
  appended total slack' e lt =
      let n : length (attrs ++ (a ∷ [])) ≡ length attrs + 1 = length-append attrs (a ∷ []) in
      let size : total_size (attrs ++ (a ∷ [])) ≡ total_size attrs + length (encode a) =
        total_size-append attrs (a ∷ []) ∙ (unfold total_size in omega arith) in
      subst
        (λ k.
          IsContainer
            (record c { buf = header total tag k ++ encode_all (attrs ++ (a ∷ [])) slack' }) tag
            (attrs ++ (a ∷ [])) slack')
        n
        (header-IsContainer c.flags total tag (attrs ++ (a ∷ [])) slack' (omega (arith, e, size))
          h.tag_given h.tag_u16 (omega (arith, n))
          (All-append IsAttr attrs (a ∷ []) h.each (ha, tt))
          (omega (arith, size, h.room, encode_given a)) lt)

  abbrev attr_end : ℕ
  attr_end = 8 + length tag + total_size attrs

  -- `attr_container_inc_attr_num` behind the new attribute.
  counted :
      (total : ℕ) (slack' : List ℕ)
      → attr_container_inc_attr_num (before_end total (length attrs) ++ (encode a ++ slack'))
        ≡ ok (header total tag (length attrs + 1) ++ encode_all (attrs ++ (a ∷ [])) slack')
  counted total slack' =
      ap attr_container_inc_attr_num (with_new total (length attrs) slack')
      ∙ attr_container_inc_attr_num-header total tag (length attrs)
          (encode_all (attrs ++ (a ∷ [])) slack') h.tag_u16 h.count_u16

  append_in_place :
      length (encode a) ≤ length slack
      → Sets (append_attr malloc c (length c.buf) attr_end (encode a)) c tag (attrs ++ (a ∷ []))
  append_in_place le =
      let L = length c.buf in
      let slack' = drop (length (encode a)) slack in
      let total = length-buf c tag attrs slack h in
      let dropped = length-drop (length (encode a)) slack in
      let written : write_bytes c.buf attr_end (encode a)
          ≡ ok (before_end L (length attrs) ++ (encode a ++ slack')) =
        ap (λ b. write_bytes b attr_end (encode a)) buf_split
        ∙ write_bytes_over (before_end L (length attrs)) slack (encode a) attr_end
            (length-before_end L (length attrs)) le in
      let after = counted L slack' in
      (
        header L tag (length attrs + 1) ++ encode_all (attrs ++ (a ∷ [])) slack',
        slack',
        (unfold append_attr in ground (arith, total, le, h.total_u32, written, after)),
        appended L slack' (omega arith) h.total_u32,
      )

  append_longer :
      (b : List ℕ)
      → length slack < length (encode a)
      → malloc (2 + (length c.buf + length (encode a) + 100)) ≡ some b
      → Sets (append_attr malloc c (length c.buf) attr_end (encode a)) c tag (attrs ++ (a ∷ []))
  append_longer b lt e =
      let L = length c.buf in
      let longer : ℕ = L + length (encode a) + 100 in
      let front = before_end L (length attrs) in
      let len_front : length front ≡ attr_end = length-before_end L (length attrs) in
      let total = length-buf c tag attrs slack h in
      let len_b = allocator _ b e in
      let block = drop 2 b in
      let len_block : length block ≡ longer = omega (arith, length-drop 2 b) in
      let rest = drop (length front) block in
      let slack' = drop (length (encode a)) rest in
      let len_rest = length-drop (length front) block in
      let len_slack = length-drop (length (encode a)) rest in
      let read : read_bytes c.buf 0 attr_end ≡ ok front =
        ap (λ l. read_bytes l 0 attr_end) buf_split
        ∙ read_bytes-append [] front slack 0 attr_end refl len_front in
      let copied : write_bytes block 0 front ≡ ok (front ++ rest) =
        write_bytes_over [] block front 0 refl (omega arith) in
      let written : write_bytes (front ++ rest) attr_end (encode a)
          ≡ ok (front ++ (encode a ++ slack')) =
        write_bytes_over front rest (encode a) attr_end len_front (omega arith) in
      let after = counted L slack' in
      let final =
        write_bytes-header L longer tag (length attrs + 1)
          (encode_all (attrs ++ (a ∷ [])) slack') in
      let small : longer % 2 ^ 32 ≡ longer = omega arith in
      let no_room : leb (length (encode a)) ((L + 2 ^ 32 - attr_end) % 2 ^ 32) ≡ false =
        ground (arith, total, lt, h.total_u32) in
      (
        header longer tag (length attrs + 1) ++ encode_all (attrs ++ (a ∷ [])) slack',
        slack',
        (unfold append_attr append_in_block in
            ground (arith, no_room, small, e, read, copied, written, after, final)),
        appended longer slack' (omega arith) fits,
      )

  -- The whole branch.
  pub append_attr-Sets :
      let o = append_attr malloc c (length c.buf) attr_end (encode a) in
      OutOfMemory malloc o c ⊎ Sets o c tag (attrs ++ (a ∷ []))
  append_attr-Sets = elim (Bool-cases (leb (length (encode a)) (length slack))) [
    | inl le ↦ inr (append_in_place (ground arith))
    | inr more ↦
        let longer : ℕ = length c.buf + length (encode a) + 100 in
        let total = length-buf c tag attrs slack h in
        elim (Option-cases (malloc (2 + longer))) [
          | inl e ↦
              let small : longer % 2 ^ 32 ≡ longer = omega arith in
              let no_room : leb (length (encode a)) ((length c.buf + 2 ^ 32 - attr_end) % 2 ^ 32)
                  ≡ false =
                ground (arith, total, more, h.total_u32) in
              inl ((unfold append_attr in ground (arith, no_room, small, e)), (2 + longer, e))
          | inr (b, e) ↦ inr (append_longer b (ground arith) e)
        ]
  ]
