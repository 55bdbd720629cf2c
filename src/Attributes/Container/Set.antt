-- ===== src/Attributes/Container/Set.antt =====
-- `attr_container_set_attr` of app-framework/app-native-shared/attr_container.c as a whole.
use wamr_app_framework.Prelude.{
  ℕ, ◌+◌, ◌^◌, ◌<◌, ◌≡◌, ◌⊎◌, inl, inr, refl, ap, subst, ◌∙◌, List, [], ◌∷◌, ◌++◌, Bool, true,
  Option, drop, length, All, Option-cases, arith,
}
use wamr_app_framework.Restful.{Outcome, ok, null}
use wamr_app_framework.Attributes.{
  AttrContainer, attr_container_find_attr, attr_container_get_attr_next,
}
use wamr_app_framework.Attributes.Update.{
  check_set_attr, attr_len, append_attr, replace_attr, place_attr, attr_container_set_attr,
}
use wamr_app_framework.Attributes.Layout.{Attr, encode, encode_all, IsAttr, drop_behind}
use wamr_app_framework.Attributes.Layout.Walk.{
  total_size, length-encode_all, place, attr_container_get_attr_next-encode,
}
use wamr_app_framework.Attributes.Container.{
  IsContainer, total_at, attrs_behind, attr_container_find_attr-position,
  attr_container_get_attr_end-total_size,
}
use wamr_app_framework.Attributes.Container.Write.{IsInMemory, length-encode, fill_attr_buf-encode}
use wamr_app_framework.Attributes.Container.Entries.{
  put, key_cases, IsSplit, All-parts, encode_all-append,
}
use wamr_app_framework.Attributes.Container.Append.{
  IsAllocator, Sets, OutOfMemory, append_attr-Sets,
}
use wamr_app_framework.Attributes.Container.Replace.{with_new, replace_attr-Sets}

module _ (malloc : ℕ → Option (List ℕ)) (c : AttrContainer) (tag : List ℕ) (attrs : List Attr)
    (slack : List ℕ) (h : IsContainer c tag attrs slack) (a : Attr) (ha : IsAttr a)
    (allocator : IsAllocator malloc) (count : length attrs + 1 < 2 ^ 16)
    (fits : length c.buf + length (encode a) + 100 < 2 ^ 32) where
  abbrev attr_end : ℕ
  attr_end = 8 + length tag + total_size attrs

  abbrev placed : Outcome (Bool × AttrContainer)
  placed = place_attr malloc c a.key (length c.buf) attr_end (encode a)

  -- Where the old attribute of the key is, and where the next one.
  next_of :
      (before : List Attr) (x : Attr) (behind : List Attr)
      → IsSplit a.key attrs before x behind
      → attr_container_get_attr_next c.buf (8 + length tag + total_size before)
        ≡ ok (8 + length tag + total_size before + length (encode x))
  next_of before x behind split =
      let rest = encode_all behind slack in
      let parts = All-parts IsAttr before (x ∷ behind) (subst (All IsAttr) split.whole h.each) in
      let at_attrs : drop (8 + length tag) c.buf ≡ encode_all before [] ++ (encode x ++ rest) =
        attrs_behind c tag attrs slack h
        ∙ ap (λ l. encode_all l slack) split.whole
        ∙ encode_all-append before (x ∷ behind) slack
        ∙ (unfold encode_all in refl) in
      let len : length (encode_all before []) ≡ total_size before =
        omega (arith, length-encode_all before []) in
      attr_container_get_attr_next-encode c.buf (8 + length tag + total_size before) x rest
        parts.1.0
        (drop_behind c.buf (8 + length tag) (total_size before) (encode_all before [])
          (encode x ++ rest) at_attrs len)

  -- What a call comes to that should give these attributes.
  abbrev pub Result : Outcome (Bool × AttrContainer) → List Attr → Type 0
  Result o l = OutOfMemory malloc o c ⊎ Sets o c tag l

  place_attr-Result : Result placed (put a attrs)
  place_attr-Result = elim (key_cases a.key attrs) [
    | inl (absent, p, l) ↦
        let missing : attr_container_find_attr c.buf a.key ≡ null =
          attr_container_find_attr-position c tag attrs slack h a.key
          ∙ ap (place (8 + length tag)) p in
        let same : append_attr malloc c (length c.buf) attr_end (encode a) ≡ placed =
          unfold place_attr in ground (arith, missing) in
        let same' : attrs ++ (a ∷ []) ≡ put a attrs = unfold put in ground (arith, absent) in
        subst (λ o. Result o (put a attrs)) same
          (subst (Result (append_attr malloc c (length c.buf) attr_end (encode a))) same'
            (append_attr-Sets malloc c tag attrs slack h a ha allocator count fits))
    | inr (before, x, behind, split) ↦
        let at : ℕ = 8 + length tag + total_size before in
        let found : attr_container_find_attr c.buf a.key ≡ ok at =
          attr_container_find_attr-position c tag attrs slack h a.key
          ∙ ap (place (8 + length tag)) split.placed in
        let next = next_of before x behind split in
        let run =
          replace_attr malloc c (length c.buf) attr_end (encode a) at (at + length (encode x)) in
        let same : run ≡ placed = unfold place_attr in ground (arith, found, next) in
        let l = with_new malloc c tag attrs slack h a ha before x behind split allocator fits in
        let same' : l ≡ put a attrs = unfold put in ground (arith, split.found) in
        subst (λ o. Result o (put a attrs)) same
          (subst (Result run) same' (
            replace_attr-Sets malloc c tag attrs slack h a ha before x behind split allocator fits))
  ]

  module _ (memory : List ℕ) (value_length : ℕ) (given : IsInMemory a memory value_length)
      (allowed : check_set_attr c a.key ≡ true) where
    abbrev pub set_call : Outcome (Bool × AttrContainer)
    set_call = attr_container_set_attr malloc c a.key a.type_of memory value_length

    -- `attr_container_set_attr`: the key is not empty and the call is not refused, the value is in
    -- memory as its type says, there are fewer than 65535 attributes, and the container, with 100
    -- bytes to spare, stays below 2 ^ 32 bytes. Then the call fails for want of memory and leaves the
    -- container as it is, or it succeeds, and the container has its attributes with the new one put.
    pub attr_container_set_attr-put : Result set_call (put a attrs)
    attr_container_set_attr-put =
        let total = total_at c tag attrs slack h in
        let end = attr_container_get_attr_end-total_size c tag attrs slack h in
        let len : attr_len a.key a.type_of value_length ≡ length (encode a) =
          length-encode a memory value_length ha given (omega arith) in
        elim (Option-cases (malloc (attr_len a.key a.type_of value_length))) [
          | inl e ↦ inl (
            (unfold attr_container_set_attr in ground (arith, allowed, total, end, e)),
            (attr_len a.key a.type_of value_length, e),
          )
          | inr (b, e) ↦
              let filled =
                fill_attr_buf-encode a memory value_length b ha given (allocator _ b e ∙ len) in
              let same : placed ≡ set_call =
                unfold attr_container_set_attr in ground (arith, allowed, total, end, e, filled) in
              subst (λ o. Result o (put a attrs)) same place_attr-Result
        ]
