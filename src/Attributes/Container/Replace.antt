-- ===== src/Attributes/Container/Replace.antt =====
-- The branch of `attr_container_set_attr` in app-framework/app-native-shared/attr_container.c for a key
-- that the container has.
use wamr_app_framework.Prelude.{
  ℕ, ◌+◌, ◌-◌, ◌^◌, ◌%◌, ◌≤◌, ◌<◌, ◌≡◌, ◌≢◌, ◌⊎◌, inl, inr, refl, sym, ap, subst, ◌∙◌, List, [],
  ◌∷◌, ◌++◌, append-nil, append_assoc, Bool, true, false, Option, none, some, leb, ◌==◌,
  if◌then◌else◌, drop, length, length-append, length-drop, All, Bool-cases, Option-cases, arith,
}
use wamr_app_framework.Restful.{Outcome, ok}
use wamr_app_framework.Attributes.{AttrContainer, u32_bytes, read_bytes, write_bytes}
use wamr_app_framework.Attributes.Update.{replace_attr, replace_in_block}
use wamr_app_framework.Attributes.Layout.{Attr, encode, encode_all, IsAttr}
use wamr_app_framework.Attributes.Layout.Walk.{total_size, length-encode_all}
use wamr_app_framework.Attributes.Container.{header, length-header, IsContainer, length-buf}
use wamr_app_framework.Attributes.Container.Write.{
  read_bytes-append, write_bytes-append, write_bytes-header,
}
use wamr_app_framework.Attributes.Container.Entries.{
  All-append, All-parts, encode_all-append, total_size-append, IsSplit,
}
use wamr_app_framework.Attributes.Container.Append.{
  IsAllocator, write_bytes_over, encode_given, header-IsContainer, Sets, OutOfMemory,
}

module _ (malloc : ℕ → Option (List ℕ)) (c : AttrContainer) (tag : List ℕ) (attrs : List Attr)
    (slack : List ℕ) (h : IsContainer c tag attrs slack) (a : Attr) (ha : IsAttr a)
    (before : List Attr) (x : Attr) (behind : List Attr)
    (split : IsSplit a.key attrs before x behind) (allocator : IsAllocator malloc)
    (fits : length c.buf + length (encode a) + 100 < 2 ^ 32) where
  abbrev L : ℕ
  L = length c.buf

  -- What stands before the old attribute, under any header, and what stands behind it.
  abbrev front : ℕ → List ℕ
  front total = header total tag (length attrs) ++ encode_all before []

  abbrev moved : List ℕ
  moved = encode_all behind []

  abbrev at : ℕ
  at = 8 + length tag + total_size before

  length-front : (total : ℕ) → length (front total) ≡ at
  length-front total = omega (
    arith,
    length-append (header total tag (length attrs)) (encode_all before []),
    length-header total tag (length attrs),
    length-encode_all before [],
  )

  length-moved : length moved ≡ total_size behind
  length-moved = omega (arith, length-encode_all behind [])

  sizes : total_size attrs ≡ total_size before + (length (encode x) + total_size behind)
  sizes =
      ap total_size split.whole
      ∙ total_size-append before (x ∷ behind)
      ∙ ap (λ n. total_size before + n) (unfold total_size in refl)

  counts : length attrs ≡ length before + (1 + length behind)
  counts = ap length split.whole ∙ omega (arith, length-append before (x ∷ behind))

  parts : All IsAttr before × All IsAttr (x ∷ behind)
  parts = All-parts IsAttr before (x ∷ behind) (subst (All IsAttr) split.whole h.each)

  -- Any attributes behind those of `front`.
  front_then :
      (total : ℕ) (l : List Attr) (slack' : List ℕ)
      → header total tag (length attrs) ++ encode_all (before ++ l) slack'
        ≡ front total ++ encode_all l slack'
  front_then total l slack' =
      ap (λ r. header total tag (length attrs) ++ r) (encode_all-append before l slack')
      ∙ sym (
          append_assoc (header total tag (length attrs)) (encode_all before [])
            (encode_all l slack'))

  all_behind : (l : List Attr) (slack' : List ℕ) → encode_all l slack' ≡ encode_all l [] ++ slack'
  all_behind l slack' =
      ap (λ m. encode_all m slack') (sym (append-nil l))
      ∙ encode_all-append l [] slack'
      ∙ (unfold encode_all in refl)

  abbrev tail : List ℕ
  tail = encode x ++ encode_all behind slack

  buf_split : c.buf ≡ front L ++ tail
  buf_split =
      h.whole
      ∙ ap (λ l. header L tag (length attrs) ++ encode_all l slack) split.whole
      ∙ front_then L (x ∷ behind) slack
      ∙ (unfold encode_all in refl)

  length-tail : length tail ≡ length (encode x) + (total_size behind + length slack)
  length-tail =
      omega
        (arith, length-append (encode x) (encode_all behind slack), length-encode_all behind slack)

  -- The bytes behind the old attribute are read.
  moved_read : read_bytes c.buf (at + length (encode x)) (length moved) ≡ ok moved
  moved_read =
      let whole : c.buf ≡ (front L ++ encode x) ++ (moved ++ slack) =
        buf_split
        ∙ ap (λ r. front L ++ (encode x ++ r)) (all_behind behind slack)
        ∙ sym (append_assoc (front L) (encode x) (moved ++ slack)) in
      let len : length (front L ++ encode x) ≡ at + length (encode x) =
        omega (arith, length-append (front L) (encode x), length-front L) in
      ap (λ b. read_bytes b (at + length (encode x)) (length moved)) whole
      ∙ read_bytes-append (front L ++ encode x) moved slack (at + length (encode x)) (length moved)
          len refl

  -- A container with the new attributes.
  replaced :
      (total : ℕ) (l : List Attr) (slack' : List ℕ)
      → length l ≡ 1 + length behind
      → All IsAttr l
      → 0 < total_size l
      → total ≡ at + (total_size l + length slack')
      → total < 2 ^ 32
      → IsContainer (record c { buf = front total ++ encode_all l slack' }) tag (before ++ l) slack'
  replaced total l slack' n each given e lt =
      let size = total_size-append before l in
      let count : length (before ++ l) ≡ length attrs =
        omega (arith, length-append before l, counts) in
      let made : IsContainer
          (record {
            flags = c.flags;
            buf = header total tag (length (before ++ l)) ++ encode_all (before ++ l) slack';
          })
          tag (before ++ l) slack' =
        header-IsContainer c.flags total tag (before ++ l) slack' (omega (arith, size, e))
          h.tag_given h.tag_u16 (omega (arith, count, h.count_u16))
          (All-append IsAttr before l parts.0 each) (omega (arith, size, given)) lt in
      let same : header total tag (length (before ++ l)) ++ encode_all (before ++ l) slack'
          ≡ front total ++ encode_all l slack' =
        ap (λ k. header total tag k ++ encode_all (before ++ l) slack') count
        ∙ front_then total l slack' in
      subst (λ b. IsContainer (record c { buf = b }) tag (before ++ l) slack') same made

  abbrev run : Outcome (Bool × AttrContainer)
  run =
      replace_attr malloc c L (8 + length tag + total_size attrs) (encode a) at
        (at + length (encode x))

  replace_in_place : length (encode x) ≡ length (encode a) → Sets run c tag (before ++ (a ∷ behind))
  replace_in_place same =
      let old : c.buf ≡ front L ++ (encode x ++ encode_all behind slack) = buf_split in
      let written : write_bytes c.buf at (encode a)
          ≡ ok (front L ++ encode_all (a ∷ behind) slack) =
        ap (λ b. write_bytes b at (encode a)) old
        ∙ write_bytes-append (front L) (encode x) (encode_all behind slack) (encode a) at
            (length-front L) same
        ∙ (unfold encode_all in refl) in
      let total = length-buf c tag attrs slack h in
      let size : total_size (a ∷ behind) ≡ length (encode a) + total_size behind =
        unfold total_size in refl in
      (
        front L ++ encode_all (a ∷ behind) slack,
        slack,
        (unfold replace_attr in ground (arith, same, written)),
        replaced L (a ∷ behind) slack (omega arith) (ha, parts.1.1)
            (omega (arith, size, encode_given a)) (omega (arith, total, sizes, size, same))
            h.total_u32,
      )

  -- The new attribute behind those that were moved.
  abbrev later : List Attr
  later = behind ++ (a ∷ [])

  later_split : (slack' : List ℕ) → moved ++ (encode a ++ slack') ≡ encode_all later slack'
  later_split slack' = sym (encode_all-append behind (a ∷ []) slack' ∙ (unfold encode_all in refl))

  size-later : total_size later ≡ total_size behind + length (encode a)
  size-later = total_size-append behind (a ∷ []) ∙ (unfold total_size in omega arith)

  -- Two writes, of what was behind the old attribute and of the new one.
  two_writes :
      (total : ℕ) (t : List ℕ)
      → length moved + length (encode a) ≤ length t
      → let slack' = drop (length (encode a)) (drop (length moved) t) in
        (write_bytes (front total ++ t) at moved
          ≡ ok (front total ++ (moved ++ drop (length moved) t)))
        × (write_bytes
              (front total ++ (moved ++ drop (length moved) t))
              (at + length moved)
              (encode a)
            ≡ ok (front total ++ encode_all later slack'))
        × (length slack' ≡ length t - (length moved + length (encode a)))
  two_writes total t le =
      let rest = drop (length moved) t in
      let slack' = drop (length (encode a)) rest in
      let len_rest = length-drop (length moved) t in
      let len : length (front total ++ moved) ≡ at + length moved =
        omega (arith, length-append (front total) moved, length-front total) in
      (
        write_bytes_over (front total) t moved at (length-front total) (omega arith),
        ap (λ b. write_bytes b (at + length moved) (encode a))
              (sym (append_assoc (front total) moved rest))
            ∙ write_bytes_over (front total ++ moved) rest (encode a) (at + length moved) len
                (omega arith)
            ∙ ap ok (append_assoc (front total) moved (encode a ++ slack'))
            ∙ ap (λ r. ok (front total ++ r)) (later_split slack'),
        omega (arith, length-drop (length (encode a)) rest),
      )

  replaced_later :
      (total : ℕ) (slack' : List ℕ)
      → total ≡ at + (total_size later + length slack')
      → total < 2 ^ 32
      → IsContainer
          (record c { buf = front total ++ encode_all later slack' })
          tag
          (before ++ later)
          slack'
  replaced_later total slack' e lt =
      replaced total later slack' (omega (arith, length-append behind (a ∷ [])))
        (All-append IsAttr behind (a ∷ []) parts.1.1 (ha, tt))
        (omega (arith, size-later, encode_given a)) e lt

  replace_moved :
      length (encode x) ≢ length (encode a)
      → length (encode a) ≤ length (encode x) + length slack
      → Sets run c tag (before ++ later)
  replace_moved other le =
      let total = length-buf c tag attrs slack h in
      let len_moved = length-moved in
      let slack' = drop (length (encode a)) (drop (length moved) tail) in
      let (first, second, len_slack) = two_writes L tail (omega (arith, length-tail)) in
      let first' : write_bytes c.buf at moved
          ≡ ok (front L ++ (moved ++ drop (length moved) tail)) =
        ap (λ b. write_bytes b at moved) buf_split ∙ first in
      let end : 8 + length tag + total_size attrs - (at + length (encode x)) ≡ length moved =
        omega (arith, sizes) in
      let not_same : (at + length (encode x) - at == length (encode a)) ≡ false =
        ground (arith, other) in
      let room : leb (length (encode a)) (
            (at + length (encode x) - at + L + 2 ^ 32 - (8 + length tag + total_size attrs))
            % 2 ^ 32)
          ≡ true =
        ground (arith, total, sizes, h.total_u32, fits, le) in
      let read = moved_read in
      (
        front L ++ encode_all later slack',
        slack',
        (unfold replace_attr in ground (arith, not_same, room, end, read, first', second)),
        replaced_later L slack' (omega (arith, size-later, length-tail, sizes)) h.total_u32,
      )

  replace_longer :
      (b : List ℕ)
      → length (encode x) ≢ length (encode a)
      → length (encode x) + length slack < length (encode a)
      → malloc (2 + (L + length (encode a) + 100)) ≡ some b
      → Sets run c tag (before ++ later)
  replace_longer b other lt e =
      let longer : ℕ = L + length (encode a) + 100 in
      let total = length-buf c tag attrs slack h in
      let len_moved = length-moved in
      let len_front = length-front L in
      let len_b = allocator _ b e in
      let block = drop 2 b in
      let len_block : length block ≡ longer = omega (arith, length-drop 2 b) in
      let t = drop (length (front L)) block in
      let len_t = length-drop (length (front L)) block in
      let slack' = drop (length (encode a)) (drop (length moved) t) in
      let (first, second, len_slack) = two_writes L t (omega (arith, sizes)) in
      let read_front : read_bytes c.buf 0 at ≡ ok (front L) =
        ap (λ l. read_bytes l 0 at) buf_split
        ∙ read_bytes-append [] (front L) tail 0 at refl len_front in
      let copied : write_bytes block 0 (front L) ≡ ok (front L ++ t) =
        write_bytes_over [] block (front L) 0 refl (omega (arith, sizes)) in
      let end : 8 + length tag + total_size attrs - (at + length (encode x)) ≡ length moved =
        omega (arith, sizes) in
      let read = moved_read in
      let final : write_bytes (front L ++ encode_all later slack') 0 (u32_bytes longer)
          ≡ ok (front longer ++ encode_all later slack') =
        ap (λ l. write_bytes l 0 (u32_bytes longer)) (sym (front_then L later slack'))
        ∙ write_bytes-header L longer tag (length attrs) (encode_all (before ++ later) slack')
        ∙ ap ok (front_then longer later slack') in
      let small : longer % 2 ^ 32 ≡ longer = omega arith in
      let not_same : (at + length (encode x) - at == length (encode a)) ≡ false =
        ground (arith, other) in
      let no_room : leb (length (encode a)) (
            (at + length (encode x) - at + L + 2 ^ 32 - (8 + length tag + total_size attrs))
            % 2 ^ 32)
          ≡ false =
        ground (arith, total, sizes, h.total_u32, fits, lt) in
      (
        front longer ++ encode_all later slack',
        slack',
        (unfold replace_attr replace_in_block in
            ground (
              arith, not_same, no_room, small, e, end, read_front, read, copied, first, second,
              final,
            )),
        replaced_later longer slack' (omega (arith, size-later, sizes)) fits,
      )

  out_of_memory :
      length (encode x) ≢ length (encode a)
      → length (encode x) + length slack < length (encode a)
      → malloc (2 + (L + length (encode a) + 100)) ≡ none
      → run ≡ ok (false, c)
  out_of_memory other lt e =
      let total = length-buf c tag attrs slack h in
      let small : (L + length (encode a) + 100) % 2 ^ 32 ≡ L + length (encode a) + 100 =
        omega arith in
      let not_same : (at + length (encode x) - at == length (encode a)) ≡ false =
        ground (arith, other) in
      let no_room : leb (length (encode a)) (
            (at + length (encode x) - at + L + 2 ^ 32 - (8 + length tag + total_size attrs))
            % 2 ^ 32)
          ≡ false =
        ground (arith, total, sizes, h.total_u32, fits, lt) in
      unfold replace_attr in ground (arith, not_same, no_room, small, e)

  -- The attributes behind the call, in the place that the size gives the new one.
  abbrev pub with_new : List Attr
  with_new =
      if length (encode x) == length (encode a) then before ++ (a ∷ behind) else before ++ later

  -- The whole branch.
  pub replace_attr-Sets : OutOfMemory malloc run c ⊎ Sets run c tag with_new
  replace_attr-Sets = elim (Bool-cases (length (encode x) == length (encode a))) [
    | inl same ↦ inr (rw same (replace_in_place (ground arith)))
    | inr other ↦ elim (Bool-cases (leb (length (encode a)) (length (encode x) + length slack))) [
      | inl le ↦ inr (rw other (replace_moved (ground arith) (ground arith)))
      | inr more ↦
          let longer : ℕ = L + length (encode a) + 100 in
          elim (Option-cases (malloc (2 + longer))) [
            | inl e ↦ inl (out_of_memory (ground arith) (ground arith) e, (2 + longer, e))
            | inr (b, e) ↦ inr (rw other (replace_longer b (ground arith) (ground arith) e))
          ]
    ]
  ]
