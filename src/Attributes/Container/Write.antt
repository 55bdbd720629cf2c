-- ===== src/Attributes/Container/Write.antt =====
-- Writing into the buffer of a container: `attr_container_inc_attr_num`, the total length, and the
-- bytes of one attribute in app-framework/app-native-shared/attr_container.c.
use wamr_app_framework.Prelude.{
  ℕ, ◌+◌, ◌^◌, ◌%◌, ◌<◌, ◌≡◌, refl, sym, ap, ◌∙◌, List, [], ◌∷◌, ◌++◌, append-nil, append_assoc,
  take, drop, length, length-append, drop-append, take-append, take_all, arith,
}
use wamr_app_framework.Restful.{ok}
use wamr_app_framework.Attributes.{
  attr_type_boolean, u16_bytes, u32_bytes, get_uint16, read_bytes, write_bytes,
}
use wamr_app_framework.Attributes.Update.{
  attr_container_inc_attr_num, attr_len, fill_attr_buf, value_bytes,
}
use wamr_app_framework.Attributes.Layout.{
  Attr, encode_value, encode_head, length-encode_head, encode, IsAttr, get_uint16_at, drop_behind,
}
use wamr_app_framework.Attributes.Layout.Walk.{head_split}
use wamr_app_framework.Attributes.Container.{header}

pub write_bytes-append :
    (pre old post new : List ℕ) (p : ℕ)
    → length pre ≡ p
    → length old ≡ length new
    → write_bytes (pre ++ (old ++ post)) p new ≡ ok (pre ++ (new ++ post))
unfolding write_bytes
write_bytes-append pre old post new p hp hn =
    let front : take p (pre ++ (old ++ post)) ≡ pre = take-append p pre (old ++ post) hp in
    let behind : drop (p + length new) (pre ++ (old ++ post)) ≡ post =
      drop_behind (pre ++ (old ++ post)) p (length new) old post
        (drop-append p pre (old ++ post) hp) hn in
    ground (arith, front, behind, length-append pre (old ++ post), length-append old post)

pub read_bytes-append :
    (pre mid post : List ℕ) (p n : ℕ)
    → length pre ≡ p
    → length mid ≡ n
    → read_bytes (pre ++ (mid ++ post)) p n ≡ ok mid
unfolding read_bytes
read_bytes-append pre mid post p n hp hn =
    let at : drop p (pre ++ (mid ++ post)) ≡ mid ++ post = drop-append p pre (mid ++ post) hp in
    let taken : take n (drop p (pre ++ (mid ++ post))) ≡ mid =
      ap (take n) at ∙ take-append n mid post hn in
    ground (arith, taken, length-append pre (mid ++ post), length-append mid post)

-- What stands before the number of attributes.
abbrev front_of : ℕ → List ℕ → List ℕ
front_of total tag = u32_bytes total ++ (u16_bytes (length tag) ++ tag)

length-front_of : (total : ℕ) (tag : List ℕ) → length (front_of total tag) ≡ 6 + length tag
unfolding u32_bytes u16_bytes
length-front_of total tag = omega arith

header_split :
    (total : ℕ) (tag : List ℕ) (n : ℕ) (rest : List ℕ)
    → header total tag n ++ rest ≡ front_of total tag ++ (u16_bytes n ++ rest)
unfolding header u32_bytes u16_bytes
header_split total tag n rest =
    ap (λ l. u32_bytes total ++ (u16_bytes (length tag) ++ l)) (append_assoc tag (u16_bytes n) rest)

-- One more attribute in the header.
pub attr_container_inc_attr_num-header :
    (total : ℕ) (tag : List ℕ) (n : ℕ) (rest : List ℕ)
    → length tag < 2 ^ 16
    → n < 2 ^ 16
    → attr_container_inc_attr_num (header total tag n ++ rest)
      ≡ ok (header total tag (n + 1) ++ rest)
attr_container_inc_attr_num-header total tag n rest ht hn =
    let b = header total tag n ++ rest in
    let split = header_split total tag n rest in
    let len = length-front_of total tag in
    let tag_len : get_uint16 b 4 ≡ ok (length tag) =
      get_uint16_at b 4 (length tag) (tag ++ (u16_bytes n ++ rest))
        (ap (drop 4) split ∙ (unfold u32_bytes u16_bytes in refl)) ht in
    let count : get_uint16 b (6 + length tag) ≡ ok n =
      get_uint16_at b (6 + length tag) n rest
        (ap (drop (6 + length tag)) split
          ∙ drop-append (6 + length tag) (front_of total tag) (u16_bytes n ++ rest) len)
        hn in
    let written : write_bytes b (6 + length tag) (u16_bytes (n + 1))
        ≡ ok (header total tag (n + 1) ++ rest) =
      ap (λ l. write_bytes l (6 + length tag) (u16_bytes (n + 1))) split
      ∙ write_bytes-append (front_of total tag) (u16_bytes n) rest (u16_bytes (n + 1))
          (6 + length tag) len (unfold u16_bytes in refl)
      ∙ ap ok (sym (header_split total tag (n + 1) rest)) in
    unfold attr_container_inc_attr_num in ground (arith, tag_len, count, written)

-- A new total length in the header.
pub write_bytes-header :
    (total total' : ℕ) (tag : List ℕ) (n : ℕ) (rest : List ℕ)
    → write_bytes (header total tag n ++ rest) 0 (u32_bytes total')
      ≡ ok (header total' tag n ++ rest)
write_bytes-header total total' tag n rest =
    let r = u16_bytes (length tag) ++ (tag ++ u16_bytes n) in
    let split : (t : ℕ) → header t tag n ++ rest ≡ u32_bytes t ++ (r ++ rest) =
      λ t. (unfold header in append_assoc (u32_bytes t) r rest) in
    ap (λ b. write_bytes b 0 (u32_bytes total')) (split total)
    ∙ write_bytes-append [] (u32_bytes total) (r ++ rest) (u32_bytes total') 0 refl
        (unfold u32_bytes in refl)
    ∙ ap ok (sym (split total'))

-- The value as `attr_container_set_attr` reads it from `memory`.
abbrev pub IsInMemory : Attr → List ℕ → ℕ → Type 0
IsInMemory a memory value_length =
    (value_bytes a.type_of memory value_length ≡ ok (encode_value a.type_of a.value))
    × ((attr_type_boolean < a.type_of) → value_length ≡ length a.value)

pub length-encode :
    (a : Attr) (memory : List ℕ) (value_length : ℕ)
    → IsAttr a
    → IsInMemory a memory value_length
    → length (encode a) < 2 ^ 32
    → attr_len a.key a.type_of value_length ≡ length (encode a)
length-encode a memory value_length h m lt =
    let whole : length (encode a)
        ≡ length (encode_head a) + length (encode_value a.type_of a.value) =
      unfold encode in length-append (encode_head a) (encode_value a.type_of a.value) in
    let head = length-encode_head a in
    unfold attr_len encode_value u16_bytes u32_bytes in ground (arith, h.size, m.1, lt, whole, head)

-- The block for the attribute is filled with its encoding.
pub fill_attr_buf-encode :
    (a : Attr) (memory : List ℕ) (value_length : ℕ) (attr_block : List ℕ)
    → IsAttr a
    → IsInMemory a memory value_length
    → length attr_block ≡ length (encode a)
    → fill_attr_buf a.key a.type_of memory value_length attr_block ≡ ok (encode a)
fill_attr_buf-encode a memory value_length attr_block h m len =
    let small : a.type_of < 256 = ground (arith, h.size) in
    let key_taken : take (length a.key + 1) (a.key ++ (0 ∷ [])) ≡ a.key ++ (0 ∷ []) =
      take_all (length a.key + 1) (a.key ++ (0 ∷ []))
        (omega (arith, length-append a.key (0 ∷ []))) in
    let ev = encode_value a.type_of a.value in
    let written = u16_bytes (length a.key + 1) ++ ((a.key ++ (0 ∷ [])) ++ (a.type_of ∷ ev)) in
    let same : written ≡ encode a =
      sym (append_assoc (u16_bytes (length a.key + 1)) (a.key ++ (0 ∷ [])) (a.type_of ∷ ev))
      ∙ sym (head_split a ev)
      ∙ (unfold encode in refl) in
    let key_mod : (length a.key + 1) % 2 ^ 16 ≡ length a.key + 1 = omega (arith, h.key_u16) in
    let type_mod : a.type_of % 256 ≡ a.type_of = omega arith in
    let filled : write_bytes attr_block 0 (encode a) ≡ ok (encode a) =
      ap (λ l. write_bytes l 0 (encode a)) (sym (append-nil attr_block))
      ∙ write_bytes-append [] attr_block [] (encode a) 0 refl len
      ∙ ap ok (append-nil (encode a)) in
    unfold fill_attr_buf in rw (m.0, key_mod, key_taken, type_mod, same) filled
