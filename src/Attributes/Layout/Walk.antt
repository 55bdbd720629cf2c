-- ===== src/Attributes/Layout/Walk.antt =====
-- The walk over the attributes of a container in app-framework/app-native-shared/attr_container.c.
use wamr_app_framework.Prelude.{
  ℕ, ◌+◌, ◌≤◌, ◌≡◌, inl, inr, refl, sym, ap, ◌∙◌, List, [], ◌∷◌, ◌++◌, append_assoc, true, Option,
  none, some, if◌then◌else◌, str_eq, str_eq_iff, take, drop, length, length-append, take-append,
  All, arith,
}
use wamr_app_framework.Restful.{Outcome, ok, null}
use wamr_app_framework.Restful.Packet.{read_byte}
use wamr_app_framework.Attributes.{
  u16_bytes, u32_bytes, get_uint16, read_bytes, skip_value, attr_container_get_attr_next,
  key_matches, find_from, end_from,
}
use wamr_app_framework.Attributes.Layout.{
  Attr, encode_value, encode_head, encode, encode_all, HasSize, IsAttr, length-encode_head,
  drop_behind, get_uint16_at, get_uint32_at, read_byte_at,
}

-- The value behind the type.
skip_value-encode_value :
    (buf : List ℕ) (p : ℕ) (a : Attr) (rest : List ℕ)
    → HasSize a
    → drop p buf ≡ encode_value a.type_of a.value ++ rest
    → skip_value buf a.type_of p ≡ ok (p + length (encode_value a.type_of a.value))
unfolding skip_value encode_value u16_bytes u32_bytes
skip_value-encode_value buf p a rest (inl (le, len)) e = ground (arith, le, len)
skip_value-encode_value buf p a rest (inr (inl (t, len))) e =
    let n = length a.value in
    let read =
      get_uint16_at buf p n (a.value ++ rest) (e ∙ ap (λ k. encode_value k a.value ++ rest) t)
        len in
    ground (arith, t, read)
skip_value-encode_value buf p a rest (inr (inr (t, len))) e =
    let n = length a.value in
    let read =
      get_uint32_at buf p n (a.value ++ rest) (e ∙ ap (λ k. encode_value k a.value ++ rest) t)
        len in
    ground (arith, t, read)

pub encode_assoc :
    (a : Attr) (rest : List ℕ)
    → encode a ++ rest ≡ encode_head a ++ (encode_value a.type_of a.value ++ rest)
unfolding encode
encode_assoc a rest = append_assoc (encode_head a) (encode_value a.type_of a.value) rest

-- The key with its length, in front of the type.
abbrev pub key_part : Attr → List ℕ
key_part a = u16_bytes (length a.key + 1) ++ (a.key ++ (0 ∷ []))

pub length-key_part : (a : Attr) → length (key_part a) ≡ 2 + (length a.key + 1)
unfolding u16_bytes
length-key_part a = omega (arith, length-append a.key (0 ∷ []))

pub head_split :
    (a : Attr) (rest : List ℕ) → encode_head a ++ rest ≡ key_part a ++ (a.type_of ∷ rest)
unfolding encode_head
head_split a rest =
    let n = u16_bytes (length a.key + 1) in
    append_assoc n (a.key ++ (0 ∷ a.type_of ∷ [])) rest
    ∙ ap (λ l. n ++ l)
        (append_assoc a.key (0 ∷ a.type_of ∷ []) rest
          ∙ sym (append_assoc a.key (0 ∷ []) (a.type_of ∷ rest)))
    ∙ sym (append_assoc n (a.key ++ (0 ∷ [])) (a.type_of ∷ rest))

key_len_at :
    (buf : List ℕ) (p : ℕ) (a : Attr) (rest : List ℕ)
    → IsAttr a
    → drop p buf ≡ encode_head a ++ rest
    → get_uint16 buf p ≡ ok (length a.key + 1)
unfolding encode_head
key_len_at buf p a rest h e =
    let n = u16_bytes (length a.key + 1) in
    get_uint16_at buf p (length a.key + 1) _
      (e ∙ append_assoc n (a.key ++ (0 ∷ a.type_of ∷ [])) rest) h.key_u16

-- The next attribute is behind the encoding of this one.
pub attr_container_get_attr_next-encode :
    (buf : List ℕ) (p : ℕ) (a : Attr) (rest : List ℕ)
    → IsAttr a
    → drop p buf ≡ encode a ++ rest
    → attr_container_get_attr_next buf p ≡ ok (p + length (encode a))
attr_container_get_attr_next-encode buf p a rest h e =
    let v = encode_value a.type_of a.value in
    let n : ℕ = 2 + (length a.key + 1) in
    let split : drop p buf ≡ encode_head a ++ (v ++ rest) = e ∙ encode_assoc a rest in
    let key_len = key_len_at buf p a (v ++ rest) h split in
    let type_read : read_byte buf (p + n) ≡ ok a.type_of =
      read_byte_at buf p n a.type_of (key_part a) (v ++ rest) (split ∙ head_split a (v ++ rest))
        (length-key_part a) in
    let head : length (encode_head a) ≡ n + 1 = omega (arith, length-encode_head a) in
    let behind : drop (p + (n + 1)) buf ≡ v ++ rest =
      drop_behind buf p (n + 1) (encode_head a) (v ++ rest) split head in
    let skipped = skip_value-encode_value buf (p + (n + 1)) a rest h.size behind in
    let len = length-append (encode_head a) v in
    unfold attr_container_get_attr_next encode in
    ground (arith, key_len, type_read, skipped, head, len)

-- How long the attributes are together.
unfoldable pub total_size : List Attr → ℕ
total_size [] = 0
total_size (a ∷ attrs) = length (encode a) + total_size attrs

pub length-encode_all :
    (attrs : List Attr) (slack : List ℕ)
    → length (encode_all attrs slack) ≡ total_size attrs + length slack
unfolding encode_all total_size
length-encode_all [] slack = omega arith
length-encode_all (a ∷ attrs) slack =
    omega (arith, length-append (encode a) (encode_all attrs slack), length-encode_all attrs slack)

pub end_from-encode_all :
    (buf : List ℕ) (attrs : List Attr) (slack : List ℕ) (p : ℕ)
    → All IsAttr attrs
    → drop p buf ≡ encode_all attrs slack
    → end_from buf (length attrs) p ≡ ok (p + total_size attrs)
unfolding end_from encode_all total_size
end_from-encode_all buf [] slack p h e = ground arith
end_from-encode_all buf (a ∷ attrs) slack p h e =
    let q : ℕ = p + length (encode a) in
    let next = attr_container_get_attr_next-encode buf p a (encode_all attrs slack) h.0 e in
    let behind : drop q buf ≡ encode_all attrs slack =
      drop_behind buf p (length (encode a)) (encode a) (encode_all attrs slack) e refl in
    let rest = end_from-encode_all buf attrs slack q h.1 behind in ground (arith, next, rest)

str_eq_terminated :
    (xs ys : List ℕ)
    → length xs ≡ length ys
    → str_eq (xs ++ (0 ∷ [])) (ys ++ (0 ∷ [])) ≡ str_eq xs ys
unfolding str_eq
str_eq_terminated [] [] h = refl
str_eq_terminated [] (y ∷ ys) h = absurd (omega arith)
str_eq_terminated (x ∷ xs) [] h = absurd (omega arith)
str_eq_terminated (x ∷ xs) (y ∷ ys) h = ground (arith, str_eq_terminated xs ys (omega arith))

pub str_eq-length : (xs ys : List ℕ) → str_eq xs ys ≡ true → length xs ≡ length ys
str_eq-length xs ys h = ap length ((str_eq_iff xs ys).0 h)

key_matches-encode_head :
    (buf : List ℕ) (p : ℕ) (a : Attr) (key rest : List ℕ)
    → drop p buf ≡ encode_head a ++ rest
    → p + 2 + (length a.key + 1) ≤ length buf
    → key_matches buf p (length a.key + 1) key ≡ ok (str_eq a.key key)
key_matches-encode_head buf p a key rest e le =
    let n = u16_bytes (length a.key + 1) in
    let terminated = a.key ++ (0 ∷ []) in
    let split : drop p buf ≡ n ++ (terminated ++ (a.type_of ∷ rest)) =
      e ∙ head_split a rest ∙ append_assoc n terminated (a.type_of ∷ rest) in
    let key_at : drop (p + 2) buf ≡ terminated ++ (a.type_of ∷ rest) =
      drop_behind buf p 2 n (terminated ++ (a.type_of ∷ rest)) split (unfold u16_bytes in refl) in
    let len : length terminated ≡ length a.key + 1 = omega (arith, length-append a.key (0 ∷ [])) in
    let taken : take (length a.key + 1) (drop (p + 2) buf) ≡ terminated =
      ap (take (length a.key + 1)) key_at
      ∙ take-append (length a.key + 1) terminated (a.type_of ∷ rest) len in
    unfold key_matches read_bytes in
    ground (arith, taken, str_eq_terminated a.key key, str_eq-length a.key key)

-- Where the first attribute with a key is, counted from the first attribute.
unfoldable pub position : List ℕ → List Attr → Option ℕ
position key [] = none
position key (a ∷ attrs) =
    let later = position key attrs in
    if str_eq a.key key
    then some 0
    else elim later [ none ↦ none | some n ↦ some (length (encode a) + n) ]

abbrev pub place : ℕ → Option ℕ → Outcome ℕ
place p none = null
place p (some n) = ok (p + n)

pub find_from-encode_all :
    (buf key : List ℕ) (attrs : List Attr) (slack : List ℕ) (p : ℕ)
    → All IsAttr attrs
    → drop p buf ≡ encode_all attrs slack
    → p + length (encode_all attrs slack) ≤ length buf
    → find_from buf (length buf) key (length attrs) p ≡ place p (position key attrs)
unfolding find_from position
find_from-encode_all buf key [] slack p h e le = refl
find_from-encode_all buf key (a ∷ attrs) slack p h e le =
    let q : ℕ = p + length (encode a) in
    let rest = encode_all attrs slack in
    let v = encode_value a.type_of a.value in
    let whole : drop p buf ≡ encode a ++ rest = e ∙ (unfold encode_all in refl) in
    let split : drop p buf ≡ encode_head a ++ (v ++ rest) = whole ∙ encode_assoc a rest in
    let len : length (encode_all (a ∷ attrs) slack) ≡ length (encode a) + length rest =
      unfold encode_all in length-append (encode a) rest in
    let encoded : length (encode a) ≡ length (encode_head a) + length v =
      unfold encode in length-append (encode_head a) v in
    let head = length-encode_head a in
    let key_len = key_len_at buf p a (v ++ rest) h.0 split in
    let matches = key_matches-encode_head buf p a key (v ++ rest) split (omega arith) in
    let next = attr_container_get_attr_next-encode buf p a rest h.0 whole in
    let behind : drop q buf ≡ rest =
      drop_behind buf p (length (encode a)) (encode a) rest whole refl in
    let later = find_from-encode_all buf key attrs slack q h.1 behind (omega arith) in
    ground (arith, key_len, matches, next, later, len, encoded, head)
