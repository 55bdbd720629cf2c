-- ===== src/Attributes/Container/Read.antt =====
-- What the `attr_container_get_as_` functions of app-framework/app-native-shared/attr_container.c read
-- from a container, and the container that `attr_container_create` makes.
use wamr_app_framework.Prelude.{
  ℕ, ◌+◌, ◌^◌, ◌%◌, ◌≤◌, ◌<◌, ◌≡◌, ◌⊎◌, inl, inr, refl, sym, ap, subst, ◌∙◌, List, [], ◌∷◌, ◌++◌,
  none, some, ltb, if◌then◌else◌, take, drop, length, length-append, drop-add, take_all,
  length-drop, take-append_le, ◌-◌, ◌≢◌, str_eq_iff, All, arith,
}
use wamr_app_framework.Restful.{ok, null}
use wamr_app_framework.Restful.Packet.{read_byte}
use wamr_app_framework.Attributes.{
  AttrContainer, attr_type_boolean, attr_type_string, attr_type_bytearray, u16_bytes, u32_bytes,
  get_uint16, get_uint32, read_bytes, attr_container_find_attr, attr_container_get_attr,
  is_number_type, number_of, value_at, attr_buf_to_value, bytes_at, attr_container_get_as_bytearray,
}
use wamr_app_framework.Attributes.Layout.{
  Attr, encode_value, encode, encode_all, IsAttr, drop_behind, read_byte_at, get_uint16_at,
  get_uint32_at,
}
use wamr_app_framework.Attributes.Layout.Walk.{
  total_size, length-encode_all, place, key_part, length-key_part, head_split, encode_assoc,
}
use wamr_app_framework.Attributes.Container.{
  IsContainer, attrs_behind, attr_container_find_attr-position,
}
use wamr_app_framework.Attributes.Container.Entries.{
  lookup, lookup-append, IsSplit, key_cases, All-parts, encode_all-append,
}

-- The first bytes of a value that is known to be at a place.
read_bytes_at :
    (buf : List ℕ) (q n : ℕ) (value rest : List ℕ)
    → drop q buf ≡ value ++ rest
    → q ≤ length buf
    → n ≤ length value
    → read_bytes buf q n ≡ ok (take n value)
unfolding read_bytes
read_bytes_at buf q n value rest e le fits =
    let len : length buf - q ≡ length value + length rest =
      sym (length-drop q buf) ∙ ap length e ∙ length-append value rest in
    let taken : take n (drop q buf) ≡ take n value =
      ap (take n) e ∙ take-append_le n value rest fits in
    ground (arith, len, taken)

-- How many bytes of a value are copied into one of `width` bytes.
abbrev pub copied_length : ℕ → Attr → ℕ
copied_length width x =
    if is_number_type x.type_of
    then length x.value
    else if ltb width (length x.value)
    then width
    else length x.value

-- The number that a value of `width` bytes then holds: what is not copied is 0, the sign of a shorter
-- number is not extended.
abbrev pub number_for : ℕ → Attr → ℕ
number_for width x = number_of (take (copied_length width x) x.value) % 256 ^ width

-- One of the types that the public functions set.
abbrev pub HasKnownType : Attr → Type 0
HasKnownType x = (x.type_of ≢ 8) × (x.type_of ≢ 9)

module _ (c : AttrContainer) (tag : List ℕ) (attrs : List Attr) (slack : List ℕ)
    (h : IsContainer c tag attrs slack) (key : List ℕ) (before : List Attr) (x : Attr)
    (behind : List Attr) (split : IsSplit key attrs before x behind) where
  abbrev at : ℕ
  at = 8 + length tag + total_size before

  abbrev rest : List ℕ
  rest = encode_all behind slack

  x-IsAttr : IsAttr x
  x-IsAttr = (All-parts IsAttr before (x ∷ behind) (subst (All IsAttr) split.whole h.each)).1.0

  pub lookup-IsSplit : lookup key attrs ≡ some x
  lookup-IsSplit =
      ap (lookup key) split.whole
      ∙ lookup-append key before (x ∷ behind)
      ∙ (unfold lookup in ground (arith, split.first, (str_eq_iff x.key key).1 split.same_key))

  x_behind : drop at c.buf ≡ encode x ++ rest
  x_behind =
      let len : length (encode_all before []) ≡ total_size before =
        omega (arith, length-encode_all before []) in
      drop_behind c.buf (8 + length tag) (total_size before) (encode_all before [])
        (encode x ++ rest)
        (attrs_behind c tag attrs slack h
          ∙ ap (λ l. encode_all l slack) split.whole
          ∙ encode_all-append before (x ∷ behind) slack
          ∙ (unfold encode_all in refl))
        len

  abbrev addr : ℕ
  addr = at + 2 + length key + 1

  addr_found : attr_container_get_attr c.buf key ≡ ok addr
  addr_found =
      let found : attr_container_find_attr c.buf key ≡ ok at =
        attr_container_find_attr-position c tag attrs slack h key
        ∙ ap (place (8 + length tag)) split.placed in
      unfold attr_container_get_attr in ground (arith, found)

  key_length : length x.key ≡ length key
  key_length = ap length split.same_key

  type_behind : drop addr c.buf ≡ x.type_of ∷ (encode_value x.type_of x.value ++ rest)
  type_behind =
      let v = encode_value x.type_of x.value ++ rest in
      let n : length (key_part x) ≡ 2 + (length key + 1) =
        omega (arith, length-key_part x, key_length) in
      let e : addr ≡ at + (2 + (length key + 1)) = omega arith in
      ap (λ p. drop p c.buf) e
      ∙ drop_behind c.buf at (2 + (length key + 1)) (key_part x) (x.type_of ∷ v)
          (x_behind ∙ encode_assoc x rest ∙ head_split x v) n

  type_read : read_byte c.buf addr ≡ ok x.type_of
  type_read =
      let e : addr + 0 ≡ addr = omega arith in
      ap (read_byte c.buf) (sym e)
      ∙ read_byte_at c.buf addr 0 x.type_of [] (encode_value x.type_of x.value ++ rest) type_behind
          refl

  value_behind : drop (addr + 1) c.buf ≡ encode_value x.type_of x.value ++ rest
  value_behind = drop-add addr 1 c.buf ∙ ap (drop 1) type_behind

  in_buf : addr + 1 + length (encode_value x.type_of x.value) ≤ length c.buf
  in_buf =
      let len : length c.buf - addr ≡ 1 + (length (encode_value x.type_of x.value) + length rest) =
        sym (length-drop addr c.buf)
        ∙ ap length type_behind
        ∙ omega (arith, length-append (encode_value x.type_of x.value) rest) in
      omega arith

  -- A value with its length in front, of two or of four bytes.
  string_at :
      x.type_of ≡ attr_type_string
      → length x.value < 2 ^ 16
      → (get_uint16 c.buf (addr + 1) ≡ ok (length x.value))
        × (drop (addr + 3) c.buf ≡ x.value ++ rest)
        × (addr + 3 ≤ length c.buf)
  unfolding encode_value u16_bytes
  string_at t lt =
      let n = length x.value in
      let e : drop (addr + 1) c.buf ≡ u16_bytes n ++ (x.value ++ rest) =
        value_behind ∙ ap (λ k. encode_value k x.value ++ rest) t in
      let three : addr + 3 ≡ addr + 1 + 2 = omega arith in
      (
        get_uint16_at c.buf (addr + 1) n (x.value ++ rest) e lt,
        ap (λ p. drop p c.buf) three
            ∙ drop_behind c.buf (addr + 1) 2 (u16_bytes n) (x.value ++ rest) e refl,
        ground (arith, in_buf, t),
      )

  array_at :
      x.type_of ≡ attr_type_bytearray
      → length x.value < 2 ^ 32
      → (get_uint32 c.buf (addr + 1) ≡ ok (length x.value))
        × (drop (addr + 5) c.buf ≡ x.value ++ rest)
        × (addr + 5 ≤ length c.buf)
  unfolding encode_value u32_bytes
  array_at t lt =
      let n = length x.value in
      let e : drop (addr + 1) c.buf ≡ u32_bytes n ++ (x.value ++ rest) =
        value_behind ∙ ap (λ k. encode_value k x.value ++ rest) t in
      let five : addr + 5 ≡ addr + 1 + 4 = omega arith in
      (
        get_uint32_at c.buf (addr + 1) n (x.value ++ rest) e lt,
        ap (λ p. drop p c.buf) five
            ∙ drop_behind c.buf (addr + 1) 4 (u32_bytes n) (x.value ++ rest) e refl,
        ground (arith, in_buf, t),
      )

  number_at : x.type_of ≤ attr_type_boolean → drop (addr + 1) c.buf ≡ x.value ++ rest
  number_at le = value_behind ∙ ap (λ v. v ++ rest) (unfold encode_value in ground arith)

  -- `value_at` gives the place of the value and what is copied of it.
  abbrev CopiedAt : ℕ → Type 0
  CopiedAt width =
      (q : ℕ) × (value_at c.buf width x.type_of (addr + 1) ≡ ok (q, copied_length width x))
      × (read_bytes c.buf q (copied_length width x) ≡ ok (take (copied_length width x) x.value))

  copied_length_le : (width : ℕ) → copied_length width x ≤ length x.value
  copied_length_le width = ground arith

  value_copied : (width : ℕ) → HasKnownType x → CopiedAt width
  unfolding value_at
  value_copied width (not_8, not_9) = elim (x-IsAttr.size) [
    | inl (le, len) ↦
        let at_value = number_at le in
        let bound = in_buf in
        (
          addr + 1,
          ground (arith, le, len, not_8, not_9),
          read_bytes_at c.buf (addr + 1) (copied_length width x) x.value rest at_value (omega arith)
              (copied_length_le width),
        )
    | inr (inl (t, lt)) ↦
        let (len, at_value, bound) = string_at t lt in
        let three : addr + 1 + 2 ≡ addr + 3 = omega arith in
        (
          addr + 3,
          ground (arith, t, len, three),
          read_bytes_at c.buf (addr + 3) (copied_length width x) x.value rest at_value bound
              (copied_length_le width),
        )
    | inr (inr (t, lt)) ↦
        let (len, at_value, bound) = array_at t lt in
        let five : addr + 1 + 4 ≡ addr + 5 = omega arith in
        (
          addr + 5,
          ground (arith, t, len, five),
          read_bytes_at c.buf (addr + 5) (copied_length width x) x.value rest at_value bound
              (copied_length_le width),
        )
  ]

  pub value_read :
      (width : ℕ) → HasKnownType x → attr_buf_to_value width c.buf key ≡ ok (number_for width x)
  value_read width known =
      let (q, place_read, bytes) = value_copied width known in
      let found = addr_found in
      let type_found = type_read in
      unfold attr_buf_to_value in ground (arith, found, type_found, place_read, bytes)

  -- All bytes of the value, where `attr_container_get_as_bytearray` says.
  pub bytes_read :
      HasKnownType x
      → (q : ℕ) × (attr_container_get_as_bytearray c.buf key ≡ ok (q, length x.value))
        × (read_bytes c.buf q (length x.value) ≡ ok x.value)
  bytes_read (not_8, not_9) =
      let found = addr_found in
      let type_found = type_read in
      let n = length x.value in
      let all : take n x.value ≡ x.value = take_all n x.value (omega arith) in
      let bytes_of = λ (q : ℕ) (e : drop q c.buf ≡ x.value ++ rest) (le : q ≤ length c.buf).
        read_bytes_at c.buf q n x.value rest e le (omega arith) ∙ ap ok all in
      elim (x-IsAttr.size) [
        | inl (le, len) ↦
            let bound = in_buf in
            (
              addr + 1,
              (unfold attr_container_get_as_bytearray bytes_at in
                  ground (arith, found, type_found, le, len, not_8, not_9)),
              bytes_of (addr + 1) (number_at le) (omega arith),
            )
        | inr (inl (t, lt)) ↦
            let (len, at_value, bound) = string_at t lt in
            let three : addr + 1 + 2 ≡ addr + 3 = omega arith in
            (
              addr + 3,
              (unfold attr_container_get_as_bytearray bytes_at in
                  ground (arith, found, type_found, t, len, three)),
              bytes_of (addr + 3) at_value bound,
            )
        | inr (inr (t, lt)) ↦
            let (len, at_value, bound) = array_at t lt in
            let five : addr + 1 + 4 ≡ addr + 5 = omega arith in
            (
              addr + 5,
              (unfold attr_container_get_as_bytearray bytes_at in
                  ground (arith, found, type_found, t, len, five)),
              bytes_of (addr + 5) at_value bound,
            )
      ]

module _ (c : AttrContainer) (tag : List ℕ) (attrs : List Attr) (slack : List ℕ)
    (h : IsContainer c tag attrs slack) (key : List ℕ) where
  -- What the functions find in the dictionary of a container.
  pub not_found : lookup key attrs ≡ none → attr_container_get_attr c.buf key ≡ null
  not_found e = elim (key_cases key attrs) [
    | inl (s, p, l) ↦
        let missing = attr_container_find_attr-position c tag attrs slack h key in
        unfold attr_container_get_attr in ground (arith, missing, p)
    | inr (before, x, behind, split) ↦
        absurd (ground (arith, e, lookup-IsSplit c tag attrs slack h key before x behind split))
  ]

  -- `TEMPLATE_ATTR_BUF_TO_VALUE`, the body of the functions that get a number, gives 0 for a key that
  -- the container has not, and else the value's bytes as an unsigned number, cut to the width asked
  -- for; all attributes have types that the public functions set.
  pub attr_buf_to_value-lookup :
      (width : ℕ)
      → All HasKnownType attrs
      → attr_buf_to_value width c.buf key
        ≡ ok (elim (lookup key attrs) [ none ↦ 0 | some x ↦ number_for width x ])
  attr_buf_to_value-lookup width known = elim (key_cases key attrs) [
    | inl (s, p, l) ↦
        let missing = not_found l in unfold attr_buf_to_value in ground (arith, missing, l)
    | inr (before, x, behind, split) ↦
        let found = lookup-IsSplit c tag attrs slack h key before x behind split in
        let known_x =
          (All-parts HasKnownType before (x ∷ behind)
            (subst (All HasKnownType) split.whole known)).1.0 in
        let read = value_read c tag attrs slack h key before x behind split width known_x in
        ground (arith, found, read)
  ]

  -- The function `attr_container_get_as_bytearray` gives NULL for a key that the container has not, and else the
  -- place and the length of the value, where its bytes are; all attributes have types that the public
  -- functions set.
  pub attr_container_get_as_bytearray-lookup :
      All HasKnownType attrs
      → ((lookup key attrs ≡ none) × (attr_container_get_as_bytearray c.buf key ≡ null))
        ⊎ ((x : Attr) × (q : ℕ) × (lookup key attrs ≡ some x)
            × (attr_container_get_as_bytearray c.buf key ≡ ok (q, length x.value))
            × (read_bytes c.buf q (length x.value) ≡ ok x.value))
  attr_container_get_as_bytearray-lookup known = elim (key_cases key attrs) [
    | inl (s, p, l) ↦
        let missing = not_found l in
        inl (l, (unfold attr_container_get_as_bytearray in ground (arith, missing)))
    | inr (before, x, behind, split) ↦
        let found = lookup-IsSplit c tag attrs slack h key before x behind split in
        let known_x =
          (All-parts HasKnownType before (x ∷ behind)
            (subst (All HasKnownType) split.whole known)).1.0 in
        let (q, place_read, bytes) =
          bytes_read c tag attrs slack h key before x behind split known_x in
        inr (x, q, found, place_read, bytes)
  ]
