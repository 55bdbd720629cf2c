-- ===== src/Attributes/Container/Entries.antt =====
-- The attributes of a container as a dictionary, and what `attr_container_set_attr` of
-- app-framework/app-native-shared/attr_container.c makes of it.
use wamr_app_framework.Prelude.{
  ℕ, ◌+◌, ◌≡◌, ◌⊎◌, inl, inr, refl, sym, ap, subst, false, ◌∙◌, List, [], ◌∷◌, ◌++◌, append_assoc,
  Option, none, some, ◌==◌, if◌then◌else◌, str_eq, str_eq_iff, length, All, Bool-cases, arith,
}
use wamr_app_framework.Attributes.Layout.{Attr, encode, encode_all}
use wamr_app_framework.Attributes.Layout.Walk.{total_size, position}

-- The attribute of a key.
unfoldable pub lookup : List ℕ → List Attr → Option Attr
lookup key [] = none
lookup key (a ∷ attrs) = if str_eq a.key key then some a else lookup key attrs

-- The list around the first attribute of a key.
unfoldable pub split_key : List ℕ → List Attr → Option (List Attr × Attr × List Attr)
split_key key [] = none
split_key key (a ∷ attrs) =
    let later = split_key key attrs in
    if str_eq a.key key
    then some ([], a, attrs)
    else elim later [ none ↦ none | some (before, x, behind) ↦ some (a ∷ before, x, behind) ]

-- An attribute of the same key is replaced in place by one of the same size, and else taken out; the
-- new one is then the last.
unfoldable pub put : Attr → List Attr → List Attr
put a attrs = elim (split_key a.key attrs) [
  | none ↦ attrs ++ (a ∷ [])
  | some (before, x, behind) ↦
      if length (encode x) == length (encode a)
      then before ++ (a ∷ behind)
      else before ++ (behind ++ (a ∷ []))
]

abbrev pub HasDistinctKeys : List Attr → Type 0
HasDistinctKeys [] = Unit {0}
HasDistinctKeys (a ∷ attrs) = (lookup a.key attrs ≡ none) × HasDistinctKeys attrs

pub record IsSplit (key : List ℕ) (attrs before : List Attr) (x : Attr) (behind : List Attr)
    : Type 0 where
  pub found : split_key key attrs ≡ some (before, x, behind)
  pub whole : attrs ≡ before ++ (x ∷ behind)
  pub same_key : x.key ≡ key
  pub placed : position key attrs ≡ some (total_size before)
  pub first : lookup key before ≡ none

abbrev pub IsAbsent : List ℕ → List Attr → Type 0
IsAbsent key attrs =
    (split_key key attrs ≡ none) × (position key attrs ≡ none) × (lookup key attrs ≡ none)

pub key_cases :
    (key : List ℕ) (attrs : List Attr)
    → IsAbsent key attrs
      ⊎ ((before : List Attr) × (x : Attr) × (behind : List Attr) × IsSplit key attrs before x
            behind)
unfolding split_key position lookup total_size
key_cases key [] = inl (refl, refl, refl)
key_cases key (a ∷ attrs) = elim (Bool-cases (str_eq a.key key)) [
  | inl hit ↦ inr (
    [],
    a,
    attrs,
    record {
      found = ground (arith, hit);
      whole = refl;
      same_key = (str_eq_iff a.key key).0 hit;
      placed = ground (arith, hit);
      first = refl;
    },
  )
  | inr miss ↦ elim (key_cases key attrs) [
    | inl (s, p, l) ↦
        inl (ground (arith, miss, s), ground (arith, miss, p), ground (arith, miss, l))
    | inr (before, x, behind, i) ↦ inr (
      a ∷ before,
      x,
      behind,
      record {
        found = ground (arith, miss, i.found);
        whole = ap (◌∷◌ a) i.whole;
        same_key = i.same_key;
        placed = ground (arith, miss, i.placed);
        first = ground (arith, miss, i.first);
      },
    )
  ]
]

pub All-append : (P : Attr → Type 0) (l m : List Attr) → All P l → All P m → All P (l ++ m)
All-append P [] m h k = k
All-append P (a ∷ l) m h k = (h.0, All-append P l m h.1 k)

pub All-parts : (P : Attr → Type 0) (l m : List Attr) → All P (l ++ m) → All P l × All P m
All-parts P [] m h = (tt, h)
All-parts P (a ∷ l) m h = let (f, g) = All-parts P l m h.1 in ((h.0, f), g)

pub encode_all-append :
    (l m : List Attr) (slack : List ℕ)
    → encode_all (l ++ m) slack ≡ encode_all l [] ++ encode_all m slack
unfolding encode_all
encode_all-append [] m slack = refl
encode_all-append (a ∷ l) m slack =
    ap (λ r. encode a ++ r) (encode_all-append l m slack)
    ∙ sym (append_assoc (encode a) (encode_all l []) (encode_all m slack))

pub total_size-append : (l m : List Attr) → total_size (l ++ m) ≡ total_size l + total_size m
unfolding total_size
total_size-append [] m = omega arith
total_size-append (a ∷ l) m = omega (arith, total_size-append l m)

-- `f` after `g` where `g` finds nothing.
abbrev pub or_else : Option Attr → Option Attr → Option Attr
or_else none o = o
or_else (some a) o = some a

pub lookup-append :
    (key : List ℕ) (l m : List Attr) → lookup key (l ++ m) ≡ or_else (lookup key l) (lookup key m)
unfolding lookup
lookup-append key [] m = refl
lookup-append key (a ∷ l) m = ground (arith, lookup-append key l m)

pub lookup_behind :
    (before behind : List Attr) (x : Attr)
    → HasDistinctKeys (before ++ (x ∷ behind))
    → lookup x.key behind ≡ none
lookup_behind [] behind x d = d.0
lookup_behind (a ∷ before) behind x d = lookup_behind before behind x d.1

pub put_cases :
    (a : Attr) (attrs before : List Attr) (x : Attr) (behind : List Attr)
    → IsSplit a.key attrs before x behind
    → (put a attrs ≡ before ++ (a ∷ behind)) ⊎ (put a attrs ≡ before ++ (behind ++ (a ∷ [])))
unfolding put
put_cases a attrs before x behind i = elim (Bool-cases (length (encode x) == length (encode a))) [
  | inl same ↦ inl (ground (arith, i.found, same))
  | inr other ↦ inr (ground (arith, i.found, other))
]

-- Around the place of a key, an attribute of that key comes to stand.
lookup_around :
    (key : List ℕ) (a x : Attr) (before behind : List Attr)
    → x.key ≡ a.key
    → lookup a.key before ≡ none
    → lookup a.key behind ≡ none
    → let r = if str_eq a.key key then some a else lookup key (before ++ (x ∷ behind)) in
      (lookup key (before ++ (a ∷ behind)) ≡ r) × (lookup key (before ++ (behind ++ (a ∷ []))) ≡ r)
lookup_around key a x before behind same f g =
    let outer = lookup-append key before (a ∷ behind) in
    let outer' = lookup-append key before (behind ++ (a ∷ [])) in
    let inner = lookup-append key behind (a ∷ []) in
    let old = lookup-append key before (x ∷ behind) in
    elim (Bool-cases (str_eq a.key key)) [
      | inl hit ↦
          let e : a.key ≡ key = (str_eq_iff a.key key).0 hit in
          let f' : lookup key before ≡ none = subst (λ k. lookup k before ≡ none) e f in
          let g' : lookup key behind ≡ none = subst (λ k. lookup k behind ≡ none) e g in
          (
            unfold lookup in ground (arith, hit, f', outer),
            unfold lookup in ground (arith, hit, f', g', outer', inner),
          )
      | inr miss ↦
          let other : str_eq x.key key ≡ false = ap (λ k. str_eq k key) same ∙ miss in
          (
            unfold lookup in ground (arith, miss, other, outer, old),
            unfold lookup in ground (arith, miss, other, outer', inner, old),
          )
    ]

lookup-put_absent :
    (key : List ℕ) (a : Attr) (attrs : List Attr)
    → IsAbsent a.key attrs
    → lookup key (put a attrs) ≡ (if str_eq a.key key then some a else lookup key attrs)
lookup-put_absent key a attrs (s, p, l) =
    let put_last : put a attrs ≡ attrs ++ (a ∷ []) = unfold put in ground (arith, s) in
    let found = lookup-append key attrs (a ∷ []) in
    elim (Bool-cases (str_eq a.key key)) [
      | inl hit ↦
          let e : a.key ≡ key = (str_eq_iff a.key key).0 hit in
          let l' : lookup key attrs ≡ none = subst (λ k. lookup k attrs ≡ none) e l in
          unfold lookup in ground (arith, hit, l', found, put_last)
      | inr miss ↦ unfold lookup in ground (arith, miss, found, put_last)
    ]

-- The dictionary after `put`: the new attribute under its key, and every other key as before.
pub lookup-put :
    (key : List ℕ) (a : Attr) (attrs : List Attr)
    → HasDistinctKeys attrs
    → lookup key (put a attrs) ≡ (if str_eq a.key key then some a else lookup key attrs)
lookup-put key a attrs d = elim (key_cases a.key attrs) [
  | inl absent ↦ lookup-put_absent key a attrs absent
  | inr (before, x, behind, i) ↦
      let gone : lookup a.key behind ≡ none =
        subst (λ k. lookup k behind ≡ none) i.same_key
          (lookup_behind before behind x (subst HasDistinctKeys i.whole d)) in
      let (in_place, at_end) = lookup_around key a x before behind i.same_key i.first gone in
      let old : (if str_eq a.key key then some a else lookup key (before ++ (x ∷ behind)))
          ≡ (if str_eq a.key key then some a else lookup key attrs) =
        ap (λ l. if str_eq a.key key then some a else lookup key l) (sym i.whole) in
      elim (put_cases a attrs before x behind i) [
        | inl e ↦ ap (lookup key) e ∙ in_place ∙ old
        | inr e ↦ ap (lookup key) e ∙ at_end ∙ old
      ]
]

pub put-All :
    (P : Attr → Type 0) (a : Attr) (attrs : List Attr) → P a → All P attrs → All P (put a attrs)
put-All P a attrs p h = elim (key_cases a.key attrs) [
  | inl (absent, q, l) ↦
      let last : attrs ++ (a ∷ []) ≡ put a attrs = unfold put in ground (arith, absent) in
      subst (All P) last (All-append P attrs (a ∷ []) h (p, tt))
  | inr (before, x, behind, split) ↦
      let parts = All-parts P before (x ∷ behind) (subst (All P) split.whole h) in
      elim (put_cases a attrs before x behind split) [
        | inl e ↦ subst (All P) (sym e) (All-append P before (a ∷ behind) parts.0 (p, parts.1.1))
        | inr e ↦ subst (All P) (sym e) (
            All-append P before (behind ++ (a ∷ [])) parts.0
              (All-append P behind (a ∷ []) parts.1.1 (p, tt)))
      ]
]
