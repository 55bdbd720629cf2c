-- ===== src/Attributes/Container/Keys.antt =====
-- The keys of a container of app-framework/app-native-shared/attr_container.c stay distinct.
use wamr_app_framework.Prelude.{
  ◌≡◌, inl, inr, refl, sym, ap, subst, ◌∙◌, List, [], ◌∷◌, ◌++◌, append_assoc, none, str_eq,
  str_eq_comm, arith,
}
use wamr_app_framework.Attributes.Layout.{Attr}
use wamr_app_framework.Attributes.Container.Entries.{
  lookup, lookup-append, lookup_behind, put, put_cases, key_cases, HasDistinctKeys,
}

HasDistinctKeys-last :
    (l : List Attr) (a : Attr)
    → HasDistinctKeys l
    → lookup a.key l ≡ none
    → HasDistinctKeys (l ++ (a ∷ []))
unfolding lookup
HasDistinctKeys-last [] a d e = (refl, tt)
HasDistinctKeys-last (b ∷ l) a d e =
    let found = lookup-append b.key l (a ∷ []) in
    (
      ground (arith, d.0, e, found, str_eq_comm a.key b.key),
      HasDistinctKeys-last l a d.1 (ground (arith, e)),
    )

HasDistinctKeys-swap :
    (before behind : List Attr) (x a : Attr)
    → x.key ≡ a.key
    → HasDistinctKeys (before ++ (x ∷ behind))
    → HasDistinctKeys (before ++ (a ∷ behind))
unfolding lookup
HasDistinctKeys-swap [] behind x a e d = (subst (λ k. lookup k behind ≡ none) e d.0, d.1)
HasDistinctKeys-swap (b ∷ before) behind x a e d =
    let old = lookup-append b.key before (x ∷ behind) in
    let new = lookup-append b.key before (a ∷ behind) in
    let same : str_eq x.key b.key ≡ str_eq a.key b.key = ap (λ k. str_eq k b.key) e in
    (ground (arith, d.0, old, new, same), HasDistinctKeys-swap before behind x a e d.1)

HasDistinctKeys-without :
    (before behind : List Attr) (x : Attr)
    → HasDistinctKeys (before ++ (x ∷ behind))
    → HasDistinctKeys (before ++ behind)
unfolding lookup
HasDistinctKeys-without [] behind x d = d.1
HasDistinctKeys-without (b ∷ before) behind x d =
    let old = lookup-append b.key before (x ∷ behind) in
    let new = lookup-append b.key before behind in
    (ground (arith, d.0, old, new), HasDistinctKeys-without before behind x d.1)

pub put-HasDistinctKeys :
    (a : Attr) (attrs : List Attr) → HasDistinctKeys attrs → HasDistinctKeys (put a attrs)
put-HasDistinctKeys a attrs d = elim (key_cases a.key attrs) [
  | inl (absent, q, l) ↦
      let last : attrs ++ (a ∷ []) ≡ put a attrs = unfold put in ground (arith, absent) in
      subst HasDistinctKeys last (HasDistinctKeys-last attrs a d l)
  | inr (before, x, behind, split) ↦
      let d' = subst HasDistinctKeys split.whole d in
      let gone : lookup a.key behind ≡ none =
        subst (λ k. lookup k behind ≡ none) split.same_key (lookup_behind before behind x d') in
      let all_gone : lookup a.key (before ++ behind) ≡ none =
        ground (arith, split.first, gone, lookup-append a.key before behind) in
      let last =
        HasDistinctKeys-last (before ++ behind) a (HasDistinctKeys-without before behind x d')
          all_gone in
      elim (put_cases a attrs before x behind split) [
        | inl e ↦
            subst HasDistinctKeys (sym e) (HasDistinctKeys-swap before behind x a split.same_key d')
        | inr e ↦ subst HasDistinctKeys (append_assoc before behind (a ∷ []) ∙ sym e) last
      ]
]
