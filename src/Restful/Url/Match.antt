-- ===== src/Restful/Url/Match.antt =====
-- `match_url` of app-framework/app-native-shared/restful_utils.c implements the four kinds of
-- pattern that its comment lists.
use wamr_app_framework.Prelude.{
  ℕ, suc, ◌+◌, ◌-◌, ◌<◌, ◌≡◌, ◌≢◌, ◌⊎◌, inl, inr, ◌↔◌, refl, sym, ap, ◌∙◌, List, [], ◌∷◌, ◌++◌,
  Bool, true, false, ltb, ◌==◌, ◌&&◌, not, if◌then◌else◌, length, take, drop, get_or, arith, str_eq,
  str_eq_iff, take-append, length-append, take-append-drop, append-nil,
}
use wamr_app_framework.Restful.Url.{skip_slash, len_without_slash, match_url, strncmp_eq}
use wamr_app_framework.Restful.Url.Strings.{
  trim_slash, length-trim_slash, len_without_slash-le, get_or-append,
}

-- The patterns: `/abcd`, `/abcd/` and `/abcd*`. `/abcd/*` is `/abcd*` at the text `abcd/`.
pub data UrlPattern : Type 0 where
  exact : List ℕ → UrlPattern
  subtree : List ℕ → UrlPattern
  starting : List ℕ → UrlPattern

abbrev pub text : UrlPattern → List ℕ
text (exact q) = b'/' ∷ q
text (subtree q) = b'/' ∷ (q ++ (b'/' ∷ []))
text (starting q) = b'/' ∷ (q ++ (b'*' ∷ []))

-- A text that a pattern may stand for: it does not end in a way that makes it another pattern.
abbrev pub IsPlain : UrlPattern → Type 0
IsPlain (exact q) =
    (0 < length q) × (get_or q (length q - 1) 0 ≢ b'/') × (get_or q (length q - 1) 0 ≢ b'*')
IsPlain (subtree q) = get_or q (length q - 1) 0 ≢ b'/'
IsPlain (starting q) = Unit {0}

-- What the comment of `match_url` says of a url `m` with no `/` in front.
abbrev pub Matches : UrlPattern → List ℕ → Type 0
Matches (exact q) m = m ≡ q
Matches (subtree q) m = (m ≡ q) ⊎ ((rest : List ℕ) × (m ≡ q ++ (b'/' ∷ rest)))
Matches (starting q) m = (rest : List ℕ) × (m ≡ q ++ rest)

length-snoc : (q : List ℕ) (c : ℕ) → length (q ++ (c ∷ [])) ≡ suc (length q)
length-snoc q c = omega (arith, length-append q (c ∷ []))

last-snoc : (q : List ℕ) (c : ℕ) → get_or (q ++ (c ∷ [])) (length (q ++ (c ∷ [])) - 1) 0 ≡ c
last-snoc q c =
    let e : length (q ++ (c ∷ [])) - 1 ≡ length q = omega (arith, length-snoc q c) in
    rw e (get_or-append q c [])

-- `strncmp(q, m, len) == 0`, where `len` is the length of `q`, says that `m` begins with `q`.
strncmp-prefix_iff :
    (q tail m : List ℕ)
    → (strncmp_eq (q ++ tail) m (length q) ≡ true) ↔ ((rest : List ℕ) × (m ≡ q ++ rest))
unfolding strncmp_eq
strncmp-prefix_iff q tail m =
    let cut : take (length q) (q ++ tail) ≡ q = take-append (length q) q tail refl in
    (
      λ h. (
        drop (length q) m,
        sym (take-append-drop (length q) m)
            ∙ ap (λ s. s ++ drop (length q) m)
                (sym ((str_eq_iff (take (length q) (q ++ tail)) (take (length q) m)).0 h) ∙ cut),
      ),
      λ (rest, e).
          (str_eq_iff (take (length q) (q ++ tail)) (take (length q) m)).1
            (cut ∙ sym (take-append (length q) q rest refl) ∙ ap (take (length q)) (sym e)),
    )

module _ (matched : List ℕ) (some_url : 0 < length (trim_slash (skip_slash matched))) where
  abbrev m : List ℕ
  m = skip_slash matched

  m_pos : (0 < length m) × (0 < len_without_slash m)
  m_pos = omega (arith, length-trim_slash m, len_without_slash-le m)

  skip-text : (p : List ℕ) → skip_slash (b'/' ∷ p) ≡ p
  unfolding skip_slash
  skip-text p = refl

  abbrev last : List ℕ → ℕ
  last p = get_or p (length p - 1) 0

  abbrev compare_subtree : List ℕ → ℕ → Bool
  compare_subtree p n =
      if not (strncmp_eq p m n)
      then false
      else if n == len_without_slash m
      then true
      else if ltb n (len_without_slash m) && get_or m n 0 == b'/'
      then true
      else false

  -- `match_url` with the strings already cut.
  match_url-cut :
      (p : List ℕ)
      → 0 < length p
      → match_url (b'/' ∷ p) matched ≡ (
          if last p == b'/'
          then compare_subtree p (length p - 1)
          else if last p == b'*'
          then strncmp_eq p m (length p - 1)
          else str_eq p m)
  unfolding match_url
  match_url-cut p h = ground (arith, m_pos, skip-text p)

  match_url-exact :
      (q : List ℕ)
      → IsPlain (exact q)
      → (match_url (text (exact q)) matched ≡ true) ↔ Matches (exact q) m
  match_url-exact q p =
      let e : match_url (text (exact q)) matched ≡ str_eq q m =
        ground (arith, match_url-cut q p.0) in
      (λ h. sym ((str_eq_iff q m).0 (sym e ∙ h)), λ h. e ∙ (str_eq_iff q m).1 (sym h))

  match_url-starting :
      (q : List ℕ) → (match_url (text (starting q)) matched ≡ true) ↔ Matches (starting q) m
  match_url-starting q =
      let p = q ++ (b'*' ∷ []) in
      let n : length p - 1 ≡ length q = omega (arith, length-snoc q b'*') in
      let e : match_url (text (starting q)) matched ≡ strncmp_eq p m (length q) =
        ground (arith, n, match_url-cut p (omega (arith, length-snoc q b'*')), last-snoc q b'*') in
      let starts = strncmp-prefix_iff q (b'*' ∷ []) m in
      (λ h. starts.0 (sym e ∙ h), λ h. e ∙ starts.1 h)

  module _ (q : List ℕ) where
    abbrev p : List ℕ
    p = q ++ (b'/' ∷ [])

    match_url-compare_subtree : match_url (text (subtree q)) matched ≡ compare_subtree p (length q)
    match_url-compare_subtree =
        let n : length p - 1 ≡ length q = omega (arith, length-snoc q b'/') in
        ground (arith, n, match_url-cut p (omega (arith, length-snoc q b'/')), last-snoc q b'/')

    longer : (rest : List ℕ) → m ≡ q ++ rest → length m ≡ length q + length rest
    longer rest e = ap length e ∙ length-append q rest

    next_byte : (c : ℕ) (rest : List ℕ) → m ≡ q ++ (c ∷ rest) → get_or m (length q) 0 ≡ c
    next_byte c rest e = ap (λ s. get_or s (length q) 0) e ∙ get_or-append q c rest

    -- What follows `q` in a url that the comparison accepts.
    subtree_rest :
        compare_subtree p (length q) ≡ true
        → (rest : List ℕ) → m ≡ q ++ rest
        → Matches (subtree q) m
    subtree_rest h [] e = inl (e ∙ append-nil q)
    subtree_rest h (c ∷ rest) e =
        let slash : c ≡ b'/' =
          unfold len_without_slash in ground (arith, longer (c ∷ rest) e, next_byte c rest e) in
        inr (rest, e ∙ ap (λ x. q ++ (x ∷ rest)) slash)

    starts : (strncmp_eq p m (length q) ≡ true) ↔ ((rest : List ℕ) × (m ≡ q ++ rest))
    starts = strncmp-prefix_iff q (b'/' ∷ []) m

    subtree_sound : compare_subtree p (length q) ≡ true → Matches (subtree q) m
    subtree_sound h = let (rest, e) = starts.0 (ground arith) in subtree_rest h rest e

    subtree_complete :
        IsPlain (subtree q) → Matches (subtree q) m → compare_subtree p (length q) ≡ true
    unfolding len_without_slash
    subtree_complete plain (inl e) =
        let s = starts.1 ([], e ∙ sym (append-nil q)) in
        let l : last m ≢ b'/' = λ h. plain (ap last (sym e) ∙ h) in
        ground (arith, s, l, ap length e)
    subtree_complete plain (inr (rest, e)) =
        let s = starts.1 (b'/' ∷ rest, e) in
        ground (arith, s, longer (b'/' ∷ rest) e, next_byte b'/' rest e)

    match_url-subtree :
        IsPlain (subtree q) → (match_url (text (subtree q)) matched ≡ true) ↔ Matches (subtree q) m
    match_url-subtree plain = (
      λ h. subtree_sound (sym match_url-compare_subtree ∙ h),
      λ h. match_url-compare_subtree ∙ subtree_complete plain h,
    )

-- `match_url` decides each kind of pattern for a url that is more than a `/`: `/abcd` matches that
-- url alone; `/abcd/` matches `/abcd` and whatever goes on with `/abcd/`; `/abcd*` matches whatever
-- begins with `/abcd`. A `/` in front of the url makes no difference.
pub match_url-Matches :
    (pattern : UrlPattern) (matched : List ℕ)
    → IsPlain pattern
    → 0 < length (trim_slash (skip_slash matched))
    → (match_url (text pattern) matched ≡ true) ↔ Matches pattern (skip_slash matched)
match_url-Matches (exact q) matched plain h = match_url-exact matched h q plain
match_url-Matches (subtree q) matched plain h = match_url-subtree matched h q plain
match_url-Matches (starting q) matched plain h = match_url-starting matched h q
