-- ===== src/Restful/Url/Start.antt =====
-- `check_url_start` of app-framework/app-native-shared/restful_utils.c decides whether a url begins
-- with the segments of a leading string.
use wamr_app_framework.Prelude.{
  ℕ, zero, suc, ◌+◌, ◌-◌, ◌≤◌, ◌<◌, ◌≡◌, ◌⊎◌, inl, inr, ◌↔◌, refl, sym, ap, ◌∙◌, List, [], ◌∷◌,
  ◌++◌, true, ltb, ◌==◌, ◌&&◌, if◌then◌else◌, length, take, drop, get_or, arith, str_eq, str_eq_iff,
  length-take, take_all, take-append, length-append, drop-add,
}
use wamr_app_framework.Restful.Url.{skip_slash, len_without_slash, compare_start, check_url_start}
use wamr_app_framework.Restful.Url.Strings.{
  trim_slash, take-len_without_slash, length-trim_slash, len_without_slash-le, split_at,
  get_or-append, drop-skip_slash,
}

-- `u` is `t`, with nothing left, or `t` with a `/` or a `?` behind it and then `rest`.
abbrev pub Starts : List ℕ → List ℕ → List ℕ → Type 0
Starts u t rest =
    ((u ≡ t) × (rest ≡ [])) ⊎ ((c : ℕ) × ((c ≡ b'/') ⊎ (c ≡ b'?')) × (u ≡ t ++ (c ∷ rest)))

drop-length {ℓ} : {A : Type ℓ} (xs : List A) (n : ℕ) → length xs ≤ n → drop n xs ≡ []
drop-length [] zero h = refl
drop-length [] (suc n) h = refl
drop-length (x ∷ xs) zero h = absurd (omega arith)
drop-length (x ∷ xs) (suc n) h = drop-length xs n (omega arith)

module _ (u lead : List ℕ) (len offset : ℕ) (fits : len ≤ length lead) where
  length_prefix : length (take len lead) ≡ len
  length_prefix = omega (arith, length-take len lead)

  Starts-equal :
      length u ≡ len
      → str_eq (take (length u) u) (take (length u) lead) ≡ true
      → Starts u (take len lead) (drop len u)
  Starts-equal e s = inl (
    sym (take_all (length u) u (omega arith)) ∙ (str_eq_iff _ _).0 s ∙ ap (λ n. take n lead) e,
    drop-length u len (omega arith),
  )

  Starts-longer :
      len < length u
      → str_eq (take len u) (take len lead) ≡ true
      → (get_or u len 0 ≡ b'/') ⊎ (get_or u len 0 ≡ b'?')
      → Starts u (take len lead) (drop (suc len) u)
  Starts-longer h s c = inr (
    get_or u len 0,
    c,
    split_at len u h ∙ ap (λ t. t ++ (get_or u len 0 ∷ drop (suc len) u)) ((str_eq_iff _ _).0 s),
  )

  compare_start_cases :
      (r : ℕ)
      → compare_start u (length u) lead len offset ≡ r
      → 0 < r
      → ((length u ≡ len)
          × (str_eq (take (length u) u) (take (length u) lead) ≡ true)
          × (r ≡ offset + len))
        ⊎ ((len < length u)
            × (str_eq (take len u) (take len lead) ≡ true)
            × ((get_or u len 0 ≡ b'/') ⊎ (get_or u len 0 ≡ b'?'))
            × (r ≡ offset + len + 1))
  unfolding compare_start
  compare_start_cases r e pos = ground arith

  compare_start_sound :
      (r : ℕ)
      → compare_start u (length u) lead len offset ≡ r
      → 0 < r
      → Starts u (take len lead) (drop (r - offset) u)
  compare_start_sound r e pos = elim (compare_start_cases r e pos) [
    | inl (l, s, q) ↦ let n : r - offset ≡ len = omega arith in rw n (Starts-equal l s)
    | inr (l, s, c, q) ↦ let n : r - offset ≡ suc len = omega arith in rw n (Starts-longer l s c)
  ]

  compare_start_complete :
      (rest : List ℕ)
      → 0 < len
      → Starts u (take len lead) rest
      → 0 < compare_start u (length u) lead len offset
  unfolding compare_start
  compare_start_complete rest pos (inl (e, _)) =
      let l : length u ≡ len = ap length e ∙ length_prefix in
      let same : take (length u) u ≡ take (length u) lead =
        take_all (length u) u (omega arith) ∙ e ∙ ap (λ n. take n lead) (sym l) in
      ground (arith, l, (str_eq_iff (take (length u) u) (take (length u) lead)).1 same)
  compare_start_complete rest pos (inr (c, sep, e)) =
      let l : length u ≡ len + suc (length rest) =
        ap length e
        ∙ length-append (take len lead) (c ∷ rest)
        ∙ ap (λ n. n + suc (length rest)) length_prefix in
      let same : take len u ≡ take len lead =
        ap (take len) e ∙ take-append len (take len lead) (c ∷ rest) length_prefix in
      let at : get_or u len 0 ≡ c =
        ap (λ n. get_or u n 0) (sym length_prefix)
        ∙ ap (λ v. get_or v (length (take len lead)) 0) e
        ∙ get_or-append (take len lead) c rest in
      ground (arith, l, at, (str_eq_iff (take len u) (take len lead)).1 same)

abbrev offset_of : List ℕ → ℕ
offset_of url = if ltb 0 (length url) && get_or url 0 0 == b'/' then 1 else 0

drop-offset_of : (url : List ℕ) → drop (offset_of url) url ≡ skip_slash url
drop-offset_of [] = drop-skip_slash []
drop-offset_of (c ∷ cs) = ground (arith, drop-skip_slash (c ∷ cs))

length-offset_of : (url : List ℕ) → length url - offset_of url ≡ length (skip_slash url)
unfolding skip_slash
length-offset_of [] = omega arith
length-offset_of (c ∷ cs) = ground arith

-- The start that the url has to have: `leading_str` with no `/` at either end.
abbrev pub leading : List ℕ → List ℕ
leading leading_str = trim_slash (skip_slash leading_str)

module _ (url leading_str : List ℕ) where
  abbrev compared : ℕ
  compared =
      compare_start (skip_slash url) (length (skip_slash url)) (skip_slash leading_str)
        (len_without_slash (skip_slash leading_str)) (offset_of url)

  check_url_start-eq :
      check_url_start url (length url) leading_str
      ≡ (if length (leading leading_str) == 0 then 0 else compared)
  unfolding check_url_start
  check_url_start-eq = ground (
    arith,
    length-trim_slash (skip_slash leading_str),
    len_without_slash-le (skip_slash leading_str),
    drop-offset_of url,
    length-offset_of url,
  )

  check_url_start-pos :
      0 < check_url_start url (length url) leading_str
      → (0 < length (leading leading_str))
        × (check_url_start url (length url) leading_str ≡ compared)
  check_url_start-pos h = ground (arith, check_url_start-eq)

  take-leading :
      take (len_without_slash (skip_slash leading_str)) (skip_slash leading_str)
      ≡ leading leading_str
  take-leading = take-len_without_slash (skip_slash leading_str)

  -- Where `check_url_start` returns an offset that is not 0, the url without its first `/` is the
  -- leading string without a `/` at either end, or goes on behind it with a `/` or a `?`; the offset
  -- is that of the rest, behind this separator.
  pub check_url_start-Starts :
      0 < check_url_start url (length url) leading_str
      → Starts
          (skip_slash url)
          (leading leading_str)
          (drop (check_url_start url (length url) leading_str) url)
  check_url_start-Starts h =
      let r = check_url_start url (length url) leading_str in
      let o = offset_of url in
      let o_le : o + (r - o) ≡ r = ground arith in
      let same : drop (r - o) (skip_slash url) ≡ drop r url =
        ap (drop (r - o)) (sym (drop-offset_of url))
        ∙ sym (drop-add o (r - o) url)
        ∙ ap (λ n. drop n url) o_le in
      rw (← same, ← take-leading)
        (compare_start_sound (skip_slash url) (skip_slash leading_str)
          (len_without_slash (skip_slash leading_str)) o
          (len_without_slash-le (skip_slash leading_str)) r (sym (check_url_start-pos h).1) h)

  -- `check_url_start` returns an offset that is not 0 exactly when the leading string without a `/`
  -- at either end is not empty, and the url without its first `/` is that string or goes on behind
  -- it with a `/` or a `?`.
  pub check_url_start-pos_iff : (0 < check_url_start url (length url) leading_str) ↔ (
      (0 < length (leading leading_str))
      × ((rest : List ℕ) × Starts (skip_slash url) (leading leading_str) rest))
  check_url_start-pos_iff = (
    λ h. ((check_url_start-pos h).0, (_, check_url_start-Starts h)),
    λ c. ground (
      arith,
      check_url_start-eq,
      length-trim_slash (skip_slash leading_str),
      compare_start_complete (skip_slash url) (skip_slash leading_str)
          (len_without_slash (skip_slash leading_str)) (offset_of url)
          (len_without_slash-le (skip_slash leading_str)) c.1.0
          (omega (arith, c.0, length-trim_slash (skip_slash leading_str))) (rw take-leading c.1.1),
    ),
  )
