-- ===== src/Restful/Url/Strings.antt =====
-- Lemmas on strings for `check_url_start` and `match_url`, and the notions that their
-- specifications use.
use wamr_app_framework.Prelude.{
  ℕ, zero, suc, ◌-◌, ◌≤◌, ◌<◌, ◌≡◌, refl, sym, ap, ◌∙◌, List, [], ◌∷◌, ◌++◌, ◌==◌, if◌then◌else◌,
  length, take, drop, get_or, arith, take-append-drop,
}
use wamr_app_framework.Restful.Url.{skip_slash, len_without_slash}

-- A string with one `/` at its end left out.
unfoldable pub trim_slash : List ℕ → List ℕ
trim_slash [] = []
trim_slash (c ∷ []) = if c == b'/' then [] else c ∷ []
trim_slash (c ∷ d ∷ r) = c ∷ trim_slash (d ∷ r)

len_without_slash_step :
    (c d : ℕ) (r : List ℕ) → len_without_slash (c ∷ d ∷ r) ≡ suc (len_without_slash (d ∷ r))
unfolding len_without_slash
len_without_slash_step c d r =
    let e : suc (suc (length r)) - 1 ≡ suc (suc (length r) - 1) = omega arith in rw e (ground arith)

-- The code's shortened length is that of the trimmed string.
pub take-len_without_slash : (s : List ℕ) → take (len_without_slash s) s ≡ trim_slash s
unfolding trim_slash
take-len_without_slash [] = unfold len_without_slash in refl
take-len_without_slash (c ∷ []) = unfold len_without_slash in ground arith
take-len_without_slash (c ∷ d ∷ r) =
    rw (len_without_slash_step c d r) (ap (◌∷◌ c) (take-len_without_slash (d ∷ r)))

pub length-trim_slash : (s : List ℕ) → length (trim_slash s) ≡ len_without_slash s
unfolding trim_slash
length-trim_slash [] = unfold len_without_slash in refl
length-trim_slash (c ∷ []) = unfold len_without_slash in ground arith
length-trim_slash (c ∷ d ∷ r) =
    rw (len_without_slash_step c d r) (ap suc (length-trim_slash (d ∷ r)))

pub len_without_slash-le : (s : List ℕ) → len_without_slash s ≤ length s
unfolding len_without_slash
len_without_slash-le s = ground arith

-- The byte at `n`, and what follows it.
pub drop-cons : (n : ℕ) (s : List ℕ) → n < length s → drop n s ≡ get_or s n 0 ∷ drop (suc n) s
drop-cons n [] h = absurd (omega arith)
drop-cons zero (c ∷ cs) h = refl
drop-cons (suc n) (c ∷ cs) h = drop-cons n cs (omega arith)

-- A string cut at `n`.
pub split_at : (n : ℕ) (s : List ℕ) → n < length s → s ≡ take n s ++ (get_or s n 0 ∷ drop (suc n) s)
split_at n s h = sym (take-append-drop n s) ∙ ap (◌++◌ (take n s)) (drop-cons n s h)

pub get_or-append : (xs : List ℕ) (c : ℕ) (ys : List ℕ) → get_or (xs ++ (c ∷ ys)) (length xs) 0 ≡ c
get_or-append [] c ys = refl
get_or-append (x ∷ xs) c ys = get_or-append xs c ys

pub drop-skip_slash : (s : List ℕ) → drop (if get_or s 0 0 == b'/' then 1 else 0) s ≡ skip_slash s
unfolding skip_slash
drop-skip_slash [] = refl
drop-skip_slash (c ∷ cs) = ground arith
