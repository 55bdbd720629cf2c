-- ===== src/Restful/Url/Examples.antt =====
-- The theorems on urls at concrete urls, and runs of the code on the examples of its comments.
use wamr_app_framework.Prelude.{
  ℕ, ◌≡◌, ◌<◌, ◌↔◌, refl, List, [], ◌∷◌, true, false, length, str_eq, arith,
}
use wamr_app_framework.Restful.Url.{
  skip_slash, len_without_slash, compare_start, check_url_start, match_url, strncmp_eq,
}
use wamr_app_framework.Restful.Url.Strings.{trim_slash}
use wamr_app_framework.Restful.Url.Start.{Starts, leading, check_url_start-pos_iff}
use wamr_app_framework.Restful.Url.Match.{subtree, Matches, match_url-Matches}
use Prim.Native.String.{String}
use Prim.Native.Char.{code}

abbrev codes : String → List ℕ
codes String.[] = []
codes (String.◌∷◌ c s) = code c ∷ codes s

abbrev start : String → String → ℕ
start url leading_str = check_url_start (codes url) (length (codes url)) (codes leading_str)

-- "/abc" passes "/abc/cde", "/abc/" and "/abc?cde", and fails "/ab" and "/abcd"; "/abc/" passes
-- "/abc".
start_below : start "/abc/cde" "/abc" ≡ 5
unfolding check_url_start skip_slash len_without_slash compare_start str_eq
start_below = refl

start_slash : start "/abc/" "/abc" ≡ 5
unfolding check_url_start skip_slash len_without_slash compare_start str_eq
start_slash = refl

start_query : start "/abc?cde" "/abc" ≡ 5
unfolding check_url_start skip_slash len_without_slash compare_start str_eq
start_query = refl

start_shorter : start "/ab" "/abc" ≡ 0
unfolding check_url_start skip_slash len_without_slash compare_start str_eq
start_shorter = refl

start_longer : start "/abcd" "/abc" ≡ 0
unfolding check_url_start skip_slash len_without_slash compare_start str_eq
start_longer = refl

start_equal : start "/abc" "/abc/" ≡ 4
unfolding check_url_start skip_slash len_without_slash compare_start str_eq
start_equal = refl

match_below : match_url (codes "/abcd/") (codes "/abcd/e") ≡ true
unfolding match_url skip_slash len_without_slash strncmp_eq str_eq
match_below = refl

match_not_itself : match_url (codes "/abcd/*") (codes "/abcd") ≡ false
unfolding match_url skip_slash len_without_slash strncmp_eq str_eq
match_not_itself = refl

check_url_start-pos_iff_example : (0 < start "/abc/cde" "/abc") ↔ (
    (0 < length (leading (codes "/abc")))
    × ((rest : List ℕ) × Starts (skip_slash (codes "/abc/cde")) (leading (codes "/abc")) rest))
check_url_start-pos_iff_example = check_url_start-pos_iff (codes "/abc/cde") (codes "/abc")

match_url-Matches_example :
    (match_url (codes "/abcd/") (codes "/abcd/e") ≡ true)
    ↔ Matches (subtree (codes "abcd")) (codes "abcd/e")
unfolding skip_slash trim_slash
match_url-Matches_example =
    match_url-Matches (subtree (codes "abcd")) (codes "/abcd/e") (omega arith) (omega arith)
