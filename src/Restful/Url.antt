-- ===== src/Restful/Url.antt =====
-- `check_url_start` and `match_url` of app-framework/app-native-shared/restful_utils.c. A byte read
-- at the end of a string is its NUL, 0.
pub mod Strings
pub mod Start
pub mod Match
mod Examples
use wamr_app_framework.Prelude.{
  ℕ, ◌+◌, ◌-◌, List, [], ◌∷◌, Bool, true, false, leb, ltb, ◌==◌, ◌&&◌, ◌||◌, not, if◌then◌else◌,
  length, take, drop, get_or, str_eq,
}

-- `if (*s == '/') s++`.
unfoldable pub skip_slash : List ℕ → List ℕ
skip_slash [] = []
skip_slash (c ∷ cs) = if c == b'/' then cs else c ∷ cs

-- The length with a `/` at the end left out.
unfoldable pub len_without_slash : List ℕ → ℕ
len_without_slash s = if get_or s (length s - 1) 0 == b'/' then length s - 1 else length s

-- The comparisons of `check_url_start`, on the url and the leading string behind their first `/`.
unfoldable pub compare_start : List ℕ → ℕ → List ℕ → ℕ → ℕ → ℕ
compare_start url url_len leading_str len offset =
    if url_len == len
    then (if str_eq (take url_len url) (take url_len leading_str) then offset + len else 0)
    else if ltb url_len len
    then 0
    else if not (str_eq (take len url) (take len leading_str))
    then 0
    else if not (get_or url len 0 == b'/') && not (get_or url len 0 == b'?')
    then 0
    else offset + len + 1

unfoldable pub check_url_start : List ℕ → ℕ → List ℕ → ℕ
check_url_start url url_len leading_str =
    let leading = skip_slash leading_str in
    let slash : Bool = ltb 0 url_len && get_or url 0 0 == b'/' in
    let offset : ℕ = if slash then 1 else 0 in
    if length leading == 0
    then 0
    else if len_without_slash leading == 0
    then 0
    else compare_start (drop offset url) (url_len - offset) leading (len_without_slash leading)
        offset

-- `strncmp(a, b, n) == 0`.
unfoldable pub strncmp_eq : List ℕ → List ℕ → ℕ → Bool
strncmp_eq a b n = str_eq (take n a) (take n b)

-- Both branches under a final `*` make the same comparison, so the byte before the `*`, which the
-- code looks at to choose one, makes no difference.
unfoldable pub match_url : List ℕ → List ℕ → Bool
match_url pattern matched =
    let p = skip_slash pattern in
    let m = skip_slash matched in
    let matched_len : ℕ = len_without_slash m in
    let len : ℕ = length p in
    if length m == 0
    then false
    else if matched_len == 0
    then false
    else if len == 0
    then false
    else if get_or p (len - 1) 0 == b'/'
    then (if not (strncmp_eq p m (len - 1))
        then false
        else if len - 1 == matched_len
        then true
        else if ltb (len - 1) matched_len && get_or m (len - 1) 0 == b'/'
        then true
        else false)
    else if get_or p (len - 1) 0 == b'*'
    then strncmp_eq p m (len - 1)
    else str_eq p m
