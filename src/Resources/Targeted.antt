-- ===== src/Resources/Targeted.antt =====
-- Requests for one application: `targeted_app_request_handler` of
-- app-mgr/app-manager/resource_reg.c.
use wamr_app_framework.Prelude.{
  ℕ, zero, suc, ◌-◌, ◌<◌, ◌≡◌, ◌≢◌, refl, ap, ◌∙◌, List, [], ◌∷◌, ◌++◌, Bool, none, some, length,
  take, drop, str_eq, All, arith,
}
use wamr_app_framework.Restful.{Request}
use wamr_app_framework.Restful.Url.{check_url_start, skip_slash, len_without_slash, compare_start}
use wamr_app_framework.Modules.{ModuleDataList, module_data_list_lookup}
use wamr_app_framework.Resources.{
  error_to_host, handle_module_request, handle_targeted_app_request, split_slash, app_prefix,
}

-- A name of an application in a url: no `/` in it.
abbrev pub IsName : List ℕ → Type 0
IsName = All (λ c. c ≢ b'/')

split_slash_lem :
    (name rest : List ℕ) → IsName name → split_slash (name ++ (b'/' ∷ rest)) ≡ some (name, rest)
unfolding split_slash
split_slash_lem [] rest h = refl
split_slash_lem (c ∷ cs) rest h = ground (arith, h.0, split_slash_lem cs rest h.1)

take_slash :
    (n : ℕ) (name rest : List ℕ)
    → length name < n
    → take n (name ++ (b'/' ∷ rest)) ≡ name ++ (b'/' ∷ take (n - length name - 1) rest)
take_slash zero name rest h = absurd (omega arith)
take_slash (suc n) [] rest h = let e : suc n - 0 - 1 ≡ n = omega arith in rw e
take_slash (suc n) (c ∷ cs) rest h =
    let e : suc n - suc (length cs) - 1 ≡ n - length cs - 1 = omega arith in
    rw e (ap (◌∷◌ c) (take_slash n cs rest (omega arith)))

-- Whatever stands behind `/app/`, it starts at offset 5.
check_url_start_app :
    (s : List ℕ) → check_url_start (app_prefix ++ s) (length (app_prefix ++ s)) app_prefix ≡ 5
unfolding check_url_start skip_slash len_without_slash compare_start str_eq
check_url_start_app s = ground arith

-- A request for `/app/NAME/REST` is handed to `module_request_handler` for the module of that name,
-- with the url REST, of which no more than 126 characters less those of the name are left; where no
-- module has the name the host gets an error response to the request. The name has no `/` in it and
-- fewer than 127 characters.
pub handle_targeted_app_request_lem :
    (malloc : Bool) (l : ModuleDataList) (request : Request) (name rest : List ℕ)
    → request.url ≡ app_prefix ++ (name ++ (b'/' ∷ rest))
    → IsName name
    → length name < 127
    → handle_targeted_app_request malloc l request ≡ (elim (module_data_list_lookup name l) [
      | none ↦ error_to_host request.mid ∷ []
      | some m_data ↦
          handle_module_request malloc l
            (record request { url = take (126 - length name) rest })
            m_data.id
    ])
unfolding handle_targeted_app_request
handle_targeted_app_request_lem malloc l request name rest e plain short =
    let s = name ++ (b'/' ∷ rest) in
    let offset : check_url_start request.url (length request.url) app_prefix ≡ 5 =
      rw e (check_url_start_app s) in
    let room : 127 - length name - 1 ≡ 126 - length name = omega arith in
    let cut : split_slash (take 127 (drop 5 request.url))
        ≡ some (name, take (126 - length name) rest) =
      rw e (
        ap split_slash (take_slash 127 name rest short)
        ∙ split_slash_lem name _ plain
        ∙ ap (λ n. some (name, take n rest)) room) in
    rw (offset, cut, handle_targeted_app_request) refl
