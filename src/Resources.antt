-- ===== src/Resources.antt =====
-- The registry of resources and the routing of requests and responses:
-- app-mgr/app-manager/resource_reg.c. The list `g_resources` is a list of registrations, newest
-- first. The log output is left out.
pub mod Limits
pub mod Dispatch
pub mod Targeted
mod Examples
use wamr_app_framework.Prelude.{
  ℕ, ◌+◌, ◌-◌, ◌^◌, List, [], ◌∷◌, ◌++◌, Bool, true, false, not, Option, none, some, ltb, leb, ◌==◌,
  ◌||◌, if◌then◌else◌, length, take, drop, str_eq,
}
use wamr_app_framework.Restful.{Request, Response}
use wamr_app_framework.Restful.Url.{check_url_start}
use wamr_app_framework.Modules.{
  ModuleData, ModuleDataList, module_data_list_lookup, module_data_list_lookup_id,
}

-- The functions that the program registers.
pub data Handler : Type 0 where
  module_request_handler targeted_app_request_handler applet_mgt_reqeust_handler : Handler

-- `app_res_register_t`; `next` is the list's.
pub record AppResRegister : Type 0 where
  pub url : List ℕ
  pub request_handler : Handler
  pub register_id : ℕ

abbrev pub Resources : Type 0
Resources = List AppResRegister

abbrev pub resource_event_url_len_max : ℕ
resource_event_url_len_max = 256

abbrev pub resource_registration_num_max : ℕ
resource_registration_num_max = 16

-- `ID_APP_MGR`, -2.
abbrev pub id_app_mgr : ℕ
id_app_mgr = 2 ^ 32 - 2

-- The loop of `am_register_resource`: `none` where the url is registered, and else how many urls
-- `register_id` has.
unfoldable pub count_registered : List ℕ → ℕ → Resources → Option ℕ
count_registered url register_id [] = some 0
count_registered url register_id (r ∷ rest) =
    let later = count_registered url register_id rest in
    if str_eq r.url url then none else elim later [
      | none ↦ none
      | some n ↦ some (if r.register_id == register_id then n + 1 else n)
    ]

-- `malloc` says whether the record and the copy of the url can both be allocated.
unfoldable pub am_register_resource : Bool → List ℕ → Handler → ℕ → Resources → Bool × Resources
am_register_resource malloc url request_handler register_id g_resources =
    elim (count_registered url register_id g_resources) [
      | none ↦ (false, g_resources)
      | some register_num ↦
          if ltb resource_event_url_len_max (length url)
          then (false, g_resources)
          else if leb resource_registration_num_max register_num
          then (false, g_resources)
          else if malloc
          then (
            true,
            record { url = url; request_handler = request_handler; register_id = register_id }
                ∷ g_resources,
          )
          else (false, g_resources)
    ]

unfoldable pub am_cleanup_registeration : ℕ → Resources → Resources
am_cleanup_registeration register_id [] = []
am_cleanup_registeration register_id (r ∷ rest) =
    let later = am_cleanup_registeration register_id rest in
    if register_id == r.register_id then later else r ∷ later

-- What the handlers do: a copy of the message for a queue, or a message to the host.
pub data Effect : Type 0 where
  post_request : ModuleData → Request → Effect
  post_response : ModuleData → Response → Effect
  post_app_manager : Request → Effect
  response_to_host : Response → Effect
  error_to_host : ℕ → Effect

-- `malloc` says whether the copy of the message and its envelope can be allocated.
unfoldable pub handle_module_request : Bool → ModuleDataList → Request → ℕ → List Effect
handle_module_request malloc l request mod_id = elim (module_data_list_lookup_id mod_id l) [
  | none ↦ []
  | some m_data ↦
      if m_data.is_interrupting then [] else if malloc then post_request m_data request ∷ [] else []
]

-- `strchr(applet_name, '/')`: what stands before the first `/` and behind it.
unfoldable pub split_slash : List ℕ → Option (List ℕ × List ℕ)
split_slash [] = none
split_slash (c ∷ cs) =
    let later = split_slash cs in
    if c == b'/'
    then some ([], cs)
    else elim later [ none ↦ none | some (name, rest) ↦ some (c ∷ name, rest) ]

abbrev pub app_prefix : List ℕ
app_prefix = b'/' ∷ b'a' ∷ b'p' ∷ b'p' ∷ b'/' ∷ []

-- The url of the request that is handed on lies in the local buffer of 127 characters.
unfoldable pub handle_targeted_app_request : Bool → ModuleDataList → Request → List Effect
handle_targeted_app_request malloc l request =
    let offset : ℕ = check_url_start request.url (length request.url) app_prefix in
    if leb offset 0 then [] else elim (split_slash (take 127 (drop offset request.url))) [
      | none ↦ []
      | some (applet_name, rest) ↦ elim (module_data_list_lookup applet_name l) [
        | none ↦ error_to_host request.mid ∷ []
        | some m_data ↦ handle_module_request malloc l (record request { url = rest }) m_data.id
      ]
    ]

unfoldable pub handle_applet_mgt_request : Bool → Request → List Effect
handle_applet_mgt_request malloc request = if malloc then post_app_manager request ∷ [] else []

unfoldable pub am_send_response : Bool → ModuleDataList → Response → List Effect
am_send_response malloc l response = elim (module_data_list_lookup_id response.reciever l) [
  | none ↦ response_to_host response ∷ []
  | some m_data ↦ if malloc then post_response m_data response ∷ [] else []
]

-- `r->request_handler(request, r->register_id)`.
unfoldable pub call_handler : Bool → ModuleDataList → Handler → Request → ℕ → List Effect
call_handler malloc l module_request_handler request register_id =
    handle_module_request malloc l request register_id
call_handler malloc l targeted_app_request_handler request register_id =
    handle_targeted_app_request malloc l request
call_handler malloc l applet_mgt_reqeust_handler request register_id =
    handle_applet_mgt_request malloc request

-- The registration that `am_dispatch_request` returns.
unfoldable pub find_resource : List ℕ → Resources → Option AppResRegister
find_resource url [] = none
find_resource url (r ∷ rest) =
    if ltb 0 (check_url_start url (length url) r.url) then some r else find_resource url rest

unfoldable pub am_dispatch_request :
    Bool → ModuleDataList → Request → Resources → Option AppResRegister × List Effect
am_dispatch_request malloc l request g_resources = elim (find_resource request.url g_resources) [
  | none ↦ (none, [])
  | some r ↦ (some r, call_handler malloc l r.request_handler request r.register_id)
]
