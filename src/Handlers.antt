-- ===== src/Handlers.antt =====
-- The handlers that an application registers for requests and events, and what it posts:
-- app-framework/base/app/request.c. A handler is a number. The calls that tell the app manager of a
-- registration are collected.
pub mod Register
pub mod Deliver
mod Examples
use wamr_app_framework.Prelude.{
  ℕ, List, [], ◌∷◌, Bool, true, false, ◌&&◌, Option, none, some, ltb, ◌==◌, if◌then◌else◌, str_eq,
  length,
}
use wamr_app_framework.Restful.{Outcome, ok, null, fault, Request, Response, Payload, init_request}
use wamr_app_framework.Restful.Packet.{pack_request, unpack_request, pack_response}
use wamr_app_framework.Restful.Url.{check_url_start}
use wamr_app_framework.Events.{coap_event}

-- `reg_type_t`.
pub data RegType : Type 0 where
  reg_event reg_request : RegType

abbrev pub same_type : RegType → RegType → Bool
same_type reg_event reg_event = true
same_type reg_event reg_request = false
same_type reg_request reg_event = false
same_type reg_request reg_request = true

-- `res_register_t`; `next` is the list's.
pub record ResRegister : Type 0 where
  pub url : List ℕ
  pub reg_type : RegType
  pub request_handler : ℕ

-- The calls of the app manager.
pub data Told : Type 0 where
  wasm_register_resource : List ℕ → Told
  wasm_sub_event : List ℕ → Told

-- The loop of `register_url_handler`: the list with the handler replaced, or `none`.
unfoldable pub replace_handler : List ℕ → ℕ → RegType → List ResRegister → Option (List ResRegister)
replace_handler url request_handler reg_type [] = none
replace_handler url request_handler reg_type (r ∷ rest) =
    let later = replace_handler url request_handler reg_type rest in
    if same_type reg_type r.reg_type && str_eq r.url url
    then some (record r { request_handler = request_handler } ∷ rest)
    else elim later [ none ↦ none | some rest' ↦ some (r ∷ rest') ]

abbrev pub tell : List ℕ → RegType → Told
tell url reg_event = wasm_sub_event url
tell url reg_request = wasm_register_resource url

-- `malloc` says whether the record and the copy of the url can be allocated.
unfoldable pub register_url_handler :
    Bool → List ℕ → ℕ → RegType → List ResRegister → Bool × List ResRegister × List Told
register_url_handler malloc url request_handler reg_type g_resources =
    elim (replace_handler url request_handler reg_type g_resources) [
      | some replaced ↦ (true, replaced, [])
      | none ↦
          if malloc
          then (
            true,
            record { url = url; reg_type = reg_type; request_handler = request_handler }
                ∷ g_resources,
            tell url reg_type ∷ [],
          )
          else (false, g_resources, [])
    ]

abbrev pub api_register_resource_handler :
    Bool → List ℕ → ℕ → List ResRegister → Bool × List ResRegister × List Told
api_register_resource_handler malloc url request_handler g_resources =
    register_url_handler malloc url request_handler reg_request g_resources

abbrev pub api_subscribe_event :
    Bool → List ℕ → ℕ → List ResRegister → Bool × List ResRegister × List Told
api_subscribe_event malloc url handler g_resources =
    register_url_handler malloc url handler reg_event g_resources

abbrev pub is_event_type : Request → Bool
is_event_type req = req.action == coap_event

abbrev pub is_for : Bool → RegType → Bool
is_for is_event reg_event = is_event
is_for true reg_request = false
is_for false reg_request = true

-- The registration whose handler `on_request` calls.
unfoldable pub find_handler : Bool → List ℕ → List ResRegister → Option ResRegister
find_handler is_event url [] = none
find_handler is_event url (r ∷ rest) =
    if is_for is_event r.reg_type && ltb 0 (check_url_start url (length url) r.url)
    then some r
    else find_handler is_event url rest

-- The handler that is called, with its request.
unfoldable pub on_request : List ℕ → ℕ → List ResRegister → Outcome (Option (ℕ × Request))
on_request buffer size g_resources = elim (unpack_request buffer size) [
  | null ↦ ok none
  | fault ↦ fault
  | ok request ↦ elim (find_handler (is_event_type request) request.url g_resources) [
    | none ↦ ok none
    | some r ↦ ok (some (r.request_handler, request))
  ]
]

-- The packets passed to `wasm_response_send`.
unfoldable pub api_response_send : (ℕ → Bool) → Response → Outcome (List (List ℕ))
api_response_send malloc response = elim (pack_response malloc response) [
  | null ↦ ok []
  | fault ↦ fault
  | ok (buffer, size) ↦ ok (buffer ∷ [])
]

-- `mid` is the counter of message ids, `request` the local record before `init_request`. The result:
-- the return value, the counter, and the packets passed to `wasm_post_request`.
unfoldable pub api_publish_event :
    (ℕ → Bool) → ℕ → Request → List ℕ → ℕ → Payload → ℕ → Outcome (Bool × ℕ × List (List ℕ))
api_publish_event malloc mid request url fmt payload payload_len =
    let (next, event) = init_request mid request url coap_event fmt payload payload_len in
    elim (pack_request malloc event) [
      | null ↦ ok (false, next, [])
      | fault ↦ fault
      | ok (buffer, size) ↦ ok (true, next, buffer ∷ [])
    ]
