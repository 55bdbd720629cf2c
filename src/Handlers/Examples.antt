-- ===== src/Handlers/Examples.antt =====
-- The theorems on the handlers of an application at concrete registrations.
use wamr_app_framework.Prelude.{
  ℕ, ◌≡◌, refl, List, [], ◌∷◌, true, false, some, length, if◌then◌else◌, str_eq, arith,
}
use wamr_app_framework.Restful.{ok, Request, nothing, block, init_request, read_payload}
use wamr_app_framework.Restful.Url.{check_url_start, skip_slash, len_without_slash, compare_start}
use wamr_app_framework.Handlers.{
  ResRegister, reg_event, reg_request, register_url_handler, on_request, api_publish_event,
}
use wamr_app_framework.Handlers.Register.{handler_of, handler_of-register_url_handler}
use wamr_app_framework.Handlers.Deliver.{event_of, on_request-api_publish_event}

abbrev alarm : List ℕ
alarm = 0x61 ∷ []

-- Requests for "a" go to handler 1, events to handler 2.
abbrev requests : ResRegister
requests = record { url = alarm; reg_type = reg_request; request_handler = 1 }

abbrev events : ResRegister
events = record { url = alarm; reg_type = reg_event; request_handler = 2 }

handler_of-register_url_handler_example :
    let r = register_url_handler false alarm 3 reg_event (requests ∷ events ∷ []) in
    (r.0 ≡ true) × (handler_of reg_event alarm r.1 ≡ (if r.0 then some 3 else some 2))
unfolding handler_of str_eq
handler_of-register_url_handler_example =
    handler_of-register_url_handler false alarm 3 reg_event reg_event alarm (requests ∷ events ∷ [])

-- What the local record holds before.
abbrev unset : Request
unset = record {
  mid = 0;
  url = [];
  action = 0;
  fmt = 0;
  payload = nothing;
  payload_len = 0;
  sender = 17;
}

on_request-api_publish_event_example :
    (packet : List ℕ) × (api_publish_event (λ n. true) 41 unset alarm 99 (block (7 ∷ 8 ∷ [])) 2
      ≡ ok (true, 42, packet ∷ []))
    × (on_request packet (length packet) (requests ∷ events ∷ [])
        ≡ ok (some (2, event_of 41 unset alarm 99 (block (7 ∷ 8 ∷ [])) 2)))
unfolding init_request read_payload check_url_start compare_start skip_slash len_without_slash
    str_eq
on_request-api_publish_event_example =
    on_request-api_publish_event (λ n. true) 41 unset alarm 99 (block (7 ∷ 8 ∷ [])) 2 (7 ∷ 8 ∷ [])
      (requests ∷ []) [] events (omega arith) refl refl ((λ c. cc), tt) (refl, omega arith)
