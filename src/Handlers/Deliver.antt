-- ===== src/Handlers/Deliver.antt =====
-- What arrives of a published event: `api_publish_event` and `on_request` of
-- app-framework/base/app/request.c.
use wamr_app_framework.Prelude.{
  ℕ, ◌+◌, ◌<◌, ◌≡◌, List, [], ◌∷◌, ◌++◌, Bool, true, some, length, All, arith,
}
use wamr_app_framework.Restful.{ok, Request, Payload, init_request, read_payload}
use wamr_app_framework.Restful.Url.{check_url_start}
use wamr_app_framework.Restful.Packet.RoundTrip.{IsPackable, received, unpack_request-pack_request}
use wamr_app_framework.Events.{coap_event}
use wamr_app_framework.Handlers.{ResRegister, is_for, find_handler, on_request, api_publish_event}

-- The registration is for events and its url covers the event's.
abbrev pub Covers : List ℕ → ResRegister → Type 0
Covers url r = (is_for true r.reg_type ≡ true) × (0 < check_url_start url (length url) r.url)

find_handler-Covers :
    (url : List ℕ) (before behind : List ResRegister) (r : ResRegister)
    → All (λ q. ¬ Covers url q) before
    → Covers url r
    → find_handler true url (before ++ (r ∷ behind)) ≡ some r
unfolding find_handler
find_handler-Covers url [] behind r p c = ground (arith, c)
find_handler-Covers url (q ∷ before) behind r p c =
    ground (arith, p.0, find_handler-Covers url before behind r p.1 c)

-- The event that `init_request` makes of the local record.
abbrev pub event_of : ℕ → Request → List ℕ → ℕ → Payload → ℕ → Request
event_of mid request url fmt payload payload_len =
    (init_request mid request url coap_event fmt payload payload_len).1

-- An event that is published as one packet, with a new message id, reaches the first handler for
-- events whose url covers the event's, with its url, its format and the bytes of its payload; its
-- fields fit the packet, the payload is as long as said, and the packet can be allocated.
pub on_request-api_publish_event :
    (malloc : ℕ → Bool) (mid : ℕ) (request : Request) (url : List ℕ) (fmt : ℕ) (payload : Payload)
    (payload_len : ℕ) (bytes : List ℕ) (before behind : List ResRegister) (r : ResRegister)
    → let event = event_of mid request url fmt payload payload_len in
      IsPackable event
      → read_payload payload payload_len ≡ some bytes
      → malloc (18 + (length url + 1) + payload_len) ≡ true
      → All (λ q. ¬ Covers url q) before
      → Covers url r
      → (packet : List ℕ) × (api_publish_event malloc mid request url fmt payload payload_len
          ≡ ok (true, event.mid, packet ∷ []))
        × (on_request packet (length packet) (before ++ (r ∷ behind))
            ≡ ok (some (r.request_handler, record event { payload = received payload_len bytes })))
unfolding init_request
on_request-api_publish_event malloc mid request url fmt payload payload_len bytes before behind r p
      e m none_before c =
    let event = event_of mid request url fmt payload payload_len in
    let (packet, packed, unpacked) = unpack_request-pack_request malloc event bytes p e m in
    let found = find_handler-Covers url before behind r none_before c in
    (
      packet,
      unfold api_publish_event in ground (arith, packed),
      unfold on_request in ground (arith, unpacked, found),
    )
