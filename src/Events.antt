-- ===== src/Events.antt =====
-- The registry of events and their subscribers: app-mgr/app-manager/event.c. The list `g_events` is
-- a list of registrations, newest first. The log output is left out.
pub mod Lists
pub mod Refine
pub mod Invariant
mod Examples
use wamr_app_framework.Prelude.{
  ℕ, ◌-◌, ◌^◌, List, [], ◌∷◌, map, Bool, true, false, not, Option, none, some, ◌==◌, ◌||◌,
  if◌then◌else◌, str_eq,
}
use wamr_app_framework.Restful.{Request}
use wamr_app_framework.HostLink.{id_host}

-- `COAP_PUT`, `COAP_DELETE` and `COAP_EVENT`.
abbrev pub coap_put : ℕ
coap_put = 3

abbrev pub coap_delete : ℕ
coap_delete = 4

abbrev pub coap_event : ℕ
coap_event = 6

-- `event_reg_t`; `next` is the list's.
pub record EventReg : Type 0 where
  pub url : List ℕ
  pub subscribers : List ℕ

abbrev pub Events : Type 0
Events = List EventReg

-- `find_subscriber` with `remove_found` false, and what it leaves of the list with it true.
unfoldable pub has_subscriber : ℕ → List ℕ → Bool
has_subscriber id [] = false
has_subscriber id (c ∷ cs) = if c == id then true else has_subscriber id cs

unfoldable pub remove_subscriber : ℕ → List ℕ → List ℕ
remove_subscriber id [] = []
remove_subscriber id (c ∷ cs) = if c == id then cs else c ∷ remove_subscriber id cs

unfoldable pub check_url : List ℕ → Bool
check_url [] = false
check_url (c ∷ cs) = true

unfoldable pub event_is_registered : List ℕ → Events → Bool
event_is_registered event_url [] = false
event_is_registered event_url (current ∷ rest) =
    if str_eq current.url event_url then true else event_is_registered event_url rest

-- The part of `am_register_event` behind the search, on the registration that was found.
unfoldable pub subscribe : Bool → ℕ → EventReg → Bool × EventReg
subscribe malloc reg_client current =
    if has_subscriber reg_client current.subscribers
    then (true, current)
    else if malloc
    then (true, record current { subscribers = reg_client ∷ current.subscribers })
    else (false, current)

unfoldable pub subscribe_at : Bool → List ℕ → ℕ → Events → Bool × Events
subscribe_at malloc url reg_client [] = (false, [])
subscribe_at malloc url reg_client (current ∷ rest) =
    let found = subscribe malloc reg_client current in
    let later = subscribe_at malloc url reg_client rest in
    if str_eq url current.url then (found.0, found.1 ∷ rest) else (later.0, current ∷ later.1)

-- The first flag says whether the registration can be allocated, the second whether the subscriber
-- can.
unfoldable pub am_register_event : Bool → Bool → List ℕ → ℕ → Events → Bool × Events
am_register_event malloc_event malloc_subscriber url reg_client g_events =
    if not (check_url url)
    then (false, g_events)
    else if event_is_registered url g_events
    then subscribe_at malloc_subscriber url reg_client g_events
    else if malloc_event
    then subscribe_at malloc_subscriber url reg_client
        (record { url = url; subscribers = [] } ∷ g_events)
    else (false, g_events)

-- `url == NULL || strcmp(current->url, url) == 0`.
unfoldable pub selects : Option (List ℕ) → List ℕ → Bool
selects none current = true
selects (some url) current = str_eq current url

-- The list after `am_unregister_event`, which always returns true.
unfoldable pub am_unregister_event : Option (List ℕ) → ℕ → Events → Events
am_unregister_event url reg_client [] = []
am_unregister_event url reg_client (current ∷ rest) =
    let kept : EventReg = record current {
      subscribers = remove_subscriber reg_client current.subscribers;
    } in
    let later = am_unregister_event url reg_client rest in
    if selects url current.url
    then elim kept.subscribers [ [] ↦ later | c ∷ cs ↦ kept ∷ later ]
    else current ∷ later

unfoldable pub event_handle_event_request : Bool → Bool → ℕ → List ℕ → ℕ → Events → Bool × Events
event_handle_event_request malloc_event malloc_subscriber code event_url reg_client g_events =
    if code == coap_put
    then am_register_event malloc_event malloc_subscriber event_url reg_client g_events
    else if code == coap_delete
    then (true, am_unregister_event (some event_url) reg_client g_events)
    else (false, g_events)

-- What `am_publish_event` does for one subscriber.
pub data Delivery : Type 0 where
  to_host : Request → Delivery
  to_module : ℕ → Request → Delivery

unfoldable pub deliver : Request → ℕ → Delivery
deliver event id = if id == id_host then to_host event else to_module id event

unfoldable pub am_publish_event : Request → Events → List Delivery
am_publish_event event [] = []
am_publish_event event (current ∷ rest) =
    if str_eq event.url current.url
    then map (deliver event) current.subscribers
    else am_publish_event event rest
