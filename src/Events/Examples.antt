-- ===== src/Events/Examples.antt =====
-- The theorems on the event registry at concrete registrations.
use wamr_app_framework.Prelude.{
  ℕ, ◌≡◌, ◌≢◌, ◌↔◌, refl, List, [], ◌∷◌, true, false, none, ◌&&◌, ◌||◌, str_eq,
}
use wamr_app_framework.Restful.{Request, Payload}
use wamr_app_framework.Events.{
  Events, has_subscriber, event_is_registered, check_url, selects, am_register_event,
  am_unregister_event, event_handle_event_request, coap_put, coap_event,
}
use wamr_app_framework.Events.Lists.{subscribers_of}
use wamr_app_framework.Events.Refine.{
  added, without, HasDistinctSubscribers, subscribers_of-am_register_event,
  subscribers_of-am_unregister_event,
}
use wamr_app_framework.Events.Invariant.{
  IsRegistry, event_handle_event_request-IsRegistry, event_is_registered_iff,
  am_register_event_leftover,
}

-- Modules 4 and 5 are told of "/a".
abbrev alarm : List ℕ
alarm = 0x2f ∷ 0x61 ∷ []

abbrev one_event : Events
one_event = record { url = alarm; subscribers = 5 ∷ 4 ∷ [] } ∷ []

one_event-IsRegistry : IsRegistry one_event
unfolding check_url has_subscriber event_is_registered
one_event-IsRegistry = record {
  sound = ((refl, (λ e. cc), (refl, (refl, tt))), tt);
  distinct = (refl, tt);
}

one_event-HasDistinctSubscribers : HasDistinctSubscribers one_event
unfolding has_subscriber
one_event-HasDistinctSubscribers = ((refl, (refl, tt)), tt)

subscribers_of-am_register_event_example :
    let r = am_register_event true true alarm 6 one_event in
    (r.0 ≡ (
      check_url alarm
      && ((event_is_registered alarm one_event || true)
          && (has_subscriber 6 (subscribers_of alarm one_event) || true))))
    × (subscribers_of alarm r.1 ≡ added r.0 alarm 6 alarm (5 ∷ 4 ∷ []))
unfolding subscribers_of str_eq
subscribers_of-am_register_event_example =
    subscribers_of-am_register_event true true alarm 6 alarm one_event

subscribers_of-am_unregister_event_example :
    subscribers_of alarm (am_unregister_event none 5 one_event) ≡ without 5 (5 ∷ 4 ∷ [])
unfolding subscribers_of str_eq selects
subscribers_of-am_unregister_event_example =
    subscribers_of-am_unregister_event none 5 alarm one_event one_event-IsRegistry.distinct
      one_event-HasDistinctSubscribers

abbrev alarm_event : Request
alarm_event = record {
  mid = 1;
  url = alarm;
  action = coap_event;
  fmt = 0;
  payload = Payload.nothing;
  payload_len = 0;
  sender = 4;
}

event_handle_event_request-IsRegistry_example :
    IsRegistry (event_handle_event_request true true coap_put (0x62 ∷ []) 6 one_event).1
event_handle_event_request-IsRegistry_example =
    event_handle_event_request-IsRegistry true coap_put (0x62 ∷ []) 6 one_event one_event-IsRegistry

event_is_registered_iff_example :
    (event_is_registered alarm one_event ≡ true) ↔ (subscribers_of alarm one_event ≢ [])
event_is_registered_iff_example = event_is_registered_iff alarm one_event one_event-IsRegistry

am_register_event_leftover_example :
    let r = am_register_event true false alarm 6 [] in
    (r.0 ≡ false) × (event_is_registered alarm r.1 ≡ true) × (subscribers_of alarm r.1 ≡ [])
unfolding check_url event_is_registered
am_register_event_leftover_example = am_register_event_leftover alarm 6 [] refl refl
