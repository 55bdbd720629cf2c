-- ===== src/Events/Invariant.antt =====
-- What holds of the registry of app-mgr/app-manager/event.c between calls.
use wamr_app_framework.Prelude.{
  ℕ, ◌≡◌, ◌≢◌, ◌↔◌, refl, List, [], ◌∷◌, Bool, true, false, Option, some, str_eq, str_eq_comm,
  str_eq_refl, Bool-cases, inl, inr, arith,
}
use wamr_app_framework.Events.{
  EventReg, Events, has_subscriber, event_is_registered, check_url, subscribe, subscribe_at,
  am_register_event, am_unregister_event, event_handle_event_request,
}
use wamr_app_framework.Events.Lists.{
  subscribers_of, IsDistinct, HasDistinctUrls, remove_subscriber-IsDistinct,
}

-- Every registration has a url, subscribers, and none of them twice.
abbrev pub IsSound : EventReg → Type 0
IsSound e = (check_url e.url ≡ true) × (e.subscribers ≢ []) × IsDistinct e.subscribers

abbrev pub AllSound : Events → Type 0
AllSound [] = Unit {0}
AllSound (e ∷ es) = IsSound e × AllSound es

-- The invariant: sound registrations, and no url twice.
pub record IsRegistry (g : Events) : Type 0 where
  pub sound : AllSound g
  pub distinct : HasDistinctUrls g

subscribe_at-AllSound :
    (url : List ℕ) (c : ℕ) (g : Events) → AllSound g → AllSound (subscribe_at true url c g).1
unfolding subscribe_at subscribe
subscribe_at-AllSound url c [] h = tt
subscribe_at-AllSound url c (e ∷ es) h = ground (arith, h.0, subscribe_at-AllSound url c es h.1)

event_is_registered-subscribe_at :
    (m : Bool) (url : List ℕ) (c : ℕ) (u : List ℕ) (g : Events)
    → event_is_registered u (subscribe_at m url c g).1 ≡ event_is_registered u g
unfolding subscribe_at subscribe event_is_registered
event_is_registered-subscribe_at m url c u [] = refl
event_is_registered-subscribe_at m url c u (e ∷ es) =
    ground (arith, event_is_registered-subscribe_at m url c u es)

subscribe_at-HasDistinctUrls :
    (m : Bool) (url : List ℕ) (c : ℕ) (g : Events)
    → HasDistinctUrls g
    → HasDistinctUrls (subscribe_at m url c g).1
unfolding subscribe_at subscribe
subscribe_at-HasDistinctUrls m url c [] d = tt
subscribe_at-HasDistinctUrls m url c (e ∷ es) d = ground (
  arith,
  subscribe_at-HasDistinctUrls m url c es d.1,
  event_is_registered-subscribe_at m url c e.url es,
)

-- The first subscriber of a new registration.
subscribe_at_fresh :
    (url : List ℕ) (c : ℕ) (g : Events)
    → subscribe_at true url c (record { url = url; subscribers = [] } ∷ g)
      ≡ (true, record { url = url; subscribers = c ∷ [] } ∷ g)
unfolding subscribe_at subscribe has_subscriber
subscribe_at_fresh url c g = ground (arith, str_eq_refl url)

fresh-IsRegistry :
    (url : List ℕ) (c : ℕ) (g : Events)
    → check_url url ≡ true
    → event_is_registered url g ≡ false
    → IsRegistry g
    → IsRegistry (record { url = url; subscribers = c ∷ [] } ∷ g)
fresh-IsRegistry url c g h n v = record {
  sound = ((h, (λ e. cc), (unfold has_subscriber in refl, tt)), v.sound);
  distinct = (n, v.distinct);
}

-- A registration keeps the invariant, unless the entry for the subscriber cannot be allocated.
am_register_event-IsRegistry :
    (me : Bool) (url : List ℕ) (c : ℕ) (g : Events)
    → IsRegistry g
    → IsRegistry (am_register_event me true url c g).1
unfolding am_register_event
am_register_event-IsRegistry me url c g v = ground (
  arith,
  v,
  subscribe_at_fresh url c g,
  fresh-IsRegistry url c g,
  subscribe_at-AllSound url c g v.sound,
  subscribe_at-HasDistinctUrls true url c g v.distinct,
)

event_is_registered-am_unregister_event :
    (url : Option (List ℕ)) (c : ℕ) (u : List ℕ) (g : Events)
    → event_is_registered u g ≡ false
    → event_is_registered u (am_unregister_event url c g) ≡ false
unfolding am_unregister_event event_is_registered
event_is_registered-am_unregister_event url c u [] h = refl
event_is_registered-am_unregister_event url c u (e ∷ es) h =
    ground (arith, event_is_registered-am_unregister_event url c u es)

am_unregister_event-AllSound :
    (url : Option (List ℕ)) (c : ℕ) (g : Events)
    → AllSound g
    → AllSound (am_unregister_event url c g)
unfolding am_unregister_event
am_unregister_event-AllSound url c [] h = tt
am_unregister_event-AllSound url c (e ∷ es) h = ground (
  arith,
  h.0,
  am_unregister_event-AllSound url c es h.1,
  remove_subscriber-IsDistinct c e.subscribers h.0.2,
)

am_unregister_event-HasDistinctUrls :
    (url : Option (List ℕ)) (c : ℕ) (g : Events)
    → HasDistinctUrls g
    → HasDistinctUrls (am_unregister_event url c g)
unfolding am_unregister_event
am_unregister_event-HasDistinctUrls url c [] d = tt
am_unregister_event-HasDistinctUrls url c (e ∷ es) d = ground (
  arith,
  am_unregister_event-HasDistinctUrls url c es d.1,
  event_is_registered-am_unregister_event url c e.url es d.0,
)

am_unregister_event-IsRegistry :
    (url : Option (List ℕ)) (c : ℕ) (g : Events)
    → IsRegistry g
    → IsRegistry (am_unregister_event url c g)
am_unregister_event-IsRegistry url c g v = record {
  sound = am_unregister_event-AllSound url c g v.sound;
  distinct = am_unregister_event-HasDistinctUrls url c g v.distinct;
}

-- A request to the registry keeps the invariant, whatever its code, unless an entry for a subscriber
-- cannot be allocated: every registration has a url and at least one subscriber, no url is
-- registered twice, and nobody is subscribed twice.
pub event_handle_event_request-IsRegistry :
    (me : Bool) (code : ℕ) (url : List ℕ) (c : ℕ) (g : Events)
    → IsRegistry g
    → IsRegistry (event_handle_event_request me true code url c g).1
unfolding event_handle_event_request
event_handle_event_request-IsRegistry me code url c g v = ground (
  arith,
  v,
  am_register_event-IsRegistry me url c g v,
  am_unregister_event-IsRegistry (some url) c g v,
)

registered_iff :
    (u : List ℕ) (g : Events)
    → AllSound g
    → (event_is_registered u g ≡ true) ↔ (subscribers_of u g ≢ [])
unfolding event_is_registered subscribers_of
registered_iff u [] h = ((λ e. cc), λ n. absurd (n refl))
registered_iff u (e ∷ es) (h, hs) = elim (Bool-cases (str_eq e.url u)) [
  | inl same ↦ rw (str_eq_comm u e.url, same) ((λ _. h.1), λ _. refl)
  | inr other ↦ rw (str_eq_comm u e.url, other) (registered_iff u es hs)
]

-- Under the invariant an event is registered exactly when it has subscribers.
pub event_is_registered_iff :
    (u : List ℕ) (g : Events)
    → IsRegistry g
    → (event_is_registered u g ≡ true) ↔ (subscribers_of u g ≢ [])
event_is_registered_iff u g v = registered_iff u g v.sound

-- Where the entry for the first subscriber of a url cannot be allocated, the registration fails and
-- stays behind with no subscriber.
pub am_register_event_leftover :
    (url : List ℕ) (c : ℕ) (g : Events)
    → check_url url ≡ true
    → event_is_registered url g ≡ false
    → let r = am_register_event true false url c g in
      (r.0 ≡ false) × (event_is_registered url r.1 ≡ true) × (subscribers_of url r.1 ≡ [])
am_register_event_leftover url c g h n =
    let nobody : has_subscriber c [] ≡ false = unfold has_subscriber in refl in
    unfold am_register_event subscribe_at subscribe event_is_registered subscribers_of in
    ground (arith, h, n, nobody, str_eq_refl url)
