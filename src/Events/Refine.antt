-- ===== src/Events/Refine.antt =====
-- The operations of app-mgr/app-manager/event.c on the abstract view of the registry.
use wamr_app_framework.Prelude.{
  ◌==◌, ℕ, ◌≡◌, refl, List, [], ◌∷◌, map, Bool, true, false, not, Option, ◌&&◌, ◌||◌, if◌then◌else◌,
  str_eq, str_eq_iff, str_eq_comm, str_eq_refl, Bool-cases, inl, inr, arith,
}
use wamr_app_framework.Restful.{Request}
use wamr_app_framework.Events.{
  EventReg, Events, has_subscriber, remove_subscriber, event_is_registered, check_url, subscribe,
  subscribe_at, am_register_event, am_unregister_event, selects, am_publish_event, deliver,
}
use wamr_app_framework.Events.Lists.{
  subscribers_of, IsDistinct, HasDistinctUrls, subscribers_of_unregistered,
}

-- The subscribers after a registration that succeeds or not.
abbrev pub added : Bool → List ℕ → ℕ → List ℕ → List ℕ → List ℕ
added success url c u cs =
    if success && (str_eq u url && not (has_subscriber c cs)) then c ∷ cs else cs

subscribers_of-subscribe_at :
    (m : Bool) (url : List ℕ) (c : ℕ) (u : List ℕ) (g : Events)
    → event_is_registered url g ≡ true
    → ((subscribe_at m url c g).0 ≡ has_subscriber c (subscribers_of url g) || m)
      × (subscribers_of u (subscribe_at m url c g).1
          ≡ added (subscribe_at m url c g).0 url c u (subscribers_of u g))
unfolding subscribe_at subscribe subscribers_of event_is_registered
subscribers_of-subscribe_at m url c u [] h = cc
subscribers_of-subscribe_at m url c u (e ∷ es) h = ground (
  arith,
  str_eq_comm url e.url,
  str_eq_iff url e.url,
  str_eq_iff u e.url,
  str_eq_iff u url,
  subscribers_of-subscribe_at m url c u es,
)

registered_first : (e : EventReg) (g : Events) → event_is_registered e.url (e ∷ g) ≡ true
unfolding event_is_registered
registered_first e g = ground (arith, str_eq_refl e.url)

subscribers_of_first :
    (url u cs : List ℕ) (g : Events)
    → subscribers_of u (record { url = url; subscribers = cs } ∷ g)
      ≡ (if str_eq u url then cs else subscribers_of u g)
unfolding subscribers_of
subscribers_of_first url u cs g = refl

-- `am_register_event` succeeds exactly when the url is not empty, the registration exists or can be
-- allocated, and the client is subscribed already or its entry can be allocated. Then the client is
-- put in front of the subscribers of that url, unless it is one of them; all other lists, and all
-- lists after a failure, stay as they are.
pub subscribers_of-am_register_event :
    (me ms : Bool) (url : List ℕ) (c : ℕ) (u : List ℕ) (g : Events)
    → let r = am_register_event me ms url c g in
      (r.0 ≡ (
        check_url url
        && ((event_is_registered url g || me) && (has_subscriber c (subscribers_of url g) || ms))))
      × (subscribers_of u r.1 ≡ added r.0 url c u (subscribers_of u g))
subscribers_of-am_register_event me ms url c u g = elim (Bool-cases (event_is_registered url g)) [
  | inl old ↦
      let found = subscribers_of-subscribe_at ms url c u g old in
      unfold am_register_event in ground (arith, old, found.0, found.1)
  | inr new ↦
      let fresh : EventReg = record { url = url; subscribers = [] } in
      let found = subscribers_of-subscribe_at ms url c u (fresh ∷ g) (registered_first fresh g) in
      let front = subscribers_of_first url u [] g in
      unfold am_register_event has_subscriber in
      ground (
        arith,
        new,
        found.0,
        found.1,
        front,
        subscribers_of_first url url [] g,
        str_eq_refl url,
        str_eq_iff u url,
        subscribers_of_unregistered url g new,
        subscribers_of_unregistered u g,
      )
]

-- The subscribers after a cancellation: `none` is every url.
abbrev pub removed : Option (List ℕ) → ℕ → List ℕ → List ℕ → List ℕ
removed url c u cs = if selects url u then remove_subscriber c cs else cs

removed_first :
    (url : Option (List ℕ)) (c : ℕ) (e : EventReg) (es : Events)
    → event_is_registered e.url es ≡ false
    → subscribers_of e.url (am_unregister_event url c es)
      ≡ removed url c e.url (subscribers_of e.url es)
    → subscribers_of e.url (am_unregister_event url c (e ∷ es))
      ≡ removed url c e.url (subscribers_of e.url (e ∷ es))
unfolding am_unregister_event subscribers_of
removed_first url c e es d ih =
    let gone : subscribers_of e.url es ≡ [] = subscribers_of_unregistered e.url es d in
    let none_left : remove_subscriber c [] ≡ [] = unfold remove_subscriber in refl in
    ground (arith, str_eq_refl e.url, gone, none_left)

removed_later :
    (url : Option (List ℕ)) (c : ℕ) (u : List ℕ) (e : EventReg) (es : Events)
    → str_eq u e.url ≡ false
    → subscribers_of u (am_unregister_event url c es) ≡ removed url c u (subscribers_of u es)
    → subscribers_of u (am_unregister_event url c (e ∷ es))
      ≡ removed url c u (subscribers_of u (e ∷ es))
unfolding am_unregister_event subscribers_of
removed_later url c u e es other ih = ground (arith, other)

subscribers_of_unregister :
    (url : Option (List ℕ)) (c : ℕ) (u : List ℕ) (g : Events)
    → HasDistinctUrls g
    → subscribers_of u (am_unregister_event url c g) ≡ removed url c u (subscribers_of u g)
subscribers_of_unregister url c u [] d =
    unfold am_unregister_event subscribers_of remove_subscriber in ground arith
subscribers_of_unregister url c u (e ∷ es) d = elim (Bool-cases (str_eq u e.url)) [
  | inl same ↦
      rw ((str_eq_iff u e.url).0 same)
        (removed_first url c e es d.0 (subscribers_of_unregister url c e.url es d.1))
  | inr other ↦ removed_later url c u e es other (subscribers_of_unregister url c u es d.1)
]

-- A list without a client, wherever it stands.
unfoldable pub without : ℕ → List ℕ → List ℕ
without c [] = []
without c (x ∷ xs) = let rest = without c xs in if x == c then rest else x ∷ rest

without_absent : (c : ℕ) (cs : List ℕ) → has_subscriber c cs ≡ false → without c cs ≡ cs
unfolding without has_subscriber
without_absent c [] h = refl
without_absent c (x ∷ xs) h = ground (arith, without_absent c xs)

remove_subscriber-without :
    (c : ℕ) (cs : List ℕ) → IsDistinct cs → remove_subscriber c cs ≡ without c cs
unfolding remove_subscriber without
remove_subscriber-without c [] d = refl
remove_subscriber-without c (x ∷ xs) d = elim (Bool-cases (x == c)) [
  | inl same ↦
      let gone : has_subscriber c xs ≡ false = ground (arith, d.0, same) in
      let rest = without_absent c xs gone in ground (arith, same, rest)
  | inr other ↦ let rest = remove_subscriber-without c xs d.1 in ground (arith, other, rest)
]

-- Nobody is subscribed twice to one url.
abbrev pub HasDistinctSubscribers : Events → Type 0
HasDistinctSubscribers [] = Unit {0}
HasDistinctSubscribers (e ∷ es) = IsDistinct e.subscribers × HasDistinctSubscribers es

subscribers_of-IsDistinct :
    (u : List ℕ) (g : Events) → HasDistinctSubscribers g → IsDistinct (subscribers_of u g)
unfolding subscribers_of
subscribers_of-IsDistinct u [] d = tt
subscribers_of-IsDistinct u (e ∷ es) d = elim (Bool-cases (str_eq u e.url)) [
  | inl same ↦ rw same d.0
  | inr other ↦ rw other (subscribers_of-IsDistinct u es d.1)
]

-- After `am_unregister_event` the client stands nowhere among the subscribers of the url, or of any url
-- where none is given; the others stay, in their order, and so do all other lists. No url is
-- registered twice before, and nobody is subscribed twice to one.
pub subscribers_of-am_unregister_event :
    (url : Option (List ℕ)) (c : ℕ) (u : List ℕ) (g : Events)
    → HasDistinctUrls g
    → HasDistinctSubscribers g
    → subscribers_of u (am_unregister_event url c g)
      ≡ (if selects url u then without c (subscribers_of u g) else subscribers_of u g)
subscribers_of-am_unregister_event url c u g d e =
    let once = remove_subscriber-without c (subscribers_of u g) (subscribers_of-IsDistinct u g e) in
    let after = subscribers_of_unregister url c u g d in
    elim (Bool-cases (selects url u)) [
      | inl chosen ↦ ground (arith, after, once, chosen)
      | inr other ↦ ground (arith, after, other)
    ]

-- `am_publish_event` hands the event to every subscriber of its url, in their order.
pub am_publish_event-subscribers_of :
    (event : Request) (g : Events)
    → am_publish_event event g ≡ map (deliver event) (subscribers_of event.url g)
unfolding am_publish_event subscribers_of
am_publish_event-subscribers_of event [] = refl
am_publish_event-subscribers_of event (e ∷ es) =
    ground (arith, am_publish_event-subscribers_of event es)
