-- ===== src/Events/Lists.antt =====
-- Lists of subscribers, and the notions that the specification of the event registry
-- (app-mgr/app-manager/event.c) uses.
use wamr_app_framework.Prelude.{
  ℕ, ◌≡◌, refl, List, [], ◌∷◌, false, not, ◌==◌, ◌&&◌, if◌then◌else◌, str_eq, str_eq_comm, arith,
}
use wamr_app_framework.Events.{Events, has_subscriber, remove_subscriber, event_is_registered}

-- The abstract view of the registry: who is told of the events of a url, in order.
unfoldable pub subscribers_of : List ℕ → Events → List ℕ
subscribers_of u [] = []
subscribers_of u (current ∷ rest) =
    if str_eq u current.url then current.subscribers else subscribers_of u rest

-- No subscriber stands twice.
abbrev pub IsDistinct : List ℕ → Type 0
IsDistinct [] = Unit {0}
IsDistinct (c ∷ cs) = (has_subscriber c cs ≡ false) × IsDistinct cs

pub has_subscriber-remove_subscriber :
    (id c : ℕ) (cs : List ℕ)
    → IsDistinct cs
    → has_subscriber c (remove_subscriber id cs) ≡ has_subscriber c cs && not (c == id)
unfolding has_subscriber remove_subscriber
has_subscriber-remove_subscriber id c [] d = refl
has_subscriber-remove_subscriber id c (x ∷ xs) d =
    ground (arith, has_subscriber-remove_subscriber id c xs)

pub remove_subscriber-IsDistinct :
    (id : ℕ) (cs : List ℕ) → IsDistinct cs → IsDistinct (remove_subscriber id cs)
unfolding remove_subscriber
remove_subscriber-IsDistinct id [] d = tt
remove_subscriber-IsDistinct id (x ∷ xs) d =
    ground (arith, remove_subscriber-IsDistinct id xs, has_subscriber-remove_subscriber id x xs)

-- No url is registered twice.
abbrev pub HasDistinctUrls : Events → Type 0
HasDistinctUrls [] = Unit {0}
HasDistinctUrls (e ∷ es) = (event_is_registered e.url es ≡ false) × HasDistinctUrls es

pub subscribers_of_unregistered :
    (u : List ℕ) (g : Events) → event_is_registered u g ≡ false → subscribers_of u g ≡ []
unfolding subscribers_of event_is_registered
subscribers_of_unregistered u [] h = refl
subscribers_of_unregistered u (e ∷ es) h =
    ground (arith, str_eq_comm u e.url, subscribers_of_unregistered u es)
