-- ===== src/Resources/Limits.antt =====
-- Registration in app-mgr/app-manager/resource_reg.c and its limits.
use wamr_app_framework.Prelude.{
  ℕ, ◌+◌, ◌≤◌, ◌≡◌, refl, List, [], ◌∷◌, Bool, true, false, not, none, some, ltb, leb, ◌==◌, ◌&&◌,
  if◌then◌else◌, length, str_eq, All, arith,
}
use wamr_app_framework.Resources.{
  Handler, AppResRegister, Resources, count_registered, am_register_resource,
  am_cleanup_registeration, resource_event_url_len_max, resource_registration_num_max,
}

-- A url is registered, and the number of urls that an id has.
unfoldable pub is_registered : List ℕ → Resources → Bool
is_registered url [] = false
is_registered url (r ∷ rest) = if str_eq r.url url then true else is_registered url rest

unfoldable pub registered_by : ℕ → Resources → ℕ
registered_by id [] = 0
registered_by id (r ∷ rest) =
    if r.register_id == id then registered_by id rest + 1 else registered_by id rest

pub count_registered-eq :
    (url : List ℕ) (id : ℕ) (g : Resources)
    → count_registered url id g ≡ (if is_registered url g then none else some (registered_by id g))
unfolding count_registered is_registered registered_by
count_registered-eq url id [] = refl
count_registered-eq url id (r ∷ rest) = ground (arith, count_registered-eq url id rest)

-- What a registration needs.
abbrev pub is_admitted : Bool → List ℕ → ℕ → Resources → Bool
is_admitted malloc url id g =
    not (is_registered url g) && (leb (length url) 256 && (ltb (registered_by id g) 16 && malloc))

-- `am_register_resource` succeeds exactly when the url is not registered, has at most 256
-- characters, and its id has fewer than 16 urls, and the entry can be allocated. Then the entry
-- stands in front of the list, and otherwise the list stays as it is.
pub am_register_resource-eq :
    (malloc : Bool) (url : List ℕ) (handler : Handler) (id : ℕ) (g : Resources)
    → am_register_resource malloc url handler id g ≡ (
        if is_admitted malloc url id g
        then (true, record { url = url; request_handler = handler; register_id = id } ∷ g)
        else (false, g))
unfolding am_register_resource
am_register_resource-eq malloc url handler id g = ground (arith, count_registered-eq url id g)

abbrev pub HasDistinctUrls : Resources → Type 0
HasDistinctUrls [] = Unit {0}
HasDistinctUrls (r ∷ rest) = (is_registered r.url rest ≡ false) × HasDistinctUrls rest

-- The invariant: no url twice, no url too long, and no id with too many urls.
pub record IsWithinLimits (g : Resources) : Type 0 where
  pub distinct : HasDistinctUrls g
  pub lengths : All (λ r. length r.url ≤ resource_event_url_len_max) g
  pub numbers : (id : ℕ) → registered_by id g ≤ resource_registration_num_max

am_register_resource-IsWithinLimits :
    (malloc : Bool) (url : List ℕ) (handler : Handler) (id : ℕ) (g : Resources)
    → IsWithinLimits g
    → IsWithinLimits (am_register_resource malloc url handler id g).1
am_register_resource-IsWithinLimits malloc url handler id g v =
    let e = am_register_resource-eq malloc url handler id g in
    record {
      distinct = ground (arith, e, v.distinct);
      lengths = ground (arith, e, v.lengths);
      numbers = λ k. unfold registered_by in ground (arith, e, v.numbers k);
    }

is_registered-am_cleanup_registeration :
    (url : List ℕ) (id : ℕ) (g : Resources)
    → is_registered url g ≡ false
    → is_registered url (am_cleanup_registeration id g) ≡ false
unfolding is_registered am_cleanup_registeration
is_registered-am_cleanup_registeration url id [] h = refl
is_registered-am_cleanup_registeration url id (r ∷ rest) h =
    ground (arith, is_registered-am_cleanup_registeration url id rest)

HasDistinctUrls-am_cleanup_registeration :
    (id : ℕ) (g : Resources) → HasDistinctUrls g → HasDistinctUrls (am_cleanup_registeration id g)
unfolding am_cleanup_registeration
HasDistinctUrls-am_cleanup_registeration id [] h = tt
HasDistinctUrls-am_cleanup_registeration id (r ∷ rest) h = ground (
  arith,
  h,
  HasDistinctUrls-am_cleanup_registeration id rest h.1,
  is_registered-am_cleanup_registeration r.url id rest,
)

All-am_cleanup_registeration :
    (P : AppResRegister → Type 0) (id : ℕ) (g : Resources)
    → All P g
    → All P (am_cleanup_registeration id g)
unfolding am_cleanup_registeration
All-am_cleanup_registeration P id [] h = tt
All-am_cleanup_registeration P id (r ∷ rest) h =
    ground (arith, h, All-am_cleanup_registeration P id rest h.1)

registered_by-am_cleanup_registeration :
    (k id : ℕ) (g : Resources)
    → registered_by k (am_cleanup_registeration id g) ≡ (if k == id then 0 else registered_by k g)
unfolding registered_by am_cleanup_registeration
registered_by-am_cleanup_registeration k id [] = ground arith
registered_by-am_cleanup_registeration k id (r ∷ rest) =
    ground (arith, registered_by-am_cleanup_registeration k id rest)

am_cleanup_registeration-IsWithinLimits :
    (id : ℕ) (g : Resources) → IsWithinLimits g → IsWithinLimits (am_cleanup_registeration id g)
am_cleanup_registeration-IsWithinLimits id g v = record {
  distinct = HasDistinctUrls-am_cleanup_registeration id g v.distinct;
  lengths = All-am_cleanup_registeration _ id g v.lengths;
  numbers = λ k. ground (arith, registered_by-am_cleanup_registeration k id g, v.numbers k);
}

-- The calls that change the registry.
pub data Call : Type 0 where
  register : Bool → List ℕ → Handler → ℕ → Call
  cleanup : ℕ → Call

unfoldable pub after : List Call → Resources → Resources
after [] g = g
after (register malloc url handler id ∷ calls) g =
    after calls (am_register_resource malloc url handler id g).1
after (cleanup id ∷ calls) g = after calls (am_cleanup_registeration id g)

-- After any sequence of registrations and cleanups no url is registered twice, no url is longer than
-- 256 characters, and no id has more than 16 urls, if that held before.
pub after-IsWithinLimits :
    (calls : List Call) (g : Resources) → IsWithinLimits g → IsWithinLimits (after calls g)
unfolding after
after-IsWithinLimits [] g v = v
after-IsWithinLimits (register malloc url handler id ∷ calls) g v =
    after-IsWithinLimits calls _ (am_register_resource-IsWithinLimits malloc url handler id g v)
after-IsWithinLimits (cleanup id ∷ calls) g v =
    after-IsWithinLimits calls _ (am_cleanup_registeration-IsWithinLimits id g v)
