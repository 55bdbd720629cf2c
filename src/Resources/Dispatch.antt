-- ===== src/Resources/Dispatch.antt =====
-- Which registration a request goes to: `am_dispatch_request` and `am_cleanup_registeration` of
-- app-mgr/app-manager/resource_reg.c.
use wamr_app_framework.Prelude.{
  ℕ, ◌<◌, ◌≡◌, ◌≢◌, ap, List, [], ◌∷◌, ◌++◌, Bool, some, ltb, length, All, Bool-cases, inl, inr,
  arith,
}
use wamr_app_framework.Restful.{Request}
use wamr_app_framework.Restful.Url.{check_url_start}
use wamr_app_framework.Modules.{ModuleDataList}
use wamr_app_framework.Resources.{
  AppResRegister, Resources, am_cleanup_registeration, find_resource, am_dispatch_request,
  call_handler,
}

-- The registration's url covers the request's.
abbrev pub Covers : List ℕ → AppResRegister → Type 0
Covers url r = 0 < check_url_start url (length url) r.url

-- `r` is the first of the list that covers the url.
pub record IsFirst (url : List ℕ) (g : Resources) (r : AppResRegister) : Type 0 where
  pub before : Resources
  pub behind : Resources
  pub split : g ≡ before ++ (r ∷ behind)
  pub passed : All (λ q. ¬ Covers url q) before
  pub covers : Covers url r

find_resource-IsFirst_from :
    (url : List ℕ) (g : Resources) (r : AppResRegister)
    → find_resource url g ≡ some r
    → IsFirst url g r
unfolding find_resource
find_resource-IsFirst_from url [] r e = cc
find_resource-IsFirst_from url (q ∷ rest) r e =
    elim (Bool-cases (ltb 0 (check_url_start url (length url) q.url))) [
      | inl hit ↦ record {
        before = [];
        behind = rest;
        split = ground (arith, hit);
        passed = tt;
        covers = ground (arith, hit);
      }
      | inr miss ↦
          let later = find_resource-IsFirst_from url rest r (ground (arith, miss)) in
          record {
            before = q ∷ later.before;
            behind = later.behind;
            split = ap (◌∷◌ q) later.split;
            passed = ((λ c. ground (arith, miss)), later.passed);
            covers = later.covers;
          }
    ]

first-find_resource :
    (url : List ℕ) (before behind : Resources) (r : AppResRegister)
    → All (λ q. ¬ Covers url q) before
    → Covers url r
    → find_resource url (before ++ (r ∷ behind)) ≡ some r
unfolding find_resource
first-find_resource url [] behind r p c = ground arith
first-find_resource url (q ∷ before) behind r p c =
    ground (arith, p.0, first-find_resource url before behind r p.1)

dispatched :
    (malloc : Bool) (l : ModuleDataList) (request : Request) (g : Resources)
    → (am_dispatch_request malloc l request g).0 ≡ find_resource request.url g
unfolding am_dispatch_request
dispatched malloc l request g = ground arith

-- `am_dispatch_request` returns the first registration, newest first, whose url covers the request's
-- by `check_url_start`, and returns one exactly when there is such a first one; the handler of that
-- registration is what it calls.
pub am_dispatch_request-IsFirst :
    (malloc : Bool) (l : ModuleDataList) (request : Request) (g : Resources) (r : AppResRegister)
    → ((am_dispatch_request malloc l request g).0 ≡ some r → IsFirst request.url g r)
      × (IsFirst request.url g r
          → am_dispatch_request malloc l request g
            ≡ (some r, call_handler malloc l r.request_handler request r.register_id))
am_dispatch_request-IsFirst malloc l request g r = (
  λ e. find_resource-IsFirst_from request.url g r (ground (arith, dispatched malloc l request g)),
  λ f.
      let found : find_resource request.url g ≡ some r =
        rw (f.split) (first-find_resource request.url f.before f.behind r f.passed f.covers) in
      unfold am_dispatch_request in ground (arith, found),
)

find_resource-am_cleanup_registeration :
    (url : List ℕ) (id : ℕ) (g : Resources) (r : AppResRegister)
    → find_resource url (am_cleanup_registeration id g) ≡ some r
    → r.register_id ≢ id
unfolding find_resource am_cleanup_registeration
find_resource-am_cleanup_registeration url id [] r e = cc
find_resource-am_cleanup_registeration url id (q ∷ rest) r e =
    ground (arith, find_resource-am_cleanup_registeration url id rest r)

find_resource_kept :
    (url : List ℕ) (id : ℕ) (g : Resources) (r : AppResRegister)
    → find_resource url g ≡ some r
    → r.register_id ≢ id
    → find_resource url (am_cleanup_registeration id g) ≡ some r
unfolding find_resource am_cleanup_registeration
find_resource_kept url id [] r e n = cc
find_resource_kept url id (q ∷ rest) r e n = ground (arith, find_resource_kept url id rest r)

-- After the cleanup of an id no request goes to a registration of that id, and a request that went
-- to a registration of another id still goes there.
pub am_dispatch_request-am_cleanup_registeration :
    (malloc : Bool) (l : ModuleDataList) (request : Request) (id : ℕ) (g : Resources)
    (r : AppResRegister)
    → ((am_dispatch_request malloc l request (am_cleanup_registeration id g)).0 ≡ some r
        → r.register_id ≢ id)
      × ((am_dispatch_request malloc l request g).0 ≡ some r
          → r.register_id ≢ id
          → am_dispatch_request malloc l request (am_cleanup_registeration id g)
            ≡ am_dispatch_request malloc l request g)
am_dispatch_request-am_cleanup_registeration malloc l request id g r = (
  λ e.
      find_resource-am_cleanup_registeration request.url id g r
        (ground (arith, dispatched malloc l request (am_cleanup_registeration id g))),
  λ e n.
      let old : find_resource request.url g ≡ some r =
        ground (arith, dispatched malloc l request g) in
      let new = find_resource_kept request.url id g r old n in
      unfold am_dispatch_request in ground (arith, old, new),
)
