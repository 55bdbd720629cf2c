-- ===== src/Handlers/Register.antt =====
-- `register_url_handler` of app-framework/base/app/request.c on an abstract view of the registrations.
use wamr_app_framework.Prelude.{
  ℕ, ◌≡◌, refl, subst, inl, inr, Bool-cases, Option-cases, List, [], ◌∷◌, Bool, true, false, ◌&&◌,
  ◌||◌, Option, none, some, if◌then◌else◌, str_eq, str_eq_iff, arith,
}
use wamr_app_framework.Handlers.{
  RegType, reg_event, reg_request, same_type, ResRegister, replace_handler, register_url_handler,
}

-- The handler of a url for requests or events.
unfoldable pub handler_of : RegType → List ℕ → List ResRegister → Option ℕ
handler_of reg_type url [] = none
handler_of reg_type url (r ∷ rest) =
    if same_type reg_type r.reg_type && str_eq r.url url
    then some r.request_handler
    else handler_of reg_type url rest

abbrev pub is_some : Option ℕ → Bool
is_some none = false
is_some (some n) = true

same_type_eq : (a b : RegType) → same_type a b ≡ true → a ≡ b
same_type_eq reg_event reg_event e = refl
same_type_eq reg_event reg_request e = cc
same_type_eq reg_request reg_event e = cc
same_type_eq reg_request reg_request e = refl

same_type_refl : (a : RegType) → same_type a a ≡ true
same_type_refl reg_event = refl
same_type_refl reg_request = refl

-- What a lookup finds where the replacement succeeds.
abbrev Finds : Option ℕ → RegType → List ℕ → Option (List ResRegister) → Type 0
Finds v t u none = Unit {0}
Finds v t u (some g) = handler_of t u g ≡ v

-- A lookup behind a change of the handler of a url.
abbrev pub changed : List ℕ → ℕ → RegType → RegType → List ℕ → Option ℕ → Option ℕ
changed url h t t' u old = if same_type t' t && str_eq url u then some h else old

replaced :
    (url : List ℕ) (h : ℕ) (t t' : RegType) (u : List ℕ) (g : List ResRegister)
    → Finds (changed url h t t' u (handler_of t' u g)) t' u (replace_handler url h t g)
unfolding replace_handler handler_of
replaced url h t t' u [] = tt
replaced url h t t' u (r ∷ rest) = elim (Bool-cases (same_type t r.reg_type && str_eq r.url url)) [
  | inl hit ↦
      let same : t ≡ r.reg_type = same_type_eq t r.reg_type (ground arith) in
      let equal : r.url ≡ url = (str_eq_iff r.url url).0 (ground arith) in
      ground (arith, hit, same, equal)
  | inr miss ↦ elim (Option-cases (replace_handler url h t rest)) [
    | inl e ↦ ground (arith, miss, e)
    | inr (g', e) ↦
        let later : handler_of t' u g' ≡ changed url h t t' u (handler_of t' u rest) =
          subst (Finds (changed url h t t' u (handler_of t' u rest)) t' u) e
            (replaced url h t t' u rest) in
        ground (
          arith,
          miss,
          e,
          later,
          same_type_eq t' r.reg_type,
          same_type_eq t' t,
          same_type_refl t',
          str_eq_iff url u,
          str_eq_iff r.url u,
          str_eq_iff r.url url,
        )
  ]
]

not_replaced :
    (url : List ℕ) (h : ℕ) (t : RegType) (g : List ResRegister)
    → is_some (handler_of t url g)
      ≡ elim (replace_handler url h t g) [ none ↦ false | some g' ↦ true ]
unfolding replace_handler handler_of
not_replaced url h t [] = refl
not_replaced url h t (r ∷ rest) = ground (arith, not_replaced url h t rest)

added_first :
    (url : List ℕ) (h : ℕ) (t t' : RegType) (u : List ℕ) (g : List ResRegister)
    → handler_of t' u (record { url = url; reg_type = t; request_handler = h } ∷ g)
      ≡ changed url h t t' u (handler_of t' u g)
unfolding handler_of
added_first url h t t' u g = refl

-- `register_url_handler` succeeds exactly when the url is registered for that type already, or its
-- entry can be allocated. Then that handler is found for the url and the type, and everything else is
-- found as before, also after a failure.
pub handler_of-register_url_handler :
    (malloc : Bool) (url : List ℕ) (h : ℕ) (t t' : RegType) (u : List ℕ) (g : List ResRegister)
    → let r = register_url_handler malloc url h t g in
      (r.0 ≡ is_some (handler_of t url g) || malloc)
      × (handler_of t' u r.1
          ≡ (if r.0 then changed url h t t' u (handler_of t' u g) else handler_of t' u g))
unfolding register_url_handler
handler_of-register_url_handler malloc url h t t' u g =
    let known = not_replaced url h t g in
    elim (Option-cases (replace_handler url h t g)) [
      | inl e ↦ ground (arith, e, known, added_first url h t t' u g)
      | inr (g', e) ↦
          let found : handler_of t' u g' ≡ changed url h t t' u (handler_of t' u g) =
            subst (Finds (changed url h t t' u (handler_of t' u g)) t' u) e
              (replaced url h t t' u g) in
          ground (arith, e, known, found)
    ]
