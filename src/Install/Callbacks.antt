-- ===== src/Install/Callbacks.antt =====
-- The handlers that other parts register for the messages of WebAssembly modules:
-- wasm_register_msg_callback of app-mgr/app-manager/module_wasm_app.c, and which messages
-- app_instance_queue_callback gives to them. A handler is a number that tells it from the others.
use wamr_app_framework.Prelude.{
  ◌||◌, Bool, ℕ, ◌≡◌, ◌≢◌, refl, inl, inr, List, [], ◌∷◌, Bool-cases, Option, none, some,
  Option-cases, ◌==◌, if◌then◌else◌, arith,
}
use wamr_app_framework.Restful.{Outcome, ok, null, fault}

-- An entry of `g_msg_type` with the one of `g_msg_callbacks`; `none` is NULL.
pub record MsgSlot : Type 0 where
  pub msg_type : ℕ
  pub callback : Option ℕ

-- The slot of the message type gets the handler.
unfoldable pub replace_callback : ℕ → ℕ → List MsgSlot → Option (List MsgSlot)
replace_callback type handler [] = none
replace_callback type handler (slot ∷ slots) =
    let rest = replace_callback type handler slots in
    if slot.msg_type == type
    then some (record { msg_type = type; callback = some handler } ∷ slots)
    else elim rest [ none ↦ none | some later ↦ some (slot ∷ later) ]

-- `freeslot` gets the type and the handler.
unfoldable pub take_free_slot : ℕ → ℕ → List MsgSlot → Option (List MsgSlot)
take_free_slot type handler [] = none
take_free_slot type handler (slot ∷ slots) =
    let rest = take_free_slot type handler slots in
    elim slot.callback [
      | none ↦ some (record { msg_type = type; callback = some handler } ∷ slots)
      | some other ↦ elim rest [ none ↦ none | some later ↦ some (slot ∷ later) ]
    ]

-- `none` is false: the slots stay as they are.
unfoldable pub wasm_register_msg_callback : ℕ → ℕ → List MsgSlot → Option (List MsgSlot)
wasm_register_msg_callback type handler slots = elim (replace_callback type handler slots) [
  | some replaced ↦ some replaced
  | none ↦ take_free_slot type handler slots
]

-- The loop under `default`: the handler that a message of a type is given to, none for an invalid type, and a fault where the
-- slot has no handler.
unfoldable pub call_msg_callback : ℕ → List MsgSlot → Outcome ℕ
call_msg_callback type [] = null
call_msg_callback type (slot ∷ slots) =
    let rest = call_msg_callback type slots in
    if slot.msg_type == type
    then elim slot.callback [ none ↦ fault | some handler ↦ ok handler ]
    else rest

abbrev pub restful_request : ℕ
restful_request = 52

abbrev pub restful_response : ℕ
restful_response = 53

abbrev pub timer_event_wasm : ℕ
timer_event_wasm = 101

-- The types with a case of their own in the two switches.
abbrev pub is_own_case : ℕ → Bool
is_own_case type =
    type == restful_request || (type == restful_response) || (type == timer_event_wasm)

-- Who gets a message of a type: `none` is a case of the switch, which passes it to the application.
unfoldable pub app_instance_queue_callback : ℕ → List MsgSlot → Option (Outcome ℕ)
app_instance_queue_callback type slots =
    if is_own_case type then none else some (call_msg_callback type slots)

replaced_own :
    (type handler : ℕ) (slots slots' : List MsgSlot)
    → replace_callback type handler slots ≡ some slots'
    → call_msg_callback type slots' ≡ ok handler
unfolding replace_callback call_msg_callback
replaced_own type handler [] slots' e = absurd (ground (arith, e))
replaced_own type handler (slot ∷ slots) slots' e =
    elim (Option-cases (replace_callback type handler slots)) [
      | inl n ↦ ground (arith, e, n)
      | inr (later, s) ↦ ground (arith, e, s, replaced_own type handler slots later s)
    ]

replaced_other :
    (type handler other g : ℕ) (slots slots' : List MsgSlot)
    → other ≢ type
    → replace_callback type handler slots ≡ some slots'
    → call_msg_callback other slots' ≡ call_msg_callback other slots
unfolding replace_callback call_msg_callback
replaced_other type handler other g [] slots' d e = absurd (ground (arith, e))
replaced_other type handler other g (slot ∷ slots) slots' d e =
    elim (Option-cases (replace_callback type handler slots)) [
      | inl n ↦ ground (arith, e, n, d)
      | inr (later, s) ↦
          ground (arith, e, s, d, replaced_other type handler other g slots later d s)
    ]

-- No slot has the type.
not_replaced :
    (type handler : ℕ) (slots : List MsgSlot)
    → replace_callback type handler slots ≡ none
    → call_msg_callback type slots ≡ null
unfolding replace_callback call_msg_callback
not_replaced type handler [] e = refl
not_replaced type handler (slot ∷ slots) e =
    elim (Option-cases (replace_callback type handler slots)) [
      | inl n ↦ ground (arith, e, n, not_replaced type handler slots n)
      | inr (later, s) ↦ absurd (ground (arith, e, s))
    ]

taken_own :
    (type handler : ℕ) (slots slots' : List MsgSlot)
    → call_msg_callback type slots ≡ null
    → take_free_slot type handler slots ≡ some slots'
    → call_msg_callback type slots' ≡ ok handler
unfolding take_free_slot call_msg_callback
taken_own type handler [] slots' m e = absurd (ground (arith, e))
taken_own type handler (slot ∷ slots) slots' m e = elim (Bool-cases (slot.msg_type == type)) [
  | inl same ↦ elim (Option-cases slot.callback) [
    | inl n ↦ ground (arith, e, n)
    | inr (g, c) ↦ absurd (ground (arith, m, same, c))
  ]
  | inr differs ↦ elim (Option-cases slot.callback) [
    | inl n ↦ ground (arith, e, n)
    | inr (g, c) ↦ elim (Option-cases (take_free_slot type handler slots)) [
      | inl n ↦ absurd (ground (arith, e, c, n))
      | inr (later, s) ↦ ground (
        arith,
        e,
        c,
        s,
        differs,
        taken_own type handler slots later (ground (arith, m, differs)) s,
      )
    ]
  ]
]

taken_other :
    (type handler other g : ℕ) (slots slots' : List MsgSlot)
    → other ≢ type
    → call_msg_callback other slots ≡ ok g
    → take_free_slot type handler slots ≡ some slots'
    → call_msg_callback other slots' ≡ ok g
unfolding take_free_slot call_msg_callback
taken_other type handler other g [] slots' d m e = absurd (ground (arith, e))
taken_other type handler other g (slot ∷ slots) slots' d m e = elim (Option-cases slot.callback) [
  | inl n ↦ ground (arith, e, n, m, d)
  | inr (h, c) ↦ elim (Option-cases (take_free_slot type handler slots)) [
    | inl n ↦ absurd (ground (arith, e, c, n))
    | inr (later, s) ↦ elim (Bool-cases (slot.msg_type == other)) [
      | inl same ↦ ground (arith, e, c, s, m, same)
      | inr differs ↦ ground (
        arith,
        e,
        c,
        s,
        differs,
        taken_other type handler other g slots later d (ground (arith, m, differs)) s,
      )
    ]
  ]
]

registered_lem :
    (type handler : ℕ) (slots slots' : List MsgSlot)
    → wasm_register_msg_callback type handler slots ≡ some slots'
    → (call_msg_callback type slots' ≡ ok handler)
      × ((other g : ℕ)
          → other ≢ type
          → call_msg_callback other slots ≡ ok g
          → call_msg_callback other slots' ≡ ok g)
unfolding wasm_register_msg_callback
registered_lem type handler slots slots' e =
    elim (Option-cases (replace_callback type handler slots)) [
      | inr (replaced, r) ↦
          let same : replace_callback type handler slots ≡ some slots' = ground (arith, e, r) in
          (
            replaced_own type handler slots slots' same,
            λ other g d m.
                ground (arith, m, replaced_other type handler other g slots slots' d same),
          )
      | inl n ↦
          let taken : take_free_slot type handler slots ≡ some slots' = ground (arith, e, n) in
          (
            taken_own type handler slots slots' (not_replaced type handler slots n) taken,
            λ other g d m. taken_other type handler other g slots slots' d m taken,
          )
    ]

-- When wasm_register_msg_callback succeeds, the handler gets the messages of the type, unless the type
-- is one of the three that app_instance_queue_callback treats itself: then no handler ever does. The
-- messages of another type that had a handler go to the same one as before.
pub app_instance_queue_callback-wasm_register_msg_callback :
    (type handler : ℕ) (slots slots' : List MsgSlot)
    → wasm_register_msg_callback type handler slots ≡ some slots'
    → (app_instance_queue_callback type slots'
        ≡ (if is_own_case type then none else some (ok handler)))
      × ((other g : ℕ)
          → other ≢ type
          → app_instance_queue_callback other slots ≡ some (ok g)
          → app_instance_queue_callback other slots' ≡ some (ok g))
unfolding app_instance_queue_callback
app_instance_queue_callback-wasm_register_msg_callback type handler slots slots' e =
    let (own, others) = registered_lem type handler slots slots' e in
    (
      elim (Bool-cases (is_own_case type)) [
        | inl mine ↦ rw mine refl
        | inr callback ↦ rw (callback, own) refl
      ],
      λ other g d m. elim (Bool-cases (is_own_case other)) [
        | inl mine ↦ absurd (ground (arith, m, mine))
        | inr callback ↦
            let had : call_msg_callback other slots ≡ ok g = ground (arith, m, callback) in
            rw (callback, others other g d had) refl
      ],
    )
