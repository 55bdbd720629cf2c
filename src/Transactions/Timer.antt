-- ===== src/Transactions/Timer.antt =====
-- The timer of the transactions of app-framework/base/app/request.c, and the states that the three
-- operations reach.
use wamr_app_framework.Prelude.{
  ℕ, zero, suc, ◌≡◌, ◌≢◌, ◌⊎◌, inl, inr, refl, subst, List, [], ◌∷◌, ◌++◌, Bool, true, false,
  Option, none, some, ◌==◌, ◌||◌, not, Bool-cases, arith, ◌≤◌, length,
}
use wamr_app_framework.Restful.{Outcome, Outcome-cases, ok, null, fault, Request}
use wamr_app_framework.Restful.Packet.{pack_request, unpack_response}
use wamr_app_framework.Transactions.Add.{transaction_add_loop_endless}
use wamr_app_framework.Transactions.{
  Transaction, State, take_expired, timer_for, transaction_timeout_handler, transaction_add,
  transaction_add_loop, api_send_request, new_transaction, timer_for_first, timer_after,
  transaction_remove, on_response,
}

-- `made` says that every allocation of a timer succeeds: then the timer exists.
abbrev pub Exists : Bool → Option ℕ → Type 0
Exists true timer = timer ≢ none
Exists false timer = Unit {0}

-- There is no timer without a pending transaction, and no pending transaction without a timer where
-- every timer can be allocated.
abbrev pub Agrees : Bool → List Transaction → Option ℕ → Type 0
Agrees made [] timer = timer ≡ none
Agrees made (t ∷ rest) timer = Exists made timer

abbrev pub IsTimed : Bool → State → Type 0
IsTimed made s = Agrees made s.g_transactions s.g_trans_timer × (length s.g_transactions ≤ 2)

some-Exists : (made : Bool) (ms : ℕ) → Exists made (some ms)
some-Exists true ms = λ e. cc
some-Exists false ms = tt

abbrev pub AgreesIfOk : Bool → List Transaction → Outcome (Option ℕ) → Type 0
AgreesIfOk made l (ok timer) = Agrees made l timer
AgreesIfOk made l null = Unit {0}
AgreesIfOk made l fault = Unit {0}

timer_for-AgreesIfOk :
    (made : Bool) (now : ℕ) (l : List Transaction) (timer : Option ℕ)
    → AgreesIfOk made l (timer_for now l timer)
unfolding timer_for
timer_for-AgreesIfOk made now l none = tt
timer_for-AgreesIfOk made now [] (some ms) = refl
timer_for-AgreesIfOk made now (t ∷ rest) (some ms) = some-Exists made _

-- The loop of `transaction_add` ends only where at most one transaction is in the list.
transaction_add_cases :
    (fuel : ℕ) (trans : Transaction) (l : List Transaction)
    → (transaction_add fuel trans l ≡ none)
      ⊎ ((transaction_add fuel trans l ≡ some (l ++ (trans ∷ []))) × (length l ≤ 1))
unfolding transaction_add transaction_add_loop
transaction_add_cases fuel trans [] = inr (refl, omega arith)
transaction_add_cases zero trans (t ∷ rest) = inl refl
transaction_add_cases (suc fuel) trans (t ∷ []) = inr (refl, omega arith)
transaction_add_cases (suc fuel) trans (t ∷ u ∷ rest) =
    inl (transaction_add_loop_endless fuel t u rest trans)

first-Exists :
    (made malloc_timer : Bool)
    → (not made || malloc_timer) ≡ true
    → Exists made (timer_for_first malloc_timer [] none)
first-Exists true true e = λ h. cc
first-Exists true false e = absurd (ground (arith, e))
first-Exists false malloc_timer e = tt

added-IsTimed :
    (made malloc_timer : Bool) (trans : Transaction) (l : List Transaction) (timer : Option ℕ)
    → (not made || malloc_timer) ≡ true
    → Agrees made l timer
    → length l ≤ 1
    → Agrees made (l ++ (trans ∷ [])) (timer_for_first malloc_timer l timer)
      × (length (l ++ (trans ∷ [])) ≤ 2)
added-IsTimed made m trans [] none a h le = (first-Exists made m a, omega arith)
added-IsTimed made m trans [] (some ms) a h le = (some-Exists made ms, omega arith)
added-IsTimed made m trans (t ∷ []) timer a h le = (h, omega arith)
added-IsTimed made m trans (t ∷ u ∷ rest) timer a h le = absurd (omega arith)

length-take_expired :
    (now : ℕ) (l acc : List Transaction) → length (take_expired now l acc).0 ≤ length l
unfolding take_expired
length-take_expired now [] acc = omega arith
length-take_expired now (cur ∷ rest) acc = ground (arith, length-take_expired now rest (cur ∷ acc))

length-transaction_remove :
    (l : List Transaction) (mid : ℕ) → length (transaction_remove mid l) ≤ length l
unfolding transaction_remove
length-transaction_remove [] mid = omega arith
length-transaction_remove (t ∷ rest) mid = ground (arith, length-transaction_remove rest mid)

timer_after-AgreesIfOk :
    (made : Bool) (now : ℕ) (l : List Transaction) (timer : Option ℕ)
    → Agrees made l timer
    → (mid : ℕ) → AgreesIfOk made (transaction_remove mid l) (timer_after now mid l timer)
unfolding timer_after transaction_remove
timer_after-AgreesIfOk made now [] timer h mid = h
timer_after-AgreesIfOk made now (t ∷ rest) timer h mid = elim (Bool-cases (t.mid == mid)) [
  | inl same ↦ rw same (timer_for-AgreesIfOk made now rest timer)
  | inr other ↦ rw other h
]

-- `IsTimed` where the call returns.
abbrev KeptIf : Bool → Option State → Type 0
KeptIf made none = Unit {0}
KeptIf made (some s) = IsTimed made s

abbrev KeptIfOk : Bool → Outcome State → Type 0
KeptIfOk made (ok s) = IsTimed made s
KeptIfOk made null = Unit {0}
KeptIfOk made fault = Unit {0}

api_send_request-KeptIf :
    (made : Bool) (fuel : ℕ) (malloc_trans malloc_timer : Bool) (malloc : ℕ → Bool) (now : ℕ)
    (request : Request) (response_handler user_data : ℕ) (s : State)
    → (not made || malloc_timer) ≡ true
    → IsTimed made s
    → KeptIf made (
        api_send_request fuel malloc_trans malloc_timer malloc now request response_handler
          user_data s)
unfolding api_send_request
api_send_request-KeptIf made fuel false mt malloc now request response_handler user_data s a h = h
api_send_request-KeptIf made fuel true mt malloc now request response_handler user_data s a h =
    let l = s.g_transactions in
    let trans = new_transaction request now response_handler user_data in
    elim (Outcome-cases (pack_request malloc request)) [
      | inl (packed, e) ↦ elim (transaction_add_cases fuel trans l) [
        | inl f ↦ ground (arith, e, f)
        | inr (f, le) ↦
            let added = added-IsTimed made mt trans l s.g_trans_timer a h.0 le in
            ground (arith, e, f, added)
      ]
      | inr e ↦ ground (arith, e, h)
    ]

on_response-KeptIfOk :
    (made : Bool) (now : ℕ) (buffer : List ℕ) (size : ℕ) (s : State)
    → IsTimed made s
    → KeptIfOk made (on_response now buffer size s)
unfolding on_response
on_response-KeptIfOk made now buffer size s h =
    let l = s.g_transactions in
    elim (Outcome-cases (unpack_response buffer size)) [
      | inl (r, e) ↦
          let timer = timer_after-AgreesIfOk made now l s.g_trans_timer h.0 r.mid in
          let shorter = length-transaction_remove l r.mid in
          elim (Outcome-cases (timer_after now r.mid l s.g_trans_timer)) [
            | inl (t, f) ↦
                let agrees = subst (AgreesIfOk made (transaction_remove r.mid l)) f timer in
                ground (arith, e, f, h, agrees, shorter)
            | inr f ↦ ground (arith, e, f, h)
          ]
      | inr e ↦ ground (arith, e, h)
    ]

transaction_timeout_handler-KeptIfOk :
    (made : Bool) (now later : ℕ) (s : State)
    → IsTimed made s
    → KeptIfOk made (transaction_timeout_handler now later s)
unfolding transaction_timeout_handler
transaction_timeout_handler-KeptIfOk made now later s h =
    let l = (take_expired now s.g_transactions []).0 in
    let shorter = length-take_expired now s.g_transactions [] in
    elim (Outcome-cases (timer_for later l s.g_trans_timer)) [
      | inl (t, f) ↦
          let agrees =
            subst (AgreesIfOk made l) f (timer_for-AgreesIfOk made later l s.g_trans_timer) in
          ground (arith, f, h, agrees, shorter)
      | inr f ↦ ground (arith, f)
    ]

-- A call that returns, with whatever it is given; where `made`, the timer can be allocated.
pub data Step (made : Bool) (s s' : State) : Type 0 where
  sends :
      (fuel : ℕ) (malloc_trans malloc_timer : Bool) (malloc : ℕ → Bool) (now : ℕ)
      (request : Request) (response_handler user_data : ℕ)
      → (not made || malloc_timer) ≡ true
      → api_send_request fuel malloc_trans malloc_timer malloc now request response_handler
          user_data s
        ≡ some s'
      → Step made s s'
  answers :
      (now : ℕ) (buffer : List ℕ) (size : ℕ)
      → on_response now buffer size s ≡ ok s'
      → Step made s s'
  expires : (now later : ℕ) → transaction_timeout_handler now later s ≡ ok s' → Step made s s'

-- One call after another, up to the state `s'`.
pub data Reaches (made : Bool) (s : State) : State → Type 0 where
  stays : Reaches made s s
  goes : (s' s'' : State) → Reaches made s s' → Step made s' s'' → Reaches made s s''

Step-IsTimed : (made : Bool) (s s' : State) → Step made s s' → IsTimed made s → IsTimed made s'
Step-IsTimed made s s'
      (sends fuel malloc_trans malloc_timer malloc now request response_handler user_data a e) h =
    subst (KeptIf made) e (
      api_send_request-KeptIf made fuel malloc_trans malloc_timer malloc now request
        response_handler user_data s a h)
Step-IsTimed made s s' (answers now buffer size e) h =
    subst (KeptIfOk made) e (on_response-KeptIfOk made now buffer size s h)
Step-IsTimed made s s' (expires now later e) h =
    subst (KeptIfOk made) e (transaction_timeout_handler-KeptIfOk made now later s h)

-- However many calls return one after another, at most two transactions are pending, and the timer
-- exists only while one is, if this holds at the start; where every timer can be allocated, it
-- exists exactly while one is, if this holds at the start too.
pub Reaches-IsTimed :
    (made : Bool) (s s' : State) → IsTimed made s → Reaches made s s' → IsTimed made s'
Reaches-IsTimed made s _ h stays = h
Reaches-IsTimed made s _ h (goes m s' r step) =
    Step-IsTimed made m s' step (Reaches-IsTimed made s m h r)
