-- ===== src/Transactions/Add.antt =====
-- `transaction_add` of app-framework/base/app/request.c, whose loop does not move on.
use wamr_app_framework.Prelude.{
  ℕ, zero, suc, ◌≤◌, ◌<◌, ◌≡◌, refl, List, [], ◌∷◌, ◌++◌, Bool, true, none, some, length, arith,
}
use wamr_app_framework.Restful.{ok, Request}
use wamr_app_framework.Restful.Packet.{pack_request}
use wamr_app_framework.Transactions.{
  Transaction, State, transaction_add, transaction_add_loop, api_send_request, new_transaction,
  timer_for_first,
}

pub transaction_add_loop_endless :
    (fuel : ℕ) (x y : Transaction) (rest : List Transaction) (trans : Transaction)
    → transaction_add_loop fuel (x ∷ y ∷ rest) trans ≡ none
unfolding transaction_add_loop
transaction_add_loop_endless zero x y rest trans = refl
transaction_add_loop_endless (suc fuel) x y rest trans =
    transaction_add_loop_endless fuel x y rest trans

-- With at most one transaction in the list, one round of the loop puts the new one at its end.
pub transaction_add_appends :
    (fuel : ℕ) (trans : Transaction) (l : List Transaction)
    → length l ≤ 1
    → 0 < fuel
    → transaction_add fuel trans l ≡ some (l ++ (trans ∷ []))
unfolding transaction_add transaction_add_loop
transaction_add_appends zero trans l h pos = absurd (omega arith)
transaction_add_appends (suc fuel) trans [] h pos = refl
transaction_add_appends (suc fuel) trans (x ∷ []) h pos = refl
transaction_add_appends (suc fuel) trans (x ∷ y ∷ rest) h pos = absurd (omega arith)

-- `api_send_request` does not return while two transactions or more are pending, however many rounds
-- its loop makes: whenever its transaction can be allocated and its request is packed.
pub api_send_request_endless :
    (fuel : ℕ) (malloc_timer : Bool) (malloc : ℕ → Bool) (now : ℕ) (request : Request)
    (response_handler user_data : ℕ) (s : State) (buffer : List ℕ) (size : ℕ)
    → pack_request malloc request ≡ ok (buffer, size)
    → 2 ≤ length s.g_transactions
    → api_send_request fuel true malloc_timer malloc now request response_handler user_data s ≡ none
unfolding api_send_request
api_send_request_endless fuel malloc_timer malloc now request response_handler user_data s buffer
      size e h =
    let trans = new_transaction request now response_handler user_data in
    ground (arith, e, endless s.g_transactions h trans)
  where
    endless :
        (l : List Transaction)
        → 2 ≤ length l
        → (trans : Transaction) → transaction_add fuel trans l ≡ none
    endless [] h trans = absurd (omega arith)
    endless (x ∷ []) h trans = absurd (omega arith)
    endless (x ∷ y ∷ rest) h trans =
        unfold transaction_add in transaction_add_loop_endless fuel x y rest trans

-- With at most one pending transaction `api_send_request` returns after one round: the new
-- transaction is last in the list with the time of its start, the packet is posted, and the timer is
-- started if there was none, this transaction is the first, and the timer can be allocated.
pub api_send_request_returns :
    (fuel : ℕ) (malloc_timer : Bool) (malloc : ℕ → Bool) (now : ℕ) (request : Request)
    (response_handler user_data : ℕ) (s : State) (buffer : List ℕ) (size : ℕ)
    → pack_request malloc request ≡ ok (buffer, size)
    → length s.g_transactions ≤ 1
    → 0 < fuel
    → api_send_request fuel true malloc_timer malloc now request response_handler user_data s
      ≡ some (record s {
        g_transactions =
            s.g_transactions ++ (new_transaction request now response_handler user_data ∷ []);
        g_trans_timer = timer_for_first malloc_timer s.g_transactions s.g_trans_timer;
        posted = s.posted ++ (buffer ∷ []);
      })
unfolding api_send_request
api_send_request_returns fuel malloc_timer malloc now request response_handler user_data s buffer
      size e h pos =
    let trans = new_transaction request now response_handler user_data in
    rw (e, transaction_add_appends fuel trans s.g_transactions h pos)
