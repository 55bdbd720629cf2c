-- ===== src/Transactions.antt =====
-- Requests that an application waits for: the transactions of app-framework/base/app/request.c. The
-- list `g_transactions` is in the order of its links. The handlers are called by number; a handler
-- that sends or answers requests itself while it runs is not modelled.
pub mod Clock
pub mod Add
pub mod Timeout
pub mod Timer
mod Examples
use wamr_app_framework.Prelude.{
  ℕ, zero, suc, ◌+◌, ◌-◌, ◌%◌, ◌^◌, List, [], ◌∷◌, ◌++◌, Bool, true, false, Option, none, some, ltb,
  leb, ◌==◌, if◌then◌else◌,
}
use wamr_app_framework.Restful.{Outcome, ok, null, fault, Request, Response}
use wamr_app_framework.Restful.Packet.{pack_request, unpack_response}

abbrev pub transaction_timeout_ms : ℕ
transaction_timeout_ms = 5000

-- `transaction_t`; `next` is the list's.
pub record Transaction : Type 0 where
  pub mid : ℕ
  pub time : ℕ
  pub handler : ℕ
  pub user_data : ℕ

-- A call of a transaction's handler: its response, `none` for NULL, and its user data.
pub record Call : Type 0 where
  pub handler : ℕ
  pub response : Option Response
  pub user_data : ℕ

-- The globals, the timer with the interval that it was last started with, and what was done: the
-- handlers called and the packets posted, oldest first.
pub record State : Type 0 where
  pub g_transactions : List Transaction
  pub g_trans_timer : Option ℕ
  pub calls : List Call
  pub posted : List (List ℕ)

unfoldable pub transaction_find : ℕ → List Transaction → Option Transaction
transaction_find mid [] = none
transaction_find mid (t ∷ rest) = if t.mid == mid then some t else transaction_find mid rest

-- The loop of `transaction_add` from `t` on, which does not move `t`; `none` where the fuel runs out.
unfoldable pub transaction_add_loop : ℕ → List Transaction → Transaction → Option (List Transaction)
transaction_add_loop zero t trans = none
transaction_add_loop (suc fuel) [] trans = some []
transaction_add_loop (suc fuel) (x ∷ []) trans = some (x ∷ trans ∷ [])
transaction_add_loop (suc fuel) (x ∷ y ∷ rest) trans =
    transaction_add_loop fuel (x ∷ y ∷ rest) trans

unfoldable pub transaction_add : ℕ → Transaction → List Transaction → Option (List Transaction)
transaction_add fuel trans [] = some (trans ∷ [])
transaction_add fuel trans (t ∷ rest) = transaction_add_loop fuel (t ∷ rest) trans

-- `transaction_remove` of the transaction that `transaction_find` gave for this mid.
unfoldable pub transaction_remove : ℕ → List Transaction → List Transaction
transaction_remove mid [] = []
transaction_remove mid (t ∷ rest) = if t.mid == mid then rest else t ∷ transaction_remove mid rest

-- The milliseconds from `time` to `now` on a clock of 32 bits.
unfoldable pub elapsed_ms : ℕ → ℕ → ℕ
elapsed_ms now time = if ltb now time then (now + (0xffff_ffff - time) + 1) % 2 ^ 32 else now - time

-- `TRANSACTION_TIMEOUT_MS - elapsed_ms`, an `unsigned int`.
unfoldable pub ms_to_expiry : ℕ → ℕ → ℕ
ms_to_expiry now time = (transaction_timeout_ms + 2 ^ 32 - elapsed_ms now time) % 2 ^ 32

-- The first loop of `transaction_timeout_handler`: what is left of the list, and the expired
-- transactions, last one first.
unfoldable pub take_expired :
    ℕ → List Transaction → List Transaction → List Transaction × List Transaction
take_expired now [] expired = ([], expired)
take_expired now (cur ∷ rest) expired =
    let more = take_expired now rest (cur ∷ expired) in
    if leb transaction_timeout_ms (elapsed_ms now cur.time) then more else (cur ∷ rest, expired)

unfoldable pub call_expired : List Transaction → List Call
call_expired [] = []
call_expired (cur ∷ rest) =
    record { handler = cur.handler; response = none; user_data = cur.user_data } ∷ call_expired rest

-- The timer is restarted for the first transaction, or cancelled; both read through the pointer.
unfoldable pub timer_for : ℕ → List Transaction → Option ℕ → Outcome (Option ℕ)
timer_for now l none = fault
timer_for now [] (some ms) = ok none
timer_for now (t ∷ rest) (some ms) = ok (some (ms_to_expiry now t.time))

-- `now` and `later` are the two readings of the clock.
unfoldable pub transaction_timeout_handler : ℕ → ℕ → State → Outcome State
transaction_timeout_handler now later s =
    let (left, expired) = take_expired now s.g_transactions [] in
    elim (timer_for later left s.g_trans_timer) [
      | null ↦ null
      | fault ↦ fault
      | ok timer ↦ ok (record s {
        g_transactions = left;
        calls = s.calls ++ call_expired expired;
        g_trans_timer = timer;
      })
    ]

abbrev pub new_transaction : Request → ℕ → ℕ → ℕ → Transaction
new_transaction request now response_handler user_data = record {
  mid = request.mid;
  time = now;
  handler = response_handler;
  user_data = user_data;
}

-- The timer is created for the first transaction; NULL where `malloc_timer`, the allocation in
-- `api_timer_create`, fails.
abbrev pub timer_for_first : Bool → List Transaction → Option ℕ → Option ℕ
timer_for_first malloc_timer [] none = if malloc_timer then some transaction_timeout_ms else none
timer_for_first malloc_timer [] (some ms) = some ms
timer_for_first malloc_timer (t ∷ rest) timer = timer

-- `none` where the code does not return or reads outside the payload. `malloc` says of an allocation
-- of so many bytes whether it succeeds, `malloc_trans` and `malloc_timer` whether that of
-- the transaction and that of the timer do.
unfoldable pub api_send_request :
    ℕ → Bool → Bool → (ℕ → Bool) → ℕ → Request → ℕ → ℕ → State → Option State
api_send_request fuel malloc_trans malloc_timer malloc now request response_handler user_data s =
    if malloc_trans
    then elim (pack_request malloc request) [
      | null ↦ some s
      | fault ↦ none
      | ok (buffer, size) ↦
          elim (transaction_add fuel (new_transaction request now response_handler user_data)
            s.g_transactions) [
              | none ↦ none
              | some transactions ↦ some (record s {
                g_transactions = transactions;
                g_trans_timer = timer_for_first malloc_timer s.g_transactions s.g_trans_timer;
                posted = s.posted ++ (buffer ∷ []);
              })
            ]
    ]
    else some s

-- What `on_response` does to the timer when `trans` is answered: only the first transaction counts.
unfoldable pub timer_after : ℕ → ℕ → List Transaction → Option ℕ → Outcome (Option ℕ)
timer_after now mid [] timer = ok timer
timer_after now mid (first ∷ rest) timer =
    if first.mid == mid then timer_for now rest timer else ok timer

unfoldable pub on_response : ℕ → List ℕ → ℕ → State → Outcome State
on_response now buffer size s = elim (unpack_response buffer size) [
  | null ↦ ok s
  | fault ↦ fault
  | ok response ↦ elim (transaction_find response.mid s.g_transactions) [
    | none ↦ ok s
    | some trans ↦ elim (timer_after now response.mid s.g_transactions s.g_trans_timer) [
      | null ↦ null
      | fault ↦ fault
      | ok timer ↦ ok (record s {
        g_trans_timer = timer;
        calls =
            s.calls
            ++ (record {
              handler = trans.handler;
              response = some response;
              user_data = trans.user_data;
            }
                ∷ []);
        g_transactions = transaction_remove response.mid s.g_transactions;
      })
    ]
  ]
]
