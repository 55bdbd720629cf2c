-- ===== src/Transactions/Examples.antt =====
-- The theorems on transactions at concrete states.
use mathlib.Core.List.{reverse}
use wamr_app_framework.Prelude.{
  ℕ, htons_bytes, htonl_bytes, ◌-◌, ◌^◌, ◌≡◌, refl, List, [], ◌∷◌, ◌++◌, map, false, true, none,
  some, arith,
}
use wamr_app_framework.Restful.{ok, Request, Payload, read_payload}
use wamr_app_framework.Restful.Packet.{pack_request}
use wamr_app_framework.Transactions.{
  Transaction, State, api_send_request, transaction_timeout_handler, elapsed_ms, ms_to_expiry,
  take_expired, call_expired, timer_for,
}
use wamr_app_framework.Transactions.Clock.{elapsed_ms-add, ms_to_expiry-add}
use wamr_app_framework.Transactions.Add.{api_send_request_endless}
use wamr_app_framework.Transactions.Timeout.{
  Parts, TimerRuns, timed_out, transaction_timeout_handler-Parts,
}
use wamr_app_framework.Transactions.Timer.{IsTimed, stays, goes, expires, Reaches-IsTimed}

abbrev sent_at : ℕ → ℕ → Transaction
sent_at mid time = record { mid = mid; time = time; handler = 1; user_data = 0 }

abbrev waiting : List Transaction → State
waiting l = record { g_transactions = l; g_trans_timer = some 5000; calls = []; posted = [] }

abbrev two_waiting : State
two_waiting = waiting (sent_at 7 1000 ∷ sent_at 8 5500 ∷ [])

abbrev get_request : Request
get_request = record {
  mid = 9;
  url = 0x61 ∷ [];
  action = 1;
  fmt = 0;
  payload = Payload.nothing;
  payload_len = 0;
  sender = 0;
}

abbrev get_packet : List ℕ
get_packet = 1 ∷ 1 ∷ 0 ∷ 0 ∷ 0 ∷ 0 ∷ 0 ∷ 9 ∷ 0 ∷ 0 ∷ 0 ∷ 0 ∷ 0 ∷ 2 ∷ 0 ∷ 0 ∷ 0 ∷ 0 ∷ 0x61 ∷ 0 ∷ []

pack_get_request : pack_request (λ n. true) get_request ≡ ok (get_packet, 20)
unfolding pack_request read_payload htons_bytes htonl_bytes
pack_get_request = refl

elapsed_ms-add_example : elapsed_ms 1 (2 ^ 32 - 2) ≡ 3
elapsed_ms-add_example = elapsed_ms-add (2 ^ 32 - 2) 3 (omega arith) (omega arith)

ms_to_expiry-add_example : ms_to_expiry 6000 1000 ≡ 0
ms_to_expiry-add_example = ms_to_expiry-add 1000 5000 (omega arith) (omega arith)

api_send_request_endless_example :
    api_send_request 1000 true false (λ n. true) 6000 get_request 1 0 two_waiting ≡ none
api_send_request_endless_example =
    api_send_request_endless 1000 false (λ n. true) 6000 get_request 1 0 two_waiting get_packet 20
      pack_get_request (omega arith)

transaction_timeout_handler-Parts_example :
    (front : List Transaction) × (s' : State) × (transaction_timeout_handler 6000 6001 two_waiting
      ≡ ok s')
    × Parts 6000 (sent_at 7 1000 ∷ sent_at 8 5500 ∷ []) front s'.g_transactions
    × (s'.calls ≡ [] ++ map timed_out (reverse front))
    × TimerRuns 6001 s'.g_transactions s'.g_trans_timer
    × (s'.posted ≡ [])
transaction_timeout_handler-Parts_example =
    transaction_timeout_handler-Parts 6000 6001 5000 two_waiting refl (omega arith)

-- After the first of the two has expired.
abbrev one_left : State
one_left = record {
  g_transactions = sent_at 8 5500 ∷ [];
  g_trans_timer = some 4499;
  calls = record { handler = 1; response = none; user_data = 0 } ∷ [];
  posted = [];
}

one_expires : transaction_timeout_handler 6000 6001 two_waiting ≡ ok one_left
unfolding transaction_timeout_handler take_expired call_expired timer_for ms_to_expiry elapsed_ms
one_expires = refl

Reaches-IsTimed_example : IsTimed true one_left
Reaches-IsTimed_example =
    Reaches-IsTimed true two_waiting one_left ((λ e. cc), omega arith)
      (goes two_waiting one_left stays (expires 6000 6001 one_expires))
