-- ===== src/Restful/Copy/Examples.antt =====
-- The theorem on copies of requests at a concrete request.
use wamr_app_framework.Prelude.{ℕ, ◌≡◌, refl, [], ◌∷◌, ◌⊎◌, ltb, Bool}
use wamr_app_framework.Restful.{ok, null, Request, block, read_payload}
use wamr_app_framework.Restful.Copy.{Heap, Clone, request_cleaner, clone_request}
use wamr_app_framework.Restful.Copy.Ledger.{copied, clone_request-request_cleaner}

abbrev put_request : Request
put_request = record {
  mid = 5;
  url = 0x61 ∷ [];
  action = 3;
  fmt = 99;
  payload = block (7 ∷ 8 ∷ 9 ∷ []);
  payload_len = 2;
  sender = 4;
}

abbrev heap : Heap
heap = record { next = 10; live = 3 ∷ [] }

-- The third allocation, that of the payload, fails.
abbrev two_fit : ℕ → Bool
two_fit n = ltb n 12

clone_request-request_cleaner_example :
    let r = clone_request two_fit put_request heap in
    ((r.0 ≡ null) × (r.1.live ≡ 3 ∷ []))
    ⊎ ((c : Clone) × (r.0 ≡ ok c)
        × (c.request ≡ record put_request { payload = copied put_request (7 ∷ 8 ∷ []) })
        × ((request_cleaner c r.1).live ≡ 3 ∷ []))
unfolding read_payload
clone_request-request_cleaner_example =
    clone_request-request_cleaner two_fit put_request (7 ∷ 8 ∷ []) heap refl
