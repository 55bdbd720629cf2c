-- ===== src/Restful/Copy/Ledger.antt =====
-- What the copies of app-framework/app-native-shared/restful_utils.c leave on the heap.
use wamr_app_framework.Prelude.{
  ℕ, ◌+◌, ◌≡◌, List, Bool, Bool-cases, ◌⊎◌, inl, inr, none, some, ◌==◌, if◌then◌else◌, arith,
}
use wamr_app_framework.Restful.{ok, null, Request, Payload, block, read_payload}
use wamr_app_framework.Restful.Copy.{
  Heap, allocate, remove_block, Clone, request_cleaner, clone_payload, clone_request,
}

-- The payload of a copy.
abbrev pub copied : Request → List ℕ → Payload
copied request bytes = if request.payload_len == 0 then request.payload else block bytes

-- The payload is as long as `payload_len` says. A copy that fails leaves no block in use that was not
-- in use before; one that succeeds has every field of the request and the bytes of its payload, or
-- the handle in its place, and after its release the blocks in use are those of before.
pub clone_request-request_cleaner :
    (fits : ℕ → Bool) (request : Request) (bytes : List ℕ) (h : Heap)
    → read_payload request.payload request.payload_len ≡ some bytes
    → let r = clone_request fits request h in
      ((r.0 ≡ null) × (r.1.live ≡ h.live))
      ⊎ ((c : Clone) × (r.0 ≡ ok c)
          × (c.request ≡ record request { payload = copied request bytes })
          × ((request_cleaner c r.1).live ≡ h.live))
unfolding clone_request clone_payload allocate request_cleaner remove_block
clone_request-request_cleaner fits request bytes h e = elim (Bool-cases (fits h.next)) [
  | inr f1 ↦ inl (ground (arith, f1))
  | inl f1 ↦ elim (Bool-cases (fits (h.next + 1))) [
    | inr f2 ↦ inl (ground (arith, f1, f2))
    | inl f2 ↦ elim (Bool-cases (request.payload_len == 0)) [
      | inl none_given ↦ inr (
        record {
          request = request;
          record_at = h.next;
          url_at = some (h.next + 1);
          payload_at = none;
        },
        ground (arith, f1, f2, none_given),
        ground (arith, none_given),
        ground (arith, f1, f2, none_given),
      )
      | inr given ↦ elim (Bool-cases (fits (h.next + 1 + 1))) [
        | inr f3 ↦ inl (ground (arith, f1, f2, f3, given))
        | inl f3 ↦ inr (
          record {
            request = record request { payload = block bytes };
            record_at = h.next;
            url_at = some (h.next + 1);
            payload_at = some (h.next + 1 + 1);
          },
          ground (arith, f1, f2, f3, given, e),
          ground (arith, given),
          ground (arith, f1, f2, f3, given, e),
        )
      ]
    ]
  ]
]
