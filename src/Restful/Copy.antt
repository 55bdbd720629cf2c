-- ===== src/Restful/Copy.antt =====
-- Deep copies of requests and their release: `clone_request` and `request_cleaner` of
-- app-framework/app-native-shared/restful_utils.c. The heap is the blocks that are in use, by the
-- number of the allocation that gave them. A `payload_len` is not negative.
pub mod Ledger
mod Examples
use wamr_app_framework.Prelude.{
  ℕ, ◌+◌, List, [], ◌∷◌, Bool, Option, none, some, leb, ltb, ◌==◌, if◌then◌else◌,
}
use wamr_app_framework.Restful.{
  Outcome, ok, null, fault, Request, Payload, block, nothing, read_payload,
}

-- `next` counts the allocations, failed ones included.
pub record Heap : Type 0 where
  pub next : ℕ
  pub live : List ℕ

-- The allocator: `fits` says which allocations succeed.
unfoldable pub allocate : (ℕ → Bool) → Heap → Option ℕ × Heap
allocate fits h =
    if fits h.next
    then (some h.next, record { next = h.next + 1; live = h.next ∷ h.live })
    else (none, record h { next = h.next + 1 })

unfoldable pub remove_block : ℕ → List ℕ → List ℕ
remove_block b [] = []
remove_block b (c ∷ live) = if c == b then live else c ∷ remove_block b live

abbrev pub release : Option ℕ → Heap → Heap
release none h = h
release (some b) h = record h { live = remove_block b h.live }

-- A request on the heap, with the blocks of its record, its url and its payload; `none` is NULL, or a
-- payload that is a handle.
pub record Clone : Type 0 where
  pub request : Request
  pub record_at : ℕ
  pub url_at : Option ℕ
  pub payload_at : Option ℕ

unfoldable pub request_cleaner : Clone → Heap → Heap
request_cleaner c h =
    let without_url = release c.url_at h in
    let without_payload =
      if ltb 0 c.request.payload_len then release c.payload_at without_url else without_url in
    release (some c.record_at) without_payload

-- The part of `clone_request` behind the copy of the url.
unfoldable pub clone_payload : (ℕ → Bool) → Request → Clone → Heap → Outcome Clone × Heap
clone_payload fits request c h =
    if request.payload_len == 0 then (ok c, h) else elim (allocate fits h).0 [
      | none ↦ (null, request_cleaner c (allocate fits h).1)
      | some p ↦ elim (read_payload request.payload request.payload_len) [
        | none ↦ (fault, (allocate fits h).1)
        | some bytes ↦ (
          ok (record c { request = record request { payload = block bytes }; payload_at = some p }),
          (allocate fits h).1,
        )
      ]
    ]

unfoldable pub clone_request : (ℕ → Bool) → Request → Heap → Outcome Clone × Heap
clone_request fits request h = elim (allocate fits h).0 [
  | none ↦ (null, (allocate fits h).1)
  | some at ↦
      let h1 = (allocate fits h).1 in
      let h2 = (allocate fits h1).1 in
      elim (allocate fits h1).0 [
        | none ↦ (
          null,
          request_cleaner
              (record {
                request = record request { payload = nothing; payload_len = 0 };
                record_at = at;
                url_at = none;
                payload_at = none;
              })
              h2,
        )
        | some u ↦
            clone_payload fits request
              (record { request = request; record_at = at; url_at = some u; payload_at = none }) h2
      ]
]
