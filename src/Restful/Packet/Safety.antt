-- ===== src/Restful/Packet/Safety.antt =====
-- What `unpack_request` and `unpack_response` accept of a packet that anyone may have written, and
-- which memory they read (app-framework/app-native-shared/restful_utils.c).
use wamr_app_framework.Prelude.{
  ℕ, zero, suc, ◌+◌, ◌-◌, ◌%◌, ◌^◌, ◌≤◌, ◌<◌, ◌≡◌, ◌≢◌, ◌↔◌, refl, sym, ap, ◌∙◌, List, [], ◌∷◌,
  none, some, ltb, if◌then◌else◌, length, drop, All, IsByte, length-drop, get_elem?, get_or,
  ntohs_at, ntohl_at, get_elem?-none, get_elem?-add, lt_of_get_elem?, le_of_get_elem?, arith,
}
use wamr_app_framework.Restful.{ok, fault, nothing, block, Request, Response}
use wamr_app_framework.Restful.Packet.{c_string, unpack_request, unpack_response}

get_or-IsByte : (p : List ℕ) (i : ℕ) → All IsByte p → get_or p i 0 < 256
get_or-IsByte [] i h = omega arith
get_or-IsByte (b ∷ bs) zero h = h.0
get_or-IsByte (b ∷ bs) (suc i) h = get_or-IsByte bs i h.1

ntohl_at-lt : (p : List ℕ) (i : ℕ) → All IsByte p → ntohl_at p i < 2 ^ 32
unfolding ntohl_at
ntohl_at-lt p i h = omega (
  arith,
  get_or-IsByte p i h,
  get_or-IsByte p (i + 1) h,
  get_or-IsByte p (i + 2) h,
  get_or-IsByte p (i + 3) h,
)

ntohs_at-lt : (p : List ℕ) (i : ℕ) → All IsByte p → ntohs_at p i < 2 ^ 16
unfolding ntohs_at
ntohs_at-lt p i h = omega (arith, get_or-IsByte p i h, get_or-IsByte p (i + 1) h)

-- The size of the packet is an `int`, and the lengths in the header add up to it, as `uint32`s.
abbrev pub LengthsMatch : List ℕ → Type 0
LengthsMatch packet =
    (get_elem? packet 0 ≡ some 1)
    × (18 ≤ length packet)
    × (length packet < 2 ^ 31)
    × (length packet ≡ (18 + ntohs_at packet 12 + ntohl_at packet 14) % 2 ^ 32)

-- `unpack_request` on a whole packet that is not empty reads outside it exactly when the version is
-- right, the packet has its fixed part and is shorter than 2 ^ 31 bytes, the lengths in the header
-- match the size modulo 2 ^ 32, and the url would end behind the packet.
pub unpack_request-fault_iff :
    (packet : List ℕ)
    → 0 < length packet
    → (unpack_request packet (length packet) ≡ fault)
      ↔ (LengthsMatch packet × (length packet < 18 + ntohs_at packet 12))
unfolding unpack_request
unpack_request-fault_iff packet h =
    let u = ntohs_at packet 12 in
    (
      λ e. ground (arith, le_of_get_elem? 0 packet, le_of_get_elem? (18 + u - 1) packet),
      λ c. ground (arith, get_elem?-none (18 + u - 1) packet),
    )

-- The request that `unpack_request` reads.
abbrev pub read_request : List ℕ → Request
read_request packet = record {
  mid = ntohl_at packet 4;
  url = c_string (drop 18 packet);
  action = get_or packet 1 0;
  fmt = ntohs_at packet 2;
  payload =
      if ltb 0 (ntohl_at packet 14) then block (drop (18 + ntohs_at packet 12) packet) else nothing;
  payload_len = ntohl_at packet 14;
  sender = ntohl_at packet 8;
}

pub unpack_request-ok :
    (packet : List ℕ) (request : Request)
    → unpack_request packet (length packet) ≡ ok request
    → LengthsMatch packet
      × (get_elem? packet (18 + ntohs_at packet 12 - 1) ≡ some 0)
      × (read_request packet ≡ request)
unfolding unpack_request
unpack_request-ok packet request e = (ground arith, ground arith, ground arith)

-- What `unpack_request` accepts has lengths that add up with no wrap, so the url field and the
-- payload lie inside the packet, and the payload is as long as `payload_len` says.
pub unpack_request_bounds :
    (packet : List ℕ) (request : Request)
    → All IsByte packet
    → length packet < 2 ^ 32
    → unpack_request packet (length packet) ≡ ok request
    → (18 + ntohs_at packet 12 + request.payload_len ≡ length packet)
      × (request.payload ≡ (
          if ltb 0 request.payload_len
          then block (drop (18 + ntohs_at packet 12) packet)
          else nothing))
      × (length (drop (18 + ntohs_at packet 12) packet) ≡ request.payload_len)
unpack_request_bounds packet request b h e =
    let u = ntohs_at packet 12 in
    let (m, t, r) = unpack_request-ok packet request e in
    rw (← r) (
      ground (
        arith,
        m,
        ntohl_at-lt packet 14 b,
        ntohs_at-lt packet 12 b,
        lt_of_get_elem? (18 + u - 1) packet 0 t,
        length-drop (18 + u) packet,
      ))

-- A response packet that is not empty is never read outside, and what `unpack_response` accepts has
-- a payload as long as `payload_len` says.
pub unpack_response_bounds :
    (packet : List ℕ)
    → 0 < length packet
    → All IsByte packet
    → length packet < 2 ^ 32
    → (unpack_response packet (length packet) ≢ fault)
      × ((response : Response)
          → unpack_response packet (length packet) ≡ ok response
          → (16 + response.payload_len ≡ length packet)
            × (length (drop 16 packet) ≡ response.payload_len))
unfolding unpack_response
unpack_response_bounds packet n b h = (
  λ e. ground (arith, le_of_get_elem? 0 packet),
  λ response e. ground (arith, ntohl_at-lt packet 12 b, length-drop 16 packet),
)

-- With a NUL at `i`, the string ends there or before.
c_string_ends :
    (l : List ℕ) (i : ℕ)
    → get_elem? l i ≡ some 0
    → (length (c_string l) ≤ i) × (get_elem? l (length (c_string l)) ≡ some 0)
unfolding c_string
c_string_ends [] i e = cc
c_string_ends (b ∷ bs) zero e = ground arith
c_string_ends (b ∷ bs) (suc i) e = ground (arith, c_string_ends bs i)

-- Where an accepted packet has a url field (its length is not 0), the url that consumers read ends
-- at a NUL inside that field.
pub unpack_request-url_terminated :
    (packet : List ℕ) (request : Request)
    → unpack_request packet (length packet) ≡ ok request
    → 0 < ntohs_at packet 12
    → (length request.url < ntohs_at packet 12)
      × (get_elem? packet (18 + length request.url) ≡ some 0)
unpack_request-url_terminated packet request e h =
    let u = ntohs_at packet 12 in
    let (m, t, r) = unpack_request-ok packet request e in
    let n = length request.url in
    let at : 18 + u - 1 ≡ 18 + (u - 1) = omega arith in
    let ends =
      c_string_ends (drop 18 packet) (u - 1)
        (sym (get_elem?-add 18 (u - 1) packet) ∙ rw (← at) t) in
    let same : c_string (drop 18 packet) ≡ request.url = ap (λ q. q.url) r in
    rw (← same) (omega (arith, ends.0), get_elem?-add 18 _ packet ∙ ends.1)

c_string_unterminated : (l : List ℕ) → All (λ b. 0 < b) l → c_string l ≡ l
unfolding c_string
c_string_unterminated [] h = refl
c_string_unterminated (b ∷ bs) h = ground (arith, c_string_unterminated bs h.1)

-- Where an accepted packet has a url length of 0 and no NUL behind its fixed part, the url has no
-- terminator in the packet: it takes in every byte to the end, and the next read is outside.
pub unpack_request_unterminated :
    (packet : List ℕ) (request : Request)
    → unpack_request packet (length packet) ≡ ok request
    → ntohs_at packet 12 ≡ 0
    → All (λ b. 0 < b) (drop 18 packet)
    → (request.url ≡ drop 18 packet) × (get_elem? packet (18 + length request.url) ≡ none)
unpack_request_unterminated packet request e h b =
    let (m, t, r) = unpack_request-ok packet request e in
    let same : request.url ≡ drop 18 packet =
      sym (ap (λ q. q.url) r) ∙ c_string_unterminated (drop 18 packet) b in
    (same, rw same (get_elem?-none _ packet (omega (arith, length-drop 18 packet))))
