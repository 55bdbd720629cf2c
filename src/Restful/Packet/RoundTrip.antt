-- ===== src/Restful/Packet/RoundTrip.antt =====
-- `unpack_request` and `unpack_response` read what `pack_request` and `pack_response` wrote
-- (app-framework/app-native-shared/restful_utils.c).
use wamr_app_framework.Prelude.{
  ℕ, ◌+◌, ◌-◌, ◌*◌, ◌/◌, ◌%◌, ◌^◌, ◌<◌, ◌≡◌, refl, ap, ◌∙◌, List, [], ◌∷◌, ◌++◌, some, Bool, true,
  leb, ltb, if◌then◌else◌, length, drop, All, length-append, length-take, drop-append, drop-add,
  get_elem?-add, get_elem?-append, get_elem?, htons_bytes, htonl_bytes, ntohs_at, ntohl_at, arith,
}
use wamr_app_framework.Restful.{
  ok, Payload, nothing, handle, block, Request, Response, read_payload,
}
use wamr_app_framework.Restful.Packet.{
  c_string, request_fix_part, response_fix_part, pack_request, unpack_request, pack_response,
  unpack_response,
}

-- A byte of a C string.
abbrev pub IsChar : ℕ → Type 0
IsChar b = (0 < b) × (b < 256)

pub c_string-append : (url rest : List ℕ) → All IsChar url → c_string (url ++ (0 ∷ rest)) ≡ url
unfolding c_string
c_string-append [] rest h = refl
c_string-append (b ∷ bs) rest h = ground (arith, c_string-append bs rest h.1)

ntohs-htons : (n : ℕ) → n < 2 ^ 16 → n / 256 % 256 * 256 + n % 256 ≡ n
ntohs-htons n h = omega arith

ntohl-htonl :
    (n : ℕ)
    → n < 2 ^ 32
    → n / 16777216 % 256 * 16777216 + n / 65536 % 256 * 65536 + n / 256 % 256 * 256 + n % 256 ≡ n
ntohl-htonl n h = omega arith

length-read_payload :
    (p : Payload) (n : ℕ) (bytes : List ℕ) → read_payload p n ≡ some bytes → length bytes ≡ n
unfolding read_payload
length-read_payload nothing n bytes e = ground arith
length-read_payload (handle h) n bytes e = ground arith
length-read_payload (block bs) n bytes e = ground (arith, length-take n bs)

-- The fields fit the widths that the packet gives them, and `payload_len` bytes can be read.
pub record IsPackable (request : Request) : Type 0 where
  pub action_u8 : request.action < 2 ^ 8
  pub fmt_u16 : request.fmt < 2 ^ 16
  pub mid_u32 : request.mid < 2 ^ 32
  pub sender_u32 : request.sender < 2 ^ 32
  pub url_chars : All IsChar request.url
  pub url_u16 : length request.url + 1 < 2 ^ 16
  pub len_int : 18 + (length request.url + 1) + request.payload_len < 2 ^ 31

-- What arrives of a payload.
abbrev pub received : ℕ → List ℕ → Payload
received n bytes = if ltb 0 n then block bytes else nothing

module _ (request : Request) (bytes : List ℕ) (p : IsPackable request)
    (e : length bytes ≡ request.payload_len) where
  abbrev request_packet : List ℕ
  request_packet = request_fix_part request (length request.url + 1) (request.url ++ (0 ∷ bytes))

  url_len_field : ntohs_at request_packet 12 ≡ length request.url + 1
  unfolding ntohs_at htons_bytes htonl_bytes
  url_len_field = ntohs-htons _ p.url_u16

  fmt_field : ntohs_at request_packet 2 ≡ request.fmt
  unfolding ntohs_at htons_bytes htonl_bytes
  fmt_field = ntohs-htons _ p.fmt_u16

  mid_field : ntohl_at request_packet 4 ≡ request.mid
  unfolding ntohl_at htons_bytes htonl_bytes
  mid_field = ntohl-htonl _ p.mid_u32

  sender_field : ntohl_at request_packet 8 ≡ request.sender
  unfolding ntohl_at htons_bytes htonl_bytes
  sender_field = ntohl-htonl _ p.sender_u32

  payload_len_field : ntohl_at request_packet 14 ≡ request.payload_len
  unfolding ntohl_at htons_bytes htonl_bytes
  payload_len_field = ntohl-htonl _ (omega (arith, p.len_int))

  drop_fix_part : drop 18 request_packet ≡ request.url ++ (0 ∷ bytes)
  unfolding htons_bytes htonl_bytes
  drop_fix_part = refl

  length-request_packet :
      length request_packet ≡ 18 + (length request.url + 1) + request.payload_len
  unfolding htons_bytes htonl_bytes
  length-request_packet = omega (arith, length-append request.url (0 ∷ bytes))

  drop_url : drop (length request.url + 1) (request.url ++ (0 ∷ bytes)) ≡ bytes
  drop_url =
      drop-add (length request.url) 1 (request.url ++ (0 ∷ bytes))
      ∙ ap (drop 1) (drop-append (length request.url) request.url (0 ∷ bytes) refl)

  payload_field : drop (18 + (length request.url + 1)) request_packet ≡ bytes
  payload_field =
      drop-add 18 (length request.url + 1) request_packet
      ∙ ap (drop (length request.url + 1)) drop_fix_part
      ∙ drop_url

  terminator : get_elem? request_packet (18 + (length request.url + 1) - 1) ≡ some 0
  terminator =
      let index : 18 + (length request.url + 1) - 1 ≡ 18 + length request.url = omega arith in
      ap (get_elem? request_packet) index
      ∙ get_elem?-add 18 (length request.url) request_packet
      ∙ ap (λ l. get_elem? l (length request.url)) drop_fix_part
      ∙ get_elem?-append (length request.url) request.url 0 bytes refl

  url_field : c_string (drop 18 request_packet) ≡ request.url
  url_field = ap c_string drop_fix_part ∙ c_string-append request.url bytes p.url_chars

  action_field : request.action % 256 ≡ request.action
  action_field = omega (arith, p.action_u8)

  fix_part_readable : leb 18 (length request_packet) ≡ true
  fix_part_readable = ground (arith, length-request_packet)

  unpack_fix_part :
      unpack_request request_packet (18 + (length request.url + 1) + request.payload_len)
      ≡ ok (record request { payload = received request.payload_len bytes })
  unfolding unpack_request
  unpack_fix_part = ground (
    arith, p.len_int, url_len_field, fmt_field, mid_field, sender_field, payload_len_field,
    payload_field, terminator, url_field, action_field, fix_part_readable,
  )

-- A request whose fields fit, whose payload's bytes can be read, and for whose packet memory can be
-- allocated, is packed, and `unpack_request` reads the same request from the packet: every field is
-- equal, and the payload is the `payload_len` bytes that were read from it.
pub unpack_request-pack_request :
    (malloc : ℕ → Bool) (request : Request) (bytes : List ℕ)
    → IsPackable request
    → read_payload request.payload request.payload_len ≡ some bytes
    → malloc (18 + (length request.url + 1) + request.payload_len) ≡ true
    → (packet : List ℕ) × (pack_request malloc request ≡ ok (packet, length packet))
      × (unpack_request packet (length packet)
          ≡ ok (record request { payload = received request.payload_len bytes }))
unfolding pack_request
unpack_request-pack_request malloc request bytes p r m =
    let e = length-read_payload request.payload request.payload_len bytes r in
    let packet = request_packet request bytes p e in
    let len = length-request_packet request bytes p e in
    (packet, ground (arith, p.len_int, len), rw len (unpack_fix_part request bytes p e))

pub record IsResponsePackable (response : Response) : Type 0 where
  pub status_u8 : response.status < 2 ^ 8
  pub fmt_u16 : response.fmt < 2 ^ 16
  pub mid_u32 : response.mid < 2 ^ 32
  pub reciever_u32 : response.reciever < 2 ^ 32
  pub len_int : 16 + response.payload_len < 2 ^ 31

module _ (response : Response) (bytes : List ℕ) (p : IsResponsePackable response)
    (e : length bytes ≡ response.payload_len) where
  abbrev response_packet : List ℕ
  response_packet = response_fix_part response bytes

  status_mod : response.status % 256 ≡ response.status
  status_mod = omega (arith, p.status_u8)

  response_payload_len : ntohl_at response_packet 12 ≡ response.payload_len
  unfolding ntohl_at htons_bytes htonl_bytes
  response_payload_len = ntohl-htonl _ (omega (arith, p.len_int))

  response_mid : ntohl_at response_packet 4 ≡ response.mid
  unfolding ntohl_at htons_bytes htonl_bytes
  response_mid = ntohl-htonl _ p.mid_u32

  response_reciever : ntohl_at response_packet 8 ≡ response.reciever
  unfolding ntohl_at htons_bytes htonl_bytes
  response_reciever = ntohl-htonl _ p.reciever_u32

  response_fmt : ntohs_at response_packet 2 ≡ response.fmt
  unfolding ntohs_at htons_bytes htonl_bytes
  response_fmt = ntohs-htons _ p.fmt_u16

  response_payload : drop 16 response_packet ≡ bytes
  unfolding htons_bytes htonl_bytes
  response_payload = refl

  length-response_packet : length response_packet ≡ 16 + response.payload_len
  unfolding htons_bytes htonl_bytes
  length-response_packet = omega arith

  response_readable : leb 16 (length response_packet) ≡ true
  response_readable = ground (arith, length-response_packet)

  unpack_response_fix_part :
      unpack_response response_packet (16 + response.payload_len)
      ≡ ok (record response { payload = received response.payload_len bytes })
  unfolding unpack_response
  unpack_response_fix_part = ground (
    arith, p.len_int, status_mod, response_payload_len, response_mid, response_reciever,
    response_fmt, response_payload, response_readable,
  )

-- A response whose fields fit, whose payload's bytes can be read, and for whose packet memory can be
-- allocated, is packed, and `unpack_response` reads the same response from the packet: every field is
-- equal, and the payload is the `payload_len` bytes that were read from it.
pub unpack_response-pack_response :
    (malloc : ℕ → Bool) (response : Response) (bytes : List ℕ)
    → IsResponsePackable response
    → read_payload response.payload response.payload_len ≡ some bytes
    → malloc (16 + response.payload_len) ≡ true
    → (packet : List ℕ) × (pack_response malloc response ≡ ok (packet, length packet))
      × (unpack_response packet (length packet)
          ≡ ok (record response { payload = received response.payload_len bytes }))
unfolding pack_response
unpack_response-pack_response malloc response bytes p r m =
    let e = length-read_payload response.payload response.payload_len bytes r in
    let packet = response_packet response bytes p e in
    let len = length-response_packet response bytes p e in
    (packet, ground (arith, p.len_int, len), rw len (unpack_response_fix_part response bytes p e))
