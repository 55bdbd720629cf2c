-- ===== src/Restful/Packet.antt =====
-- `pack_request`, `unpack_request`, `pack_response` and `unpack_response` of
-- app-framework/app-native-shared/restful_utils.c. A packet is the list of its bytes. `malloc len`
-- says whether the allocation of `len` bytes succeeds.
pub mod RoundTrip
pub mod Safety
mod Examples
use wamr_app_framework.Prelude.{
  ◌&&◌, ℕ, ◌+◌, ◌-◌, ◌*◌, ◌/◌, ◌%◌, ◌^◌, List, [], ◌∷◌, ◌++◌, Option, none, some, Bool, true, false,
  leb, ltb, ◌==◌, if◌then◌else◌, length, drop, get_elem?, get_or, htons_bytes, htonl_bytes,
  ntohs_at, ntohl_at,
}
use wamr_app_framework.Restful.{
  Outcome, ok, null, fault, ◌>>=◌, ◌>>◌, Payload, nothing, block, Request, Response, read_payload,
}

abbrev pub reques_packet_ver : ℕ
reques_packet_ver = 1

abbrev pub request_packet_fix_part_len : ℕ
request_packet_fix_part_len = 18

abbrev pub response_packet_fix_part_len : ℕ
response_packet_fix_part_len = 16

-- The bytes before the first NUL, or all of them where there is none.
unfoldable pub c_string : List ℕ → List ℕ
c_string [] = []
c_string (b ∷ bs) = if b == 0 then [] else b ∷ c_string bs

abbrev pub guard : Bool → Outcome (Unit {0})
guard true = ok tt
guard false = null

-- `*(p + off)`.
abbrev pub read_byte : List ℕ → ℕ → Outcome ℕ
read_byte p off = elim (get_elem? p off) [ none ↦ fault | some b ↦ ok b ]

-- Reads below `p + len`.
abbrev pub readable : List ℕ → ℕ → Outcome (Unit {0})
readable p len = if leb len (length p) then ok tt else fault

-- The fields that stand before the url: version, action, fmt, mid, sender, url and payload length.
abbrev pub request_fix_part : Request → ℕ → List ℕ → List ℕ
request_fix_part request url_len rest =
    reques_packet_ver
    ∷ (request.action % 256)
    ∷ (htons_bytes request.fmt
        ++ (htonl_bytes request.mid
            ++ (htonl_bytes request.sender
                ++ (htons_bytes url_len ++ (htonl_bytes request.payload_len ++ rest)))))

-- The packet and its length, which `*size` receives. A length that an `int` cannot hold, and a
-- payload shorter than `payload_len`, are faults.
unfoldable pub pack_request : (ℕ → Bool) → Request → Outcome (List ℕ × ℕ)
unfolding read_payload
pack_request malloc request =
    let url_len : ℕ = length request.url + 1 in
    let len : ℕ = request_packet_fix_part_len + url_len + request.payload_len in
    if leb (2 ^ 31) len
    then fault
    else if malloc len
    then elim (read_payload request.payload request.payload_len) [
      | none ↦ fault
      | some bytes ↦ ok (request_fix_part request url_len (request.url ++ (0 ∷ bytes)), len)
    ]
    else null

-- `size` is the pattern of an `int`, and `size < FIX_PART_LEN` compares the `int`.
-- `size != FIX_PART_LEN + url_len + payload_len` is a comparison of `uint32`s. `url` is the string
-- at `packet + 18`, `payload` the memory behind it.
unfoldable pub unpack_request : List ℕ → ℕ → Outcome Request
unpack_request packet size = do
  ver ← read_byte packet 0
  guard (ver == reques_packet_ver)
  guard (ltb size (2 ^ 31) && leb request_packet_fix_part_len size)
  readable packet request_packet_fix_part_len
  let url_len = ntohs_at packet 12
  let payload_len = ntohl_at packet 14
  guard (size == (request_packet_fix_part_len + url_len + payload_len) % 2 ^ 32)
  last ← read_byte packet (request_packet_fix_part_len + url_len - 1)
  guard (last == 0)
  ok (record {
    mid = ntohl_at packet 4;
    url = c_string (drop request_packet_fix_part_len packet);
    action = get_or packet 1 0;
    fmt = ntohs_at packet 2;
    payload =
        if ltb 0 payload_len
        then block (drop (request_packet_fix_part_len + url_len) packet)
        else nothing;
    payload_len = payload_len;
    sender = ntohl_at packet 8;
  })

abbrev pub response_fix_part : Response → List ℕ → List ℕ
response_fix_part response rest =
    reques_packet_ver
    ∷ (response.status % 256)
    ∷ (htons_bytes response.fmt
        ++ (htonl_bytes response.mid
            ++ (htonl_bytes response.reciever ++ (htonl_bytes response.payload_len ++ rest))))

unfoldable pub pack_response : (ℕ → Bool) → Response → Outcome (List ℕ × ℕ)
unfolding read_payload
pack_response malloc response =
    let len : ℕ = response_packet_fix_part_len + response.payload_len in
    if leb (2 ^ 31) len
    then fault
    else if malloc len
    then elim (read_payload response.payload response.payload_len) [
      | none ↦ fault
      | some bytes ↦ ok (response_fix_part response bytes, len)
    ]
    else null

unfoldable pub unpack_response : List ℕ → ℕ → Outcome Response
unpack_response packet size = do
  ver ← read_byte packet 0
  guard (ver == reques_packet_ver)
  guard (ltb size (2 ^ 31) && leb response_packet_fix_part_len size)
  readable packet response_packet_fix_part_len
  let payload_len = ntohl_at packet 12
  guard (size == (response_packet_fix_part_len + payload_len) % 2 ^ 32)
  ok (record {
    mid = ntohl_at packet 4;
    status = get_or packet 1 0;
    fmt = ntohs_at packet 2;
    payload =
        if ltb 0 payload_len then block (drop response_packet_fix_part_len packet) else nothing;
    payload_len = payload_len;
    reciever = ntohl_at packet 8;
  })
