-- ===== src/Restful/Packet/Examples.antt =====
-- The theorems on packets at concrete packets, and runs of the code.
use wamr_app_framework.Prelude.{
  ℕ, ◌+◌, ◌≡◌, refl, List, [], ◌∷◌, true, length, drop, ntohs_at, ntohl_at, htons_bytes,
  htonl_bytes, arith,
}
use wamr_app_framework.Restful.{ok, fault, block, Request, Response, read_payload}
use wamr_app_framework.Restful.Packet.{
  c_string, pack_request, unpack_request, unpack_response, pack_response,
}
use wamr_app_framework.Restful.Packet.RoundTrip.{
  unpack_request-pack_request, unpack_response-pack_response,
}
use wamr_app_framework.Restful.Packet.Safety.{unpack_request-fault_iff, unpack_request_bounds}

abbrev put_request : Request
put_request = record {
  mid = 70000;
  url = 0x2f ∷ 0x61 ∷ [];
  action = 3;
  fmt = 99;
  payload = block (7 ∷ 8 ∷ 9 ∷ []);
  payload_len = 2;
  sender = 0xffff_fffd;
}

abbrev put_packet : List ℕ
put_packet =
    1 ∷ 3 ∷ 0 ∷ 99 ∷ 0 ∷ 1 ∷ 0x11 ∷ 0x70 ∷ 0xff ∷ 0xff ∷ 0xff ∷ 0xfd ∷ 0 ∷ 3 ∷ 0 ∷ 0 ∷ 0 ∷ 2 ∷ 0x2f
    ∷ 0x61 ∷ 0 ∷ 7 ∷ 8 ∷ []

abbrev put_received : Request
put_received = record put_request { payload = block (7 ∷ 8 ∷ []) }

pack_put_request : pack_request (λ n. true) put_request ≡ ok (put_packet, 23)
unfolding pack_request htons_bytes htonl_bytes
pack_put_request = refl

unpack_put_packet : unpack_request put_packet (length put_packet) ≡ ok put_received
unfolding unpack_request ntohs_at ntohl_at c_string
unpack_put_packet = refl

unpack_request-pack_request_example :
    (packet : List ℕ) × (pack_request (λ n. true) put_request ≡ ok (packet, length packet))
    × (unpack_request packet (length packet) ≡ ok put_received)
unfolding read_payload
unpack_request-pack_request_example =
    unpack_request-pack_request (λ n. true) put_request (7 ∷ 8 ∷ []) (omega arith) refl refl

abbrev created_response : Response
created_response = record {
  mid = 70000;
  status = 65;
  fmt = 99;
  payload = block (7 ∷ []);
  payload_len = 1;
  reciever = 2;
}

unpack_response-pack_response_example :
    (packet : List ℕ) × (pack_response (λ n. true) created_response ≡ ok (packet, length packet))
    × (unpack_response packet (length packet) ≡ ok created_response)
unfolding read_payload
unpack_response-pack_response_example =
    unpack_response-pack_response (λ n. true) created_response (7 ∷ []) (omega arith) refl refl

-- url_len 100 and payload_len 2 ^ 32 - 98 add up to 20 as `uint32`s.
abbrev wrapping_packet : List ℕ
wrapping_packet =
    1 ∷ 3 ∷ 0 ∷ 99 ∷ 0 ∷ 0 ∷ 0 ∷ 1 ∷ 0 ∷ 0 ∷ 0 ∷ 2 ∷ 0 ∷ 100 ∷ 0xff ∷ 0xff ∷ 0xff ∷ 0x9e ∷ 0x2f ∷ 0
    ∷ []

unpack_request-fault_iff_example : unpack_request wrapping_packet 20 ≡ fault
unfolding ntohs_at ntohl_at
unpack_request-fault_iff_example =
    (unpack_request-fault_iff wrapping_packet (omega arith)).1
      ((refl, omega arith, omega arith, refl), omega arith)

unpack_request_bounds_example :
    (18 + ntohs_at put_packet 12 + 2 ≡ 23)
    × (put_received.payload ≡ block (drop (18 + ntohs_at put_packet 12) put_packet))
    × (length (drop (18 + ntohs_at put_packet 12) put_packet) ≡ 2)
unpack_request_bounds_example =
    unpack_request_bounds put_packet put_received (omega arith) (omega arith) unpack_put_packet

abbrev response_packet : List ℕ
response_packet = 1 ∷ 65 ∷ 0 ∷ 99 ∷ 0 ∷ 1 ∷ 0x11 ∷ 0x70 ∷ 0 ∷ 0 ∷ 0 ∷ 2 ∷ 0 ∷ 0 ∷ 0 ∷ 1 ∷ 7 ∷ []

-- No url field, and a payload length whose low byte is 0: the byte that is tested for the url's
-- terminator belongs to the payload length.
abbrev sixteen : List ℕ → List ℕ
sixteen l = 5 ∷ 5 ∷ 5 ∷ 5 ∷ 5 ∷ 5 ∷ 5 ∷ 5 ∷ 5 ∷ 5 ∷ 5 ∷ 5 ∷ 5 ∷ 5 ∷ 5 ∷ 5 ∷ l

abbrev sixty_four : List ℕ → List ℕ
sixty_four l = sixteen (sixteen (sixteen (sixteen l)))

abbrev urlless_packet : List ℕ
urlless_packet =
    1
    ∷ 3
    ∷ 0
    ∷ 99
    ∷ 0
    ∷ 0
    ∷ 0
    ∷ 1
    ∷ 0
    ∷ 0
    ∷ 0
    ∷ 2
    ∷ 0
    ∷ 0
    ∷ 0
    ∷ 0
    ∷ 1
    ∷ 0
    ∷ sixty_four (sixty_four (sixty_four (sixty_four [])))

abbrev urlless_request : Request
urlless_request = record {
  mid = 1;
  url = drop 18 urlless_packet;
  action = 3;
  fmt = 99;
  payload = block (drop 18 urlless_packet);
  payload_len = 256;
  sender = 2;
}

unpack_urlless_packet : unpack_request urlless_packet (length urlless_packet) ≡ ok urlless_request
unfolding unpack_request ntohs_at ntohl_at c_string
unpack_urlless_packet = refl
