-- ===== src/HostLink/Examples.antt =====
-- The theorems on the host link at concrete frames.
use wamr_app_framework.Prelude.{
  zeros, length-zeros, ℕ, ◌≡◌, refl, List, [], ◌∷◌, ◌++◌, none, some, length, ltb, if◌then◌else◌,
  ◌^◌, ntohs_at, ntohl_at, arith,
}
use wamr_app_framework.Restful.{ok, null, Payload, Request}
use wamr_app_framework.Restful.Packet.{unpack_request, c_string}
use wamr_app_framework.HostLink.{
  RecvContext, Platform, Host, aee_host_msg_callback, link_header, request_packet, zeroed,
  phase_payload, on_imrt_link_byte_arrive,
}
use wamr_app_framework.HostLink.Receive.{
  IsWellFormed, GivesLength, on_imrt_link_byte_arrive-IsWellFormed,
}
use wamr_app_framework.HostLink.Stream.{GivesAll, frame, from_host, aee_host_msg_callback-frames}
use wamr_app_framework.HostLink.Desync.{misread, aee_host_msg_callback-refused}

abbrev roomy : Platform (Unit {0})
roomy = record { malloc = λ n. some (zeros n); module_on_install = none }

-- An allocator that refuses blocks whose bytes an `int` does not count.
abbrev modest : Platform (Unit {0})
modest = record {
  malloc = λ n. if ltb n (2 ^ 31) then some (zeros n) else none;
  module_on_install = none;
}

abbrev full : Platform (Unit {0})
full = record { malloc = λ n. none; module_on_install = none }

modest-GivesLength : GivesLength modest.malloc
modest-GivesLength n buffer e = ground (arith, e, length-zeros n)

roomy-GivesAll : GivesAll roomy.malloc
roomy-GivesAll n = (zeros n, refl, length-zeros n)

abbrev idle : Host (Unit {0})
idle = record { recv_ctx = zeroed; modules = tt; dispatched = [] }

-- GET /a, message 7.
abbrev get_packet : List ℕ
get_packet =
    1 ∷ 1 ∷ 0 ∷ 0 ∷ 0 ∷ 0 ∷ 0 ∷ 7 ∷ 0 ∷ 0 ∷ 0 ∷ 0 ∷ 0 ∷ 3 ∷ 0 ∷ 0 ∷ 0 ∷ 0 ∷ 0x2f ∷ 0x61 ∷ 0 ∷ []

abbrev get_request : Request
get_request = record {
  mid = 7;
  url = 0x2f ∷ 0x61 ∷ [];
  action = 1;
  fmt = 0;
  payload = Payload.nothing;
  payload_len = 0;
  sender = 0;
}

get_packet-accepted : unpack_request get_packet (length get_packet) ≡ ok get_request
unfolding unpack_request c_string ntohs_at ntohl_at
get_packet-accepted = refl

abbrev half_read : RecvContext
half_read = record {
  phase = phase_payload;
  message_type = 2;
  payload_size = 2;
  payload = some (5 ∷ 0 ∷ []);
  size_in_phase = 1;
}

on_imrt_link_byte_arrive-IsWellFormed_example :
    IsWellFormed (on_imrt_link_byte_arrive modest 6 half_read tt).1
on_imrt_link_byte_arrive-IsWellFormed_example =
    on_imrt_link_byte_arrive-IsWellFormed modest modest-GivesLength 6 half_read tt
      (record { size_place = λ e. cc; payload_place = λ e n. (refl, omega arith, omega arith) })

aee_host_msg_callback-frames_example :
    aee_host_msg_callback roomy idle
      (frame request_packet get_packet ++ (frame request_packet get_packet ++ []))
    ≡ ok (record idle { dispatched = from_host get_request ∷ from_host get_request ∷ [] })
aee_host_msg_callback-frames_example =
    aee_host_msg_callback-frames roomy roomy-GivesAll idle (get_packet ∷ get_packet ∷ [])
      (get_request ∷ get_request ∷ []) refl (get_packet-accepted, (get_packet-accepted, tt))

wrong_version-refused : unpack_request (2 ∷ []) 1 ≡ null
unfolding unpack_request
wrong_version-refused = refl

aee_host_msg_callback-refused_example :
    aee_host_msg_callback roomy idle
      (frame request_packet (2 ∷ []) ++ (link_header request_packet 21 ++ get_packet))
    ≡ misread roomy idle request_packet request_packet 21 get_packet
aee_host_msg_callback-refused_example =
    aee_host_msg_callback-refused roomy idle (2 ∷ []) request_packet 21 get_packet roomy-GivesAll
      (refl, refl) (omega arith) (omega arith) wrong_version-refused (omega arith)
