-- ===== src/HostLink/Stream.antt =====
-- A stream of frames through `aee_host_msg_callback`, in the format of `app_manager_host_send_msg`
-- (app-mgr/app-manager/app_manager_host.c).
use wamr_app_framework.Prelude.{
  ℕ, suc, ◌^◌, ◌<◌, ◌≡◌, ◌≢◌, refl, ap, ◌∙◌, List, [], ◌∷◌, ◌++◌, map, Option, some, length,
  append-nil, append_assoc, htons_bytes, htonl_bytes, arith,
}
use wamr_app_framework.Restful.{ok, ◌>>=◌, Request}
use wamr_app_framework.Restful.Packet.{unpack_request}
use wamr_app_framework.Restful.Packet.Safety.{unpack_request-ok}
use wamr_app_framework.HostLink.{
  Platform, Host, on_message, aee_host_msg_callback, link_header, app_manager_host_send_msg,
  request_packet, id_host, zeroed,
}
use wamr_app_framework.HostLink.Frames.{IsReady, complete_context, frame_bytes}

abbrev pub join : List (List ℕ) → List ℕ
join [] = []
join (xs ∷ xss) = xs ++ join xss

-- The bytes on the wire when everything that is passed to `send` is sent.
abbrev pub frame : ℕ → List ℕ → List ℕ
frame msg_type payload =
    join (app_manager_host_send_msg (some length) msg_type payload (length payload)).0

pub frame_lem :
    (t : ℕ) (payload : List ℕ) → frame t payload ≡ link_header t (length payload) ++ payload
unfolding app_manager_host_send_msg link_header htons_bytes htonl_bytes
frame_lem t payload = rw (append-nil payload)

-- An allocator that never fails.
abbrev pub GivesAll : (ℕ → Option (List ℕ)) → Type 0
GivesAll malloc = (n : ℕ) → (buffer : List ℕ) × (malloc n ≡ some buffer) × (length buffer ≡ n)

-- The packets that `unpack_request` accepts, with the requests that it reads.
abbrev pub Accepted : List (List ℕ) → List Request → Type 0
Accepted [] [] = Unit {0}
Accepted [] (r ∷ rs) = ⊥
Accepted (p ∷ ps) [] = ⊥
Accepted (p ∷ ps) (r ∷ rs) = (unpack_request p (length p) ≡ ok r) × Accepted ps rs

-- What is dispatched: the request, from the host.
abbrev pub from_host : Request → Request
from_host request = record request { sender = id_host }

module _ {S : Type 0} (platform : Platform S) (gives : GivesAll platform.malloc) where
  -- One frame that makes a complete message, whatever follows it.
  pub frame_arrives :
      (host : Host S) (t : ℕ) (payload rest : List ℕ)
      → IsReady host.recv_ctx
      → t < 2 ^ 16
      → t ≢ 4
      → 0 < length payload
      → length payload < 2 ^ 31
      → aee_host_msg_callback platform host (frame t payload ++ rest) ≡ (
          on_message (record host { recv_ctx = complete_context platform t payload }) >>= λ host'.
          aee_host_msg_callback platform host' rest)
  frame_arrives host t [] rest r ht ne pos h = absurd (omega arith)
  frame_arrives host t (ch ∷ xs) rest r ht ne pos h =
      let (buffer, m, l) = gives (suc (length xs)) in
      ap (λ bytes. aee_host_msg_callback platform host (bytes ++ rest)) (frame_lem t (ch ∷ xs))
      ∙ ap (aee_host_msg_callback platform host)
          (append_assoc (link_header t (suc (length xs))) (ch ∷ xs) rest)
      ∙ frame_bytes platform host t ch xs buffer rest r ht ne h m l

  on_message-accepted :
      (host : Host S) (packet : List ℕ) (request : Request)
      → unpack_request packet (length packet) ≡ ok request
      → on_message (record host { recv_ctx = complete_context platform request_packet packet })
        ≡ ok (record host {
          recv_ctx = zeroed;
          dispatched = host.dispatched ++ (from_host request ∷ []);
        })
  unfolding on_message
  on_message-accepted host packet request e = rw e

  -- Between messages the link hands over exactly the requests that the frames carry: from a context
  -- that is all zero, frames of accepted request packets, one after the other, are dispatched in
  -- their order, each as a request from the host, and leave the context all zero. The allocator does
  -- not fail; a packet that is accepted is shorter than 2 ^ 31 bytes.
  pub aee_host_msg_callback-frames :
      (host : Host S) (packets : List (List ℕ)) (requests : List Request)
      → host.recv_ctx ≡ zeroed
      → Accepted packets requests
      → aee_host_msg_callback platform host (join (map (frame request_packet) packets))
        ≡ ok (record host { dispatched = host.dispatched ++ map from_host requests })
  aee_host_msg_callback-frames host [] [] z a =
      rw (append-nil host.dispatched) (unfold aee_host_msg_callback in refl)
  aee_host_msg_callback-frames host [] (r ∷ rs) z a = absurd a
  aee_host_msg_callback-frames host (p ∷ ps) [] z a = absurd a
  aee_host_msg_callback-frames host (p ∷ ps) (r ∷ rs) z (e, a) =
      let next : Host S = record host {
        recv_ctx = zeroed;
        dispatched = host.dispatched ++ (from_host r ∷ []);
      } in
      let rest = join (map (frame request_packet) ps) in
      let ready : IsReady host.recv_ctx = ground (arith, z) in
      let m = (unpack_request-ok p r e).0 in
      let pos : 0 < length p = omega (arith, m) in
      frame_arrives host request_packet p rest ready (omega arith) (omega arith) pos
        (omega (arith, m))
      ∙ ap (λ o. o >>= λ host'. aee_host_msg_callback platform host' rest)
          (on_message-accepted host p r e)
      ∙ aee_host_msg_callback-frames next ps rs refl a
      ∙ ground (arith, z, append_assoc host.dispatched (from_host r ∷ []) (map from_host rs))
