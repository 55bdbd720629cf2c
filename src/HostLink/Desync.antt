-- ===== src/HostLink/Desync.antt =====
-- How the link loses its place between frames: app-mgr/app-manager/app_manager_host.c keeps
-- `size_in_phase` on the two paths that leave a message with no `memset`.
use Prim.Native.Nat.{bit_or}
use wamr_app_framework.Prelude.{
  ℕ, suc, ◌+◌, ◌*◌, ◌/◌, ◌%◌, ◌^◌, ◌<◌, ◌≡◌, ◌≢◌, ap, ◌∙◌, List, [], ◌∷◌, ◌++◌, false, Option, none,
  some, length, htons_bytes, htonl_bytes, arith, ◌==◌,
}
use wamr_app_framework.Restful.{Outcome, ok, null, ◌>>=◌}
use wamr_app_framework.Restful.Packet.{unpack_request}
use wamr_app_framework.HostLink.{
  Platform, Host, on_message, aee_host_msg_callback, link_header, request_packet, phase_non_start,
  on_size_complete, ntohs, ntohl, set_byte, on_host_byte, on_imrt_link_byte_arrive, arrive_in,
  on_non_start, on_leading, on_type, on_size, install_wasm_app,
}
use wamr_app_framework.HostLink.Frames.{IsReady, complete_context, finish, header, header_context}
use wamr_app_framework.HostLink.Stream.{GivesAll, frame, frame_arrives}

-- The host between frames with a count left over from the frame before.
abbrev stale : {S : Type 0} → Host S → ℕ → ℕ → Option (List ℕ) → ℕ → Host S
stale host t n payload k = record host {
  recv_ctx = record {
    phase = phase_non_start;
    message_type = t;
    payload_size = n;
    payload = payload;
    size_in_phase = suc k;
  };
}

-- The type that is put together from the old one and one byte of the new.
abbrev pub mixed_type : ℕ → ℕ → ℕ
mixed_type t' t = ntohs (bit_or t' (t / 256 % 256 * 256))

-- The size that is read one byte too early: its first byte is the last of the type.
abbrev pub early_size : ℕ → ℕ → ℕ
early_size t n = t % 256 * 2 ^ 24 + n / 256

abbrev stored_early : ℕ → ℕ → ℕ
stored_early t n =
    set_byte
      (set_byte (set_byte (set_byte 0 0 (t % 256)) 1 (n / 16777216 % 256)) 2 (n / 65536 % 256)) 3
      (n / 256 % 256)

ntohl-stored_early : (t n : ℕ) → n < 2 ^ 32 → ntohl (stored_early t n) ≡ early_size t n
unfolding ntohl set_byte
ntohl-stored_early t n h = omega arith

module _ {S : Type 0} (platform : Platform S) where
  stale_header_bytes :
      (host : Host S) (t' n' : ℕ) (payload : Option (List ℕ)) (k t n : ℕ) (rest : List ℕ)
      → aee_host_msg_callback platform (stale host t' n' payload k) (link_header t n ++ rest) ≡ (
          finish platform host (
            on_size_complete platform
              (header_context host.recv_ctx (mixed_type t' t) (ntohl (stored_early t n)))
              host.modules)
          >>= λ host'. aee_host_msg_callback platform host' ((n % 256) ∷ rest))
  unfolding aee_host_msg_callback link_header htons_bytes htonl_bytes on_host_byte
      on_imrt_link_byte_arrive arrive_in on_non_start on_leading on_type on_size
  stale_header_bytes host t' n' payload k t n rest =
      let counted : (suc k == 0) ≡ false = ground arith in rw counted

  -- The next header after a request packet that is refused, or of which the buffer was not given.
  abbrev pub misread : Host S → ℕ → ℕ → ℕ → List ℕ → Outcome (Host S)
  misread host t' t n rest =
      finish platform host (
        on_size_complete platform (header_context host.recv_ctx (mixed_type t' t) (early_size t n))
          host.modules)
      >>= λ host'. aee_host_msg_callback platform host' ((n % 256) ∷ rest)

  stale_header :
      (host : Host S) (t' n' : ℕ) (payload : Option (List ℕ)) (k t n : ℕ) (rest : List ℕ)
      → n < 2 ^ 32
      → aee_host_msg_callback platform (stale host t' n' payload k) (link_header t n ++ rest)
        ≡ misread host t' t n rest
  stale_header host t' n' payload k t n rest h =
      stale_header_bytes host t' n' payload k t n rest ∙ rw (ntohl-stored_early t n h)

  on_message-refused :
      (host : Host S) (packet : List ℕ)
      → unpack_request packet (length packet) ≡ null
      → on_message (record host { recv_ctx = complete_context platform request_packet packet })
        ≡ ok (record host { recv_ctx = complete_context platform request_packet packet })
  unfolding on_message
  on_message-refused host packet e = rw e

  -- After a request packet that `unpack_request` refuses, the link misreads the frame that follows:
  -- it takes one byte for the type and reads the size one byte too early, so that the size it waits
  -- for is the last byte of the type times 2 ^ 24 and the upper three bytes of the true size. The
  -- host was ready for a frame, the allocator does not fail, the refused packet is shorter than
  -- 2 ^ 31 bytes, and the frames are of any content.
  pub aee_host_msg_callback-refused :
      (host : Host S) (packet : List ℕ) (t n : ℕ) (rest : List ℕ)
      → GivesAll platform.malloc
      → IsReady host.recv_ctx
      → 0 < length packet
      → length packet < 2 ^ 31
      → unpack_request packet (length packet) ≡ null
      → n < 2 ^ 32
      → aee_host_msg_callback platform host
          (frame request_packet packet ++ (link_header t n ++ rest))
        ≡ misread host request_packet t n rest
  aee_host_msg_callback-refused host [] t n rest gives r pos h e hn = absurd (omega arith)
  aee_host_msg_callback-refused host (b ∷ bs) t n rest gives r pos h e hn =
      let after = link_header t n ++ rest in
      let size : ℕ = suc (length bs) in
      frame_arrives platform gives host request_packet (b ∷ bs) after r (omega arith) (omega arith)
        pos h
      ∙ ap (λ o. o >>= λ host'. aee_host_msg_callback platform host' after)
          (on_message-refused host (b ∷ bs) e)
      ∙ stale_header host request_packet size (some (b ∷ bs)) (length bs) t n rest hn

  no_buffer :
      (host : Host S) (t n : ℕ)
      → t ≢ install_wasm_app
      → 0 < n
      → platform.malloc n ≡ none
      → finish platform host
          (on_size_complete platform (header_context host.recv_ctx t n) host.modules)
        ≡ ok (stale host t n none 3)
  unfolding on_size_complete
  no_buffer host t n ne pos m = ground (arith, m)

  -- After a header for which no buffer is given, the link misreads a frame that follows at once in
  -- the same way: it takes one byte for the type and reads the size one byte too early.
  pub aee_host_msg_callback-no_buffer :
      (host : Host S) (t' n' t n : ℕ) (rest : List ℕ)
      → IsReady host.recv_ctx
      → t' < 2 ^ 16
      → t' ≢ install_wasm_app
      → 0 < n'
      → n' < 2 ^ 32
      → platform.malloc n' ≡ none
      → n < 2 ^ 32
      → aee_host_msg_callback platform host (link_header t' n' ++ (link_header t n ++ rest))
        ≡ misread host t' t n rest
  aee_host_msg_callback-no_buffer host t' n' t n rest r ht ne pos hn' m hn =
      let after = link_header t n ++ rest in
      header platform host t' n' after r ht hn'
      ∙ ap (λ o. o >>= λ host'. aee_host_msg_callback platform host' after)
          (no_buffer host t' n' ne pos m)
      ∙ stale_header host t' n' none 3 t n rest hn
