-- ===== src/HostLink/Frames.antt =====
-- One frame, as `app_manager_host_send_msg` sends it, read by `on_imrt_link_byte_arrive`
-- (app-mgr/app-manager/app_manager_host.c).
use Prim.Native.Nat.{bit_or}
use wamr_app_framework.Prelude.{
  int_next, ℕ, zero, suc, ◌+◌, ◌*◌, ◌/◌, ◌%◌, ◌^◌, ◌<◌, ◌≡◌, ◌≢◌, refl, sym, ap, ◌∙◌, List, [], ◌∷◌,
  ◌++◌, true, false, Option, none, some, ◌==◌, if◌then◌else◌, set, take, length, length-set,
  take_all, append_assoc, htons_bytes, htonl_bytes, arith,
}
use wamr_app_framework.Prelude.Bits.{bit_or-shift}
use wamr_app_framework.Restful.{Outcome, ok, ◌>>=◌}
use wamr_app_framework.HostLink.{
  phase_non_start, phase_payload, RecvContext, Platform, Arrival, on_non_start, on_leading, on_type,
  on_size_complete, on_size, on_payload_byte, arrive_in, on_imrt_link_byte_arrive, install_wasm_app,
  ntohs, ntohl, set_byte, set_at-set, Host, on_message, on_host_byte, aee_host_msg_callback,
  link_header,
}

ntohs-htons_bytes : (t : ℕ) → t < 2 ^ 16 → ntohs (bit_or (t / 256 % 256) (t % 256 * 256)) ≡ t
unfolding ntohs
ntohs-htons_bytes t h =
    let low : t / 256 % 256 < 2 ^ 8 = omega arith in
    omega (arith, bit_or-shift 8 (t / 256 % 256) (t % 256) low)

-- The four bytes of a size, stored one after the other.
abbrev pub stored_size : ℕ → ℕ
stored_size n =
    set_byte
      (set_byte (set_byte (set_byte 0 0 (n / 16777216 % 256)) 1 (n / 65536 % 256)) 2
        (n / 256 % 256))
      3 (n % 256)

pub ntohl-stored_size : (n : ℕ) → n < 2 ^ 32 → ntohl (stored_size n) ≡ n
unfolding ntohl set_byte
ntohl-stored_size n h = omega arith

-- A context between two frames: no byte of a frame has arrived, and none of a phase is counted.
abbrev pub IsReady : RecvContext → Type 0
IsReady ctx = (ctx.phase ≡ phase_non_start) × (ctx.size_in_phase ≡ 0)

-- What is received when the header of a frame has arrived.
abbrev pub header_context : RecvContext → ℕ → ℕ → RecvContext
header_context ctx msg_type size = record {
  phase = phase_payload;
  message_type = msg_type;
  payload_size = size;
  payload = none;
  size_in_phase = 4;
}

pub take-set :
    (buffer : List ℕ) (i ch : ℕ)
    → i < length buffer
    → take (suc i) (set buffer i ch) ≡ take i buffer ++ (ch ∷ [])
take-set [] i ch h = absurd (omega arith)
take-set (b ∷ bs) zero ch h = refl
take-set (b ∷ bs) (suc i) ch h = ap (◌∷◌ b) (take-set bs i ch (omega arith))

pub set_last :
    (buffer : List ℕ) (i ch : ℕ)
    → suc i ≡ length buffer
    → set buffer i ch ≡ take i buffer ++ (ch ∷ [])
set_last buffer i ch h =
    sym (take_all (suc i) (set buffer i ch) (omega (arith, length-set buffer i ch)))
    ∙ take-set buffer i ch (omega arith)

module _ {S : Type 0} (platform : Platform S) where
  abbrev pub finish : Host S → Arrival S → Outcome (Host S)
  finish host (complete, ctx, s) =
      if complete
      then on_message (record host { recv_ctx = ctx; modules = s })
      else ok (record host { recv_ctx = ctx; modules = s })

  abbrev ready_host : Host S → ℕ → ℕ → Option (List ℕ) → Host S
  ready_host host t n payload = record host {
    recv_ctx = record {
      phase = phase_non_start;
      message_type = t;
      payload_size = n;
      payload = payload;
      size_in_phase = 0;
    };
  }

  header_bytes :
      (host : Host S) (t' n' : ℕ) (payload : Option (List ℕ)) (t n : ℕ) (rest : List ℕ)
      → aee_host_msg_callback platform (ready_host host t' n' payload) (link_header t n ++ rest) ≡ (
          finish host (
            on_size_complete platform
              (header_context host.recv_ctx
                (ntohs (bit_or (t / 256 % 256) (t % 256 * 256)))
                (ntohl (stored_size n)))
              host.modules)
          >>= λ host'. aee_host_msg_callback platform host' rest)
  unfolding aee_host_msg_callback link_header htons_bytes htonl_bytes on_host_byte
      on_imrt_link_byte_arrive arrive_in on_non_start on_leading on_type on_size
  header_bytes host t' n' payload t n rest = refl

  -- The host in the middle of a payload, `i` bytes of it stored.
  abbrev filling : Host S → ℕ → List ℕ → ℕ → Host S
  filling host t buffer i = record host {
    recv_ctx = record {
      phase = phase_payload;
      message_type = t;
      payload_size = length buffer;
      payload = some buffer;
      size_in_phase = i;
    };
  }

  -- The context of a complete message.
  abbrev pub complete_context : ℕ → List ℕ → RecvContext
  complete_context t payload = record {
    phase = phase_non_start;
    message_type = t;
    payload_size = length payload;
    payload = some payload;
    size_in_phase = length payload;
  }

  abbrev arrived : Host S → ℕ → List ℕ → List ℕ → Outcome (Host S)
  arrived host t payload rest =
      on_message (record host { recv_ctx = complete_context t payload }) >>= λ host'.
      aee_host_msg_callback platform host' rest

  last_byte :
      (host : Host S) (t : ℕ) (buffer : List ℕ) (i ch : ℕ) (rest : List ℕ)
      → t ≢ install_wasm_app
      → suc i ≡ length buffer
      → length buffer < 2 ^ 31
      → aee_host_msg_callback platform (filling host t buffer i) (ch ∷ rest)
        ≡ arrived host t (take i buffer ++ (ch ∷ [])) rest
  unfolding aee_host_msg_callback on_host_byte on_imrt_link_byte_arrive arrive_in on_payload_byte
  last_byte host t buffer i ch rest ne h small =
      let other : (t == install_wasm_app) ≡ false = ground arith in
      let next : int_next i ≡ length buffer = omega arith in
      let end : (int_next i == length buffer) ≡ true = ground arith in
      let stored = set_at-set buffer i ch (omega arith) in
      let size : length buffer ≡ length (take i buffer ++ (ch ∷ [])) =
        sym (length-set buffer i ch) ∙ ap length (set_last buffer i ch h) in
      rw (other, end, stored, set_last buffer i ch h, next, size)

  inner_byte :
      (host : Host S) (t : ℕ) (buffer : List ℕ) (i ch : ℕ) (rest : List ℕ)
      → t ≢ install_wasm_app
      → suc i < length buffer
      → length buffer < 2 ^ 31
      → aee_host_msg_callback platform (filling host t buffer i) (ch ∷ rest)
        ≡ aee_host_msg_callback platform (filling host t (set buffer i ch) (suc i)) rest
  unfolding aee_host_msg_callback on_host_byte on_imrt_link_byte_arrive arrive_in on_payload_byte
  inner_byte host t buffer i ch rest ne h small =
      let other : (t == install_wasm_app) ≡ false = ground arith in
      let next : int_next i ≡ suc i = omega arith in
      let end : (int_next i == length buffer) ≡ false = ground arith in
      let stored = set_at-set buffer i ch (omega arith) in
      rw (other, end, stored, next, ← length-set buffer i ch)

  payload_bytes :
      (host : Host S) (t : ℕ) (xs buffer : List ℕ) (i ch : ℕ) (rest : List ℕ)
      → t ≢ install_wasm_app
      → i + suc (length xs) ≡ length buffer
      → length buffer < 2 ^ 31
      → aee_host_msg_callback platform (filling host t buffer i) ((ch ∷ xs) ++ rest)
        ≡ arrived host t (take i buffer ++ (ch ∷ xs)) rest
  payload_bytes host t [] buffer i ch rest ne h small =
      last_byte host t buffer i ch rest ne (omega arith) small
  payload_bytes host t (x ∷ xs) buffer i ch rest ne h small =
      inner_byte host t buffer i ch ((x ∷ xs) ++ rest) ne (omega arith) small
      ∙ payload_bytes host t xs (set buffer i ch) (suc i) x rest ne
          (omega (arith, length-set buffer i ch)) (omega (arith, length-set buffer i ch))
      ∙ ap (λ p. arrived host t p rest)
          (ap (λ p. p ++ (x ∷ xs)) (take-set buffer i ch (omega arith))
            ∙ append_assoc (take i buffer) (ch ∷ []) (x ∷ xs))

  ready_host-eq :
      (host : Host S)
      → IsReady host.recv_ctx
      → host
        ≡ ready_host host host.recv_ctx.message_type host.recv_ctx.payload_size
            host.recv_ctx.payload
  ready_host-eq host r = ground arith

  start_payload :
      (host : Host S) (t : ℕ) (buffer : List ℕ)
      → t ≢ install_wasm_app
      → 0 < length buffer
      → platform.malloc (length buffer) ≡ some buffer
      → finish host
          (on_size_complete platform (header_context host.recv_ctx t (length buffer)) host.modules)
        ≡ ok (filling host t buffer 0)
  unfolding on_size_complete
  start_payload host t buffer ne pos m = ground (arith, m)

  pub header :
      (host : Host S) (t n : ℕ) (rest : List ℕ)
      → IsReady host.recv_ctx
      → t < 2 ^ 16
      → n < 2 ^ 32
      → aee_host_msg_callback platform host (link_header t n ++ rest) ≡ (
          finish host (on_size_complete platform (header_context host.recv_ctx t n) host.modules)
          >>= λ host'. aee_host_msg_callback platform host' rest)
  header host t n rest r ht hn =
      ap (λ h. aee_host_msg_callback platform h (link_header t n ++ rest)) (ready_host-eq host r)
      ∙ header_bytes host _ _ _ t n rest
      ∙ rw (ntohs-htons_bytes t ht, ntohl-stored_size n hn)

  -- A frame with a payload that is no wasm module, behind which `rest` follows: the bytes of the
  -- frame make one complete message, with the type and the payload of the frame.
  pub frame_bytes :
      (host : Host S) (t ch : ℕ) (xs buffer rest : List ℕ)
      → IsReady host.recv_ctx
      → t < 2 ^ 16
      → t ≢ install_wasm_app
      → suc (length xs) < 2 ^ 31
      → platform.malloc (suc (length xs)) ≡ some buffer
      → length buffer ≡ suc (length xs)
      → aee_host_msg_callback platform host (link_header t (suc (length xs)) ++ ((ch ∷ xs) ++ rest))
        ≡ arrived host t (ch ∷ xs) rest
  frame_bytes host t ch xs buffer rest r ht ne hn m l =
      header host t (suc (length xs)) ((ch ∷ xs) ++ rest) r ht (omega arith)
      ∙ rw (← l) (
          ap (λ o. o >>= λ host'. aee_host_msg_callback platform host' ((ch ∷ xs) ++ rest))
            (start_payload host t buffer ne (omega arith) (rw l m)))
      ∙ payload_bytes host t xs buffer 0 ch rest ne (omega arith) (omega arith)
