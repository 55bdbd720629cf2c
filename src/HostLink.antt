-- ===== src/HostLink.antt =====
-- The link between the app manager and the host: app-mgr/app-manager/app_manager_host.c with the
-- message types of app-mgr/app-mgr-shared/host_link.h. The processor is little-endian, as the code
-- of `on_imrt_link_byte_arrive` supposes. The log output is left out.
pub mod Frames
pub mod Receive
pub mod Stream
pub mod Desync
mod Examples
use Prim.Native.Nat.{bit_or}
use wamr_app_framework.Prelude.{
  int_next, arith, ◌<◌, ◌≡◌, ℕ, suc, ◌+◌, ◌-◌, ◌*◌, ◌/◌, ◌%◌, ◌^◌, List, [], ◌∷◌, ◌++◌, Bool, true,
  false, not, Option, none, some, ltb, ◌==◌, ◌&&◌, if◌then◌else◌, set, htons_bytes, htonl_bytes,
}
use wamr_app_framework.Restful.{Outcome, ok, null, fault, ◌>>=◌, Request}
use wamr_app_framework.Restful.Packet.{unpack_request}

abbrev pub leading_0 : ℕ
leading_0 = 0x12

abbrev pub leading_1 : ℕ
leading_1 = 0x34

abbrev pub request_packet : ℕ
request_packet = 2

abbrev pub install_wasm_app : ℕ
install_wasm_app = 4

-- `ID_HOST`, -3.
abbrev pub id_host : ℕ
id_host = 2 ^ 32 - 3

pub data RecvPhase : Type 0 where
  phase_non_start phase_leading phase_type phase_size phase_payload phase_ignoring : RecvPhase

-- `recv_context_t` with the fields of its message. `none` is a null payload.
pub record RecvContext : Type 0 where
  pub phase : RecvPhase
  pub message_type : ℕ
  pub payload_size : ℕ
  pub payload : Option (List ℕ)
  pub size_in_phase : ℕ

-- `memset(ctx, 0, sizeof(*ctx))`.
abbrev pub zeroed : RecvContext
zeroed = record {
  phase = phase_non_start;
  message_type = 0;
  payload_size = 0;
  payload = none;
  size_in_phase = 0;
}

-- What the link calls: the allocator, which gives a block of any content or fails, and the function
-- that takes the bytes of a wasm module, if there is one. It gets the byte and the total size, works
-- on a state of its own, and returns its success and the size received so far.
pub record Platform (S : Type 0) : Type 0 where
  pub malloc : ℕ → Option (List ℕ)
  pub module_on_install : Option (ℕ → ℕ → S → Bool × ℕ × S)

-- The return value 1, a complete message, is `true`.
abbrev pub Arrival : Type 0 → Type 0
Arrival S = Bool × RecvContext × S

-- `ntohs` and `ntohl` of a value in memory.
unfoldable pub ntohs : ℕ → ℕ
ntohs n = n % 256 * 256 + n / 256 % 256

unfoldable pub ntohl : ℕ → ℕ
ntohl n = n % 256 * 16777216 + n / 256 % 256 * 65536 + n / 65536 % 256 * 256 + n / 16777216 % 256

-- `p[i] = ch` on the bytes of a `uint32`.
unfoldable pub set_byte : ℕ → ℕ → ℕ → ℕ
set_byte n i ch = n - n / 256 ^ i % 256 * 256 ^ i + ch * 256 ^ i

-- `payload[i] = ch` for the pattern `i` of an `int`. A write outside the buffer leaves it as it is.
unfoldable pub set_at : List ℕ → ℕ → ℕ → List ℕ
set_at buffer i ch = if ltb i (2 ^ 31) then set buffer i ch else buffer

pub set_at-set : (buffer : List ℕ) (i ch : ℕ) → i < 2 ^ 31 → set_at buffer i ch ≡ set buffer i ch
unfolding set_at
set_at-set buffer i ch h = ground arith

module _ {S : Type 0} (platform : Platform S) where
  unfoldable pub on_non_start : ℕ → RecvContext → S → Arrival S
  on_non_start ch ctx s =
      let cleared : RecvContext = record ctx { payload_size = 0; payload = none } in
      (false, (if ch == leading_0 then record cleared { phase = phase_leading } else cleared), s)

  unfoldable pub on_leading : ℕ → RecvContext → S → Arrival S
  on_leading ch ctx s =
      (false, record ctx { phase = if ch == leading_1 then phase_type else phase_non_start }, s)

  unfoldable pub on_type : ℕ → RecvContext → S → Arrival S
  on_type ch ctx s = (
    false,
    (if ctx.size_in_phase == 0
        then record ctx { message_type = ch; size_in_phase = int_next ctx.size_in_phase }
        else record ctx {
          message_type = ntohs (bit_or ctx.message_type (ch * 256));
          phase = phase_size;
          size_in_phase = 0;
        }),
    s,
  )

  -- The size is complete: what the code does with it, the context's payload already freed.
  unfoldable pub on_size_complete : RecvContext → S → Arrival S
  on_size_complete ctx s =
      if ctx.payload_size == 0
      then (true, record ctx { phase = phase_non_start }, s)
      else if not (ctx.message_type == install_wasm_app)
      then elim (platform.malloc ctx.payload_size) [
        | none ↦ (false, record ctx { phase = phase_non_start; payload = none }, s)
        | some buffer ↦ (
          false,
          record ctx { payload = some buffer; phase = phase_payload; size_in_phase = 0 },
          s,
        )
      ]
      else (false, record ctx { phase = phase_payload; size_in_phase = 0 }, s)

  -- The context with the whole size in it and its old payload freed.
  abbrev pub with_size : ℕ → ℕ → RecvContext → RecvContext
  with_size size next ctx = record ctx {
    payload_size = size;
    size_in_phase = next;
    phase = phase_payload;
    payload = none;
  }

  unfoldable pub on_size : ℕ → RecvContext → S → Arrival S
  on_size ch ctx s =
      let size : ℕ = set_byte ctx.payload_size ctx.size_in_phase ch in
      let next : ℕ = int_next ctx.size_in_phase in
      if next == 4
      then on_size_complete (with_size (ntohl size) next ctx) s
      else (false, record ctx { payload_size = size; size_in_phase = next }, s)

  unfoldable pub on_install_byte : ℕ → RecvContext → S → Arrival S
  on_install_byte ch ctx s =
      let counted : RecvContext = record ctx { size_in_phase = int_next ctx.size_in_phase } in
      elim platform.module_on_install [
        | none ↦ (false, record counted { phase = phase_non_start; size_in_phase = 0 }, s)
        | some module_on_install ↦
            let (success, received_size, s') = module_on_install ch ctx.payload_size s in
            if success
            then (if received_size == ctx.payload_size
                then (true, record counted { phase = phase_non_start }, s')
                else (false, counted, s'))
            else if ltb counted.size_in_phase ctx.payload_size
            then (false, record counted { phase = phase_ignoring }, s')
            else (false, record counted { phase = phase_non_start; size_in_phase = 0 }, s')
      ]

  unfoldable pub on_payload_byte : ℕ → RecvContext → S → Arrival S
  on_payload_byte ch ctx s =
      let stored : RecvContext = record ctx {
        payload = elim ctx.payload [
          | none ↦ none
          | some buffer ↦ some (set_at buffer ctx.size_in_phase ch)
        ];
        size_in_phase = int_next ctx.size_in_phase;
      } in
      if stored.size_in_phase == ctx.payload_size
      then (true, record stored { phase = phase_non_start }, s)
      else (false, stored, s)

  unfoldable pub on_ignoring : RecvContext → S → Arrival S
  on_ignoring ctx s =
      let counted : RecvContext = record ctx { size_in_phase = int_next ctx.size_in_phase } in
      if counted.size_in_phase == ctx.payload_size then (false, zeroed, s) else (false, counted, s)

  unfoldable pub arrive_in : RecvPhase → ℕ → RecvContext → S → Arrival S
  arrive_in phase_non_start ch ctx s = on_non_start ch ctx s
  arrive_in phase_leading ch ctx s = on_leading ch ctx s
  arrive_in phase_type ch ctx s = on_type ch ctx s
  arrive_in phase_size ch ctx s = on_size ch ctx s
  arrive_in phase_payload ch ctx s =
      if ctx.message_type == install_wasm_app
      then on_install_byte ch ctx s
      else on_payload_byte ch ctx s
  arrive_in phase_ignoring ch ctx s = on_ignoring ctx s

  unfoldable pub on_imrt_link_byte_arrive : ℕ → RecvContext → S → Arrival S
  on_imrt_link_byte_arrive ch ctx s = arrive_in ctx.phase ch ctx s

-- The link's global `recv_ctx`, the state of the module that installs, and the requests handed to
-- `am_dispatch_request` so far, oldest first.
pub record Host (S : Type 0) : Type 0 where
  pub recv_ctx : RecvContext
  pub modules : S
  pub dispatched : List Request

module _ {S : Type 0} where
  -- The body of the loop under `ret == 1`. A packet that is refused takes the `continue`, which
  -- skips the release of the payload and the `memset`.
  unfoldable pub on_message : Host S → Outcome (Host S)
  on_message host = elim host.recv_ctx.payload [
    | none ↦ ok (record host { recv_ctx = zeroed })
    | some buffer ↦
        if host.recv_ctx.message_type == request_packet
        then elim (unpack_request buffer host.recv_ctx.payload_size) [
          | ok request ↦ ok (record host {
            recv_ctx = zeroed;
            dispatched = host.dispatched ++ (record request { sender = id_host } ∷ []);
          })
          | null ↦ ok host
          | fault ↦ fault
        ]
        else ok (record host { recv_ctx = zeroed })
  ]

  unfoldable pub on_host_byte : Platform S → Host S → ℕ → Outcome (Host S)
  on_host_byte platform host ch =
      let (complete, ctx, s) = on_imrt_link_byte_arrive platform ch host.recv_ctx host.modules in
      let host' : Host S = record host { recv_ctx = ctx; modules = s } in
      if complete then on_message host' else ok host'

  unfoldable pub aee_host_msg_callback : Platform S → Host S → List ℕ → Outcome (Host S)
  aee_host_msg_callback platform host [] = ok host
  aee_host_msg_callback platform host (ch ∷ msg) =
      on_host_byte platform host ch >>= λ host'. aee_host_msg_callback platform host' msg

-- The eight bytes in front of a payload.
unfoldable pub link_header : ℕ → ℕ → List ℕ
link_header msg_type size = leading_0 ∷ leading_1 ∷ (htons_bytes msg_type ++ htonl_bytes size)

-- `send` says how many of the bytes it sent; the result is what was passed to `send`, in order, and
-- the return value.
unfoldable pub app_manager_host_send_msg : Option (List ℕ → ℕ) → ℕ → List ℕ → ℕ → List (List ℕ) × ℕ
app_manager_host_send_msg none msg_type buf size = ([], 0)
app_manager_host_send_msg (some send) msg_type buf size =
    if send (link_header msg_type size) == 8
    then (link_header msg_type size ∷ buf ∷ [], send buf)
    else (link_header msg_type size ∷ [], 0)
