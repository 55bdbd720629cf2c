-- ===== src/HostLink/Receive.antt =====
-- The memory that `on_imrt_link_byte_arrive` of app-mgr/app-manager/app_manager_host.c writes.
use wamr_app_framework.Prelude.{
  ◌^◌, int_next, ℕ, ◌<◌, ◌≡◌, ◌≢◌, inl, inr, refl, List, Option, none, some, length, length-set,
  arith, Option-cases,
}
use wamr_app_framework.HostLink.{
  RecvPhase, phase_non_start, phase_leading, phase_type, phase_size, phase_payload, phase_ignoring,
  RecvContext, Platform, on_non_start, on_leading, on_type, on_size_complete, on_size,
  on_install_byte, on_payload_byte, on_ignoring, arrive_in, on_imrt_link_byte_arrive,
  install_wasm_app, ntohl, set_byte, set_at-set, with_size,
}

-- The number of bytes that may be written behind a payload pointer.
abbrev pub capacity : Option (List ℕ) → ℕ
capacity none = 0
capacity (some buffer) = length buffer

-- The next byte of a phase that stores bytes has a place: within the four bytes of the size, or
-- within a payload buffer that is as long as the size says, below 2 ^ 31 bytes.
pub record IsWellFormed (ctx : RecvContext) : Type 0 where
  pub size_place : ctx.phase ≡ phase_size → ctx.size_in_phase < 4
  pub payload_place :
      ctx.phase ≡ phase_payload
      → ctx.message_type ≢ install_wasm_app
      → (capacity ctx.payload ≡ ctx.payload_size)
        × (ctx.size_in_phase < ctx.payload_size)
        × (ctx.payload_size < 2 ^ 31)

-- The allocator's blocks are as long as was asked for, and an `int` counts their bytes.
abbrev pub GivesLength : (ℕ → Option (List ℕ)) → Type 0
GivesLength malloc =
    (n : ℕ) (buffer : List ℕ) → malloc n ≡ some buffer → (length buffer ≡ n) × (n < 2 ^ 31)

module _ {S : Type 0} (platform : Platform S) (gives : GivesLength platform.malloc) where
  on_size_complete-IsWellFormed :
      (ctx : RecvContext) (s : S) → IsWellFormed (on_size_complete platform ctx s).1
  unfolding on_size_complete
  on_size_complete-IsWellFormed ctx s = elim (Option-cases (platform.malloc ctx.payload_size)) [
    | inl e ↦ ground (arith, e)
    | inr (buffer, e) ↦ ground (arith, e, gives ctx.payload_size buffer e)
  ]

  on_size-IsWellFormed :
      (ch : ℕ) (ctx : RecvContext) (s : S)
      → ctx.phase ≡ phase_size
      → IsWellFormed ctx
      → IsWellFormed (on_size platform ch ctx s).1
  unfolding on_size
  on_size-IsWellFormed ch ctx s e w =
      let size = ntohl (set_byte ctx.payload_size ctx.size_in_phase ch) in
      ground (
        arith,
        e,
        w.size_place e,
        on_size_complete-IsWellFormed (with_size platform size (int_next ctx.size_in_phase) ctx) s,
      )

  on_payload_byte-IsWellFormed :
      (ch : ℕ) (ctx : RecvContext) (s : S)
      → ctx.phase ≡ phase_payload
      → ctx.message_type ≢ install_wasm_app
      → IsWellFormed ctx
      → IsWellFormed (on_payload_byte platform ch ctx s).1
  unfolding on_payload_byte
  on_payload_byte-IsWellFormed ch ctx s e t w = elim (Option-cases ctx.payload) [
    | inl n ↦ ground (arith, e, t, n, w.payload_place e t)
    | inr (buffer, b) ↦ ground (
      arith,
      e,
      t,
      b,
      w.payload_place e t,
      length-set buffer ctx.size_in_phase ch,
      set_at-set buffer ctx.size_in_phase ch,
    )
  ]

  on_install_byte-IsWellFormed :
      (ch : ℕ) (ctx : RecvContext) (s : S)
      → ctx.message_type ≡ install_wasm_app
      → ctx.phase ≡ phase_payload
      → IsWellFormed (on_install_byte platform ch ctx s).1
  unfolding on_install_byte
  on_install_byte-IsWellFormed ch ctx s t e = ground arith

  arrive_in-IsWellFormed :
      (phase : RecvPhase) (ch : ℕ) (ctx : RecvContext) (s : S)
      → ctx.phase ≡ phase
      → IsWellFormed ctx
      → IsWellFormed (arrive_in platform phase ch ctx s).1
  unfolding arrive_in
  arrive_in-IsWellFormed phase_non_start ch ctx s e w = unfold on_non_start in ground arith
  arrive_in-IsWellFormed phase_leading ch ctx s e w = unfold on_leading in ground arith
  arrive_in-IsWellFormed phase_type ch ctx s e w = unfold on_type in ground arith
  arrive_in-IsWellFormed phase_size ch ctx s e w = on_size-IsWellFormed ch ctx s e w
  arrive_in-IsWellFormed phase_payload ch ctx s e w =
      ground
        (arith, e, on_install_byte-IsWellFormed ch ctx s, on_payload_byte-IsWellFormed ch ctx s e)
  arrive_in-IsWellFormed phase_ignoring ch ctx s e w = unfold on_ignoring in ground arith

  -- Whatever byte arrives in a well-formed context, the context stays well-formed: the size is
  -- written within its four bytes, and a payload that is no wasm module within its buffer. The
  -- allocator gives blocks of the length that is asked for, or fails, as it does from 2 ^ 31 bytes on.
  pub on_imrt_link_byte_arrive-IsWellFormed :
      (ch : ℕ) (ctx : RecvContext) (s : S)
      → IsWellFormed ctx
      → IsWellFormed (on_imrt_link_byte_arrive platform ch ctx s).1
  unfolding on_imrt_link_byte_arrive
  on_imrt_link_byte_arrive-IsWellFormed ch ctx s w =
      arrive_in-IsWellFormed ctx.phase ch ctx s refl w
