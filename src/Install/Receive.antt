-- ===== src/Install/Receive.antt =====
-- wasm_app_module_on_install_request_byte_arrive of app-mgr/app-manager/module_wasm_app.c.
use wamr_app_framework.Prelude.{int_next, ℕ, List, [], ◌∷◌, ◌++◌, Bool, true, false}
use wamr_app_framework.Restful.{Outcome, ok, null, fault, ◌>>=◌}
use wamr_app_framework.Install.{
  Phase, phase_req_ver, phase_req_action, phase_req_fmt, phase_req_mid, phase_req_sender,
  phase_req_url_len, phase_req_payload_len, phase_req_url, phase_app_magic, phase_wasm_version,
  phase_wasm_section_type, phase_wasm_section_size, phase_wasm_section_content, phase_aot_version,
  phase_aot_section_id, phase_aot_section_size, phase_aot_section_content, InstallContext, idle,
  Effect, respond_error, Loader, Arrival, received, refused, failed, outside, on_req_ver,
  on_req_action, on_req_fmt, on_req_mid, on_req_sender, on_req_url_len, on_req_payload_len,
  on_req_url, on_app_magic, on_fail,
}
use wamr_app_framework.Install.Bytecode.{
  on_wasm_version, on_wasm_section_type, on_wasm_section_size, on_wasm_section_content,
}
use wamr_app_framework.Install.Aot.{
  on_aot_version, on_aot_section_id, on_aot_section_size, on_aot_section_content,
}

-- The receive context, and the calls that were made, the last one first.
pub record Installer : Type 0 where
  pub context : InstallContext
  pub effects : List Effect

-- The first lines: a request starts with nothing received, and the byte counts.
unfoldable pub count_byte : InstallContext → InstallContext
count_byte c = elim c.phase [
  | phase_req_ver ↦ record c { size_in_phase = 0; total_received_size = 1 }
  | _ ↦ record c { total_received_size = int_next c.total_received_size }
]

module _ (loader : Loader) where
  unfoldable pub byte_in : Phase → ℕ → ℕ → InstallContext → Arrival
  byte_in phase_req_ver ch request_total_size c = on_req_ver ch c
  byte_in phase_req_action ch request_total_size c = on_req_action ch c
  byte_in phase_req_fmt ch request_total_size c = on_req_fmt ch c
  byte_in phase_req_mid ch request_total_size c = on_req_mid ch c
  byte_in phase_req_sender ch request_total_size c = on_req_sender ch c
  byte_in phase_req_url_len ch request_total_size c = on_req_url_len loader ch c
  byte_in phase_req_payload_len ch request_total_size c = on_req_payload_len ch c
  byte_in phase_req_url ch request_total_size c = on_req_url ch c
  byte_in phase_app_magic ch request_total_size c = on_app_magic loader ch c
  byte_in phase_wasm_version ch request_total_size c = on_wasm_version ch c
  byte_in phase_wasm_section_type ch request_total_size c = on_wasm_section_type loader ch c
  byte_in phase_wasm_section_size ch request_total_size c = on_wasm_section_size loader ch c
  byte_in phase_wasm_section_content ch request_total_size c =
      on_wasm_section_content loader ch request_total_size c
  byte_in phase_aot_version ch request_total_size c = on_aot_version ch c
  byte_in phase_aot_section_id ch request_total_size c = on_aot_section_id loader ch c
  byte_in phase_aot_section_size ch request_total_size c = on_aot_section_size loader ch c
  byte_in phase_aot_section_content ch request_total_size c =
      on_aot_section_content loader ch request_total_size c

  -- The end of the function: its success, `*received_size`, and the state after it.
  unfoldable pub on_arrival : ℕ → Installer → Arrival → Outcome (Bool × ℕ × Installer)
  on_arrival received_size s (received c effects) =
      ok (true, received_size, record { context = c; effects = effects ++ s.effects })
  on_arrival received_size s (refused c effects) =
      ok (false, received_size, record { context = c; effects = effects ++ s.effects })
  on_arrival received_size s (failed c) = ok (
    false,
    received_size,
    record {
      context = idle;
      effects = on_fail loader c ++ (respond_error c.request_mid ∷ s.effects);
    },
  )
  on_arrival received_size s outside = fault

  unfoldable pub wasm_app_module_on_install_request_byte_arrive :
      ℕ → ℕ → Installer → Outcome (Bool × ℕ × Installer)
  wasm_app_module_on_install_request_byte_arrive ch request_total_size s =
      let c : InstallContext = count_byte s.context in
      on_arrival c.total_received_size s (byte_in c.phase ch request_total_size c)

  -- The bytes of a request, as long as they are received.
  unfoldable pub receive_bytes : List ℕ → ℕ → Installer → Outcome Installer
  receive_bytes [] request_total_size s = ok s
  receive_bytes (ch ∷ bytes) request_total_size s =
      wasm_app_module_on_install_request_byte_arrive ch request_total_size s >>= λ r. elim r.0 [
        | false ↦ null
        | true ↦ receive_bytes bytes request_total_size r.2
      ]
