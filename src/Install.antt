-- ===== src/Install.antt =====
-- The receiver of a WebAssembly module, which takes the install request byte by byte:
-- app-mgr/app-manager/module_wasm_app.c, with the byte code and the AOT format enabled, on a
-- little-endian machine.
pub mod Bytecode
pub mod Aot
pub mod Receive
pub mod Callbacks
pub mod Header
pub mod Fill
pub mod Leb
pub mod Sections
pub mod RoundTrip
pub mod Overrun
pub mod Places
mod Examples
use wamr_app_framework.Prelude.{
  int_next, ℕ, zero, suc, ◌+◌, ◌*◌, ◌/◌, ◌%◌, ◌^◌, List, [], ◌∷◌, ◌++◌, Bool, true, false, not,
  ◌&&◌, ◌||◌, Option, none, some, ltb, ◌==◌, if◌then◌else◌, set, length, zeros,
}
use wamr_app_framework.Restful.{Outcome, ok, null, fault}
use wamr_app_framework.Restful.Packet.{c_string}
use wamr_app_framework.HostLink.{ntohs, ntohl, set_byte}

-- `wasm_app_install_req_recv_phase_t`.
pub data Phase : Type 0 where
  phase_req_ver phase_req_action phase_req_fmt phase_req_mid phase_req_sender phase_req_url_len :
      Phase
  phase_req_payload_len phase_req_url phase_app_magic : Phase
  phase_wasm_version phase_wasm_section_type phase_wasm_section_size : Phase
  phase_wasm_section_content phase_aot_version phase_aot_section_id phase_aot_section_size : Phase
  phase_aot_section_content : Phase

-- A node of `wasm_section_list_t` or `aot_section_list_t`: `section_body` is its block, or NULL.
pub record Section : Type 0 where
  pub section_type : ℕ
  pub section_body_size : ℕ
  pub section_body : Option (List ℕ)

-- `wasm_app_file_t`: the two members of its union have the same fields. The sections are linked in the
-- order in which they arrive; here the last one, `section_end`, is the first.
pub record WasmAppFile : Type 0 where
  pub magic : ℕ
  pub version : ℕ
  pub sections : List Section

-- `wasm_app_install_req_recv_ctx_t` with its message; a `request_url` of `none` is NULL.
pub record InstallContext : Type 0 where
  pub phase : Phase
  pub size_in_phase : ℕ
  pub total_received_size : ℕ
  pub request_action : ℕ
  pub request_fmt : ℕ
  pub request_mid : ℕ
  pub request_sender : ℕ
  pub request_url_len : ℕ
  pub wasm_app_size : ℕ
  pub request_url : Option (List ℕ)
  pub app_file : WasmAppFile
  pub app_file_magic : ℕ

-- `memset(&recv_ctx, 0, sizeof(recv_ctx))`.
abbrev pub idle : InstallContext
idle = record {
  phase = phase_req_ver;
  size_in_phase = 0;
  total_received_size = 0;
  request_action = 0;
  request_fmt = 0;
  request_mid = 0;
  request_sender = 0;
  request_url_len = 0;
  wasm_app_size = 0;
  request_url = none;
  app_file = record { magic = 0; version = 0; sections = [] };
  app_file_magic = 0;
}

-- The request for the app manager's queue. Its payload is the file, and its sender is the host.
pub record InstallRequest : Type 0 where
  pub action : ℕ
  pub fmt : ℕ
  pub url : List ℕ
  pub mid : ℕ
  pub file : WasmAppFile

-- The calls that leave the file: a response with an error to the host, the request posted to the
-- queue, and sections given back.
pub data Effect : Type 0 where
  respond_error : ℕ → Effect
  post : InstallRequest → Effect
  destroy : List Section → Effect

-- `package_type_t`, as far as the receiver tells it apart.
pub data PackageType : Type 0 where
  package_bytecode package_aot package_unknown : PackageType

-- What the receiver calls. `malloc` and `os_mmap` give a block of any content or fail; `new_section`
-- says whether the node of a section can be allocated, and the Booleans from `request_malloc` on what
-- succeeds of the calls that make and post a request. `section_type_max` is as the features of the
-- build say.
pub record Loader : Type 0 where
  pub malloc : ℕ → Option (List ℕ)
  pub os_mmap : ℕ → Option (List ℕ)
  pub new_section : Bool
  pub get_package_type : ℕ → PackageType
  pub plt_table_size : ℕ
  pub section_type_max : ℕ
  pub request_malloc : Bool
  pub url_dup : Bool
  pub payload_malloc : Bool
  pub new_msg : Bool
  pub post_msg : Bool

-- What becomes of one byte: it is received (`return true`), `return false` with the context as it is,
-- an error response and `goto fail`, or a write outside the memory.
pub data Arrival : Type 0 where
  received : InstallContext → List Effect → Arrival
  refused : InstallContext → List Effect → Arrival
  failed : InstallContext → Arrival
  outside : Arrival

-- `p[size_in_phase++] = ch` for an integer of some width, and whether it is complete.
unfoldable pub recv_integer : ℕ → ℕ → ℕ → ℕ → ℕ × Bool
recv_integer width value size ch =
    let next : ℕ = set_byte value size ch in
    if int_next size == width
    then ((if width == 4 then ntohl next else if width == 2 then ntohs next else next), true)
    else (next, false)

-- The context for the next byte: the next phase after a complete item, and else the next place.
abbrev pub advance : Bool → Phase → InstallContext → InstallContext
advance true next c = record c { phase = next; size_in_phase = 0 }
advance false next c = record c { size_in_phase = int_next c.size_in_phase }

-- `p[i] = ch` in a block, for the pattern `i` of an `int`.
unfoldable pub store : Option (List ℕ) → ℕ → ℕ → Outcome (List ℕ)
store none i ch = fault
store (some block) i ch =
    if ltb i (2 ^ 31) && ltb i (length block) then ok (set block i ch) else fault

abbrev pub with_sections : List Section → InstallContext → InstallContext
with_sections sections c = record c {
  app_file = record { magic = c.app_file.magic; version = c.app_file.version; sections = sections };
}

unfoldable pub on_req_ver : ℕ → InstallContext → Arrival
on_req_ver ch c =
    if ch == 1 then received (record c { phase = phase_req_action }) [] else refused c []

unfoldable pub on_req_action : ℕ → InstallContext → Arrival
on_req_action ch c =
    received (record c { request_action = ch; phase = phase_req_fmt; size_in_phase = 0 }) []

unfoldable pub on_req_fmt : ℕ → InstallContext → Arrival
on_req_fmt ch c =
    let r = recv_integer 2 c.request_fmt c.size_in_phase ch in
    received (advance r.1 phase_req_mid (record c { request_fmt = r.0 })) []

unfoldable pub on_req_mid : ℕ → InstallContext → Arrival
on_req_mid ch c =
    let r = recv_integer 4 c.request_mid c.size_in_phase ch in
    received (advance r.1 phase_req_sender (record c { request_mid = r.0 })) []

unfoldable pub on_req_sender : ℕ → InstallContext → Arrival
on_req_sender ch c =
    let r = recv_integer 4 c.request_sender c.size_in_phase ch in
    received (advance r.1 phase_req_url_len (record c { request_sender = r.0 })) []

unfoldable pub on_req_payload_len : ℕ → InstallContext → Arrival
on_req_payload_len ch c =
    let r = recv_integer 4 c.wasm_app_size c.size_in_phase ch in
    received (advance r.1 phase_req_url (record c { wasm_app_size = r.0 })) []

unfoldable pub on_req_url : ℕ → InstallContext → Arrival
on_req_url ch c = elim (store c.request_url c.size_in_phase ch) [
  | ok url ↦
      received
        (advance (int_next c.size_in_phase == c.request_url_len) phase_app_magic
          (record c { request_url = some url }))
        []
  | null ↦ outside
  | fault ↦ outside
]

module _ (loader : Loader) where
  unfoldable pub on_req_url_len : ℕ → InstallContext → Arrival
  on_req_url_len ch c =
      let r = recv_integer 2 c.request_url_len c.size_in_phase ch in
      let stored : InstallContext = record c { request_url_len = r.0 } in
      if r.1
      then elim (loader.malloc (r.0 + 1)) [
        | none ↦ failed stored
        | some block ↦
            received
              (advance true phase_req_payload_len
                (record stored { request_url = some (zeros (r.0 + 1)) }))
              []
      ]
      else received (advance false phase_req_payload_len stored) []

  -- `get_package_type` is asked about the four bytes in the memory.
  unfoldable pub on_app_magic : ℕ → InstallContext → Arrival
  on_app_magic ch c =
      let magic : ℕ = set_byte c.app_file_magic c.size_in_phase ch in
      let stored : InstallContext = record c { app_file_magic = magic } in
      let with_magic : InstallContext = record stored {
        app_file = record {
          magic = magic;
          version = c.app_file.version;
          sections = c.app_file.sections;
        };
      } in
      if int_next c.size_in_phase == 4
      then elim (loader.get_package_type magic) [
        | package_bytecode ↦ received (advance true phase_wasm_version with_magic) []
        | package_aot ↦ received (advance true phase_aot_version with_magic) []
        | package_unknown ↦ failed stored
      ]
      else received (advance false phase_wasm_version stored) []

  -- The request that is posted, or nothing where a call fails.
  unfoldable pub module_wasm_app_handle_install_msg : InstallContext → Option InstallRequest
  module_wasm_app_handle_install_msg c =
      if not loader.request_malloc
      then none
      else if not loader.url_dup || not loader.payload_malloc
      then none
      else if not loader.new_msg
      then none
      else if loader.post_msg
      then some (record {
        action = c.request_action;
        fmt = c.request_fmt;
        url = elim c.request_url [ none ↦ [] | some block ↦ c_string block ];
        mid = c.request_mid;
        file = c.app_file;
      })
      else none

  -- The end of a section: of the whole request, or of one of its sections.
  unfoldable pub on_section_end : ℕ → Phase → InstallContext → Arrival
  on_section_end request_total_size next c =
      if c.total_received_size == request_total_size
      then elim (module_wasm_app_handle_install_msg c) [
        | some request ↦ received idle (post request ∷ [])
        | none ↦ refused c (respond_error c.request_mid ∷ [])
      ]
      else received (advance true next c) []

-- `destroy_all_wasm_sections` and `destroy_all_aot_sections`: they give back every section.
abbrev pub destroy_all_sections : List Section → List Effect
destroy_all_sections sections = destroy sections ∷ []

-- What is done at `fail`.
unfoldable pub on_fail : Loader → InstallContext → List Effect
on_fail loader c = elim (loader.get_package_type c.app_file_magic) [
  | package_bytecode ↦ destroy_all_sections c.app_file.sections
  | package_aot ↦ destroy_all_sections c.app_file.sections
  | package_unknown ↦ []
]
