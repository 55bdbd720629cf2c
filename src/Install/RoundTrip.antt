-- ===== src/Install/RoundTrip.antt =====
-- A whole install request for a file of byte code, received by
-- wasm_app_module_on_install_request_byte_arrive of app-mgr/app-manager/module_wasm_app.c.
use wamr_app_framework.Prelude.{
  ◌^◌, ◌<◌, int_next, ℕ, zero, suc, ◌+◌, ◌/◌, ◌%◌, ◌≡◌, refl, ap, ◌∙◌, List, [], ◌∷◌, ◌++◌, some,
  length, length-append, length-zeros, zeros, htons_bytes, htonl_bytes, All, arith,
}
use wamr_app_framework.Restful.{ok}
use wamr_app_framework.Restful.Packet.RoundTrip.{IsChar, c_string-append}
use wamr_app_framework.HostLink.{set_byte}
use wamr_app_framework.Attributes.{u32_bytes}
use wamr_app_framework.Install.{
  InstallContext, InstallRequest, Effect, post, idle, Loader, Section, package_bytecode,
  phase_app_magic, phase_wasm_version, phase_wasm_section_type, on_app_magic,
}
use wamr_app_framework.Install.Receive.{
  count_byte, byte_in, on_arrival, wasm_app_module_on_install_request_byte_arrive, receive_bytes,
}
use wamr_app_framework.Install.Bytecode.{wasm_bytecode_version, on_wasm_version}
use wamr_app_framework.Install.Header.{run, header_bytes, headed, run-header_bytes}
use wamr_app_framework.Install.Fill.{continue, run-continue, fill, fill-append, in_url, run_url}
use wamr_app_framework.Install.Sections.{
  FileSection, sections_bytes, link_sections, IsFileSection, IsRoomy, run-sections_bytes,
}

-- A magic stored byte by byte.
abbrev stored_magic : ℕ → ℕ
stored_magic n =
    set_byte (set_byte (set_byte (set_byte 0 0 (n % 256)) 1 (n / 256 % 256)) 2 (n / 65536 % 256)) 3
      (n / 16777216 % 256)

stored_magic_eq : (n : ℕ) → n < 2 ^ 32 → stored_magic n ≡ n
unfolding set_byte
stored_magic_eq n h = omega arith

zeros_last : (n : ℕ) → zeros (n + 1) ≡ zeros n ++ (0 ∷ [])
unfolding zeros
zeros_last n = let e : n + 1 ≡ suc n = omega arith in ap zeros e ∙ go n
  where
    go : (n : ℕ) → zeros (suc n) ≡ zeros n ++ (0 ∷ [])
    go zero = refl
    go (suc n) = ap (◌∷◌ 0) (go n)

-- The context when the magic and the version have arrived.
abbrev in_file : InstallContext → ℕ → ℕ → List Section → InstallContext
in_file c t magic sections = record c {
  phase = phase_wasm_section_type;
  size_in_phase = 0;
  total_received_size = t;
  app_file = record { magic = magic; version = 1; sections = sections };
  app_file_magic = magic;
}

-- An install request: what the host sends.
pub record InstallSpec : Type 0 where
  pub action : ℕ
  pub fmt : ℕ
  pub mid : ℕ
  pub sender : ℕ
  pub url : List ℕ
  pub app_size : ℕ
  pub magic : ℕ
  pub section : FileSection
  pub sections : List FileSection

-- The bytes of the file, and of the request.
abbrev pub file_bytes : InstallSpec → List ℕ
file_bytes r =
    u32_bytes r.magic ++ (wasm_bytecode_version ++ sections_bytes (r.section ∷ r.sections))

abbrev pub install_bytes : InstallSpec → List ℕ
install_bytes r =
    header_bytes r.action r.fmt r.mid r.sender (length r.url) r.app_size (r.url ++ file_bytes r)

-- The fields fit their widths, the url is not empty, the magic is that of byte code, and the sections
-- are such that the loader takes.
pub record IsInstall (loader : Loader) (r : InstallSpec) : Type 0 where
  pub fmt_u16 : r.fmt < 2 ^ 16
  pub mid_u32 : r.mid < 2 ^ 32
  pub sender_u32 : r.sender < 2 ^ 32
  pub url_given : 0 < length r.url
  pub url_u16 : length r.url < 2 ^ 16
  pub url_chars : All IsChar r.url
  pub app_size_u32 : r.app_size < 2 ^ 32
  pub magic_u32 : r.magic < 2 ^ 32
  pub magic_bytecode : loader.get_package_type r.magic ≡ package_bytecode
  pub first : IsFileSection loader r.section
  pub others : All (IsFileSection loader) r.sections

-- The request for the app manager.
abbrev pub posted : InstallSpec → InstallRequest
posted r = record {
  action = r.action;
  fmt = r.fmt;
  url = r.url;
  mid = r.mid;
  file = record {
    magic = r.magic;
    version = 1;
    sections = link_sections (r.section ∷ r.sections) [];
  };
}

module _ (loader : Loader) (T : ℕ) (effects : List Effect) where
  abbrev in_magic : InstallContext → ℕ → ℕ → ℕ → InstallContext
  in_magic c t i m = record c {
    phase = phase_app_magic;
    size_in_phase = i;
    total_received_size = t;
    app_file_magic = m;
  }

  abbrev behind_magic : InstallContext → ℕ → ℕ → InstallContext
  behind_magic c t magic = record c {
    phase = phase_wasm_version;
    size_in_phase = 0;
    total_received_size = t;
    app_file = record {
      magic = magic;
      version = c.app_file.version;
      sections = c.app_file.sections;
    };
    app_file_magic = magic;
  }

  first_magic :
      (c : InstallContext) (t b₀ b₁ b₂ : ℕ) (rest : List ℕ)
      → run loader T effects (b₀ ∷ b₁ ∷ b₂ ∷ rest) (in_magic c t 0 0)
        ≡ run loader T effects rest (
            in_magic c
              (int_next (int_next (int_next t)))
              3
              (set_byte (set_byte (set_byte 0 0 b₀) 1 b₁) 2 b₂))
  unfolding receive_bytes on_arrival wasm_app_module_on_install_request_byte_arrive count_byte
      byte_in on_app_magic
  first_magic c t b₀ b₁ b₂ rest = refl

  last_magic :
      (c : InstallContext) (t m b magic : ℕ) (rest : List ℕ)
      → set_byte m 3 b ≡ magic
      → loader.get_package_type magic ≡ package_bytecode
      → run loader T effects (b ∷ rest) (in_magic c t 3 m)
        ≡ run loader T effects rest (behind_magic c (int_next t) magic)
  last_magic c t m b magic rest e kind =
      run-continue loader T effects b rest (in_magic c t 3 m)
      ∙ (unfold count_byte byte_in on_app_magic continue in ground (arith, e, kind))

  magic_bytes :
      (c : InstallContext) (t magic : ℕ) (rest : List ℕ)
      → magic < 2 ^ 32
      → t + 4 < 2 ^ 32
      → loader.get_package_type magic ≡ package_bytecode
      → run loader T effects (u32_bytes magic ++ rest) (in_magic c t 0 0)
        ≡ run loader T effects rest (behind_magic c (t + 4) magic)
  unfolding u32_bytes
  magic_bytes c t n rest lt room kind =
      first_magic c t (n % 256) (n / 256 % 256) (n / 65536 % 256) ((n / 16777216 % 256) ∷ rest)
      ∙ last_magic c (int_next (int_next (int_next t)))
          (set_byte (set_byte (set_byte 0 0 (n % 256)) 1 (n / 256 % 256)) 2 (n / 65536 % 256))
          (n / 16777216 % 256) n rest (stored_magic_eq n lt) kind
      ∙ ap (λ x. run loader T effects rest (behind_magic c x n)) (omega arith)

  version_bytes :
      (c : InstallContext) (t magic : ℕ) (sections : List Section) (rest : List ℕ)
      → run loader T effects (wasm_bytecode_version ++ rest) (record c {
        phase = phase_wasm_version;
        size_in_phase = 0;
        total_received_size = t;
        app_file = record { magic = magic; version = 0; sections = sections };
        app_file_magic = magic;
      })
        ≡ run loader T effects rest
            (in_file c (int_next (int_next (int_next (int_next t)))) magic sections)
  unfolding receive_bytes on_arrival wasm_app_module_on_install_request_byte_arrive count_byte
      byte_in on_wasm_version set_byte
  version_bytes c t magic sections rest = refl

  -- What the bytes of the url leave in its block.
  url_filled : (url : List ℕ) → fill 0 url (zeros (length url + 1)) ≡ url ++ (0 ∷ [])
  url_filled url =
      ap (fill 0 url) (zeros_last (length url))
      ∙ fill-append url (zeros (length url)) (0 ∷ []) (length-zeros (length url))

  url_bytes :
      (c : InstallContext) (t : ℕ) (url rest : List ℕ)
      → 0 < length url
      → c.request_url_len ≡ length url
      → length url < 2 ^ 16
      → t + length url < 2 ^ 32
      → run loader T effects (url ++ rest) (in_url c 0 t (zeros (length url + 1)))
        ≡ run loader T effects rest (record c {
          phase = phase_app_magic;
          size_in_phase = 0;
          total_received_size = t + length url;
          request_url = some (url ++ (0 ∷ []));
        })
  url_bytes c t [] rest h l small room = absurd (omega arith)
  url_bytes c t (b ∷ bytes) rest h l small room =
      run_url loader T effects c 0 t b bytes (zeros (length (b ∷ bytes) + 1)) rest
        (omega (arith, length-zeros (length (b ∷ bytes) + 1))) (omega arith) (omega arith) room
      ∙ ap
          (λ x. run loader T effects rest (record c {
            phase = phase_app_magic;
            size_in_phase = 0;
            total_received_size = t + length (b ∷ bytes);
            request_url = some x;
          }))
          (url_filled (b ∷ bytes))

-- An install request, received from the idle context as a request of its own length: it is posted to
-- the app manager with its fields, its url and the sections of its file, and the context is idle
-- again. The file is byte code, the request is well-formed and shorter than 2 ^ 31 bytes, and no
-- allocation fails.
pub receive_bytes-install_bytes :
    (loader : Loader) (effects : List Effect) (r : InstallSpec)
    → IsRoomy loader
    → IsInstall loader r
    → length (install_bytes r) < 2 ^ 31
    → receive_bytes loader
        (install_bytes r)
        (length (install_bytes r))
        (record { context = idle; effects = effects })
      ≡ ok (record { context = idle; effects = post (posted r) ∷ effects })
receive_bytes-install_bytes loader effects r roomy h int_size =
    let T = length (install_bytes r) in
    let n = length r.url in
    let file = wasm_bytecode_version ++ sections_bytes (r.section ∷ r.sections) in
    let (block, given, len) = roomy.block (n + 1) in
    let c = headed r.action r.fmt r.mid r.sender n r.app_size in
    let with_url : InstallContext = record c { request_url = some (r.url ++ (0 ∷ [])) } in
    let t : ℕ = 18 + n + 4 + 4 in
    let url_u16 = h.url_u16 in
    let counted : int_next (int_next (int_next (int_next (18 + n + 4)))) ≡ t = omega arith in
    let total : T ≡ t + length (sections_bytes (r.section ∷ r.sections)) =
      unfold htons_bytes htonl_bytes u32_bytes in
      omega (arith, length-append r.url (file_bytes r)) in
    run-header_bytes loader T effects r.action r.fmt r.mid r.sender n r.app_size block
      (r.url ++ file_bytes r) h.fmt_u16 h.mid_u32 h.sender_u32 h.url_u16 h.app_size_u32 given
    ∙ url_bytes loader T effects c 18 r.url (file_bytes r) h.url_given refl url_u16 (omega arith)
    ∙ magic_bytes loader T effects with_url (18 + n) r.magic file h.magic_u32 (omega arith)
        h.magic_bytecode
    ∙ version_bytes loader T effects with_url (18 + n + 4) r.magic []
        (sections_bytes (r.section ∷ r.sections))
    ∙ ap
        (λ x.
          run loader T effects (sections_bytes (r.section ∷ r.sections))
            (in_file with_url x r.magic []))
        counted
    ∙ run-sections_bytes loader T effects (in_file with_url t r.magic []) (r.url ++ (0 ∷ []))
        r.section r.sections [] t roomy h.first h.others refl total int_size
    ∙ ap
        (λ u. ok (record {
          context = idle;
          effects =
              post (record {
                action = r.action;
                fmt = r.fmt;
                url = u;
                mid = r.mid;
                file = record {
                  magic = r.magic;
                  version = 1;
                  sections = link_sections (r.section ∷ r.sections) [];
                };
              })
              ∷ effects;
        }))
        (c_string-append r.url [] h.url_chars)
