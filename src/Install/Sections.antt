-- ===== src/Install/Sections.antt =====
-- The sections of a file of byte code, as wasm_app_module_on_install_request_byte_arrive of
-- app-mgr/app-manager/module_wasm_app.c receives them.
use wamr_app_framework.Prelude.{
  ◌^◌, ◌<◌, int_next, ℕ, ◌+◌, ◌≤◌, ◌≡◌, sym, ap, ◌∙◌, List, [], ◌∷◌, ◌++◌, append-nil, append_assoc,
  true, some, set, length, length-set, length-append, All, arith,
}
use wamr_app_framework.Restful.{ok}
use wamr_app_framework.Restful.Packet.{c_string}
use wamr_app_framework.Install.{
  InstallContext, InstallRequest, Effect, post, idle, Loader, Section, with_sections,
  phase_wasm_section_type, phase_wasm_section_content, on_section_end,
  module_wasm_app_handle_install_msg,
}
use wamr_app_framework.Install.Receive.{count_byte, byte_in, receive_bytes}
use wamr_app_framework.Install.Bytecode.{on_wasm_section_type, on_wasm_section_content}
use wamr_app_framework.Install.Header.{run}
use wamr_app_framework.Install.Fill.{continue, run-continue, fill, fill-append, store-set}
use wamr_app_framework.Install.Leb.{leb_bytes, in_size, sized, run-leb_bytes}

-- A section of a file, and its bytes in the request.
pub record FileSection : Type 0 where
  pub section_type : ℕ
  pub body : List ℕ

abbrev pub section_bytes : FileSection → List ℕ
section_bytes s = s.section_type ∷ (leb_bytes 4 (length s.body) ++ s.body)

unfoldable pub sections_bytes : List FileSection → List ℕ
sections_bytes [] = []
sections_bytes (s ∷ sections) = section_bytes s ++ sections_bytes sections

-- The node for a section, and the list when all have been received.
abbrev pub section_of : FileSection → Section
section_of s = record {
  section_type = s.section_type;
  section_body_size = length s.body;
  section_body = some s.body;
}

unfoldable pub link_sections : List FileSection → List Section → List Section
link_sections [] before = before
link_sections (s ∷ sections) before = link_sections sections (section_of s ∷ before)

-- A type that the build knows, and a body that is not empty and has a size of 32 bits.
abbrev pub IsFileSection : Loader → FileSection → Type 0
IsFileSection loader s =
    (s.section_type ≤ loader.section_type_max) × (0 < length s.body) × (length s.body < 2 ^ 32)

-- Every allocation succeeds, with a block of the length asked for, and so do the calls that post.
pub record IsRoomy (loader : Loader) : Type 0 where
  pub block : (n : ℕ) → (b : List ℕ) × (loader.malloc n ≡ some b) × (length b ≡ n)
  pub new_section : loader.new_section ≡ true
  pub request_malloc : loader.request_malloc ≡ true
  pub url_dup : loader.url_dup ≡ true
  pub payload_malloc : loader.payload_malloc ≡ true
  pub new_msg : loader.new_msg ≡ true
  pub post_msg : loader.post_msg ≡ true

-- The request that is posted for what was received.
abbrev pub request_of : InstallContext → List ℕ → List Section → InstallRequest
request_of c url_block sections = record {
  action = c.request_action;
  fmt = c.request_fmt;
  url = c_string url_block;
  mid = c.request_mid;
  file = record { magic = c.app_file.magic; version = c.app_file.version; sections = sections };
}

-- In front of a section.
abbrev pub in_type : InstallContext → List Section → ℕ → InstallContext
in_type c sections t =
    with_sections sections
      (record c { phase = phase_wasm_section_type; size_in_phase = 0; total_received_size = t })

-- In the body of the last section, with `i` bytes of it stored.
abbrev pub in_body : InstallContext → ℕ → List Section → ℕ → ℕ → ℕ → List ℕ → InstallContext
in_body c type before i t n block =
    with_sections
      (record { section_type = type; section_body_size = n; section_body = some block } ∷ before)
      (record c { phase = phase_wasm_section_content; size_in_phase = i; total_received_size = t })

module _ (loader : Loader) (T : ℕ) (effects : List Effect) where
  run_body :
      (c : InstallContext) (type : ℕ) (before : List Section) (i t n b : ℕ)
      (bytes block rest : List ℕ)
      → i + length (b ∷ bytes) ≤ length block
      → n ≡ i + length (b ∷ bytes)
      → n < 2 ^ 31
      → t + length (b ∷ bytes) < 2 ^ 32
      → run loader T effects ((b ∷ bytes) ++ rest) (in_body c type before i t n block)
        ≡ continue loader T effects rest (
            on_section_end loader T phase_wasm_section_type
              (in_body c type before n (t + length (b ∷ bytes)) n (fill i (b ∷ bytes) block)))
  unfolding fill
  run_body c type before i t n b [] block rest h l small room =
      let stored = store-set block i b (omega arith) (omega arith) in
      let next_i : int_next i ≡ i + 1 = omega arith in
      let next_t : int_next t ≡ t + 1 = omega arith in
      let here : i + 1 ≡ n = omega arith in
      run-continue loader T effects b rest (in_body c type before i t n block)
      ∙ (unfold count_byte byte_in on_wasm_section_content in
          ground (arith, stored, here, next_i, next_t))
  run_body c type before i t n b (b' ∷ bytes) block rest h l small room =
      let stored = store-set block i b (omega arith) (omega arith) in
      let next_i : int_next i ≡ i + 1 = omega arith in
      let next_t : int_next t ≡ t + 1 = omega arith in
      let again : t + 1 + length (b' ∷ bytes) ≡ t + length (b ∷ b' ∷ bytes) = omega arith in
      let step : run loader T effects (b ∷ b' ∷ (bytes ++ rest)) (in_body c type before i t n block)
          ≡ run loader T effects (b' ∷ (bytes ++ rest))
              (in_body c type before (i + 1) (t + 1) n (set block i b)) =
        run-continue loader T effects b (b' ∷ (bytes ++ rest)) (in_body c type before i t n block)
        ∙ (unfold count_byte byte_in on_wasm_section_content continue in
            ground (arith, stored, l, next_i, next_t)) in
      step
      ∙ run_body c type before (i + 1) (t + 1) n b' bytes (set block i b) rest
          (omega (arith, length-set block i b)) (omega arith) small (omega arith)
      ∙ ap
          (λ x. continue loader T effects rest (
            on_section_end loader T phase_wasm_section_type
              (in_body c type before n x n (fill i (b ∷ b' ∷ bytes) block))))
          again

  run_whole_body :
      (c : InstallContext) (type : ℕ) (before : List Section) (t : ℕ) (body block rest : List ℕ)
      → 0 < length body
      → length block ≡ length body
      → length body < 2 ^ 31
      → t + length body < 2 ^ 32
      → run loader T effects (body ++ rest) (sized c type before t (length body) block)
        ≡ continue loader T effects rest (
            on_section_end loader T phase_wasm_section_type
              (in_body c type before (length body) (t + length body) (length body) body))
  run_whole_body c type before t [] block rest h len small room = absurd (omega arith)
  run_whole_body c type before t (b ∷ bytes) block rest h len small room =
      let filled : fill 0 (b ∷ bytes) block ≡ b ∷ bytes =
        ap (fill 0 (b ∷ bytes)) (sym (append-nil block))
        ∙ fill-append (b ∷ bytes) block [] len
        ∙ append-nil (b ∷ bytes) in
      run_body c type before 0 t (length (b ∷ bytes)) b bytes block rest (omega arith) (omega arith)
        small room
      ∙ ap
          (λ x. continue loader T effects rest (
            on_section_end loader T phase_wasm_section_type (
              in_body c type before (length (b ∷ bytes)) (t + length (b ∷ bytes))
                (length (b ∷ bytes)) x)))
          filled

  -- A whole section, from its type to the end of its body.
  run_section :
      (c : InstallContext) (s : FileSection) (before : List Section) (t : ℕ) (rest : List ℕ)
      → IsRoomy loader
      → IsFileSection loader s
      → t + length (section_bytes s) < 2 ^ 31
      → run loader T effects (section_bytes s ++ rest) (in_type c before t)
        ≡ continue loader T effects rest (
            on_section_end loader T phase_wasm_section_type (
              in_body c s.section_type before
                (length s.body)
                (t + length (section_bytes s))
                (length s.body)
                s.body))
  run_section c s before t rest roomy (known, nonempty, small) room =
      let next_t : int_next t ≡ t + 1 = omega arith in
      let n = length s.body in
      let (block, given, len) = roomy.block n in
      let made = roomy.new_section in
      let type_run : run loader T effects (section_bytes s ++ rest) (in_type c before t)
          ≡ run loader T effects ((leb_bytes 4 n ++ s.body) ++ rest)
              (in_size c s.section_type before 0 (t + 1) 0) =
        run-continue loader T effects s.section_type ((leb_bytes 4 n ++ s.body) ++ rest)
          (in_type c before t)
        ∙ (unfold count_byte byte_in on_wasm_section_type continue in
            ground (arith, made, known, next_t)) in
      let split = append_assoc (leb_bytes 4 n) s.body rest in
      let size_run =
        run-leb_bytes loader T effects c s.section_type before (t + 1) n block (s.body ++ rest)
          small (omega arith) given in
      let body_run =
        run_whole_body c s.section_type before (t + 1 + length (leb_bytes 4 n)) s.body block rest
          nonempty len (omega (arith, length-append (leb_bytes 4 n) s.body))
          (omega (arith, length-append (leb_bytes 4 n) s.body)) in
      let count : t + 1 + length (leb_bytes 4 n) + length s.body ≡ t + length (section_bytes s) =
        omega (arith, length-append (leb_bytes 4 n) s.body) in
      type_run
      ∙ ap (λ l. run loader T effects l (in_size c s.section_type before 0 (t + 1) 0)) split
      ∙ size_run
      ∙ body_run
      ∙ ap
          (λ x. continue loader T effects rest (
            on_section_end loader T phase_wasm_section_type
              (in_body c s.section_type before n x n s.body)))
          count

  handled :
      (c : InstallContext) (url_block : List ℕ)
      → IsRoomy loader
      → c.request_url ≡ some url_block
      → module_wasm_app_handle_install_msg loader c
        ≡ some (request_of c url_block c.app_file.sections)
  unfolding module_wasm_app_handle_install_msg
  handled c url_block roomy u = ground (
    arith, roomy.request_malloc, roomy.url_dup, roomy.payload_malloc, roomy.new_msg, roomy.post_msg,
    u,
  )

  -- The sections of a file to its end, where the request's size is reached: the request is posted with
  -- all sections, and the context is idle.
  pub run-sections_bytes :
      (c : InstallContext) (url_block : List ℕ) (s : FileSection) (sections : List FileSection)
      (before : List Section) (t : ℕ)
      → IsRoomy loader
      → IsFileSection loader s
      → All (IsFileSection loader) sections
      → c.request_url ≡ some url_block
      → T ≡ t + length (sections_bytes (s ∷ sections))
      → T < 2 ^ 31
      → run loader T effects (sections_bytes (s ∷ sections)) (in_type c before t)
        ≡ ok (record {
          context = idle;
          effects = post (request_of c url_block (link_sections (s ∷ sections) before)) ∷ effects;
        })
  unfolding sections_bytes link_sections
  run-sections_bytes c url_block s [] before t roomy h hs u total int_total =
      let here : t + length (section_bytes s) ≡ T =
        omega (arith, length-append (section_bytes s) []) in
      let last =
        in_body c s.section_type before (length s.body) (t + length (section_bytes s))
          (length s.body) s.body in
      let posts = handled last url_block roomy u in
      run_section c s before t [] roomy h (omega arith)
      ∙ (unfold on_section_end continue receive_bytes in ground (arith, here, posts))
  run-sections_bytes c url_block s (s' ∷ sections) before t roomy h (h', hs) u total int_total =
      let rest = sections_bytes (s' ∷ sections) in
      let more : T ≡ t + length (section_bytes s) + length rest =
        omega (arith, length-append (section_bytes s) rest) in
      let nonempty : 0 < length rest = omega arith in
      let onward : continue loader T effects rest (
            on_section_end loader T phase_wasm_section_type (
              in_body c s.section_type before (length s.body) (t + length (section_bytes s))
                (length s.body) s.body))
          ≡ run loader T effects rest
              (in_type c (section_of s ∷ before) (t + length (section_bytes s))) =
        unfold on_section_end continue in ground (arith, more, nonempty) in
      run_section c s before t rest roomy h (omega arith)
      ∙ onward
      ∙ run-sections_bytes c url_block s' sections (section_of s ∷ before)
          (t + length (section_bytes s)) roomy h' hs u more int_total
