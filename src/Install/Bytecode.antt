-- ===== src/Install/Bytecode.antt =====
-- The phases for a file of WebAssembly byte code: app-mgr/app-manager/module_wasm_app.c.
use wamr_app_framework.Prelude.{
  int_next, ℕ, ◌*◌, ◌%◌, ◌^◌, List, [], ◌∷◌, true, false, none, some, leb, ltb, ◌==◌, if◌then◌else◌,
  get_or,
}
use Prim.Native.Nat.{bit_or}
use wamr_app_framework.Restful.{ok, null, fault}
use wamr_app_framework.HostLink.{set_byte}
use wamr_app_framework.Install.{
  InstallContext, Loader, Arrival, received, failed, outside, advance, store, with_sections,
  on_section_end, phase_wasm_section_type, phase_wasm_section_size, phase_wasm_section_content,
}

abbrev pub wasm_bytecode_version : List ℕ
wasm_bytecode_version = 1 ∷ 0 ∷ 0 ∷ 0 ∷ []

unfoldable pub on_wasm_version : ℕ → InstallContext → Arrival
on_wasm_version ch c =
    if ch == get_or wasm_bytecode_version c.size_in_phase 0
    then received
        (advance (int_next c.size_in_phase == 4) phase_wasm_section_type (record c {
          app_file = record {
            magic = c.app_file.magic;
            version = set_byte c.app_file.version c.size_in_phase ch;
            sections = c.app_file.sections;
          };
        }))
        []
    else failed c

module _ (loader : Loader) where
  unfoldable pub on_wasm_section_type : ℕ → InstallContext → Arrival
  on_wasm_section_type ch c =
      if leb ch loader.section_type_max
      then if loader.new_section
        then received
            (advance true phase_wasm_section_size (
              with_sections
                (record { section_type = ch; section_body_size = 0; section_body = none }
                  ∷ c.app_file.sections)
                c))
            []
        else failed c
      else failed c

  -- One byte of the LEB128 of the size; after five the code gives up.
  unfoldable pub on_wasm_section_size : ℕ → InstallContext → Arrival
  on_wasm_section_size ch c = elim c.app_file.sections [
    | [] ↦ outside
    | section ∷ before ↦
        let size : ℕ =
          bit_or section.section_body_size (ch % 128 * 2 ^ (c.size_in_phase * 7) % 2 ^ 32) in
        let sized : InstallContext =
          with_sections (record section { section_body_size = size } ∷ before) c in
        if ltb 5 (int_next c.size_in_phase)
        then failed sized
        else if ltb ch 128
        then elim (loader.malloc size) [
          | none ↦ failed sized
          | some block ↦
              received
                (advance true phase_wasm_section_content (
                  with_sections
                    (record section { section_body_size = size; section_body = some block }
                      ∷ before)
                    c))
                []
        ]
        else received (advance false phase_wasm_section_content sized) []
  ]

  unfoldable pub on_wasm_section_content : ℕ → ℕ → InstallContext → Arrival
  on_wasm_section_content ch request_total_size c = elim c.app_file.sections [
    | [] ↦ outside
    | section ∷ before ↦ elim (store section.section_body c.size_in_phase ch) [
      | null ↦ outside
      | fault ↦ outside
      | ok body ↦
          let stored : InstallContext =
            with_sections (record section { section_body = some body } ∷ before)
              (record c { size_in_phase = int_next c.size_in_phase }) in
          if int_next c.size_in_phase == section.section_body_size
          then on_section_end loader request_total_size phase_wasm_section_type stored
          else received stored []
    ]
  ]
