-- ===== src/Install/Aot.antt =====
-- The phases for a file compiled ahead of time: app-mgr/app-manager/module_wasm_app.c. Its integers are
-- little-endian.
use wamr_app_framework.Prelude.{
  int_next, ℕ, ◌+◌, ◌-◌, ◌*◌, ◌/◌, ◌%◌, ◌^◌, List, [], ◌∷◌, ◌++◌, true, false, ◌||◌, none, some,
  leb, ltb, ◌==◌, if◌then◌else◌, get_or, take, drop, length, zeros,
}
use wamr_app_framework.Restful.{Outcome, ok, null, fault}
use wamr_app_framework.HostLink.{set_byte}
use wamr_app_framework.Install.{
  InstallContext, Section, Loader, Arrival, received, failed, outside, advance, store,
  with_sections, on_section_end, phase_aot_section_id, phase_aot_section_size,
  phase_aot_section_content,
}

abbrev pub wasm_aot_version : List ℕ
wasm_aot_version = 2 ∷ 0 ∷ 0 ∷ 0 ∷ []

abbrev pub aot_section_type_text : ℕ
aot_section_type_text = 2

abbrev pub aot_section_type_siganature : ℕ
aot_section_type_siganature = 6

abbrev pub aot_section_type_custom : ℕ
aot_section_type_custom = 100

unfoldable pub on_aot_version : ℕ → InstallContext → Arrival
on_aot_version ch c =
    if ch == get_or wasm_aot_version c.size_in_phase 0
    then received
        (advance (int_next c.size_in_phase == 4) phase_aot_section_id (record c {
          app_file = record {
            magic = c.app_file.magic;
            version = set_byte c.app_file.version c.size_in_phase ch;
            sections = c.app_file.sections;
          };
        }))
        []
    else failed c

-- The size of the text section with the table behind it, rounded up to a multiple of 4.
abbrev pub text_size : ℕ → ℕ → ℕ
text_size plt_table_size size = (size + plt_table_size + 3) / 4 * 4

-- The body's block: executable memory for the text section. `fault` where none is given, `null` for an
-- empty section.
unfoldable pub section_block : Loader → ℕ → ℕ → Outcome (List ℕ)
section_block loader type size =
    if size == 0
    then null
    else if type == aot_section_type_text
    then if leb (2 ^ 32 - 1) (text_size loader.plt_table_size size)
      then fault
      else elim (loader.os_mmap (text_size loader.plt_table_size size)) [
        | none ↦ fault
        | some block ↦ ok block
      ]
    else elim (loader.malloc size) [ none ↦ fault | some block ↦ ok block ]

-- The text section at its end: the memory behind the text is cleared, and the size includes it.
unfoldable pub close_section : ℕ → Section → List ℕ → Outcome Section
close_section plt_table_size section body =
    let size : ℕ = section.section_body_size in
    let total_size : ℕ = text_size plt_table_size size % 2 ^ 32 in
    if section.section_type == aot_section_type_text
    then if ltb size total_size
      then if leb total_size (length body)
        then ok (record {
          section_type = section.section_type;
          section_body_size = total_size;
          section_body =
              some (take size body ++ (zeros (total_size - size) ++ drop total_size body));
        })
        else fault
      else ok (record section { section_body = some body })
    else ok (record section { section_body = some body })

module _ (loader : Loader) where
  -- A byte of the section's type; padding in front of it, up to an offset of the file that is a
  -- multiple of 4, is skipped.
  unfoldable pub store_section_type : ℕ → InstallContext → Section → List Section → Arrival
  store_section_type ch c section before =
      let type : ℕ = set_byte section.section_type c.size_in_phase ch in
      let stored : InstallContext =
        with_sections (record section { section_type = type } ∷ before) c in
      if int_next c.size_in_phase == 4
      then if ltb type aot_section_type_siganature || (type == aot_section_type_custom)
        then received (advance true phase_aot_section_size stored) []
        else failed stored
      else received (advance false phase_aot_section_size stored) []

  unfoldable pub on_aot_section_id : ℕ → InstallContext → Arrival
  on_aot_section_id ch c =
      if c.size_in_phase == 0
      then if (c.total_received_size + 2 ^ 32 - 1 - 18 - c.request_url_len) % 2 ^ 32 % 4 == 0
        then if loader.new_section
          then store_section_type ch c
              (record { section_type = 0; section_body_size = 0; section_body = none })
              c.app_file.sections
          else failed c
        else received c []
      else elim c.app_file.sections [
        | [] ↦ outside
        | section ∷ before ↦ store_section_type ch c section before
      ]

  unfoldable pub on_aot_section_size : ℕ → InstallContext → Arrival
  on_aot_section_size ch c = elim c.app_file.sections [
    | [] ↦ outside
    | section ∷ before ↦
        let size : ℕ = set_byte section.section_body_size c.size_in_phase ch in
        let sized : InstallContext =
          with_sections (record section { section_body_size = size } ∷ before) c in
        if int_next c.size_in_phase == 4
        then elim (section_block loader section.section_type size) [
          | fault ↦ failed sized
          | null ↦ received (advance true phase_aot_section_content sized) []
          | ok block ↦
              received
                (advance true phase_aot_section_content (
                  with_sections
                    (record section { section_body_size = size; section_body = some block }
                      ∷ before)
                    c))
                []
        ]
        else received (advance false phase_aot_section_content sized) []
  ]

  unfoldable pub on_aot_section_content : ℕ → ℕ → InstallContext → Arrival
  on_aot_section_content ch request_total_size c = elim c.app_file.sections [
    | [] ↦ outside
    | section ∷ before ↦ elim (store section.section_body c.size_in_phase ch) [
      | null ↦ outside
      | fault ↦ outside
      | ok body ↦
          let next : InstallContext = record c { size_in_phase = int_next c.size_in_phase } in
          if int_next c.size_in_phase == section.section_body_size
          then elim (close_section loader.plt_table_size section body) [
            | null ↦ outside
            | fault ↦ outside
            | ok closed ↦
                on_section_end loader request_total_size phase_aot_section_id
                  (with_sections (closed ∷ before) next)
          ]
          else received (with_sections (record section { section_body = some body } ∷ before) next)
              []
    ]
  ]
