-- ===== src/Install/Places/Aot.antt =====
-- Every byte of a file compiled ahead of time has a place: app-mgr/app-manager/module_wasm_app.c.
use wamr_app_framework.Prelude.{
  int_next, ◌≤◌, ◌<◌, ◌+◌, ◌^◌, ℕ, ◌-◌, ◌%◌, ◌≡◌, refl, sym, subst, ◌⊎◌, inl, inr, List, [], ◌∷◌,
  ◌++◌, true, false, ◌||◌, Bool-cases, none, some, Option-cases, leb, ltb, ◌==◌, set, take, drop,
  length, length-set, zeros, arith,
}
use wamr_app_framework.Restful.{ok, null, Outcome-cases}
use wamr_app_framework.Install.{
  phase_aot_version, phase_aot_section_id, phase_aot_section_size, phase_aot_section_content,
  InstallContext, Section, Loader, advance, received, failed, with_sections, on_section_end,
}
use wamr_app_framework.HostLink.{set_byte}
use wamr_app_framework.Install.Aot.{
  aot_section_type_text, aot_section_type_siganature, aot_section_type_custom, text_size,
  section_block, close_section, store_section_type, on_aot_version, on_aot_section_id,
  on_aot_section_size, on_aot_section_content,
}
use wamr_app_framework.Install.Fill.{store-set}
use wamr_app_framework.Install.Places.{
  int_length, HasSection, HasAotBody, HasPlace, AwaitsEmpty, GivesBlocks, Lands, landing,
  on_section_end-Lands,
}

module _ (loader : Loader) where
  pub on_aot_version-Lands :
      (ch : ℕ) (c : InstallContext)
      → c.phase ≡ phase_aot_version
      → c.size_in_phase < 4
      → Lands loader (on_aot_version ch c)
  unfolding on_aot_version Lands HasPlace
  on_aot_version-Lands ch c e h = ground (arith, e)

  pub store_section_type-Lands :
      (ch : ℕ) (c : InstallContext) (s : Section) (before : List Section)
      → c.phase ≡ phase_aot_section_id
      → c.size_in_phase < 4
      → Lands loader (store_section_type loader ch c s before)
  unfolding store_section_type
  store_section_type-Lands ch c s before e lt =
      let type : ℕ = set_byte s.section_type c.size_in_phase ch in
      let s' : Section = record s { section_type = type } in
      let stored = with_sections (s' ∷ before) c in
      elim (Bool-cases (int_next c.size_in_phase == 4)) [
        | inr more ↦
            let short : int_next c.size_in_phase < 4 = ground arith in
            landing loader {b = received (advance false phase_aot_section_size stored) []}
              (ground (arith, more))
              (unfold Lands in rw e (inl (unfold HasPlace in inr (short, (s', before, refl)))))
        | inl last ↦
            elim (Bool-cases
              (ltb type aot_section_type_siganature || (type == aot_section_type_custom))) [
                | inl known ↦
                    landing loader {b = received (advance true phase_aot_section_size stored) []}
                      (ground (arith, last, known))
                      (unfold Lands in inl (unfold HasPlace in (omega arith, (s', before, refl))))
                | inr wrong ↦
                    landing loader {b = failed stored} (ground (arith, last, wrong))
                      (unfold Lands in tt)
              ]
      ]

  pub on_aot_section_id-Lands :
      (ch : ℕ) (c : InstallContext)
      → c.phase ≡ phase_aot_section_id
      → (c.size_in_phase ≡ 0) ⊎ ((c.size_in_phase < 4) × HasSection c)
      → Lands loader (on_aot_section_id loader ch c)
  unfolding on_aot_section_id
  on_aot_section_id-Lands ch c e place =
      let aligned =
        (c.total_received_size + 2 ^ 32 - 1 - 18 - c.request_url_len) % 2 ^ 32 % 4 == 0 in
      let fresh : Section = record {
        section_type = 0;
        section_body_size = 0;
        section_body = none;
      } in
      elim (Bool-cases (c.size_in_phase == 0)) [
        | inl start ↦ elim (Bool-cases aligned) [
          | inr padding ↦
              let zero_stored : c.size_in_phase ≡ 0 = ground arith in
              landing loader {b = received c []} (ground (arith, start, padding))
                (unfold Lands in rw e (inl (unfold HasPlace in inl zero_stored)))
          | inl here ↦ elim (Bool-cases loader.new_section) [
            | inl made ↦
                landing loader {b = store_section_type loader ch c fresh c.app_file.sections}
                  (ground (arith, start, here, made))
                  (store_section_type-Lands ch c fresh c.app_file.sections e (ground arith))
            | inr full ↦
                landing loader {b = failed c} (ground (arith, start, here, full))
                  (unfold Lands in tt)
          ]
        ]
        | inr later ↦ elim place [
          | inl z ↦ absurd (ground arith)
          | inr (lt, (s, before, l)) ↦
              landing loader {b = store_section_type loader ch c s before}
                (ground (arith, later, l)) (store_section_type-Lands ch c s before e lt)
        ]
      ]

  pub section_block-length :
      (type size : ℕ) (block : List ℕ)
      → GivesBlocks loader
      → section_block loader type size ≡ ok block
      → (0 < size)
        × (size ≤ int_length block)
        × (type ≡ aot_section_type_text
            → text_size loader.plt_table_size size % 2 ^ 32 ≤ length block)
  unfolding section_block
  section_block-length type size block blocks e =
      elim (Option-cases (loader.os_mmap (text_size loader.plt_table_size size))) [
        | inl no_text ↦ elim (Option-cases (loader.malloc size)) [
          | inl no_block ↦ absurd (ground (arith, e, no_text, no_block))
          | inr (b, given) ↦
              let len = blocks.malloc_length size b given in ground (arith, e, no_text, given, len)
        ]
        | inr (text, given_text) ↦
            let text_len =
              blocks.os_mmap_length (text_size loader.plt_table_size size) text given_text in
            elim (Option-cases (loader.malloc size)) [
              | inl no_block ↦ ground (arith, e, given_text, no_block, text_len)
              | inr (b, given) ↦
                  let len = blocks.malloc_length size b given in
                  ground (arith, e, given_text, given, len, text_len)
            ]
      ]

  pub section_block_none : (type size : ℕ) → section_block loader type size ≡ null → size ≡ 0
  unfolding section_block
  section_block_none type size e =
      elim (Option-cases (loader.os_mmap (text_size loader.plt_table_size size))) [
        | inl no_text ↦ elim (Option-cases (loader.malloc size)) [
          | inl no_block ↦ ground (arith, e, no_text, no_block)
          | inr (b, given) ↦ ground (arith, e, no_text, given)
        ]
        | inr (text, given_text) ↦ elim (Option-cases (loader.malloc size)) [
          | inl no_block ↦ ground (arith, e, given_text, no_block)
          | inr (b, given) ↦ ground (arith, e, given_text, given)
        ]
      ]

  pub on_aot_section_size-Lands :
      (ch : ℕ) (c : InstallContext)
      → GivesBlocks loader
      → c.phase ≡ phase_aot_section_size
      → c.size_in_phase < 4
      → HasSection c
      → Lands loader (on_aot_section_size loader ch c)
  unfolding on_aot_section_size
  on_aot_section_size-Lands ch c blocks e lt (s, before, l) =
      let size : ℕ = set_byte s.section_body_size c.size_in_phase ch in
      let s' : Section = record s { section_body_size = size } in
      let c' = with_sections (s' ∷ before) c in
      elim (Bool-cases (int_next c.size_in_phase == 4)) [
        | inr more ↦
            let short : int_next c.size_in_phase < 4 = ground arith in
            landing loader {b = received (advance false phase_aot_section_content c') []}
              (ground (arith, l, more))
              (unfold Lands in rw e (inl (unfold HasPlace in (short, (s', before, refl)))))
        | inl last ↦ elim (Outcome-cases (section_block loader s.section_type size)) [
          | inr (inr failed_block) ↦
              landing loader {b = failed c'} (ground (arith, l, last, failed_block))
                (unfold Lands in tt)
          | inr (inl empty) ↦
              landing loader {b = received (advance true phase_aot_section_content c') []}
                (ground (arith, l, last, empty))
                (unfold Lands in
                  inr (
                    unfold AwaitsEmpty in
                    (s', before, refl, section_block_none s.section_type size empty)))
          | inl (block, given) ↦
              let sized : Section = record s {
                section_body_size = size;
                section_body = some block;
              } in
              let (positive, long, text) =
                section_block-length s.section_type size block blocks given in
              landing loader
                {b = received
                  (advance true phase_aot_section_content (with_sections (sized ∷ before) c)) []}
                (ground (arith, l, last, given))
                (unfold Lands in
                  inl (unfold HasPlace in (sized, before, block, refl, refl, positive, long, text)))
        ]
      ]

  pub close_section_ok :
      (s : Section) (body : List ℕ)
      → (s.section_type ≡ aot_section_type_text
          → text_size loader.plt_table_size s.section_body_size % 2 ^ 32 ≤ length body)
      → (closed : Section) × (close_section loader.plt_table_size s body ≡ ok closed)
  unfolding close_section
  close_section_ok s body text =
      let size = s.section_body_size in
      let total = text_size loader.plt_table_size size % 2 ^ 32 in
      elim (Bool-cases (s.section_type == aot_section_type_text)) [
        | inr other ↦ (record s { section_body = some body }, ground (arith, other))
        | inl is_text ↦ elim (Bool-cases (ltb size total)) [
          | inr short ↦ (record s { section_body = some body }, ground (arith, is_text, short))
          | inl table ↦
              let room : leb total (length body) ≡ true = ground (arith, text, is_text) in
              (
                record s {
                  section_body_size = total;
                  section_body = some (take size body ++ (zeros (total - size) ++ drop total body));
                },
                ground (arith, is_text, table, room),
              )
        ]
      ]

  pub on_aot_section_content-Lands :
      (ch T : ℕ) (c : InstallContext)
      → c.phase ≡ phase_aot_section_content
      → HasAotBody loader.plt_table_size c
      → Lands loader (on_aot_section_content loader ch T c)
  unfolding on_aot_section_content
  on_aot_section_content-Lands ch T c e (s, before, block, l, b, lt, le, text) =
      let i = c.size_in_phase in
      let stored = store-set block i ch (omega arith) (omega arith) in
      let kept = length-set block i ch in
      let text' = λ (is_text : s.section_type ≡ aot_section_type_text).
        subst (◌≤◌ (text_size loader.plt_table_size s.section_body_size % 2 ^ 32)) (sym kept)
          (text is_text) in
      let (closed, close) = close_section_ok s (set block i ch) text' in
      let one_more : InstallContext = record c { size_in_phase = int_next i } in
      elim (Bool-cases (int_next i == s.section_body_size)) [
        | inl last ↦
            let next = with_sections (closed ∷ before) one_more in
            landing loader {b = on_section_end loader T phase_aot_section_id next}
              (ground (arith, l, b, stored, last, close))
              (on_section_end-Lands loader T phase_aot_section_id next
                (unfold HasPlace in inl refl))
        | inr more ↦
            let s' : Section = record s { section_body = some (set block i ch) } in
            let further : int_next i < s.section_body_size = ground arith in
            landing loader {b = received (with_sections (s' ∷ before) one_more) []}
              (ground (arith, l, b, stored, more))
              (unfold Lands in
                rw e (
                  inl (
                    unfold HasPlace in
                    (
                      s',
                      before,
                      set block i ch,
                      refl,
                      refl,
                      further,
                      (omega (arith, kept)),
                      text',
                    ))))
      ]
