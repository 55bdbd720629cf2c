-- ===== src/Install/Places/Bytecode.antt =====
-- Every byte of a file of byte code has a place: app-mgr/app-manager/module_wasm_app.c.
use Prim.Native.Nat.{bit_or}
use wamr_app_framework.Prelude.{
  int_next, ◌≤◌, ◌<◌, ◌^◌, ℕ, ◌*◌, ◌%◌, ◌≡◌, refl, ◌⊎◌, inl, inr, List, [], ◌∷◌, true, false,
  Bool-cases, none, some, Option-cases, leb, ltb, ◌==◌, set, length-set, arith,
}
use wamr_app_framework.Install.{
  phase_wasm_version, phase_wasm_section_type, phase_wasm_section_size, phase_wasm_section_content,
  InstallContext, Section, Loader, advance, received, failed, with_sections, on_section_end,
}
use wamr_app_framework.Install.Bytecode.{
  on_wasm_version, on_wasm_section_type, on_wasm_section_size, on_wasm_section_content,
}
use wamr_app_framework.Install.Fill.{store-set}
use wamr_app_framework.Install.Places.{
  int_length, HasSection, HasBody, HasPlace, AwaitsEmpty, GivesBlocks, Lands, landing,
  on_section_end-Lands,
}

module _ (loader : Loader) where
  pub on_wasm_version-Lands :
      (ch : ℕ) (c : InstallContext)
      → c.phase ≡ phase_wasm_version
      → c.size_in_phase < 4
      → Lands loader (on_wasm_version ch c)
  unfolding on_wasm_version Lands HasPlace
  on_wasm_version-Lands ch c e h = ground (arith, e)

  pub on_wasm_section_type-Lands :
      (ch : ℕ) (c : InstallContext) → Lands loader (on_wasm_section_type loader ch c)
  unfolding on_wasm_section_type Lands HasPlace
  on_wasm_section_type-Lands ch c =
      let s : Section = record { section_type = ch; section_body_size = 0; section_body = none } in
      elim (Bool-cases (leb ch loader.section_type_max)) [
        | inr wrong ↦ rw wrong tt
        | inl known ↦ elim (Bool-cases loader.new_section) [
          | inr full ↦ rw (known, full) tt
          | inl made ↦ rw (known, made) (inl (s, c.app_file.sections, refl))
        ]
      ]

  -- In front of a body whose block is long enough.
  pub body_place :
      (c : InstallContext) (s : Section) (before : List Section) (block : List ℕ)
      → c.app_file.sections ≡ s ∷ before
      → s.section_body ≡ some block
      → s.section_body_size ≤ int_length block
      → c.size_in_phase ≡ 0
      → HasBody c
        ⊎ ((s : Section) × (before : List Section) × (c.app_file.sections ≡ s ∷ before)
            × (s.section_body_size ≡ 0))
  body_place c s before block e b le z = elim (Bool-cases (s.section_body_size == 0)) [
    | inl empty ↦ inr (s, before, e, (ground arith))
    | inr given ↦ inl (s, before, block, e, b, (ground arith), le)
  ]

  pub on_wasm_section_size-Lands :
      (ch : ℕ) (c : InstallContext)
      → GivesBlocks loader
      → c.phase ≡ phase_wasm_section_size
      → HasSection c
      → Lands loader (on_wasm_section_size loader ch c)
  unfolding on_wasm_section_size
  on_wasm_section_size-Lands ch c blocks e (s, before, l) =
      let size : ℕ = bit_or s.section_body_size (ch % 128 * 2 ^ (c.size_in_phase * 7) % 2 ^ 32) in
      let s' : Section = record s { section_body_size = size } in
      let c' = with_sections (s' ∷ before) c in
      elim (Bool-cases (ltb 5 (int_next c.size_in_phase))) [
        | inl long ↦ landing loader {b = failed c'} (ground (arith, l, long)) (unfold Lands in tt)
        | inr fits ↦ elim (Bool-cases (ltb ch 128)) [
          | inr more ↦
              landing loader {b = received (advance false phase_wasm_section_content c') []}
                (ground (arith, l, fits, more))
                (unfold Lands in rw e (inl (unfold HasPlace in (s', before, refl))))
          | inl last ↦ elim (Option-cases (loader.malloc size)) [
            | inl none_given ↦
                landing loader {b = failed c'} (ground (arith, l, fits, last, none_given))
                  (unfold Lands in tt)
            | inr (block, given) ↦
                let sized : Section = record s {
                  section_body_size = size;
                  section_body = some block;
                } in
                let next =
                  advance true phase_wasm_section_content (with_sections (sized ∷ before) c) in
                let place =
                  body_place next sized before block refl refl
                    (omega (
                      arith,
                      (blocks.malloc_length size block given).0,
                      (blocks.malloc_length size block given).1,
                    ))
                    refl in
                landing loader {b = received next []} (ground (arith, l, fits, last, given))
                  (unfold Lands HasPlace AwaitsEmpty in place)
          ]
        ]
      ]

  -- In the body of a section, one byte further.
  pub body_next :
      (c : InstallContext) (s : Section) (before : List Section) (block : List ℕ) (ch : ℕ)
      → c.size_in_phase < s.section_body_size
      → s.section_body_size ≤ int_length block
      → (int_next c.size_in_phase == s.section_body_size) ≡ false
      → HasBody (
          with_sections
            (record s { section_body = some (set block c.size_in_phase ch) } ∷ before)
            (record c { size_in_phase = int_next c.size_in_phase }))
  body_next c s before block ch lt le more = (
    record s { section_body = some (set block c.size_in_phase ch) },
    before,
    set block c.size_in_phase ch,
    refl,
    refl,
    (ground arith),
    (omega (arith, length-set block c.size_in_phase ch)),
  )

  pub on_wasm_section_content-Lands :
      (ch T : ℕ) (c : InstallContext)
      → c.phase ≡ phase_wasm_section_content
      → HasBody c
      → Lands loader (on_wasm_section_content loader ch T c)
  unfolding on_wasm_section_content
  on_wasm_section_content-Lands ch T c e (s, before, block, l, b, lt, le) =
      let i = c.size_in_phase in
      let stored = store-set block i ch (omega arith) (omega arith) in
      let next =
        with_sections (record s { section_body = some (set block i ch) } ∷ before)
          (record c { size_in_phase = int_next i }) in
      elim (Bool-cases (int_next i == s.section_body_size)) [
        | inl last ↦
            landing loader {b = on_section_end loader T phase_wasm_section_type next}
              (ground (arith, l, b, stored, last))
              (on_section_end-Lands loader T phase_wasm_section_type next (unfold HasPlace in tt))
        | inr more ↦
            let place = body_next c s before block ch lt le more in
            landing loader {b = received next []} (ground (arith, l, b, stored, more))
              (unfold Lands in rw e (inl (unfold HasPlace in place)))
      ]
