-- ===== src/Install/Places.antt =====
-- Every byte has a place: the bounds within which
-- wasm_app_module_on_install_request_byte_arrive of app-mgr/app-manager/module_wasm_app.c writes.
pub mod Request
pub mod Bytecode
pub mod Aot
pub mod Arrive
use Prim.Native.Nat.{bit_or}
use wamr_app_framework.Prelude.{
  int_next, ◌≤◌, ◌<◌, ◌+◌, min, ℕ, zero, suc, ◌-◌, ◌*◌, ◌/◌, ◌%◌, ◌^◌, ◌≡◌, refl, sym, ap, subst,
  ◌∙◌, ◌⊎◌, inl, inr, List, [], ◌∷◌, ◌++◌, Bool, true, false, ◌||◌, Bool-cases, Option, none, some,
  Option-cases, leb, ltb, ◌==◌, if◌then◌else◌, set, take, drop, length, length-set, length-zeros,
  zeros, arith,
}
use wamr_app_framework.Restful.{Outcome, ok, null, fault, Outcome-cases}
use wamr_app_framework.Install.{
  Phase, phase_req_ver, phase_req_action, phase_req_fmt, phase_req_mid, phase_req_sender,
  phase_req_url_len, phase_req_payload_len, phase_req_url, phase_app_magic, phase_wasm_version,
  phase_wasm_section_type, phase_wasm_section_size, phase_wasm_section_content, phase_aot_version,
  phase_aot_section_id, phase_aot_section_size, phase_aot_section_content, InstallContext, Section,
  idle, Effect, Loader, PackageType, package_bytecode, package_aot, package_unknown, advance,
  Arrival, received, refused, failed, outside, recv_integer, store, with_sections, on_req_ver,
  on_req_action, on_req_fmt, on_req_mid, on_req_sender, on_req_url_len, on_req_payload_len,
  on_req_url, on_app_magic, on_section_end, module_wasm_app_handle_install_msg,
}
use wamr_app_framework.HostLink.{set_byte}
use wamr_app_framework.Install.Bytecode.{
  on_wasm_version, on_wasm_section_type, on_wasm_section_size, on_wasm_section_content,
}
use wamr_app_framework.Install.Aot.{
  aot_section_type_text, aot_section_type_siganature, aot_section_type_custom, text_size,
  section_block, close_section, store_section_type, on_aot_version, on_aot_section_id,
  on_aot_section_size, on_aot_section_content,
}
use wamr_app_framework.Install.Fill.{store-set}

-- The bytes of a block that an `int` counts.
abbrev pub int_length : List ℕ → ℕ
int_length block = min (length block) (2 ^ 31 - 1)

-- A url with its terminator.
abbrev pub HasUrl : InstallContext → Type 0
HasUrl c =
    (block : List ℕ) × (c.request_url ≡ some block)
    × (length block ≡ c.request_url_len + 1)
    × (c.request_url_len < 2 ^ 16)

abbrev pub HasSection : InstallContext → Type 0
HasSection c = (s : Section) × (before : List Section) × (c.app_file.sections ≡ s ∷ before)

-- The place of the next byte in the body of the last section.
abbrev pub HasBody : InstallContext → Type 0
HasBody c =
    (s : Section) × (before : List Section) × (block : List ℕ) × (c.app_file.sections ≡ s ∷ before)
    × (s.section_body ≡ some block)
    × (c.size_in_phase < s.section_body_size)
    × (s.section_body_size ≤ int_length block)

-- The same for a file compiled ahead of time: the block of the text section has room for the table
-- behind the text.
abbrev pub HasAotBody : ℕ → InstallContext → Type 0
HasAotBody plt_table_size c =
    (s : Section) × (before : List Section) × (block : List ℕ) × (c.app_file.sections ≡ s ∷ before)
    × (s.section_body ≡ some block)
    × (c.size_in_phase < s.section_body_size)
    × (s.section_body_size ≤ int_length block)
    × (s.section_type ≡ aot_section_type_text
        → text_size plt_table_size s.section_body_size % 2 ^ 32 ≤ length block)

-- An item of no bytes is awaited: a url whose length is 0, or the body of a section whose size is 0.
unfoldable pub AwaitsEmpty : Phase → InstallContext → Type 0
AwaitsEmpty phase_req_url c = c.request_url_len ≡ 0
AwaitsEmpty phase_wasm_section_content c =
    (s : Section) × (before : List Section) × (c.app_file.sections ≡ s ∷ before)
    × (s.section_body_size ≡ 0)
AwaitsEmpty phase_aot_section_content c =
    (s : Section) × (before : List Section) × (c.app_file.sections ≡ s ∷ before)
    × (s.section_body_size ≡ 0)
AwaitsEmpty _ c = ⊥

-- Blocks are as long as was asked for, and shorter than 2 ^ 31 bytes.
pub record GivesBlocks (loader : Loader) : Type 0 where
  pub malloc_length :
      (n : ℕ) (b : List ℕ) → loader.malloc n ≡ some b → (length b ≡ n) × (n < 2 ^ 31)
  pub os_mmap_length :
      (n : ℕ) (b : List ℕ) → loader.os_mmap n ≡ some b → (length b ≡ n) × (n < 2 ^ 31)

module _ (loader : Loader) where
  -- The next byte has a place: in an integer, in the url, or in the body of a section.
  unfoldable pub HasPlace : Phase → InstallContext → Type 0
  HasPlace phase_req_ver c = Unit
  HasPlace phase_req_action c = Unit
  HasPlace phase_req_fmt c = c.size_in_phase < 2
  HasPlace phase_req_mid c = c.size_in_phase < 4
  HasPlace phase_req_sender c = c.size_in_phase < 4
  HasPlace phase_req_url_len c = c.size_in_phase < 2
  HasPlace phase_req_payload_len c = (c.size_in_phase < 4) × HasUrl c
  HasPlace phase_req_url c = (c.size_in_phase < c.request_url_len) × HasUrl c
  HasPlace phase_app_magic c = c.size_in_phase < 4
  HasPlace phase_wasm_version c = c.size_in_phase < 4
  HasPlace phase_wasm_section_type c = Unit
  HasPlace phase_wasm_section_size c = HasSection c
  HasPlace phase_wasm_section_content c = HasBody c
  HasPlace phase_aot_version c = c.size_in_phase < 4
  HasPlace phase_aot_section_id c = (c.size_in_phase ≡ 0) ⊎ ((c.size_in_phase < 4) × HasSection c)
  HasPlace phase_aot_section_size c = (c.size_in_phase < 4) × HasSection c
  HasPlace phase_aot_section_content c = HasAotBody loader.plt_table_size c

  -- What becomes of a byte with a place: it is not written outside, and after it there is a place
  -- again, or an empty item is awaited, or the request could not be posted.
  unfoldable pub Lands : Arrival → Type 0
  Lands (received c e) = HasPlace c.phase c ⊎ AwaitsEmpty c.phase c
  Lands (refused c e) = HasPlace c.phase c ⊎ (module_wasm_app_handle_install_msg loader c ≡ none)
  Lands (failed c) = Unit
  Lands outside = ⊥

  -- What follows an item that may be complete.
  pub advance-Lands :
      (b : Bool) (next : Phase) (c : InstallContext) (e : List Effect)
      → (b ≡ true
          → HasPlace next (record c { phase = next; size_in_phase = 0 })
            ⊎ AwaitsEmpty next (record c { phase = next; size_in_phase = 0 }))
      → (b ≡ false → HasPlace c.phase (record c { size_in_phase = int_next c.size_in_phase }))
      → Lands (received (advance b next c) e)
  unfolding Lands
  advance-Lands true next c e complete more = complete refl
  advance-Lands false next c e complete more = inl (more refl)

  pub landing : {a b : Arrival} → a ≡ b → Lands b → Lands a
  landing e h = subst Lands (sym e) h

  -- The end of a section: the context is idle or in front of the next section.
  pub on_section_end-Lands :
      (T : ℕ) (next : Phase) (c : InstallContext)
      → HasPlace next (record c { phase = next; size_in_phase = 0 })
      → Lands (on_section_end loader T next c)
  unfolding on_section_end Lands
  on_section_end-Lands T next c h = elim (Bool-cases (c.total_received_size == T)) [
    | inr more ↦ rw more (inl h)
    | inl whole ↦ elim (Option-cases (module_wasm_app_handle_install_msg loader c)) [
      | inl refused_post ↦ rw (whole, refused_post) (inr refused_post)
      | inr (request, made) ↦ rw (whole, made) (inl (unfold HasPlace in tt))
    ]
  ]
