-- ===== src/Install/Overrun.antt =====
-- Where wasm_app_module_on_install_request_byte_arrive of app-mgr/app-manager/module_wasm_app.c writes
-- outside the memory that it was given.
use wamr_app_framework.Prelude.{
  int_next, Bool-cases, inl, inr, ◌&&◌, ltb, ◌==◌, ◌≤◌, ◌<◌, ◌^◌, Bool, none, ap, ℕ, ◌+◌, ◌≡◌, refl,
  ◌∙◌, List, [], ◌∷◌, true, false, some, set, length, length-set, zeros, arith,
}
use wamr_app_framework.Restful.{ok, fault}
use wamr_app_framework.Install.{
  InstallContext, Effect, respond_error, idle, Loader, Section, store, on_section_end,
  module_wasm_app_handle_install_msg, on_req_url,
}
use wamr_app_framework.Install.Receive.{
  Installer, count_byte, byte_in, on_arrival, wasm_app_module_on_install_request_byte_arrive,
  receive_bytes,
}
use wamr_app_framework.Install.Bytecode.{
  on_wasm_section_type, on_wasm_section_size, on_wasm_section_content,
}
use wamr_app_framework.Install.Header.{run, header_bytes, headed, run-header_bytes}
use wamr_app_framework.Install.Fill.{continue, run-continue, store-set, in_url}
use wamr_app_framework.Install.Leb.{in_size}
use wamr_app_framework.Install.Sections.{in_type, in_body}

-- A store behind a block, or at an index that is negative.
store_behind : (block : List ℕ) (i ch : ℕ) → length block ≤ i → store (some block) i ch ≡ fault
unfolding store
store_behind block i ch h = elim (Bool-cases (ltb i (2 ^ 31))) [
  | inl low ↦ ground (arith, low)
  | inr high ↦ ground (arith, high)
]

store_negative : (block : List ℕ) (ch : ℕ) → store (some block) (2 ^ 31) ch ≡ fault
unfolding store
store_negative block ch = refl

module _ (loader : Loader) (T : ℕ) (effects : List Effect) where
  -- Bytes for a body of size 0, of whose block `i` bytes are written: they run to its end.
  run_endless :
      (c : InstallContext) (type : ℕ) (before : List Section) (bytes block : List ℕ) (i t : ℕ)
      → i ≤ 2 ^ 31
      → i ≤ length block
      → length block < i + length bytes
      → run loader T effects bytes (in_body c type before i t 0 block) ≡ fault
  run_endless c type before [] block i t low le lt = absurd (omega arith)
  run_endless c type before (b ∷ bytes) block i t low le lt =
      let here = in_body c type before i t 0 block in
      let start = run-continue loader T effects b bytes here in
      elim (Bool-cases (ltb i (length block))) [
        | inr last ↦
            let behind = store_behind block i b (ground arith) in
            start
            ∙ (unfold count_byte byte_in on_wasm_section_content continue in ground (arith, behind))
        | inl inside ↦ elim (Bool-cases (i == 2 ^ 31)) [
          | inl negative ↦
              let same : i ≡ 2 ^ 31 = ground arith in
              let behind : store (some block) i b ≡ fault =
                ap (λ x. store (some block) x b) same ∙ store_negative block b in
              start
              ∙ (unfold count_byte byte_in on_wasm_section_content continue in
                  ground (arith, behind))
          | inr positive ↦
              let index : i < 2 ^ 31 = ground arith in
              let below : i < length block = ground arith in
              let stored = store-set block i b index below in
              let next_i : int_next i ≡ i + 1 = omega arith in
              let step : run loader T effects (b ∷ bytes) here
                  ≡ run loader T effects bytes
                      (in_body c type before (i + 1) (int_next t) 0 (set block i b)) =
                start
                ∙ (unfold count_byte byte_in on_wasm_section_content continue in
                    ground (arith, stored, next_i)) in
              step
              ∙ run_endless c type before bytes (set block i b) (i + 1) (int_next t) (omega arith)
                  (omega (arith, length-set block i b)) (omega (arith, length-set block i b))
        ]
      ]

  -- A section of byte code whose size is the byte 0, for whose body the allocator gives a block of any
  -- length: the bytes behind the size are written to the block, and where they are more than its
  -- length, one of them is written outside it. The type is known, and the section can be allocated.
  pub receive_bytes_empty_section :
      (c : InstallContext) (before : List Section) (t type : ℕ) (block bytes : List ℕ)
      → type ≤ loader.section_type_max
      → loader.new_section ≡ true
      → loader.malloc 0 ≡ some block
      → length block < length bytes
      → receive_bytes loader
          (type ∷ 0 ∷ bytes)
          T
          (record { context = in_type c before t; effects = effects })
        ≡ fault
  receive_bytes_empty_section c before t type block bytes known made given longer =
      let typed : run loader T effects (type ∷ 0 ∷ bytes) (in_type c before t)
          ≡ run loader T effects (0 ∷ bytes) (in_size c type before 0 (int_next t) 0) =
        run-continue loader T effects type (0 ∷ bytes) (in_type c before t)
        ∙ (unfold count_byte byte_in on_wasm_section_type continue in
            ground (arith, known, made)) in
      let size_read : run loader T effects (0 ∷ bytes) (in_size c type before 0 (int_next t) 0)
          ≡ run loader T effects bytes (in_body c type before 0 (int_next (int_next t)) 0 block) =
        run-continue loader T effects 0 bytes (in_size c type before 0 (int_next t) 0)
        ∙ (unfold count_byte byte_in on_wasm_section_size continue in ground (arith, given)) in
      typed
      ∙ size_read
      ∙ run_endless c type before bytes block 0 (int_next (int_next t)) (omega arith) (omega arith)
          (omega arith)

  -- A request whose url is empty: of two bytes behind its header the second is written outside the
  -- memory of the url, for which one byte is allocated. The fields fit their widths.
  pub receive_bytes_empty_url :
      (action fmt mid sender app_size b b' : ℕ) (block rest : List ℕ)
      → fmt < 2 ^ 16
      → mid < 2 ^ 32
      → sender < 2 ^ 32
      → app_size < 2 ^ 32
      → loader.malloc 1 ≡ some block
      → receive_bytes loader
          (header_bytes action fmt mid sender 0 app_size (b ∷ b' ∷ rest))
          T
          (record { context = idle; effects = effects })
        ≡ fault
  receive_bytes_empty_url action fmt mid sender app_size b b' block rest f i s a given =
      let c = headed action fmt mid sender 0 app_size in
      let one : zeros (0 + 1) ≡ 0 ∷ [] = unfold zeros in refl in
      let first : run loader T effects (b ∷ b' ∷ rest) (in_url c 0 18 (0 ∷ []))
          ≡ run loader T effects (b' ∷ rest) (in_url c 1 19 (b ∷ [])) =
        run-continue loader T effects b (b' ∷ rest) (in_url c 0 18 (0 ∷ []))
        ∙ (unfold count_byte byte_in on_req_url store continue in refl) in
      let behind = store_behind (b ∷ []) 1 b' (omega arith) in
      run-header_bytes loader T effects action fmt mid sender 0 app_size block (b ∷ b' ∷ rest) f i s
        (omega arith) a given
      ∙ ap (λ l. run loader T effects (b ∷ b' ∷ rest) (in_url c 0 18 l)) one
      ∙ first
      ∙ run-continue loader T effects b' rest (in_url c 1 19 (b ∷ []))
      ∙ (unfold count_byte byte_in on_req_url continue in ground (arith, behind))

-- Everything that makes and posts a request succeeds.
abbrev pub posts : Loader → Bool
posts loader =
    loader.request_malloc
    && (loader.url_dup && (loader.payload_malloc && (loader.new_msg && loader.post_msg)))

not_posted :
    (loader : Loader) (c : InstallContext)
    → posts loader ≡ false
    → module_wasm_app_handle_install_msg loader c ≡ none
unfolding module_wasm_app_handle_install_msg
not_posted loader c h = elim (Bool-cases loader.request_malloc) [
  | inr a ↦ ground (arith, a)
  | inl a ↦ elim (Bool-cases loader.url_dup) [
    | inr b ↦ ground (arith, a, b)
    | inl b ↦ elim (Bool-cases loader.payload_malloc) [
      | inr d ↦ ground (arith, a, b, d)
      | inl d ↦ elim (Bool-cases loader.new_msg) [
        | inr e ↦ ground (arith, a, b, d, e)
        | inl e ↦ elim (Bool-cases loader.post_msg) [
          | inr f ↦ ground (arith, a, b, d, e, f)
          | inl f ↦ absurd (ground (arith, a, b, d, e, f, h))
        ]
      ]
    ]
  ]
]

-- The last byte of a request for byte code, where an allocation for the request or its message fails,
-- or the post does: false is returned and the host gets an error, but the context is not reset, and
-- whatever byte comes next is written behind the body of the section. The byte before it was the last
-- but one of its section, whose block has no byte to spare, and the request is shorter than 2 ^ 31
-- bytes.
pub wasm_app_module_on_install_request_byte_arrive_stuck :
    (loader : Loader) (c : InstallContext) (effects : List Effect) (type : ℕ)
    (before : List Section) (block : List ℕ) (i t ch : ℕ)
    → length block ≡ i + 1
    → i ≤ t
    → t + 1 < 2 ^ 31
    → posts loader ≡ false
    → (s' : Installer) × (wasm_app_module_on_install_request_byte_arrive loader ch
          (t + 1)
          (record { context = in_body c type before i t (i + 1) block; effects = effects })
        ≡ ok (false, t + 1, s'))
      × (s'.effects ≡ respond_error c.request_mid ∷ effects)
      × ((ch' T' : ℕ) → wasm_app_module_on_install_request_byte_arrive loader ch' T' s' ≡ fault)
wasm_app_module_on_install_request_byte_arrive_stuck loader c effects type before block i t ch len
      le small none_posted =
    let stored = store-set block i ch (omega arith) (omega arith) in
    let stuck = in_body c type before (i + 1) (t + 1) (i + 1) (set block i ch) in
    let next_i : int_next i ≡ i + 1 = omega arith in
    let next_t : int_next t ≡ t + 1 = omega arith in
    let unposted = not_posted loader stuck none_posted in
    let behind = λ (ch' : ℕ).
      store_behind (set block i ch) (i + 1) ch' (omega (arith, length-set block i ch)) in
    (
      record { context = stuck; effects = respond_error c.request_mid ∷ effects },
      (unfold wasm_app_module_on_install_request_byte_arrive count_byte byte_in
            on_wasm_section_content on_section_end on_arrival in
          ground (arith, stored, next_i, next_t, unposted)),
      refl,
      λ ch' T'.
          (unfold wasm_app_module_on_install_request_byte_arrive count_byte byte_in
              on_wasm_section_content on_arrival in
            ground (arith, behind ch')),
    )
