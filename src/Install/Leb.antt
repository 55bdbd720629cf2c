-- ===== src/Install/Leb.antt =====
-- The size of a section, a LEB128 number, as wasm_app_module_on_install_request_byte_arrive of
-- app-mgr/app-manager/module_wasm_app.c receives it.
use Prim.Native.Nat.{bit_or}
use native.Mathlib.Nat.{pow-suc, mul-le-mul_right}
use wamr_app_framework.Prelude.{
  ◌^◌, ◌<◌, ltb, int_next, ℕ, zero, suc, ◌+◌, ◌*◌, ◌/◌, ◌%◌, ◌≤◌, ◌≡◌, refl, sym, ap, ◌∙◌, inl, inr,
  List, [], ◌∷◌, ◌++◌, Bool-cases, none, some, if◌then◌else◌, length, arith,
}
use wamr_app_framework.Prelude.Bits.{bit_or-shift}
use wamr_app_framework.Install.{
  InstallContext, Effect, Loader, Section, with_sections, phase_wasm_section_size,
  phase_wasm_section_content,
}
use wamr_app_framework.Install.Receive.{count_byte, byte_in}
use wamr_app_framework.Install.Bytecode.{on_wasm_section_size}
use wamr_app_framework.Install.Header.{run}
use wamr_app_framework.Install.Fill.{continue, run-continue}

-- A number in seven bits to a byte, the lowest first, in `k` more bytes than one at most.
unfoldable pub leb_bytes : ℕ → ℕ → List ℕ
leb_bytes zero n = (n % 128) ∷ []
leb_bytes (suc k) n =
    let rest = leb_bytes k (n / 128) in if ltb n 128 then n ∷ [] else (n % 128 + 128) ∷ rest

-- Seven more bits above `m`.
next_bits :
    (k m n p : ℕ)
    → p ≡ 2 ^ (k * 7)
    → m < p
    → m + n * p < 2 ^ 32
    → bit_or m (n % 128 * 2 ^ (k * 7) % 2 ^ 32) ≡ m + n % 128 * p
next_bits k m n p e lt fits =
    let le : n % 128 * p ≤ n * p = mul-le-mul_right p (omega arith) in
    let small : n % 128 * 2 ^ (k * 7) % 2 ^ 32 ≡ n % 128 * 2 ^ (k * 7) = rw (sym e) (omega arith) in
    rw small (bit_or-shift (k * 7) m (n % 128) (rw (sym e) lt) ∙ rw (sym e) refl)

next_power : (k p : ℕ) → p ≡ 2 ^ (k * 7) → p * 128 ≡ 2 ^ ((k + 1) * 7)
next_power k p e =
    let q = k * 7 in
    let above : (k + 1) * 7 ≡ suc (suc (suc (suc (suc (suc (suc q)))))) = omega arith in
    omega (
      arith,
      e,
      ap (λ x. 2 ^ x) above,
      pow-suc 2 q,
      pow-suc 2 (suc q),
      pow-suc 2 (suc (suc q)),
      pow-suc 2 (suc (suc (suc q))),
      pow-suc 2 (suc (suc (suc (suc q)))),
      pow-suc 2 (suc (suc (suc (suc (suc q))))),
      pow-suc 2 (suc (suc (suc (suc (suc (suc q)))))),
    )

split_bits :
    (m n p : ℕ)
    → m < p
    → (m + n % 128 * p < p * 128) × (m + n % 128 * p + n / 128 * (p * 128) ≡ m + n * p)
split_bits m n p lt =
    let le : n % 128 * p ≤ 127 * p = mul-le-mul_right p (omega arith) in
    let whole : n ≡ n / 128 * 128 + n % 128 = omega arith in
    (omega arith, omega (arith, ap (λ x. x * p) whole))

-- The context in the size of its last section, after `k` bytes that make `m`.
abbrev pub in_size : InstallContext → ℕ → List Section → ℕ → ℕ → ℕ → InstallContext
in_size c type before k t m =
    with_sections
      (record { section_type = type; section_body_size = m; section_body = none } ∷ before)
      (record c { phase = phase_wasm_section_size; size_in_phase = k; total_received_size = t })

-- The context in front of the body of its last section.
abbrev pub sized : InstallContext → ℕ → List Section → ℕ → ℕ → List ℕ → InstallContext
sized c type before t n block =
    with_sections
      (record { section_type = type; section_body_size = n; section_body = some block } ∷ before)
      (record c { phase = phase_wasm_section_content; size_in_phase = 0; total_received_size = t })

module _ (loader : Loader) (T : ℕ) (effects : List Effect) where
  more_size :
      (c : InstallContext) (type : ℕ) (before : List Section) (k t m ch m' : ℕ) (rest : List ℕ)
      → k < 5
      → t + 1 < 2 ^ 32
      → 128 ≤ ch
      → bit_or m (ch % 128 * 2 ^ (k * 7) % 2 ^ 32) ≡ m'
      → run loader T effects (ch ∷ rest) (in_size c type before k t m)
        ≡ run loader T effects rest (in_size c type before (k + 1) (t + 1) m')
  more_size c type before k t m ch m' rest lt room big e =
      let next_k : int_next k ≡ k + 1 = omega arith in
      let next_t : int_next t ≡ t + 1 = omega arith in
      run-continue loader T effects ch rest (in_size c type before k t m)
      ∙ (unfold count_byte byte_in on_wasm_section_size continue in
          ground (arith, e, next_k, next_t))

  last_size :
      (c : InstallContext) (type : ℕ) (before : List Section) (k t m ch m' : ℕ)
      (block rest : List ℕ)
      → k < 5
      → t + 1 < 2 ^ 32
      → ch < 128
      → bit_or m (ch % 128 * 2 ^ (k * 7) % 2 ^ 32) ≡ m'
      → loader.malloc m' ≡ some block
      → run loader T effects (ch ∷ rest) (in_size c type before k t m)
        ≡ run loader T effects rest (sized c type before (t + 1) m' block)
  last_size c type before k t m ch m' block rest lt room small e given =
      let next_k : int_next k ≡ k + 1 = omega arith in
      let next_t : int_next t ≡ t + 1 = omega arith in
      run-continue loader T effects ch rest (in_size c type before k t m)
      ∙ (unfold count_byte byte_in on_wasm_section_size continue in
          ground (arith, e, given, next_k, next_t))

  run_leb :
      (j : ℕ) (c : InstallContext) (type : ℕ) (before : List Section) (k t m n p : ℕ)
      (block rest : List ℕ)
      → k + j < 5
      → t + j + 1 < 2 ^ 32
      → p ≡ 2 ^ (k * 7)
      → m < p
      → m + n * p < 2 ^ 32
      → n < 128 * 128 ^ j
      → loader.malloc (m + n * p) ≡ some block
      → run loader T effects (leb_bytes j n ++ rest) (in_size c type before k t m)
        ≡ run loader T effects rest
            (sized c type before (t + length (leb_bytes j n)) (m + n * p) block)
  unfolding leb_bytes
  run_leb zero c type before k t m n p block rest fuel room e lt fits less given =
      let low : n % 128 ≡ n = omega arith in
      let bits = next_bits k m n p e lt fits ∙ ap (λ x. m + x * p) low in
      let bits' : bit_or m (n % 128 % 128 * 2 ^ (k * 7) % 2 ^ 32) ≡ m + n * p =
        ap (λ x. bit_or m (x * 2 ^ (k * 7) % 2 ^ 32)) (omega arith) ∙ bits in
      last_size c type before k t m (n % 128) (m + n * p) block rest (omega arith) (omega arith)
        (omega arith) bits' given
  run_leb (suc j) c type before k t m n p block rest fuel room e lt fits less given =
      let bits = next_bits k m n p e lt fits in
      elim (Bool-cases (ltb n 128)) [
        | inl small ↦
            let low_n : n < 128 = ground arith in
            let low : n % 128 ≡ n = omega arith in
            let bits' = bits ∙ ap (λ x. m + x * p) low in
            rw small (
              last_size c type before k t m n (m + n * p) block rest (omega arith) (omega arith)
                (omega arith) bits' given)
        | inr big ↦
            let (below, whole) = split_bits m n p lt in
            let power = pow-suc 128 j in
            let more : bit_or m ((n % 128 + 128) % 128 * 2 ^ (k * 7) % 2 ^ 32) ≡ m + n % 128 * p =
              ap (λ x. bit_or m (x * 2 ^ (k * 7) % 2 ^ 32)) (omega arith) ∙ bits in
            let step =
              more_size c type before k t m (n % 128 + 128) (m + n % 128 * p)
                (leb_bytes j (n / 128) ++ rest) (omega arith) (omega arith) (omega arith) more in
            let given' : loader.malloc (m + n % 128 * p + n / 128 * (p * 128)) ≡ some block =
              ap loader.malloc whole ∙ given in
            let later =
              run_leb j c type before (k + 1) (t + 1) (m + n % 128 * p) (n / 128) (p * 128) block
                rest (omega arith) (omega arith) (next_power k p e) below (omega arith)
                (omega arith) given' in
            let count : t + 1 + length (leb_bytes j (n / 128))
                ≡ t + length ((n % 128 + 128) ∷ leb_bytes j (n / 128)) =
              omega arith in
            rw big (
              step
              ∙ later
              ∙ ap
                  (λ x.
                    run loader T effects rest
                      (sized c type before x (m + n % 128 * p + n / 128 * (p * 128)) block))
                  count
              ∙ ap
                  (λ x. run loader T effects rest (
                    sized c type before (t + length ((n % 128 + 128) ∷ leb_bytes j (n / 128))) x
                      block))
                  whole)
      ]

  -- The size of a section, in LEB128: it is stored, and the memory for the body is given.
  pub run-leb_bytes :
      (c : InstallContext) (type : ℕ) (before : List Section) (t n : ℕ) (block rest : List ℕ)
      → n < 2 ^ 32
      → t + 5 < 2 ^ 32
      → loader.malloc n ≡ some block
      → run loader T effects (leb_bytes 4 n ++ rest) (in_size c type before 0 t 0)
        ≡ run loader T effects rest (sized c type before (t + length (leb_bytes 4 n)) n block)
  run-leb_bytes c type before t n block rest lt room given =
      let one_times : 0 + n * 1 ≡ n = omega arith in
      run_leb 4 c type before 0 t 0 n 1 block rest (omega arith) (omega arith) refl (omega arith)
        (omega arith) (omega arith) (ap loader.malloc one_times ∙ given)
      ∙ ap
          (λ x.
            run loader T effects rest (sized c type before (t + length (leb_bytes 4 n)) x block))
          one_times
