-- ===== src/Install/Fill.antt =====
-- Bytes stored one after the other in a block, as
-- wasm_app_module_on_install_request_byte_arrive of app-mgr/app-manager/module_wasm_app.c stores the url
-- and the bodies of sections.
use wamr_app_framework.Prelude.{
  ◌^◌, ◌<◌, ltb, int_next, ℕ, suc, ◌+◌, ◌≤◌, ◌≡◌, refl, ap, ◌∙◌, List, [], ◌∷◌, ◌++◌, true, false,
  some, set, length, length-set, arith,
}
use wamr_app_framework.Restful.{Outcome, ok, null, fault, ◌>>=◌}
use wamr_app_framework.Install.{
  InstallContext, Effect, Loader, Arrival, received, refused, failed, outside, store, on_req_url,
  phase_req_url, phase_app_magic,
}
use wamr_app_framework.Install.Receive.{
  Installer, count_byte, byte_in, on_arrival, wasm_app_module_on_install_request_byte_arrive,
  receive_bytes,
}
use wamr_app_framework.Install.Header.{run}

-- A block in which the bytes are stored from `i` on.
unfoldable pub fill : ℕ → List ℕ → List ℕ → List ℕ
fill i [] block = block
fill i (b ∷ bytes) block = fill (i + 1) bytes (set block i b)

fill_behind :
    (i : ℕ) (x : ℕ) (bytes block : List ℕ) → fill (suc i) bytes (x ∷ block) ≡ x ∷ fill i bytes block
unfolding fill
fill_behind i x [] block = refl
fill_behind i x (b ∷ bytes) block =
    ap (λ k. fill k bytes (x ∷ set block i b)) (omega arith)
    ∙ fill_behind (i + 1) x bytes (set block i b)

-- From the start on they replace as many bytes.
pub fill-append :
    (bytes old tail : List ℕ)
    → length old ≡ length bytes
    → fill 0 bytes (old ++ tail) ≡ bytes ++ tail
unfolding fill
fill-append [] [] tail h = refl
fill-append [] (x ∷ old) tail h = absurd (omega arith)
fill-append (b ∷ bytes) [] tail h = absurd (omega arith)
fill-append (b ∷ bytes) (x ∷ old) tail h =
    fill_behind 0 b bytes (old ++ tail) ∙ ap (◌∷◌ b) (fill-append bytes old tail (omega arith))

pub store-set :
    (block : List ℕ) (i ch : ℕ)
    → i < 2 ^ 31
    → i < length block
    → store (some block) i ch ≡ ok (set block i ch)
unfolding store
store-set block i ch small h =
    let int_index : ltb i (2 ^ 31) ≡ true = ground arith in ground (arith, int_index)

-- The context in the url, with `i` bytes stored.
abbrev pub in_url : InstallContext → ℕ → ℕ → List ℕ → InstallContext
in_url c i t block = record c {
  phase = phase_req_url;
  size_in_phase = i;
  total_received_size = t;
  request_url = some block;
}

module _ (loader : Loader) (T : ℕ) (effects : List Effect) where
  -- What follows the arrival of a byte.
  unfoldable pub continue : List ℕ → Arrival → Outcome Installer
  continue rest (received c e) =
      receive_bytes loader rest T (record { context = c; effects = e ++ effects })
  continue rest (refused c e) = null
  continue rest (failed c) = null
  continue rest outside = fault

  on_arrival-continue :
      (n : ℕ) (c : InstallContext) (rest : List ℕ) (a : Arrival)
      → (on_arrival loader n (record { context = c; effects = effects }) a >>= λ r. elim r.0 [
        | false ↦ null
        | true ↦ receive_bytes loader rest T r.2
      ])
        ≡ continue rest a
  unfolding on_arrival continue
  on_arrival-continue n c rest (received c' e) = refl
  on_arrival-continue n c rest (refused c' e) = refl
  on_arrival-continue n c rest (failed c') = refl
  on_arrival-continue n c rest outside = refl

  pub run-continue :
      (ch : ℕ) (rest : List ℕ) (c : InstallContext)
      → run loader T effects (ch ∷ rest) c
        ≡ continue rest (byte_in loader (count_byte c).phase ch T (count_byte c))
  unfolding receive_bytes wasm_app_module_on_install_request_byte_arrive
  run-continue ch rest c =
      let c' = count_byte c in
      on_arrival-continue c'.total_received_size c rest (byte_in loader c'.phase ch T c')

  -- The bytes of a url that is as long as the header says, from its `i`th on.
  pub run_url :
      (c : InstallContext) (i t b : ℕ) (bytes block rest : List ℕ)
      → i + length (b ∷ bytes) ≤ length block
      → c.request_url_len ≡ i + length (b ∷ bytes)
      → i + length (b ∷ bytes) ≤ 2 ^ 31
      → t + length (b ∷ bytes) < 2 ^ 32
      → run loader T effects ((b ∷ bytes) ++ rest) (in_url c i t block)
        ≡ run loader T effects rest (record c {
          phase = phase_app_magic;
          size_in_phase = 0;
          total_received_size = t + length (b ∷ bytes);
          request_url = some (fill i (b ∷ bytes) block);
        })
  unfolding fill
  run_url c i t b [] block rest h l small room =
      let stored = store-set block i b (omega arith) (omega arith) in
      let next_i : int_next i ≡ i + 1 = omega arith in
      let next_t : int_next t ≡ t + 1 = omega arith in
      run-continue b rest (in_url c i t block)
      ∙ (unfold count_byte byte_in on_req_url continue in ground (arith, stored, l, next_i, next_t))
  run_url c i t b (b' ∷ bytes) block rest h l small room =
      let stored = store-set block i b (omega arith) (omega arith) in
      let next_i : int_next i ≡ i + 1 = omega arith in
      let next_t : int_next t ≡ t + 1 = omega arith in
      let again : t + 1 + length (b' ∷ bytes) ≡ t + length (b ∷ b' ∷ bytes) = omega arith in
      let step : run loader T effects (b ∷ b' ∷ (bytes ++ rest)) (in_url c i t block)
          ≡ run loader T effects (b' ∷ (bytes ++ rest)) (in_url c (i + 1) (t + 1) (set block i b)) =
        run-continue b (b' ∷ (bytes ++ rest)) (in_url c i t block)
        ∙ (unfold count_byte byte_in on_req_url continue in
            ground (arith, stored, l, next_i, next_t)) in
      step
      ∙ run_url c (i + 1) (t + 1) b' bytes (set block i b) rest
          (omega (arith, length-set block i b)) (omega arith) (omega arith) (omega arith)
      ∙ ap
          (λ n. run loader T effects rest (record c {
            phase = phase_app_magic;
            size_in_phase = 0;
            total_received_size = n;
            request_url = some (fill i (b ∷ b' ∷ bytes) block);
          }))
          again
