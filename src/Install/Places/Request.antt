-- ===== src/Install/Places/Request.antt =====
-- Every byte in front of the file has a place: app-mgr/app-manager/module_wasm_app.c.
use wamr_app_framework.Prelude.{
  true, int_next, ◌≤◌, ◌<◌, ◌+◌, ◌^◌, ℕ, ◌≡◌, refl, sym, subst, ◌∙◌, inl, inr, [], false,
  Bool-cases, some, Option-cases, ◌==◌, set, length, length-set, length-zeros, zeros, arith,
}
use wamr_app_framework.HostLink.{ntohs}
use wamr_app_framework.Install.{
  phase_req_ver, phase_req_fmt, phase_req_mid, phase_req_sender, phase_req_url_len,
  phase_req_payload_len, phase_req_url, phase_app_magic, InstallContext, Loader, advance, received,
  recv_integer, on_req_ver, on_req_fmt, on_req_mid, on_req_sender, on_req_url_len,
  on_req_payload_len, on_req_url, on_app_magic,
}
use wamr_app_framework.Install.Fill.{store-set}
use wamr_app_framework.Install.Places.{HasUrl, HasPlace, AwaitsEmpty, Lands, advance-Lands}

module _ (loader : Loader) where
  pub on_req_ver-Lands :
      (ch : ℕ) (c : InstallContext) → c.phase ≡ phase_req_ver → Lands loader (on_req_ver ch c)
  unfolding on_req_ver Lands HasPlace
  on_req_ver-Lands ch c e = ground (arith, e)

  pub on_req_fmt-Lands :
      (ch : ℕ) (c : InstallContext)
      → c.phase ≡ phase_req_fmt
      → c.size_in_phase < 2
      → Lands loader (on_req_fmt ch c)
  unfolding on_req_fmt Lands HasPlace recv_integer
  on_req_fmt-Lands ch c e h = ground (arith, e)

  pub on_req_mid-Lands :
      (ch : ℕ) (c : InstallContext)
      → c.phase ≡ phase_req_mid
      → c.size_in_phase < 4
      → Lands loader (on_req_mid ch c)
  unfolding on_req_mid Lands HasPlace recv_integer
  on_req_mid-Lands ch c e h = ground (arith, e)

  pub on_req_sender-Lands :
      (ch : ℕ) (c : InstallContext)
      → c.phase ≡ phase_req_sender
      → c.size_in_phase < 4
      → Lands loader (on_req_sender ch c)
  unfolding on_req_sender Lands HasPlace recv_integer
  on_req_sender-Lands ch c e h = ground (arith, e)

  pub on_req_payload_len-Lands :
      (ch : ℕ) (c : InstallContext)
      → c.phase ≡ phase_req_payload_len
      → c.size_in_phase < 4
      → HasUrl c
      → Lands loader (on_req_payload_len ch c)
  unfolding on_req_payload_len Lands HasPlace AwaitsEmpty recv_integer
  on_req_payload_len-Lands ch c e h u = ground (arith, e, u)

  pub recv_integer_short :
      (width value i ch : ℕ)
      → width ≤ 4
      → i < width
      → (recv_integer width value i ch).1 ≡ false
      → int_next i < width
  unfolding recv_integer
  recv_integer_short width value i ch w h e = ground (arith, e)

  recv_integer_u16 :
      (value i ch : ℕ)
      → (recv_integer 2 value i ch).1 ≡ true
      → (recv_integer 2 value i ch).0 < 2 ^ 16
  unfolding recv_integer ntohs
  recv_integer_u16 value i ch e = ground (arith, e)

  pub on_req_url_len-Lands :
      (ch : ℕ) (c : InstallContext)
      → c.phase ≡ phase_req_url_len
      → c.size_in_phase < 2
      → Lands loader (on_req_url_len loader ch c)
  unfolding on_req_url_len Lands
  on_req_url_len-Lands ch c e h =
      let r = recv_integer 2 c.request_url_len c.size_in_phase ch in
      elim (Bool-cases r.1) [
        | inr part ↦
            let more =
              recv_integer_short 2 c.request_url_len c.size_in_phase ch (omega arith) h part in
            rw (part, e) (inl (unfold HasPlace in more))
        | inl full ↦
            let u16 = recv_integer_u16 c.request_url_len c.size_in_phase ch full in
            elim (Option-cases (loader.malloc (r.0 + 1))) [
              | inl none_given ↦ rw (full, none_given) tt
              | inr (block, given) ↦
                  rw (full, given)
                    (inl (
                      unfold HasPlace in
                      ((omega arith), (zeros (r.0 + 1), refl, length-zeros (r.0 + 1), u16))))
            ]
      ]

  pub on_req_url-Lands :
      (ch : ℕ) (c : InstallContext)
      → c.phase ≡ phase_req_url
      → c.size_in_phase < c.request_url_len
      → HasUrl c
      → Lands loader (on_req_url ch c)
  on_req_url-Lands ch c e h (block, u, len, u16) =
      let i = c.size_in_phase in
      let written = set block i ch in
      let stored = store-set block i ch (omega arith) (omega arith) in
      let next : InstallContext = record c { request_url = some written } in
      let done : on_req_url ch c
          ≡ received (advance (int_next i == c.request_url_len) phase_app_magic next) [] =
        unfold on_req_url in ground (arith, u, stored) in
      let kept : length written ≡ c.request_url_len + 1 = length-set block i ch ∙ len in
      subst (Lands loader) (sym done) (
        advance-Lands loader (int_next i == c.request_url_len) phase_app_magic next []
          (λ _. inl (unfold HasPlace in omega arith))
          (λ short.
            let more : int_next i < c.request_url_len = ground arith in
            rw e (unfold HasPlace in (more, (written, refl, kept, u16)))))

  pub on_app_magic-Lands :
      (ch : ℕ) (c : InstallContext)
      → c.phase ≡ phase_app_magic
      → c.size_in_phase < 4
      → Lands loader (on_app_magic loader ch c)
  unfolding on_app_magic Lands HasPlace
  on_app_magic-Lands ch c e h = ground (arith, e)
