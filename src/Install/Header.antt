-- ===== src/Install/Header.antt =====
-- The part of an install request in front of the file, as
-- wasm_app_module_on_install_request_byte_arrive of app-mgr/app-manager/module_wasm_app.c receives it.
use wamr_app_framework.Prelude.{
  ℕ, ◌+◌, ◌/◌, ◌%◌, ◌^◌, ◌<◌, ◌≡◌, refl, sym, ap, subst, ◌∙◌, List, [], ◌∷◌, ◌++◌, some, zeros,
  htons_bytes, htonl_bytes, arith,
}
use wamr_app_framework.Restful.{Outcome}
use wamr_app_framework.HostLink.{ntohs, ntohl, set_byte}
use wamr_app_framework.HostLink.Frames.{stored_size, ntohl-stored_size}
use wamr_app_framework.Install.{
  phase_req_url_len, phase_req_payload_len, phase_req_url, InstallContext, idle, Effect, Loader,
  recv_integer, on_req_ver, on_req_action, on_req_fmt, on_req_mid, on_req_sender, on_req_url_len,
  on_req_payload_len,
}
use wamr_app_framework.Install.Receive.{
  Installer, count_byte, byte_in, on_arrival, wasm_app_module_on_install_request_byte_arrive,
  receive_bytes,
}

abbrev stored_length : ℕ → ℕ
stored_length n = set_byte (set_byte 0 0 (n / 256 % 256)) 1 (n % 256)

ntohs-stored_length : (n : ℕ) → n < 2 ^ 16 → ntohs (stored_length n) ≡ n
unfolding ntohs set_byte
ntohs-stored_length n h = omega arith

-- The header of a request, and the bytes behind it.
abbrev pub header_bytes : ℕ → ℕ → ℕ → ℕ → ℕ → ℕ → List ℕ → List ℕ
header_bytes action fmt mid sender url_len app_size rest =
    1
    ∷ action
    ∷ (htons_bytes fmt
        ++ (htonl_bytes mid
            ++ (htonl_bytes sender ++ (htons_bytes url_len ++ (htonl_bytes app_size ++ rest)))))

-- The context behind the header.
abbrev pub headed : ℕ → ℕ → ℕ → ℕ → ℕ → ℕ → InstallContext
headed action fmt mid sender url_len app_size = record {
  phase = phase_req_url;
  size_in_phase = 0;
  total_received_size = 18;
  request_action = action;
  request_fmt = fmt;
  request_mid = mid;
  request_sender = sender;
  request_url_len = url_len;
  wasm_app_size = app_size;
  request_url = some (zeros (url_len + 1));
  app_file = record { magic = 0; version = 0; sections = [] };
  app_file_magic = 0;
}

module _ (loader : Loader) (T : ℕ) (effects : List Effect) where
  abbrev pub run : List ℕ → InstallContext → Outcome Installer
  run bytes c = receive_bytes loader bytes T (record { context = c; effects = effects })

  abbrev before_url_len : ℕ → ℕ → ℕ → ℕ → InstallContext
  before_url_len action fmt mid sender = record idle {
    phase = phase_req_url_len;
    total_received_size = 12;
    request_action = action;
    request_fmt = fmt;
    request_mid = mid;
    request_sender = sender;
  }

  first_bytes :
      (action fmt mid sender : ℕ) (rest : List ℕ)
      → run
          (1 ∷ action ∷ (htons_bytes fmt ++ (htonl_bytes mid ++ (htonl_bytes sender ++ rest))))
          idle
        ≡ run rest (
            before_url_len action
              (ntohs (stored_length fmt))
              (ntohl (stored_size mid))
              (ntohl (stored_size sender)))
  unfolding receive_bytes on_arrival wasm_app_module_on_install_request_byte_arrive count_byte
      byte_in on_req_ver on_req_action on_req_fmt on_req_mid on_req_sender recv_integer htons_bytes
      htonl_bytes
  first_bytes action fmt mid sender rest = refl

  abbrev behind_url_len : ℕ → ℕ → ℕ → ℕ → ℕ → InstallContext
  behind_url_len action fmt mid sender url_len = record (headed action fmt mid sender url_len 0) {
    phase = phase_req_payload_len;
    total_received_size = 14;
  }

  url_len_bytes :
      (action fmt mid sender n : ℕ) (block rest : List ℕ)
      → loader.malloc (ntohs (stored_length n) + 1) ≡ some block
      → run (htons_bytes n ++ rest) (before_url_len action fmt mid sender)
        ≡ run rest (behind_url_len action fmt mid sender (ntohs (stored_length n)))
  unfolding receive_bytes on_arrival wasm_app_module_on_install_request_byte_arrive count_byte
      byte_in on_req_url_len recv_integer htons_bytes
  url_len_bytes action fmt mid sender n block rest m = rw m refl

  app_size_bytes :
      (action fmt mid sender url_len n : ℕ) (rest : List ℕ)
      → run (htonl_bytes n ++ rest) (behind_url_len action fmt mid sender url_len)
        ≡ run rest (headed action fmt mid sender url_len (ntohl (stored_size n)))
  unfolding receive_bytes on_arrival wasm_app_module_on_install_request_byte_arrive count_byte
      byte_in on_req_payload_len recv_integer htonl_bytes
  app_size_bytes action fmt mid sender url_len n rest = refl

  -- The header of a request whose fields fit their widths, after a context that is idle: the fields are
  -- stored and the memory for the url is given.
  pub run-header_bytes :
      (action fmt mid sender url_len app_size : ℕ) (block rest : List ℕ)
      → fmt < 2 ^ 16
      → mid < 2 ^ 32
      → sender < 2 ^ 32
      → url_len < 2 ^ 16
      → app_size < 2 ^ 32
      → loader.malloc (url_len + 1) ≡ some block
      → run (header_bytes action fmt mid sender url_len app_size rest) idle
        ≡ run rest (headed action fmt mid sender url_len app_size)
  run-header_bytes action fmt mid sender url_len app_size block rest f i s u a m =
      let url_eq = ntohs-stored_length url_len u in
      let given = subst (λ n. loader.malloc (n + 1) ≡ some block) (sym url_eq) m in
      let first =
        first_bytes action fmt mid sender (htons_bytes url_len ++ (htonl_bytes app_size ++ rest)) in
      let second =
        url_len_bytes action (ntohs (stored_length fmt)) (ntohl (stored_size mid))
          (ntohl (stored_size sender)) url_len block (htonl_bytes app_size ++ rest) given in
      let third =
        app_size_bytes action (ntohs (stored_length fmt)) (ntohl (stored_size mid))
          (ntohl (stored_size sender)) (ntohs (stored_length url_len)) app_size rest in
      first
      ∙ second
      ∙ third
      ∙ ap
          (λ x. run rest (
            headed action x (ntohl (stored_size mid)) (ntohl (stored_size sender))
              (ntohs (stored_length url_len)) (ntohl (stored_size app_size))))
          (ntohs-stored_length fmt f)
      ∙ ap
          (λ x. run rest (
            headed action fmt x (ntohl (stored_size sender)) (ntohs (stored_length url_len))
              (ntohl (stored_size app_size))))
          (ntohl-stored_size mid i)
      ∙ ap
          (λ x. run rest (
            headed action fmt mid x (ntohs (stored_length url_len)) (ntohl (stored_size app_size))))
          (ntohl-stored_size sender s)
      ∙ ap (λ x. run rest (headed action fmt mid sender x (ntohl (stored_size app_size)))) url_eq
      ∙ ap (λ x. run rest (headed action fmt mid sender url_len x)) (ntohl-stored_size app_size a)
