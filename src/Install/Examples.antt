-- ===== src/Install/Examples.antt =====
-- The receiver of modules at concrete values: app-mgr/app-manager/module_wasm_app.c.
use wamr_app_framework.Prelude.{
  ltb, ◌^◌, htons_bytes, htonl_bytes, ℕ, ◌≡◌, ◌≢◌, refl, List, [], ◌∷◌, true, false, none, some,
  ◌==◌, if◌then◌else◌, length, zeros, length-zeros, arith,
}
use wamr_app_framework.Restful.{ok, fault}
use wamr_app_framework.Install.{
  PackageType, package_bytecode, package_aot, package_unknown, Loader, respond_error, post, idle,
}
use wamr_app_framework.Install.Receive.{
  Installer, receive_bytes, wasm_app_module_on_install_request_byte_arrive,
}
use wamr_app_framework.Install.Callbacks.{
  MsgSlot, replace_callback, take_free_slot, wasm_register_msg_callback,
  app_instance_queue_callback, app_instance_queue_callback-wasm_register_msg_callback,
}
use wamr_app_framework.Attributes.{u32_bytes}
use wamr_app_framework.Install.Leb.{leb_bytes}
use wamr_app_framework.Install.Header.{header_bytes}
use wamr_app_framework.Install.Sections.{sections_bytes, IsRoomy, in_type, in_body}
use wamr_app_framework.Install.RoundTrip.{
  InstallSpec, IsInstall, install_bytes, posted, receive_bytes-install_bytes,
}
use wamr_app_framework.Install.Overrun.{
  receive_bytes_empty_section, receive_bytes_empty_url,
  wasm_app_module_on_install_request_byte_arrive_stuck,
}

-- The magics, `\0asm` and `\0aot`, as numbers.
abbrev package_type_of : ℕ → PackageType
package_type_of magic =
    if magic == 0x6d736100
    then package_bytecode
    else if magic == 0x746f6100
    then package_aot
    else package_unknown

-- Every allocation succeeds.
abbrev ample : Loader
ample = record {
  malloc = λ n. some (zeros n);
  os_mmap = λ n. some (zeros n);
  new_section = true;
  get_package_type = package_type_of;
  plt_table_size = 16;
  section_type_max = 11;
  request_malloc = true;
  url_dup = true;
  payload_malloc = true;
  new_msg = true;
  post_msg = true;
}

ample-IsRoomy : IsRoomy ample
ample-IsRoomy = record {
  block = λ n. (zeros n, refl, length-zeros n);
  new_section = refl;
  request_malloc = refl;
  url_dup = refl;
  payload_malloc = refl;
  new_msg = refl;
  post_msg = refl;
}

-- Allocations of 2 ^ 31 bytes and more fail.
abbrev modest : Loader
modest = record ample {
  malloc = λ n. if ltb n (2 ^ 31) then some (zeros n) else none;
  os_mmap = λ n. if ltb n (2 ^ 31) then some (zeros n) else none;
}

-- A request with two sections for the url "/a".
abbrev small_install : InstallSpec
small_install = record {
  action = 3;
  fmt = 0;
  mid = 7;
  sender = 9;
  url = 0x2f ∷ 0x61 ∷ [];
  app_size = 15;
  magic = 0x6d736100;
  section = record { section_type = 1; body = 5 ∷ 6 ∷ [] };
  sections = record { section_type = 10; body = 8 ∷ [] } ∷ [];
}

small_install-IsInstall : IsInstall ample small_install
small_install-IsInstall = record {
  fmt_u16 = omega arith;
  mid_u32 = omega arith;
  sender_u32 = omega arith;
  url_given = omega arith;
  url_u16 = omega arith;
  url_chars = ((omega arith, omega arith), ((omega arith, omega arith), tt));
  app_size_u32 = omega arith;
  magic_u32 = omega arith;
  magic_bytecode = refl;
  first = (omega arith, omega arith, omega arith);
  others = ((omega arith, omega arith, omega arith), tt);
}

receive_bytes-install_bytes_example :
    receive_bytes ample
      (install_bytes small_install)
      (length (install_bytes small_install))
      (record { context = idle; effects = [] })
    ≡ ok (record { context = idle; effects = post (posted small_install) ∷ [] })
receive_bytes-install_bytes_example =
    receive_bytes-install_bytes ample [] small_install ample-IsRoomy small_install-IsInstall
      (unfold htons_bytes htonl_bytes u32_bytes sections_bytes leb_bytes in omega arith)

receive_bytes_empty_section_example :
    receive_bytes ample (1 ∷ 0 ∷ 4 ∷ []) 40 (record { context = in_type idle [] 28; effects = [] })
    ≡ fault
receive_bytes_empty_section_example =
    receive_bytes_empty_section ample 40 [] idle [] 28 1 (zeros 0) (4 ∷ []) (omega arith) refl refl
      (omega (arith, length-zeros 0))

receive_bytes_empty_url_example :
    receive_bytes ample
      (header_bytes 3 0 7 9 0 15 (0x2f ∷ 0x61 ∷ []))
      40
      (record { context = idle; effects = [] })
    ≡ fault
receive_bytes_empty_url_example =
    receive_bytes_empty_url ample 40 [] 3 0 7 9 15 0x2f 0x61 (zeros 1) [] (omega arith)
      (omega arith) (omega arith) (omega arith) refl

-- The queue of the app manager takes nothing.
abbrev full_queue : Loader
full_queue = record ample { post_msg = false }

wasm_app_module_on_install_request_byte_arrive_stuck_example :
    (s' : Installer) × (wasm_app_module_on_install_request_byte_arrive full_queue 8 35
        (record { context = in_body idle 10 [] 0 34 1 (0 ∷ []); effects = [] })
      ≡ ok (false, 35, s'))
    × (s'.effects ≡ respond_error 0 ∷ [])
    × ((ch' T' : ℕ) → wasm_app_module_on_install_request_byte_arrive full_queue ch' T' s' ≡ fault)
wasm_app_module_on_install_request_byte_arrive_stuck_example =
    wasm_app_module_on_install_request_byte_arrive_stuck full_queue idle [] 10 [] (0 ∷ []) 0 34 8
      refl (omega arith) (omega arith) refl

-- A context in the body of a section of one byte.
abbrev last_byte : Installer
last_byte = record { context = in_body idle 10 [] 0 34 1 (0 ∷ []); effects = [] }

-- Two slots, of which one is taken.
abbrev two_slots : List MsgSlot
two_slots =
    record { msg_type = 5; callback = some 1 } ∷ record { msg_type = 0; callback = none } ∷ []

abbrev both_taken : List MsgSlot
both_taken =
    record { msg_type = 5; callback = some 1 } ∷ record { msg_type = 6; callback = some 2 } ∷ []

app_instance_queue_callback-wasm_register_msg_callback_example :
    (app_instance_queue_callback 6 both_taken ≡ some (ok 2))
    × ((other g : ℕ)
        → other ≢ 6
        → app_instance_queue_callback other two_slots ≡ some (ok g)
        → app_instance_queue_callback other both_taken ≡ some (ok g))
unfolding wasm_register_msg_callback replace_callback take_free_slot
app_instance_queue_callback-wasm_register_msg_callback_example =
    app_instance_queue_callback-wasm_register_msg_callback 6 2 two_slots both_taken refl
