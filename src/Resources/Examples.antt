-- ===== src/Resources/Examples.antt =====
-- The theorems on the resource registry at concrete registrations.
use wamr_app_framework.Prelude.{
  ℕ, ◌≤◌, ◌≡◌, refl, List, [], ◌∷◌, ◌++◌, true, false, some, str_eq, arith,
}
use wamr_app_framework.Restful.{Request, Payload}
use wamr_app_framework.Restful.Url.{check_url_start, skip_slash, len_without_slash, compare_start}
use wamr_app_framework.Modules.{ModuleData, ModuleDataList, module_data_list_lookup, lookup}
use wamr_app_framework.Resources.{
  module_request_handler, targeted_app_request_handler, AppResRegister, Resources,
  am_cleanup_registeration, am_dispatch_request, handle_targeted_app_request, handle_module_request,
  id_app_mgr, app_prefix, find_resource,
}
use wamr_app_framework.Resources.Limits.{
  is_registered, registered_by, IsWithinLimits, after, register, cleanup, after-IsWithinLimits,
}
use wamr_app_framework.Resources.Dispatch.{
  IsFirst, am_dispatch_request-IsFirst, am_dispatch_request-am_cleanup_registeration,
}
use wamr_app_framework.Resources.Targeted.{handle_targeted_app_request_lem}

abbrev app_resource : AppResRegister
app_resource = record {
  url = app_prefix;
  request_handler = targeted_app_request_handler;
  register_id = id_app_mgr;
}

-- Module 4 serves "/a".
abbrev alarm : AppResRegister
alarm = record { url = 0x2f ∷ 0x61 ∷ []; request_handler = module_request_handler; register_id = 4 }

abbrev resources : Resources
resources = alarm ∷ app_resource ∷ []

abbrev lamp : ModuleData
lamp = record {
  address = 4096;
  id = 4;
  module_type = 1;
  heap_size = 8192;
  is_interrupting = false;
  module_name = 0x6c ∷ [];
}

abbrev loaded : ModuleDataList
loaded = record { module_id_max = 5; modules = lamp ∷ [] }

abbrev request_for : List ℕ → Request
request_for url = record {
  mid = 1;
  url = url;
  action = 1;
  fmt = 0;
  payload = Payload.nothing;
  payload_len = 0;
  sender = 3;
}

app_resource-number : (id : ℕ) → registered_by id (app_resource ∷ []) ≤ 16
unfolding registered_by
app_resource-number id = ground arith

app_resource-IsWithinLimits : IsWithinLimits (app_resource ∷ [])
unfolding is_registered
app_resource-IsWithinLimits = record {
  distinct = (refl, tt);
  lengths = omega arith;
  numbers = app_resource-number;
}

after-IsWithinLimits_example : IsWithinLimits (
    after (register true (0x62 ∷ []) module_request_handler 4 ∷ cleanup 4 ∷ []) (app_resource ∷ []))
after-IsWithinLimits_example =
    after-IsWithinLimits (register true (0x62 ∷ []) module_request_handler 4 ∷ cleanup 4 ∷ [])
      (app_resource ∷ []) app_resource-IsWithinLimits

abbrev alarm_request : Request
alarm_request = request_for (0x2f ∷ 0x61 ∷ [])

alarm-first : (am_dispatch_request true loaded alarm_request resources).0 ≡ some alarm
unfolding am_dispatch_request find_resource check_url_start skip_slash len_without_slash
    compare_start str_eq
alarm-first = refl

am_dispatch_request-IsFirst_example : IsFirst (0x2f ∷ 0x61 ∷ []) resources alarm
am_dispatch_request-IsFirst_example =
    (am_dispatch_request-IsFirst true loaded alarm_request resources alarm).0 alarm-first

am_dispatch_request-am_cleanup_registeration_example :
    am_dispatch_request true loaded alarm_request (am_cleanup_registeration 5 resources)
    ≡ am_dispatch_request true loaded alarm_request resources
am_dispatch_request-am_cleanup_registeration_example =
    (am_dispatch_request-am_cleanup_registeration true loaded alarm_request 5 resources alarm).1
      alarm-first (omega arith)

handle_targeted_app_request_lem_example :
    handle_targeted_app_request true loaded
      (request_for (app_prefix ++ (0x6c ∷ 0x2f ∷ 0x6f ∷ 0x6e ∷ [])))
    ≡ handle_module_request true loaded (request_for (0x6f ∷ 0x6e ∷ [])) 4
unfolding module_data_list_lookup lookup str_eq
handle_targeted_app_request_lem_example =
    handle_targeted_app_request_lem true loaded
      (request_for (app_prefix ++ (0x6c ∷ 0x2f ∷ 0x6f ∷ 0x6e ∷ []))) (0x6c ∷ []) (0x6f ∷ 0x6e ∷ [])
      refl (omega arith) (omega arith)
