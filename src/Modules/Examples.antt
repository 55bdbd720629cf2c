-- ===== src/Modules/Examples.antt =====
-- The theorems on the module list at concrete modules.
use wamr_app_framework.Prelude.{refl, [], ◌∷◌, false, arith}
use wamr_app_framework.Modules.{
  ModuleData, ModuleDataList, reserved_ids, module_data_list_remove, lookup_id,
}
use wamr_app_framework.Modules.Ids.{IsNumbered, module_data_list_remove-IsNumbered}

abbrev timer_app : ModuleData
timer_app = record {
  address = 4096;
  id = 1;
  module_type = 1;
  heap_size = 8192;
  is_interrupting = false;
  module_name = 0x74 ∷ [];
}

abbrev sensor_app : ModuleData
sensor_app = record timer_app { address = 8192; id = 0; module_name = 0x73 ∷ [] }

abbrev one_module : ModuleDataList
one_module = record { module_id_max = 2; modules = timer_app ∷ [] }

one_module-IsNumbered : IsNumbered one_module
unfolding lookup_id
one_module-IsNumbered = record { counter = omega arith; below = omega arith; distinct = (refl, tt) }

module_data_list_remove-IsNumbered_example :
    IsNumbered (module_data_list_remove timer_app one_module)
module_data_list_remove-IsNumbered_example =
    module_data_list_remove-IsNumbered timer_app one_module one_module-IsNumbered

abbrev come_round : ModuleDataList
come_round = record one_module { module_id_max = reserved_ids }
