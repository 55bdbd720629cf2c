-- ===== src/Modules.antt =====
-- The list of loaded modules: app-mgr/app-manager/module_utils.c with the record of
-- app-mgr/app-mgr-shared/app_manager_export.h. `address` stands for the pointer, by which
-- `module_data_list_remove` compares; heap, queue, timers and the watchdog's handle are left out.
pub mod Ids
mod Examples
use wamr_app_framework.Prelude.{
  ℕ, ◌+◌, ◌-◌, List, [], ◌∷◌, Bool, true, false, Option, none, some, ◌==◌, if◌then◌else◌, str_eq,
}

pub record ModuleData : Type 0 where
  pub address : ℕ
  pub id : ℕ
  pub module_type : ℕ
  pub heap_size : ℕ
  pub is_interrupting : Bool
  pub module_name : List ℕ

-- `module_data_list` and the static `module_id_max` of `module_data_list_add`.
pub record ModuleDataList : Type 0 where
  pub module_id_max : ℕ
  pub modules : List ModuleData

abbrev pub reserved_ids : ℕ
reserved_ids = 0xffff_fff0

abbrev pub module_data_list_init : ModuleDataList
module_data_list_init = record { module_id_max = 1; modules = [] }

-- The id that the next module gets.
unfoldable pub next_id : ModuleDataList → ℕ
next_id l = if l.module_id_max == reserved_ids then 1 else l.module_id_max

unfoldable pub module_data_list_add : ModuleData → ModuleDataList → ModuleDataList
module_data_list_add m_data l = record {
  module_id_max = next_id l + 1;
  modules = record m_data { id = next_id l } ∷ l.modules;
}

unfoldable pub remove_module : ℕ → List ModuleData → List ModuleData
remove_module address [] = []
remove_module address (p ∷ rest) =
    if p.address == address then rest else p ∷ remove_module address rest

unfoldable pub module_data_list_remove : ModuleData → ModuleDataList → ModuleDataList
module_data_list_remove m_data l = record l { modules = remove_module m_data.address l.modules }

unfoldable pub lookup : List ℕ → List ModuleData → Option ModuleData
lookup module_name [] = none
lookup module_name (p ∷ rest) =
    if str_eq module_name p.module_name then some p else lookup module_name rest

unfoldable pub module_data_list_lookup : List ℕ → ModuleDataList → Option ModuleData
module_data_list_lookup module_name l = lookup module_name l.modules

unfoldable pub lookup_id : ℕ → List ModuleData → Option ModuleData
lookup_id module_id [] = none
lookup_id module_id (p ∷ rest) = if module_id == p.id then some p else lookup_id module_id rest

unfoldable pub module_data_list_lookup_id : ℕ → ModuleDataList → Option ModuleData
module_data_list_lookup_id module_id l = lookup_id module_id l.modules
