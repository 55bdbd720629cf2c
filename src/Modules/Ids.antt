-- ===== src/Modules/Ids.antt =====
-- The ids of modules: app-mgr/app-manager/module_utils.c.
use wamr_app_framework.Prelude.{
  ℕ, ◌+◌, ◌≤◌, ◌<◌, ◌≡◌, ◌≢◌, ◌↔◌, refl, List, [], ◌∷◌, none, some, ◌==◌, if◌then◌else◌, arith,
}
use wamr_app_framework.Modules.{
  ModuleData, ModuleDataList, next_id, reserved_ids, module_data_list_add, module_data_list_remove,
  remove_module, lookup_id, module_data_list_lookup_id,
}

-- Every id in the list is from 1 to the bound, and none stands twice.
abbrev pub IdsBelow : ℕ → List ModuleData → Type 0
IdsBelow bound [] = Unit {0}
IdsBelow bound (p ∷ rest) = (0 < p.id) × (p.id < bound) × IdsBelow bound rest

abbrev pub HasDistinctIds : List ModuleData → Type 0
HasDistinctIds [] = Unit {0}
HasDistinctIds (p ∷ rest) = (lookup_id p.id rest ≡ none) × HasDistinctIds rest

-- The invariant while the counter has not come round: ids are distinct, below the counter, and so
-- none of the reserved ones.
pub record IsNumbered (l : ModuleDataList) : Type 0 where
  pub counter : (0 < l.module_id_max) × (l.module_id_max ≤ reserved_ids)
  pub below : IdsBelow l.module_id_max l.modules
  pub distinct : HasDistinctIds l.modules

lookup_id-above :
    (bound id : ℕ) (ms : List ModuleData) → IdsBelow bound ms → bound ≤ id → lookup_id id ms ≡ none
unfolding lookup_id
lookup_id-above bound id [] h le = refl
lookup_id-above bound id (p ∷ rest) h le =
    ground (arith, h.0, h.1, lookup_id-above bound id rest h.2)

IdsBelow-mono : (a b : ℕ) (ms : List ModuleData) → a ≤ b → IdsBelow a ms → IdsBelow b ms
IdsBelow-mono a b [] le h = tt
IdsBelow-mono a b (p ∷ rest) le h = (h.0, omega arith, IdsBelow-mono a b rest le h.2)

remove_module-IdsBelow :
    (address bound : ℕ) (ms : List ModuleData)
    → IdsBelow bound ms
    → IdsBelow bound (remove_module address ms)
unfolding remove_module
remove_module-IdsBelow address bound [] h = tt
remove_module-IdsBelow address bound (p ∷ rest) h =
    ground (arith, h, remove_module-IdsBelow address bound rest h.2)

lookup_id-remove_module :
    (address id : ℕ) (ms : List ModuleData)
    → lookup_id id ms ≡ none
    → lookup_id id (remove_module address ms) ≡ none
unfolding remove_module lookup_id
lookup_id-remove_module address id [] h = refl
lookup_id-remove_module address id (p ∷ rest) h =
    ground (arith, lookup_id-remove_module address id rest)

remove_module-HasDistinctIds :
    (address : ℕ) (ms : List ModuleData)
    → HasDistinctIds ms
    → HasDistinctIds (remove_module address ms)
unfolding remove_module
remove_module-HasDistinctIds address [] h = tt
remove_module-HasDistinctIds address (p ∷ rest) h = ground (
  arith,
  h,
  remove_module-HasDistinctIds address rest h.1,
  lookup_id-remove_module address p.id rest,
)

-- Adding a module keeps the ids distinct, positive and below the counter, as long as the counter has
-- not reached the reserved ids; the counter then does not pass them.
pub module_data_list_add-IsNumbered :
    (m : ModuleData) (l : ModuleDataList)
    → l.module_id_max ≢ reserved_ids
    → IsNumbered l
    → IsNumbered (module_data_list_add m l)
unfolding module_data_list_add next_id
module_data_list_add-IsNumbered m l ne v = ground (
  arith,
  ne,
  v.counter,
  v.below,
  v.distinct,
  lookup_id-above l.module_id_max l.module_id_max l.modules v.below,
  IdsBelow-mono l.module_id_max (l.module_id_max + 1) l.modules,
)

-- Taking a module out keeps the ids distinct, positive and below the counter.
pub module_data_list_remove-IsNumbered :
    (m : ModuleData) (l : ModuleDataList) → IsNumbered l → IsNumbered (module_data_list_remove m l)
unfolding module_data_list_remove
module_data_list_remove-IsNumbered m l v = record {
  counter = v.counter;
  below = remove_module-IdsBelow m.address l.module_id_max l.modules v.below;
  distinct = remove_module-HasDistinctIds m.address l.modules v.distinct;
}

-- Pointer and id tell the same modules of the list from `m`.
abbrev pub Identifies : ModuleData → List ModuleData → Type 0
Identifies m [] = Unit {0}
Identifies m (p ∷ rest) = ((p.address ≡ m.address) ↔ (p.id ≡ m.id)) × Identifies m rest

lookup_id-remove_module_eq :
    (m : ModuleData) (id : ℕ) (ms : List ModuleData)
    → HasDistinctIds ms
    → Identifies m ms
    → lookup_id id (remove_module m.address ms) ≡ (if id == m.id then none else lookup_id id ms)
unfolding lookup_id remove_module
lookup_id-remove_module_eq m id [] d h = ground arith
lookup_id-remove_module_eq m id (p ∷ rest) d h =
    ground (arith, d, h.0.0, h.0.1, lookup_id-remove_module_eq m id rest d.1 h.1)

-- A module that was taken out is not found any more, and every other id finds what it found before;
-- the ids are distinct, and pointer and id agree on which module of the list it is.
pub lookup_id-module_data_list_remove :
    (m : ModuleData) (l : ModuleDataList) (id : ℕ)
    → HasDistinctIds l.modules
    → Identifies m l.modules
    → module_data_list_lookup_id id (module_data_list_remove m l)
      ≡ (if id == m.id then none else module_data_list_lookup_id id l)
unfolding module_data_list_remove module_data_list_lookup_id
lookup_id-module_data_list_remove m l id d h = lookup_id-remove_module_eq m id l.modules d h

-- When the counter has come round, a module that is loaded under id 1 can no longer be found by its
-- id: the module that is added next gets the same one.
pub module_data_list_add_reuses :
    (m old : ModuleData) (l : ModuleDataList)
    → l.module_id_max ≡ reserved_ids
    → module_data_list_lookup_id 1 l ≡ some old
    → module_data_list_lookup_id 1 (module_data_list_add m l) ≡ some (record m { id = 1 })
unfolding module_data_list_add module_data_list_lookup_id next_id lookup_id
module_data_list_add_reuses m old l e found = ground (arith, e)
