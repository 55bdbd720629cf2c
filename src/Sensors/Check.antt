-- ===== src/Sensors/Check.antt =====
-- The reading of the sensors: `check_sensor_timers` and `wasm_sensor_callback` of
-- app-framework/sensor/native/runtime_sensor.c.
use wamr_app_framework.Prelude.{
  ℕ, ◌-◌, List, [], ◌∷◌, ◌++◌, Bool, true, Option, none, some, ltb, leb, if◌then◌else◌,
}
use wamr_app_framework.Modules.{ModuleData, ModuleDataList, module_data_list_lookup_id}
use wamr_app_framework.Sensors.{SensorClient, SysSensor, Sensors, uint32_max}

-- A call of `wasm_sensor_callback`.
pub record SensorCall : Type 0 where
  pub client_id : ℕ
  pub sensor_id : ℕ
  pub data_read : List ℕ

-- The message that the callback posts, with its copy of the data.
unfoldable pub wasm_sensor_callback :
    Bool → ModuleDataList → SensorCall → Option (ModuleData × ℕ × List ℕ)
wasm_sensor_callback malloc l call = elim (module_data_list_lookup_id call.client_id l) [
  | none ↦ none
  | some m ↦ if malloc then some (m, call.sensor_id, call.data_read) else none
]

unfoldable pub is_idle : SysSensor → Bool
is_idle s = elim s.clients [ [] ↦ true | c ∷ cs ↦ leb s.read_interval 0 ]

-- `elapsed` is `bh_get_elpased_ms`, of the milliseconds since a time.
unfoldable pub is_due : (ℕ → ℕ) → SysSensor → Bool
is_due elapsed s = leb s.read_interval (elapsed s.last_read)

-- `ms_to_next_check` behind a sensor.
unfoldable pub ms_behind : (ℕ → ℕ) → SysSensor → ℕ → ℕ
ms_behind elapsed s ms =
    let wait : ℕ =
      if is_due elapsed s then s.read_interval else s.read_interval - elapsed s.last_read in
    if is_idle s then ms else if ltb wait ms then wait else ms

unfoldable pub calls_of : SysSensor → List ℕ → List SensorClient → List SensorCall
calls_of s data_read [] = []
calls_of s data_read (c ∷ cs) =
    record { client_id = c.client_id; sensor_id = s.sensor_id; data_read = data_read }
    ∷ calls_of s data_read cs

-- What is done at a sensor: `read` calls its `read`.
unfoldable pub calls_at : (ℕ → ℕ) → (SysSensor → Option (List ℕ)) → SysSensor → List SensorCall
calls_at elapsed read s =
    if is_idle s
    then []
    else if is_due elapsed s
    then elim (read s) [ none ↦ [] | some data_read ↦ calls_of s data_read s.clients ]
    else []

unfoldable pub sensor_behind : ℕ → (ℕ → ℕ) → SysSensor → SysSensor
sensor_behind now elapsed s =
    if is_idle s then s else if is_due elapsed s then record s { last_read = now } else s

unfoldable pub check_from :
    ℕ
    → (ℕ → ℕ)
    → (SysSensor → Option (List ℕ))
    → ℕ
    → List SysSensor
    → ℕ × List SysSensor × List SensorCall
check_from now elapsed read ms [] = (ms, [], [])
check_from now elapsed read ms (s ∷ rest) =
    let (next, sensors, calls) = check_from now elapsed read (ms_behind elapsed s ms) rest in
    (next, sensor_behind now elapsed s ∷ sensors, calls_at elapsed read s ++ calls)

unfoldable pub check_sensor_timers :
    ℕ → (ℕ → ℕ) → (SysSensor → Option (List ℕ)) → Sensors → ℕ × Sensors × List SensorCall
check_sensor_timers now elapsed read g =
    let (next, sensors, calls) = check_from now elapsed read uint32_max g.g_sys_sensors in
    (next, record g { g_sys_sensors = sensors }, calls)
