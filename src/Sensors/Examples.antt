-- ===== src/Sensors/Examples.antt =====
-- The theorems on sensors at concrete sensors.
use wamr_app_framework.Prelude.{
  ℕ, ◌-◌, ◌≡◌, inl, inr, refl, List, [], ◌∷◌, true, Option, none, some, All, arith, str_eq,
}
use wamr_app_framework.Sensors.{
  SensorClient, SysSensor, Sensors, uint32_max, find_first, find_sys_sensor, find_sys_sensor_id,
  find_sensor_client, wasm_sensor_open, wasm_sensor_config,
}
use wamr_app_framework.Sensors.Check.{check_sensor_timers}
use wamr_app_framework.Sensors.Interval.{IsSensor}
use wamr_app_framework.Sensors.Invariant.{opens, configures, closes, after, after-IsSensor}
use wamr_app_framework.Sensors.Schedule.{
  IsNext, IsServed, check_sensor_timers-IsNext, check_sensor_timers-IsServed,
}
use wamr_app_framework.Sensors.Registry.{IsNumbered, opened, wasm_sensor_config-wasm_sensor_open}

abbrev client : ℕ → ℕ → SensorClient
client id interval = record { client_id = id; interval = interval; bit_cfg = 0; delay = 0 }

-- Modules 4 and 5 read sensor 1 every 200 and every 500 milliseconds.
abbrev thermometer : SysSensor
thermometer = record {
  name = 0x74 ∷ [];
  sensor_instance = 0;
  description = none;
  sensor_id = 1;
  clients = client 5 500 ∷ client 4 200 ∷ [];
  last_read = 1000;
  read_interval = 200;
  default_interval = 100;
  read = 1;
  config = none;
}

abbrev home : Sensors
home = record { g_sys_sensors = thermometer ∷ []; g_sensor_id_max = 1; freed = [] }

home-IsSensor : All IsSensor (thermometer ∷ [])
unfolding find_sensor_client
home-IsSensor = ((((omega arith, (omega arith, tt)), inr (inl refl)), (refl, (refl, tt))), tt)

after-IsSensor_example :
    All IsSensor
      (after
        (opens true 6 (0x74 ∷ []) 0 ∷ configures 6 1 150 0 0 ∷ closes 4 1 ∷ [])
        home).g_sys_sensors
after-IsSensor_example =
    after-IsSensor (opens true 6 (0x74 ∷ []) 0 ∷ configures 6 1 150 0 0 ∷ closes 4 1 ∷ []) home
      home-IsSensor

abbrev elapsed_at : ℕ → ℕ → ℕ
elapsed_at now time = now - time

abbrev read_21 : SysSensor → Option (List ℕ)
read_21 s = some (21 ∷ [])

check_sensor_timers-IsServed_example :
    All
      (IsServed
        (elapsed_at 1300)
        read_21
        (check_sensor_timers 1300 (elapsed_at 1300) read_21 home).2)
      (thermometer ∷ [])
check_sensor_timers-IsServed_example =
    check_sensor_timers-IsServed 1300 (elapsed_at 1300) read_21 home home-IsSensor

check_sensor_timers-IsNext_example :
    IsNext
      (elapsed_at 1150)
      (check_sensor_timers 1150 (elapsed_at 1150) read_21 home).0
      uint32_max
      (thermometer ∷ [])
check_sensor_timers-IsNext_example = check_sensor_timers-IsNext 1150 (elapsed_at 1150) read_21 home

home-IsNumbered : IsNumbered home
unfolding find_first
home-IsNumbered = record { distinct = (refl, tt); below = (omega arith, tt) }

found_thermometer : find_sys_sensor (0x74 ∷ []) 0 home ≡ some thermometer
unfolding find_first str_eq
found_thermometer = refl

six_is_new : find_sensor_client 6 (client 5 500 ∷ client 4 200 ∷ []) ≡ none
unfolding find_sensor_client
six_is_new = refl

wasm_sensor_config-wasm_sensor_open_example :
    let r = wasm_sensor_open true 6 (0x74 ∷ []) 0 home in
    (find_sys_sensor_id r.0 r.1 ≡ some (opened 6 thermometer))
    × ((wasm_sensor_config 6 r.0 150 0 0 r.1).0 ≡ true)
wasm_sensor_config-wasm_sensor_open_example =
    wasm_sensor_config-wasm_sensor_open 6 (0x74 ∷ []) 0 150 0 0 home thermometer
      home-IsNumbered.distinct found_thermometer six_is_new
