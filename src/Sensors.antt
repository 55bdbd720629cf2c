-- ===== src/Sensors.antt =====
-- Sensors and their clients, the applications: app-framework/sensor/native/runtime_sensor.c. The
-- functions that a sensor is made with, `read` and `config`, are native code: they stand for
-- themselves as numbers. The lock of a sensor and the reading thread's wakeup are not modelled.
pub mod Check
pub mod Interval
pub mod Invariant
pub mod Schedule
pub mod Registry
mod Examples
use wamr_app_framework.Prelude.{
  ℕ, ◌+◌, ◌-◌, ◌%◌, ◌^◌, List, [], ◌∷◌, ◌++◌, map, Bool, true, false, ◌&&◌, ◌||◌, Option, none,
  some, ltb, leb, ◌==◌, str_eq, if◌then◌else◌,
}

-- `sensor_client_t`; its callback is always `wasm_sensor_callback`.
pub record SensorClient : Type 0 where
  pub client_id : ℕ
  pub interval : ℕ
  pub bit_cfg : ℕ
  pub delay : ℕ

-- `sys_sensor_t`.
pub record SysSensor : Type 0 where
  pub name : List ℕ
  pub sensor_instance : ℕ
  pub description : Option (List ℕ)
  pub sensor_id : ℕ
  pub clients : List SensorClient
  pub last_read : ℕ
  pub read_interval : ℕ
  pub default_interval : ℕ
  pub read : ℕ
  pub config : Option ℕ

-- The globals, and the ids of the sensors whose memory was given back.
pub record Sensors : Type 0 where
  pub g_sys_sensors : List SysSensor
  pub g_sensor_id_max : ℕ
  pub freed : List ℕ

abbrev pub uint32_max : ℕ
uint32_max = 2 ^ 32 - 1

abbrev pub has_name : List ℕ → ℕ → SysSensor → Bool
has_name name instance_no s = str_eq s.name name && (s.sensor_instance == instance_no)

abbrev pub has_id : ℕ → SysSensor → Bool
has_id sensor_id s = s.sensor_id == sensor_id

-- The first sensor that passes a test, and a change of it in place.
unfoldable pub find_first : (SysSensor → Bool) → List SysSensor → Option SysSensor
find_first test [] = none
find_first test (s ∷ rest) = if test s then some s else find_first test rest

unfoldable pub update_first :
    (SysSensor → Bool) → (SysSensor → SysSensor) → List SysSensor → List SysSensor
update_first test change [] = []
update_first test change (s ∷ rest) =
    if test s then change s ∷ rest else s ∷ update_first test change rest

abbrev pub find_sys_sensor : List ℕ → ℕ → Sensors → Option SysSensor
find_sys_sensor name instance_no g = find_first (has_name name instance_no) g.g_sys_sensors

abbrev pub find_sys_sensor_id : ℕ → Sensors → Option SysSensor
find_sys_sensor_id sensor_id g = find_first (has_id sensor_id) g.g_sys_sensors

unfoldable pub find_sensor_client : ℕ → List SensorClient → Option SensorClient
find_sensor_client client_id [] = none
find_sensor_client client_id (c ∷ rest) =
    if c.client_id == client_id then some c else find_sensor_client client_id rest

-- `find_sensor_client` with `remove_if_found`.
unfoldable pub remove_sensor_client : ℕ → List SensorClient → List SensorClient
remove_sensor_client client_id [] = []
remove_sensor_client client_id (c ∷ rest) =
    if c.client_id == client_id then rest else c ∷ remove_sensor_client client_id rest

unfoldable pub lower_interval : ℕ → List SensorClient → ℕ
lower_interval interval [] = interval
lower_interval interval (c ∷ rest) =
    lower_interval (if ltb c.interval interval then c.interval else interval) rest

unfoldable pub interval_of : ℕ → List SensorClient → ℕ
interval_of default_interval [] = default_interval
interval_of default_interval (c ∷ rest) = lower_interval c.interval (c ∷ rest)

abbrev pub refresh_read_interval : SysSensor → SysSensor
refresh_read_interval s = record s { read_interval = interval_of s.default_interval s.clients }

-- A call of a sensor's `config` with an attribute container of these three values.
pub record ConfigCall : Type 0 where
  pub config : ℕ
  pub sensor_id : ℕ
  pub interval : ℕ
  pub bit_cfg : ℕ
  pub delay : ℕ

abbrev pub new_client : ℕ → ℕ → SensorClient
new_client mod_id interval = record {
  client_id = mod_id;
  interval = interval;
  bit_cfg = 0;
  delay = 0;
}

-- `mod_id` is the id of the calling module. The name is not NULL.
unfoldable pub wasm_sensor_open : Bool → ℕ → List ℕ → ℕ → Sensors → ℕ × Sensors
wasm_sensor_open malloc mod_id name instance_no g = elim (find_sys_sensor name instance_no g) [
  | none ↦ (uint32_max, g)
  | some s ↦ elim (find_sensor_client mod_id s.clients) [
    | some c ↦ (uint32_max, g)
    | none ↦
        if malloc
        then (
          s.sensor_id,
          record g {
            g_sys_sensors =
                update_first (has_name name instance_no)
                  (λ t.
                    refresh_read_interval
                      (record t { clients = new_client mod_id t.default_interval ∷ t.clients }))
                  g.g_sys_sensors;
          },
        )
        else (uint32_max, g)
  ]
]

unfoldable pub configure_client : ℕ → ℕ → ℕ → ℕ → List SensorClient → List SensorClient
configure_client mod_id interval bit_cfg delay [] = []
configure_client mod_id interval bit_cfg delay (c ∷ rest) =
    if c.client_id == mod_id
    then record c { interval = interval; bit_cfg = bit_cfg; delay = delay } ∷ rest
    else c ∷ configure_client mod_id interval bit_cfg delay rest

abbrev pub config_call : SysSensor → ℕ → ℕ → ℕ → List ConfigCall
config_call s interval bit_cfg delay = elim s.config [
  | none ↦ []
  | some f ↦
      record {
        config = f;
        sensor_id = s.sensor_id;
        interval = interval;
        bit_cfg = bit_cfg;
        delay = delay;
      }
      ∷ []
]

unfoldable pub wasm_sensor_config : ℕ → ℕ → ℕ → ℕ → ℕ → Sensors → Bool × Sensors × List ConfigCall
wasm_sensor_config mod_id sensor interval bit_cfg delay g = elim (find_sys_sensor_id sensor g) [
  | none ↦ (false, g, [])
  | some s ↦ elim (find_sensor_client mod_id s.clients) [
    | none ↦ (false, g, [])
    | some c ↦ (
      true,
      record g {
        g_sys_sensors =
            update_first (has_id sensor)
              (λ t.
                refresh_read_interval
                  (record t { clients = configure_client mod_id interval bit_cfg delay t.clients }))
              g.g_sys_sensors;
      },
      config_call s interval bit_cfg delay,
    )
  ]
]

-- `run` calls a sensor's `config` with a container.
unfoldable pub wasm_sensor_config_with_attr_container :
    (ℕ → SysSensor → List ℕ → Bool) → ℕ → Option (List ℕ) → Sensors → Bool
wasm_sensor_config_with_attr_container run sensor none g = false
wasm_sensor_config_with_attr_container run sensor (some cfg) g =
    elim (find_sys_sensor_id sensor g) [
      | none ↦ false
      | some s ↦ elim s.config [ none ↦ false | some f ↦ run f s cfg ]
    ]

unfoldable pub wasm_sensor_close : ℕ → ℕ → Sensors → Bool × Sensors
wasm_sensor_close mod_id sensor g = elim (find_sys_sensor_id sensor g) [
  | none ↦ (false, g)
  | some s ↦ (
    true,
    record g {
      g_sys_sensors =
          update_first (has_id sensor)
            (λ t.
              refresh_read_interval (record t { clients = remove_sensor_client mod_id t.clients }))
            g.g_sys_sensors;
    },
  )
]

unfoldable pub next_sensor_id : ℕ → ℕ
next_sensor_id id_max =
    let next : ℕ = (id_max + 1) % 2 ^ 32 in if next == uint32_max then (next + 1) % 2 ^ 32 else next

-- `malloc` says whether the sensor and its strings can be allocated, `mutex_init` whether its lock
-- can be made. The result is the id of the sensor that is returned.
unfoldable pub add_sys_sensor :
    Bool → Bool → List ℕ → Option (List ℕ) → ℕ → ℕ → ℕ → Option ℕ → Sensors → Option ℕ × Sensors
add_sys_sensor false mutex_init name description instance_no default_interval read_func config_func
      g =
    (none, g)
add_sys_sensor true mutex_init name description instance_no default_interval read_func config_func
      g =
    let id = next_sensor_id g.g_sensor_id_max in
    let s : SysSensor = record {
      name = name;
      sensor_instance = instance_no;
      description = description;
      sensor_id = id;
      clients = [];
      last_read = 0;
      read_interval = 0;
      default_interval = default_interval;
      read = read_func;
      config = config_func;
    } in
    (
      some id,
      record {
        g_sys_sensors = s ∷ g.g_sys_sensors;
        g_sensor_id_max = id;
        freed = if mutex_init then g.freed else id ∷ g.freed;
      },
    )

abbrev pub without_client : ℕ → SysSensor → SysSensor
without_client module_id s = record s { clients = remove_sensor_client module_id s.clients }

unfoldable pub sensor_cleanup_callback : ℕ → Sensors → Sensors
sensor_cleanup_callback module_id g = record g {
  g_sys_sensors = map (without_client module_id) g.g_sys_sensors;
}
