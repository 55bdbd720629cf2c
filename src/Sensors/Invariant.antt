-- ===== src/Sensors/Invariant.antt =====
-- What every operation keeps of a sensor: app-framework/sensor/native/runtime_sensor.c.
use wamr_app_framework.Prelude.{
  ℕ, ◌≡◌, inl, inr, subst, sym, ◌∙◌, List, [], ◌∷◌, Bool, true, false, Option, none, some,
  Bool-cases, Option-cases, All,
}
use wamr_app_framework.Sensors.{
  SysSensor, Sensors, has_name, has_id, find_sys_sensor, find_sys_sensor_id, find_sensor_client,
  remove_sensor_client, refresh_read_interval, new_client, wasm_sensor_open, configure_client,
  wasm_sensor_config, wasm_sensor_close, add_sys_sensor,
}
use wamr_app_framework.Sensors.Check.{
  is_idle, is_due, ms_behind, check_from, check_sensor_timers, sensor_behind,
}
use wamr_app_framework.Sensors.Interval.{
  IsSensor, interval_of-IsLeast, remove_sensor_client-HasDistinctClients,
  configure_client-HasDistinctClients, update_first-All,
}

-- The operations, with their arguments.
pub data Operation : Type 0 where
  opens : (malloc : Bool) (mod_id : ℕ) (name : List ℕ) (instance_no : ℕ) → Operation
  configures : (mod_id sensor interval bit_cfg delay : ℕ) → Operation
  closes : (mod_id sensor : ℕ) → Operation
  adds :
      (malloc mutex_init : Bool) (name : List ℕ) (description : Option (List ℕ))
      (instance_no default_interval read_func : ℕ) (config_func : Option ℕ)
      → Operation
  checks : (now : ℕ) (elapsed : ℕ → ℕ) (read : SysSensor → Option (List ℕ)) → Operation

unfoldable pub after : List Operation → Sensors → Sensors
after [] g = g
after (opens malloc mod_id name instance_no ∷ ops) g =
    after ops (wasm_sensor_open malloc mod_id name instance_no g).1
after (configures mod_id sensor interval bit_cfg delay ∷ ops) g =
    after ops (wasm_sensor_config mod_id sensor interval bit_cfg delay g).1
after (closes mod_id sensor ∷ ops) g = after ops (wasm_sensor_close mod_id sensor g).1
after
      (adds malloc mutex_init name description instance_no default_interval read_func config_func
        ∷ ops)
      g =
    after ops
      (add_sys_sensor malloc mutex_init name description instance_no default_interval read_func
        config_func g).1
after (checks now elapsed read ∷ ops) g = after ops (check_sensor_timers now elapsed read g).1

wasm_sensor_close-IsSensor :
    (mod_id sensor : ℕ) (g : Sensors)
    → All IsSensor g.g_sys_sensors
    → All IsSensor (wasm_sensor_close mod_id sensor g).1.g_sys_sensors
unfolding wasm_sensor_close
wasm_sensor_close-IsSensor mod_id sensor g h =
    let changed =
      update_first-All IsSensor (has_id sensor)
        (λ t. refresh_read_interval (record t { clients = remove_sensor_client mod_id t.clients }))
        g.g_sys_sensors
        (λ t e p.
          (interval_of-IsLeast _ _, remove_sensor_client-HasDistinctClients mod_id t.clients p.1))
        h in
    elim (Option-cases (find_sys_sensor_id sensor g)) [
      | inl e ↦ rw (All, e) h
      | inr (s, e) ↦ rw (All, e) changed
    ]

wasm_sensor_config-IsSensor :
    (mod_id sensor interval bit_cfg delay : ℕ) (g : Sensors)
    → All IsSensor g.g_sys_sensors
    → All IsSensor (wasm_sensor_config mod_id sensor interval bit_cfg delay g).1.g_sys_sensors
unfolding wasm_sensor_config
wasm_sensor_config-IsSensor mod_id sensor interval bit_cfg delay g h =
    let changed =
      update_first-All IsSensor (has_id sensor)
        (λ t.
          refresh_read_interval
            (record t { clients = configure_client mod_id interval bit_cfg delay t.clients }))
        g.g_sys_sensors
        (λ t e p. (
          interval_of-IsLeast _ _,
          configure_client-HasDistinctClients mod_id interval bit_cfg delay t.clients p.1,
        ))
        h in
    elim (Option-cases (find_sys_sensor_id sensor g)) [
      | inl e ↦ rw (All, e) h
      | inr (s, e) ↦ elim (Option-cases (find_sensor_client mod_id s.clients)) [
        | inl e' ↦ rw (All, e, e') h
        | inr (c, e') ↦ rw (All, e, e') changed
      ]
    ]

same_some : (a b : SysSensor) → some a ≡ some b → b ≡ a
same_some a b e = cc

wasm_sensor_open-IsSensor :
    (malloc : Bool) (mod_id : ℕ) (name : List ℕ) (instance_no : ℕ) (g : Sensors)
    → All IsSensor g.g_sys_sensors
    → All IsSensor (wasm_sensor_open malloc mod_id name instance_no g).1.g_sys_sensors
unfolding wasm_sensor_open
wasm_sensor_open-IsSensor malloc mod_id name instance_no g h =
    elim (Option-cases (find_sys_sensor name instance_no g)) [
      | inl e ↦ rw (All, e) h
      | inr (s, e) ↦ elim (Option-cases (find_sensor_client mod_id s.clients)) [
        | inr (c, e') ↦ rw (All, e, e') h
        | inl e' ↦
            let changed =
              update_first-All IsSensor (has_name name instance_no)
                (λ t.
                  refresh_read_interval
                    (record t { clients = new_client mod_id t.default_interval ∷ t.clients }))
                g.g_sys_sensors
                (λ t f p. (
                  interval_of-IsLeast t.default_interval
                      (new_client mod_id t.default_interval ∷ t.clients),
                  (
                    subst (λ u. find_sensor_client mod_id u.clients ≡ none)
                        (same_some t s (sym f ∙ e)) e',
                    p.1,
                  ),
                ))
                h in
            elim malloc
              as (λ m.
                All IsSensor (wasm_sensor_open m mod_id name instance_no g).1.g_sys_sensors) [
                  | true ↦ rw (All, e, e') changed
                  | false ↦ rw (All, e, e') h
                ]
      ]
    ]

sensor_behind-IsSensor :
    (now : ℕ) (elapsed : ℕ → ℕ) (s : SysSensor)
    → IsSensor s
    → IsSensor (sensor_behind now elapsed s)
unfolding sensor_behind
sensor_behind-IsSensor now elapsed s h = elim (Bool-cases (is_idle s)) [
  | inl e ↦ rw e h
  | inr e ↦ elim (Bool-cases (is_due elapsed s)) [ inl d ↦ rw (e, d) h | inr d ↦ rw (e, d) h ]
]

add_sys_sensor-IsSensor :
    (malloc mutex_init : Bool) (name : List ℕ) (description : Option (List ℕ))
    (instance_no default_interval read_func : ℕ) (config_func : Option ℕ) (g : Sensors)
    → All IsSensor g.g_sys_sensors
    → All IsSensor
        (add_sys_sensor malloc mutex_init name description instance_no default_interval read_func
          config_func g).1.g_sys_sensors
unfolding add_sys_sensor
add_sys_sensor-IsSensor false mutex_init name description instance_no default_interval read_func
      config_func g h =
    h
add_sys_sensor-IsSensor true mutex_init name description instance_no default_interval read_func
      config_func g h =
    ((tt, tt), h)

check_from-IsSensor :
    (now : ℕ) (elapsed : ℕ → ℕ) (read : SysSensor → Option (List ℕ)) (ms : ℕ) (l : List SysSensor)
    → All IsSensor l
    → All IsSensor (check_from now elapsed read ms l).1
unfolding check_from sensor_behind
check_from-IsSensor now elapsed read ms [] h = tt
check_from-IsSensor now elapsed read ms (s ∷ rest) h = (
  sensor_behind-IsSensor now elapsed s h.0,
  check_from-IsSensor now elapsed read (ms_behind elapsed s ms) rest h.1,
)

-- The operations of the applications and of the reading thread keep the invariant of every sensor:
-- its read interval is the least of its clients' intervals, where it has any, and no application is
-- its client twice.
pub after-IsSensor :
    (ops : List Operation) (g : Sensors)
    → All IsSensor g.g_sys_sensors
    → All IsSensor (after ops g).g_sys_sensors
unfolding after
after-IsSensor [] g h = h
after-IsSensor (opens malloc mod_id name instance_no ∷ ops) g h =
    after-IsSensor ops _ (wasm_sensor_open-IsSensor malloc mod_id name instance_no g h)
after-IsSensor (configures mod_id sensor interval bit_cfg delay ∷ ops) g h =
    after-IsSensor ops _ (wasm_sensor_config-IsSensor mod_id sensor interval bit_cfg delay g h)
after-IsSensor (closes mod_id sensor ∷ ops) g h =
    after-IsSensor ops _ (wasm_sensor_close-IsSensor mod_id sensor g h)
after-IsSensor
      (adds malloc mutex_init name description instance_no default_interval read_func config_func
        ∷ ops)
      g h =
    after-IsSensor ops _ (
      add_sys_sensor-IsSensor malloc mutex_init name description instance_no default_interval
        read_func config_func g h)
after-IsSensor (checks now elapsed read ∷ ops) g h =
    after-IsSensor ops _
      (unfold check_sensor_timers in check_from-IsSensor now elapsed read _ g.g_sys_sensors h)
