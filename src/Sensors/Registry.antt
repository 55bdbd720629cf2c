-- ===== src/Sensors/Registry.antt =====
-- The ids and the memory of sensors, and their clients' coming and going:
-- app-framework/sensor/native/runtime_sensor.c.
use wamr_app_framework.Prelude.{
  ℕ, ◌+◌, ◌-◌, ◌^◌, ◌≤◌, ◌<◌, ◌≡◌, ◌≢◌, inl, inr, refl, ap, subst, sym, List, [], ◌∷◌, map, Bool,
  true, false, Option, none, some, ◌==◌, Bool-cases, All, arith,
}
use wamr_app_framework.Sensors.{
  SensorClient, SysSensor, Sensors, uint32_max, find_first, update_first, has_name, has_id,
  find_sys_sensor, find_sys_sensor_id, find_sensor_client, refresh_read_interval, new_client,
  wasm_sensor_open, wasm_sensor_config, next_sensor_id, add_sys_sensor, without_client,
  sensor_cleanup_callback,
}
use wamr_app_framework.Sensors.Interval.{
  HasDistinctClients, find_sensor_client-remove_sensor_client,
}

abbrev pub HasDistinctIds : List SysSensor → Type 0
HasDistinctIds [] = Unit {0}
HasDistinctIds (s ∷ rest) = (find_first (has_id s.sensor_id) rest ≡ none) × HasDistinctIds rest

-- The ids given so far: distinct, and none above the counter.
pub record IsNumbered (g : Sensors) : Type 0 where
  pub distinct : HasDistinctIds g.g_sys_sensors
  pub below : All (λ s. s.sensor_id ≤ g.g_sensor_id_max) g.g_sys_sensors

-- No sensor has the id that `wasm_sensor_open` returns for a failure.
pub next_sensor_id_valid :
    (id_max : ℕ) → (next_sensor_id id_max < 2 ^ 32) × (next_sensor_id id_max ≢ uint32_max)
unfolding next_sensor_id
next_sensor_id_valid id_max = ground arith

missing_above :
    (bound id : ℕ) (l : List SysSensor)
    → All (λ s. s.sensor_id ≤ bound) l
    → bound < id
    → find_first (has_id id) l ≡ none
unfolding find_first
missing_above bound id [] h less = refl
missing_above bound id (s ∷ rest) h less = ground (arith, h.0, missing_above bound id rest h.1 less)

below_mono :
    (a b : ℕ) (l : List SysSensor)
    → a ≤ b
    → All (λ s. s.sensor_id ≤ a) l
    → All (λ s. s.sensor_id ≤ b) l
below_mono a b [] le h = tt
below_mono a b (s ∷ rest) le h = (omega arith, below_mono a b rest le h.1)

-- A new sensor keeps the ids distinct while the counter has not come round, and gets an id that is
-- not the one for a failure.
pub add_sys_sensor-IsNumbered :
    (malloc mutex_init : Bool) (name : List ℕ) (description : Option (List ℕ))
    (instance_no default_interval read_func : ℕ) (config_func : Option ℕ) (g : Sensors)
    → g.g_sensor_id_max < 2 ^ 32 - 2
    → IsNumbered g
    → let r =
        add_sys_sensor malloc mutex_init name description instance_no default_interval read_func
          config_func g in
      IsNumbered r.1 × (r.0 ≢ some uint32_max)
unfolding add_sys_sensor
add_sys_sensor-IsNumbered false mutex_init name description instance_no default_interval read_func
      config_func g less v =
    (v, λ e. cc)
add_sys_sensor-IsNumbered true mutex_init name description instance_no default_interval read_func
      config_func g less v =
    let id = next_sensor_id g.g_sensor_id_max in
    let next : id ≡ g.g_sensor_id_max + 1 = unfold next_sensor_id in ground arith in
    let le : g.g_sensor_id_max ≤ id = omega arith in
    let gt : g.g_sensor_id_max < id = omega arith in
    let refl_le : id ≤ id = omega arith in
    (
      record {
        distinct = (missing_above g.g_sensor_id_max id g.g_sys_sensors v.below gt, v.distinct);
        below = (refl_le, below_mono g.g_sensor_id_max id g.g_sys_sensors le v.below);
      },
      λ e. (next_sensor_id_valid g.g_sensor_id_max).1 (same_id id uint32_max e),
    )
  where
    same_id : (a b : ℕ) → some a ≡ some b → a ≡ b
    same_id a b e = cc

same_sensor : (a b : SysSensor) → some a ≡ some b → a ≡ b
same_sensor a b e = cc

found_has_id :
    (test : SysSensor → Bool) (l : List SysSensor) (s : SysSensor)
    → find_first test l ≡ some s
    → find_first (has_id s.sensor_id) l ≢ none
unfolding find_first
found_has_id test [] s e n = cc
found_has_id test (t ∷ rest) s e n = elim (Bool-cases (test t)) [
  | inl hit ↦
      let same : t ≡ s = same_sensor t s (rw (sym e) (rw hit refl)) in ground (arith, n, same)
  | inr miss ↦
      let later : find_first test rest ≡ some s = rw (sym e) (rw miss refl) in
      let found = found_has_id test rest s later in ground (arith, n, found)
]

-- What is found by a test is found by its id too, also when it has been changed in place.
find_first-update_first :
    (test : SysSensor → Bool) (change : SysSensor → SysSensor) (l : List SysSensor) (s : SysSensor)
    → ((t : SysSensor) → (change t).sensor_id ≡ t.sensor_id)
    → HasDistinctIds l
    → find_first test l ≡ some s
    → find_first (has_id s.sensor_id) (update_first test change l) ≡ some (change s)
unfolding find_first update_first
find_first-update_first test change [] s keep d e = cc
find_first-update_first test change (t ∷ rest) s keep d e = elim (Bool-cases (test t)) [
  | inl hit ↦
      let same : t ≡ s = same_sensor t s (rw (sym e) (rw hit refl)) in
      let kept = keep t in rw (hit, sym same) (ground (arith, kept))
  | inr miss ↦
      let later : find_first test rest ≡ some s = rw (sym e) (rw miss refl) in
      let found = found_has_id test rest s later in
      let other : (t.sensor_id == s.sensor_id) ≡ false =
        elim (Bool-cases (t.sensor_id == s.sensor_id)) [
          | inl same ↦
              let ids : t.sensor_id ≡ s.sensor_id = ground arith in
              absurd (found (subst (λ i. find_first (has_id i) rest ≡ none) ids d.0))
          | inr differ ↦ differ
        ] in
      rw (miss, other) (find_first-update_first test change rest s keep d.1 later)
]

-- The sensor with its new client.
abbrev pub opened : ℕ → SysSensor → SysSensor
opened mod_id t =
    refresh_read_interval (record t { clients = new_client mod_id t.default_interval ∷ t.clients })

wasm_sensor_open_succeeds :
    (mod_id : ℕ) (name : List ℕ) (instance_no : ℕ) (g : Sensors) (s : SysSensor)
    → find_sys_sensor name instance_no g ≡ some s
    → find_sensor_client mod_id s.clients ≡ none
    → wasm_sensor_open true mod_id name instance_no g ≡ (
      s.sensor_id,
      record g {
        g_sys_sensors = update_first (has_name name instance_no) (opened mod_id) g.g_sys_sensors;
      },
    )
unfolding wasm_sensor_open
wasm_sensor_open_succeeds mod_id name instance_no g s e n = ground (arith, e, n)

wasm_sensor_config_succeeds :
    (mod_id sensor interval bit_cfg delay : ℕ) (g : Sensors) (s : SysSensor) (c : SensorClient)
    → find_sys_sensor_id sensor g ≡ some s
    → find_sensor_client mod_id s.clients ≡ some c
    → (wasm_sensor_config mod_id sensor interval bit_cfg delay g).0 ≡ true
unfolding wasm_sensor_config
wasm_sensor_config_succeeds mod_id sensor interval bit_cfg delay g s c e n = ground (arith, e, n)

-- Opening a sensor by its name gives an id by which that sensor is found, with the module in front of
-- its clients, and by which the module can configure it; the sensors' ids are distinct, the module
-- is not a client yet, and the client can be allocated.
pub wasm_sensor_config-wasm_sensor_open :
    (mod_id : ℕ) (name : List ℕ) (instance_no interval bit_cfg delay : ℕ) (g : Sensors)
    (s : SysSensor)
    → HasDistinctIds g.g_sys_sensors
    → find_sys_sensor name instance_no g ≡ some s
    → find_sensor_client mod_id s.clients ≡ none
    → let r = wasm_sensor_open true mod_id name instance_no g in
      (find_sys_sensor_id r.0 r.1 ≡ some (opened mod_id s))
      × ((wasm_sensor_config mod_id r.0 interval bit_cfg delay r.1).0 ≡ true)
wasm_sensor_config-wasm_sensor_open mod_id name instance_no interval bit_cfg delay g s d e n =
    let after : Sensors = record g {
      g_sys_sensors = update_first (has_name name instance_no) (opened mod_id) g.g_sys_sensors;
    } in
    let found : find_sys_sensor_id s.sensor_id after ≡ some (opened mod_id s) =
      find_first-update_first (has_name name instance_no) (opened mod_id) g.g_sys_sensors s
        (λ t. refl) d e in
    let member : find_sensor_client mod_id (opened mod_id s).clients
        ≡ some (new_client mod_id s.default_interval) =
      unfold find_sensor_client in ground arith in
    let configured =
      wasm_sensor_config_succeeds mod_id s.sensor_id interval bit_cfg delay after (opened mod_id s)
        (new_client mod_id s.default_interval) found member in
    subst
      (λ r.
        (find_sys_sensor_id r.0 r.1 ≡ some (opened mod_id s))
        × ((wasm_sensor_config mod_id r.0 interval bit_cfg delay r.1).0 ≡ true))
      (sym (wasm_sensor_open_succeeds mod_id name instance_no g s e n)) (found, configured)

cleanup_clients :
    (module_id : ℕ) (l : List SysSensor)
    → All (λ s. HasDistinctClients s.clients) l
    → All (λ s. find_sensor_client module_id s.clients ≡ none) (map (without_client module_id) l)
cleanup_clients module_id [] h = tt
cleanup_clients module_id (s ∷ rest) h = (
  find_sensor_client-remove_sensor_client module_id s.clients h.0,
  cleanup_clients module_id rest h.1,
)

cleanup_intervals :
    (module_id : ℕ) (l : List SysSensor)
    → map (λ s. s.read_interval) (map (without_client module_id) l) ≡ map (λ s. s.read_interval) l
cleanup_intervals module_id [] = refl
cleanup_intervals module_id (s ∷ rest) = ap (◌∷◌ s.read_interval) (cleanup_intervals module_id rest)

-- After the cleanup of a module it is no sensor's client any more, where no sensor had it twice; the
-- read interval of every sensor stays what it was, also where that was the module's.
pub sensor_cleanup_callback-read_interval :
    (module_id : ℕ) (g : Sensors)
    → All (λ s. HasDistinctClients s.clients) g.g_sys_sensors
    → let g' = sensor_cleanup_callback module_id g in
      All (λ s. find_sensor_client module_id s.clients ≡ none) g'.g_sys_sensors
      × (map (λ s. s.read_interval) g'.g_sys_sensors ≡ map (λ s. s.read_interval) g.g_sys_sensors)
unfolding sensor_cleanup_callback
sensor_cleanup_callback-read_interval module_id g h =
    (cleanup_clients module_id g.g_sys_sensors h, cleanup_intervals module_id g.g_sys_sensors)

-- Where the lock of a new sensor cannot be made, the sensor is found by its id all the same, with its
-- memory given back.
pub add_sys_sensor_dangling :
    (name : List ℕ) (description : Option (List ℕ)) (instance_no default_interval read_func : ℕ)
    (config_func : Option ℕ) (g : Sensors)
    → let r =
        add_sys_sensor true false name description instance_no default_interval read_func
          config_func g in
      let id = next_sensor_id g.g_sensor_id_max in
      (r.0 ≡ some id) × (find_sys_sensor_id id r.1 ≢ none) × (r.1.freed ≡ id ∷ g.freed)
unfolding add_sys_sensor find_first
add_sys_sensor_dangling name description instance_no default_interval read_func config_func g =
    (refl, (λ e. ground (arith, e)), refl)
