-- ===== src/Sensors/Interval.antt =====
-- The read interval of a sensor: app-framework/sensor/native/runtime_sensor.c.
use wamr_app_framework.Prelude.{
  ℕ, ◌≤◌, ◌<◌, ◌≡◌, ◌⊎◌, inl, inr, refl, subst, sym, List, [], ◌∷◌, map, Bool, none, some, ltb,
  Bool-cases, All, Any, arith,
}
use wamr_app_framework.Sensors.{
  SensorClient, SysSensor, find_first, update_first, find_sensor_client, remove_sensor_client,
  lower_interval, interval_of, configure_client,
}

-- No interval is below `m`, and one is `m`, unless there is no client.
abbrev pub IsLeast : ℕ → List SensorClient → Type 0
IsLeast m [] = Unit {0}
IsLeast m (c ∷ cs) = All (λ d. m ≤ d.interval) (c ∷ cs) × Any (λ d. d.interval ≡ m) (c ∷ cs)

abbrev pub HasDistinctClients : List SensorClient → Type 0
HasDistinctClients [] = Unit {0}
HasDistinctClients (c ∷ cs) = (find_sensor_client c.client_id cs ≡ none) × HasDistinctClients cs

-- The invariant of a sensor.
abbrev pub IsSensor : SysSensor → Type 0
IsSensor s = IsLeast s.read_interval s.clients × HasDistinctClients s.clients

-- `k` is the least of `m` and the intervals.
abbrev Lowest : ℕ → ℕ → List SensorClient → Type 0
Lowest k m cs = (k ≤ m) × All (λ d. k ≤ d.interval) cs × ((k ≡ m) ⊎ Any (λ d. d.interval ≡ k) cs)

Lowest-lowered :
    (k m : ℕ) (c : SensorClient) (cs : List SensorClient)
    → c.interval < m
    → Lowest k c.interval cs
    → Lowest k m (c ∷ cs)
Lowest-lowered k m c cs less (le, below, met) =
    (omega arith, (le, below), inr (elim met [ inl e ↦ inl (sym e) | inr a ↦ inr a ]))

Lowest-kept :
    (k m : ℕ) (c : SensorClient) (cs : List SensorClient)
    → m ≤ c.interval
    → Lowest k m cs
    → Lowest k m (c ∷ cs)
Lowest-kept k m c cs more (le, below, met) =
    (le, (omega arith, below), elim met [ inl e ↦ inl e | inr a ↦ inr (inr a) ])

lower_interval-Lowest : (m : ℕ) (cs : List SensorClient) → Lowest (lower_interval m cs) m cs
lower_interval-Lowest m [] = unfold lower_interval in (omega arith, tt, inl refl)
lower_interval-Lowest m (c ∷ cs) = elim (Bool-cases (ltb c.interval m)) [
  | inl less ↦
      let e : lower_interval m (c ∷ cs) ≡ lower_interval c.interval cs =
        unfold lower_interval in rw less refl in
      subst (λ k. Lowest k m (c ∷ cs)) (sym e)
        (Lowest-lowered _ m c cs (ground arith) (lower_interval-Lowest c.interval cs))
  | inr more ↦
      let e : lower_interval m (c ∷ cs) ≡ lower_interval m cs =
        unfold lower_interval in rw more refl in
      subst (λ k. Lowest k m (c ∷ cs)) (sym e)
        (Lowest-kept _ m c cs (ground arith) (lower_interval-Lowest m cs))
]

pub interval_of-IsLeast : (d : ℕ) (cs : List SensorClient) → IsLeast (interval_of d cs) cs
unfolding interval_of
interval_of-IsLeast d [] = tt
interval_of-IsLeast d (c ∷ cs) =
    let (le, below, met) = lower_interval-Lowest c.interval (c ∷ cs) in
    (below, elim met [ inl e ↦ inl (sym e) | inr a ↦ a ])

remove_missing :
    (id other : ℕ) (cs : List SensorClient)
    → find_sensor_client id cs ≡ none
    → find_sensor_client id (remove_sensor_client other cs) ≡ none
unfolding find_sensor_client remove_sensor_client
remove_missing id other [] h = refl
remove_missing id other (c ∷ cs) h = ground (arith, remove_missing id other cs)

pub remove_sensor_client-HasDistinctClients :
    (id : ℕ) (cs : List SensorClient)
    → HasDistinctClients cs
    → HasDistinctClients (remove_sensor_client id cs)
unfolding remove_sensor_client
remove_sensor_client-HasDistinctClients id [] h = tt
remove_sensor_client-HasDistinctClients id (c ∷ cs) h =
    ground
      (arith, h, remove_missing c.client_id id cs, remove_sensor_client-HasDistinctClients id cs)

-- After the removal the client is not found.
pub find_sensor_client-remove_sensor_client :
    (id : ℕ) (cs : List SensorClient)
    → HasDistinctClients cs
    → find_sensor_client id (remove_sensor_client id cs) ≡ none
unfolding find_sensor_client remove_sensor_client
find_sensor_client-remove_sensor_client id [] h = refl
find_sensor_client-remove_sensor_client id (c ∷ cs) h =
    ground (arith, h, find_sensor_client-remove_sensor_client id cs)

configure_missing :
    (id mod_id interval bit_cfg delay : ℕ) (cs : List SensorClient)
    → find_sensor_client id cs ≡ none
    → find_sensor_client id (configure_client mod_id interval bit_cfg delay cs) ≡ none
unfolding find_sensor_client configure_client
configure_missing id mod_id interval bit_cfg delay [] h = refl
configure_missing id mod_id interval bit_cfg delay (c ∷ cs) h =
    ground (arith, h, configure_missing id mod_id interval bit_cfg delay cs)

pub configure_client-HasDistinctClients :
    (mod_id interval bit_cfg delay : ℕ) (cs : List SensorClient)
    → HasDistinctClients cs
    → HasDistinctClients (configure_client mod_id interval bit_cfg delay cs)
unfolding configure_client
configure_client-HasDistinctClients mod_id interval bit_cfg delay [] h = tt
configure_client-HasDistinctClients mod_id interval bit_cfg delay (c ∷ cs) h = ground (
  arith,
  h,
  configure_missing c.client_id mod_id interval bit_cfg delay cs,
  configure_client-HasDistinctClients mod_id interval bit_cfg delay cs,
)

-- A change of one sensor keeps a property of all that it keeps of that one.
pub update_first-All :
    (P : SysSensor → Type 0) (test : SysSensor → Bool) (change : SysSensor → SysSensor)
    (l : List SysSensor)
    → ((t : SysSensor) → find_first test l ≡ some t → P t → P (change t))
    → All P l
    → All P (update_first test change l)
unfolding update_first find_first
update_first-All P test change [] keep h = tt
update_first-All P test change (s ∷ rest) keep h = elim (Bool-cases (test s)) [
  | inl hit ↦ rw hit (keep s (rw hit refl) h.0, h.1)
  | inr miss ↦
      rw miss (h.0, update_first-All P test change rest (λ t e p. keep t (rw miss e) p) h.1)
]

pub All-map :
    (P : SysSensor → Type 0) (f : SysSensor → SysSensor) (l : List SysSensor)
    → ((t : SysSensor) → P t → P (f t))
    → All P l
    → All P (map f l)
All-map P f [] keep h = tt
All-map P f (s ∷ rest) keep h = (keep s h.0, All-map P f rest keep h.1)
