-- ===== src/Sensors/Schedule.antt =====
-- When `check_sensor_timers` of app-framework/sensor/native/runtime_sensor.c reads, and for how long
-- its thread may sleep.
use wamr_app_framework.Prelude.{
  ℕ, ◌-◌, ◌≤◌, ◌≡◌, ◌⊎◌, inl, inr, refl, subst, sym, ◌∙◌, List, [], ◌∷◌, ◌++◌, true, false, Option,
  some, if◌then◌else◌, All, Any, arith,
}
use wamr_app_framework.Sensors.{SensorClient, SysSensor, Sensors, uint32_max}
use wamr_app_framework.Sensors.Check.{
  SensorCall, is_idle, is_due, ms_behind, calls_of, calls_at, check_from, check_sensor_timers,
}
use wamr_app_framework.Sensors.Interval.{IsLeast, IsSensor}

-- The milliseconds until a sensor is due after a check.
abbrev pub wait : (ℕ → ℕ) → SysSensor → ℕ
wait elapsed s = if is_due elapsed s then s.read_interval else s.read_interval - elapsed s.last_read

-- `next` is no later than any sensor in use is due, and one of them is due just then, or it is `ms`.
abbrev pub IsNext : (ℕ → ℕ) → ℕ → ℕ → List SysSensor → Type 0
IsNext elapsed next ms l =
    (next ≤ ms)
    × All (λ s. is_idle s ≡ false → next ≤ wait elapsed s) l
    × ((next ≡ ms) ⊎ Any (λ s. (is_idle s ≡ false) × (next ≡ wait elapsed s)) l)

ms_behind_le :
    (elapsed : ℕ → ℕ) (s : SysSensor) (ms : ℕ)
    → (ms_behind elapsed s ms ≤ ms)
      × (is_idle s ≡ false → ms_behind elapsed s ms ≤ wait elapsed s)
      × ((ms_behind elapsed s ms ≡ ms)
          ⊎ ((is_idle s ≡ false) × (ms_behind elapsed s ms ≡ wait elapsed s)))
unfolding ms_behind
ms_behind_le elapsed s ms = ground arith

check_from-IsNext :
    (now : ℕ) (elapsed : ℕ → ℕ) (read : SysSensor → Option (List ℕ)) (ms : ℕ) (l : List SysSensor)
    → IsNext elapsed (check_from now elapsed read ms l).0 ms l
unfolding check_from
check_from-IsNext now elapsed read ms [] = (omega arith, tt, inl refl)
check_from-IsNext now elapsed read ms (s ∷ rest) =
    let (le, below, met) = check_from-IsNext now elapsed read (ms_behind elapsed s ms) rest in
    let (le', below', met') = ms_behind_le elapsed s ms in
    (
      omega arith,
      ((λ busy. ground (arith, below' busy)), below),
      elim met [
        | inl e ↦ elim met' [ inl e' ↦ inl (e ∙ e') | inr (busy, e') ↦ inr (inl (busy, e ∙ e')) ]
        | inr a ↦ inr (inr a)
      ],
    )

-- `check_sensor_timers` returns the time until the first sensor in use is due, counted from the check:
-- none of them is due before, and one is due just then, unless none has to be waited for.
pub check_sensor_timers-IsNext :
    (now : ℕ) (elapsed : ℕ → ℕ) (read : SysSensor → Option (List ℕ)) (g : Sensors)
    → IsNext elapsed (check_sensor_timers now elapsed read g).0 uint32_max g.g_sys_sensors
unfolding check_sensor_timers
check_sensor_timers-IsNext now elapsed read g =
    check_from-IsNext now elapsed read uint32_max g.g_sys_sensors

All-mono : {A : Type 0} (P Q : A → Type 0) (l : List A) → ((a : A) → P a → Q a) → All P l → All Q l
All-mono P Q [] f h = tt
All-mono P Q (a ∷ rest) f h = (f a h.0, All-mono P Q rest f h.1)

-- `call` is one of the calls.
abbrev pub IsMade : SensorCall → List SensorCall → Type 0
IsMade call calls = Any (λ made. made ≡ call) calls

IsMade-before : (call : SensorCall) (a b : List SensorCall) → IsMade call a → IsMade call (a ++ b)
IsMade-before call (c ∷ a) b (inl e) = inl e
IsMade-before call (c ∷ a) b (inr m) = inr (IsMade-before call a b m)
IsMade-before call [] b m = absurd m

IsMade-behind : (call : SensorCall) (a b : List SensorCall) → IsMade call b → IsMade call (a ++ b)
IsMade-behind call [] b m = m
IsMade-behind call (c ∷ a) b m = inr (IsMade-behind call a b m)

abbrev pub call_for : SysSensor → List ℕ → SensorClient → SensorCall
call_for s data_read c = record {
  client_id = c.client_id;
  sensor_id = s.sensor_id;
  data_read = data_read;
}

calls_of-IsMade :
    (s : SysSensor) (data_read : List ℕ) (cs : List SensorClient)
    → All (λ c. IsMade (call_for s data_read c) (calls_of s data_read cs)) cs
unfolding calls_of
calls_of-IsMade s data_read [] = tt
calls_of-IsMade s data_read (c ∷ cs) =
    (inl refl, All-mono _ _ cs (λ d m. inr m) (calls_of-IsMade s data_read cs))

-- Every client whose interval has passed since the last reading is called with what is read.
abbrev pub IsServed : (ℕ → ℕ) → (SysSensor → Option (List ℕ)) → List SensorCall → SysSensor → Type 0
IsServed elapsed read calls s =
    (data_read : List ℕ)
    → is_idle s ≡ false
    → read s ≡ some data_read
    → All (λ c. c.interval ≤ elapsed s.last_read → IsMade (call_for s data_read c) calls) s.clients

-- A sensor is due when one of its clients is.
client_due :
    (elapsed : ℕ → ℕ) (s : SysSensor) (cs : List SensorClient)
    → All (λ c. s.read_interval ≤ c.interval) cs
    → All (λ c. c.interval ≤ elapsed s.last_read → is_due elapsed s ≡ true) cs
unfolding is_due
client_due elapsed s [] h = tt
client_due elapsed s (c ∷ cs) h = ((λ le. ground (arith, h.0, le)), client_due elapsed s cs h.1)

IsLeast-below : (m : ℕ) (cs : List SensorClient) → IsLeast m cs → All (λ c. m ≤ c.interval) cs
IsLeast-below m [] h = tt
IsLeast-below m (c ∷ cs) h = h.0

calls_at-IsServed :
    (elapsed : ℕ → ℕ) (read : SysSensor → Option (List ℕ)) (s : SysSensor)
    → IsSensor s
    → IsServed elapsed read (calls_at elapsed read s) s
calls_at-IsServed elapsed read s h data_read busy e =
    both s.clients (client_due elapsed s s.clients (IsLeast-below s.read_interval s.clients h.0))
      (calls_of-IsMade s data_read s.clients)
  where
    both :
        (cs : List SensorClient)
        → All (λ c. c.interval ≤ elapsed s.last_read → is_due elapsed s ≡ true) cs
        → All (λ c. IsMade (call_for s data_read c) (calls_of s data_read s.clients)) cs
        → All
            (λ c.
              c.interval ≤ elapsed s.last_read
              → IsMade (call_for s data_read c) (calls_at elapsed read s))
            cs
    both [] d m = tt
    both (c ∷ cs) d m = (
      (λ le.
          let read_now : calls_at elapsed read s ≡ calls_of s data_read s.clients =
            unfold calls_at in rw (busy, d.0 le, e) refl in
          subst (IsMade (call_for s data_read c)) (sym read_now) m.0),
      both cs d.1 m.1,
    )

check_from-IsServed :
    (now : ℕ) (elapsed : ℕ → ℕ) (read : SysSensor → Option (List ℕ)) (l : List SysSensor) (ms : ℕ)
    → All IsSensor l
    → All (IsServed elapsed read (check_from now elapsed read ms l).2) l
unfolding check_from
check_from-IsServed now elapsed read [] ms h = tt
check_from-IsServed now elapsed read (s ∷ rest) ms h =
    let later = (check_from now elapsed read (ms_behind elapsed s ms) rest).2 in
    (
      (λ data_read busy e.
          All-mono _ _ s.clients (λ c m le. IsMade-before _ (calls_at elapsed read s) later (m le))
            (calls_at-IsServed elapsed read s h.0 data_read busy e)),
      All-mono _ _ rest
          (λ t served data_read busy e.
            All-mono _ _ t.clients
              (λ c m le. IsMade-behind _ (calls_at elapsed read s) later (m le))
              (served data_read busy e))
          (check_from-IsServed now elapsed read rest (ms_behind elapsed s ms) h.1),
    )

-- Where the read interval of every sensor is the least of its clients' intervals and no application
-- is its client twice, a check calls every client whose interval has passed since the last reading
-- of its sensor with the data read; the sensor has a read interval that is not 0 and gives data.
pub check_sensor_timers-IsServed :
    (now : ℕ) (elapsed : ℕ → ℕ) (read : SysSensor → Option (List ℕ)) (g : Sensors)
    → All IsSensor g.g_sys_sensors
    → All (IsServed elapsed read (check_sensor_timers now elapsed read g).2) g.g_sys_sensors
unfolding check_sensor_timers
check_sensor_timers-IsServed now elapsed read g h =
    check_from-IsServed now elapsed read g.g_sys_sensors uint32_max h
