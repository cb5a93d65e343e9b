-- ===== src/Services/Anomalies.antt =====
-- backend/app/services/anomaly_service.py: the schedules of anomalies in the database, and the
-- check that those on one register do not overlap. The foreign key of a device to its template
-- gives each device the register names of its template.
pub mod Overlaps
pub mod Schedules
use ghost_meter.Prelude.{
  ℕ, ◌+◌, String, Bool, true, false, not, ◌&&◌, ◌||◌, Option, none, some, List, [], ◌∷◌, ◌++◌, map,
  ltb, contains, ◌==◌, nat_eq, string_eq, if◌then◌else◌,
}
use ghost_meter.Dict.{Dict, get}
use ghost_meter.Errors.{Result, ok, err, validation, not_found, raise_if, ◌>>=◌, ◌>>◌}
use ghost_meter.Floats.{Value}
use ghost_meter.Simulation.AnomalyInjector.{
  AnomalyInjector, Registers, ScheduleEntry, inject, remove, clear_realtime, get_active,
}

-- A schedule of a request.
pub record ScheduleCreate (R : Type 0) : Type 0 where
  pub register_name : String
  pub anomaly_type : String
  pub anomaly_params : Dict String (Value R)
  pub trigger_after_seconds : ℕ
  pub duration_seconds : ℕ
  pub is_enabled : Bool

-- A row of anomaly_schedules.
pub record AnomalySchedule (R : Type 0) : Type 0 where
  pub device_id : ℕ
  pub schedule : ScheduleCreate R

pub record Database (R : Type 0) : Type 0 where
  pub device_registers : Dict ℕ (List String)
  pub anomaly_schedules : List (AnomalySchedule R)

found_or_404 : Option (List String) → Result (List String)
found_or_404 none = err (not_found "DEVICE_NOT_FOUND")
found_or_404 (some names) = ok names

-- `_get_device_or_404`, and the register names of the device's template.
get_device_or_404 : Dict ℕ (List String) → ℕ → Result (List String)
unfolding found_or_404
get_device_or_404 devices device_id = found_or_404 (get devices device_id)

module _ {R : Type 0} where
  ends_at : ScheduleCreate R → ℕ
  ends_at s = s.trigger_after_seconds + s.duration_seconds

  -- `a_start < b_end and b_start < a_end`
  clash : ScheduleCreate R → ScheduleCreate R → Bool
  unfolding ends_at
  clash a b = ltb a.trigger_after_seconds (ends_at b) && ltb b.trigger_after_seconds (ends_at a)

  of_register : String → List (ScheduleCreate R) → List (ScheduleCreate R)
  of_register name [] = []
  of_register name (s ∷ schedules) =
      let rest = of_register name schedules in if s.register_name == name then s ∷ rest else rest

  clashes_any : ScheduleCreate R → List (ScheduleCreate R) → Bool
  unfolding clash
  clashes_any a [] = false
  clashes_any a (b ∷ rest) = clash a b || clashes_any a rest

  clash_free : List (ScheduleCreate R) → Bool
  unfolding clashes_any
  clash_free [] = true
  clash_free (a ∷ rest) = not (clashes_any a rest) && clash_free rest

  -- `_check_overlap`
  check_overlap : List (ScheduleCreate R) → String → Result (Unit {0})
  unfolding of_register clash_free
  check_overlap schedules register_name =
      raise_if (not (clash_free (of_register register_name schedules))) validation

  -- The loop over the names, in some order; a name that comes twice is checked twice.
  pub check_names : List (ScheduleCreate R) → List String → Result (Unit {0})
  unfolding check_overlap
  check_names schedules [] = ok tt
  check_names schedules (name ∷ names) = check_overlap schedules name >> check_names schedules names

  pub all_known : List String → List (ScheduleCreate R) → Bool
  all_known names [] = true
  all_known names (s ∷ schedules) = contains s.register_name names && all_known names schedules

  without_device : ℕ → List (AnomalySchedule R) → List (AnomalySchedule R)
  without_device device_id [] = []
  without_device device_id (row ∷ rows) =
      let rest = without_device device_id rows in
      if row.device_id == device_id then rest else row ∷ rest

  rows_of : ℕ → List (ScheduleCreate R) → List (AnomalySchedule R)
  rows_of device_id = map λ s. record { device_id = device_id; schedule = s }

  unfoldable pub set_schedules : Database R → ℕ → List (ScheduleCreate R) → Result (Database R)
  unfolding get_device_or_404 all_known check_names without_device rows_of
  set_schedules db device_id schedules = do
    names ← get_device_or_404 db.device_registers device_id
    raise_if (not (all_known names schedules)) validation
    check_names schedules (map (λ s. s.register_name) schedules)
    ok (record db {
      anomaly_schedules =
          without_device device_id db.anomaly_schedules ++ rows_of device_id schedules;
    })

  unfoldable pub delete_schedules : Database R → ℕ → Result (Database R)
  unfolding get_device_or_404 without_device
  delete_schedules db device_id = do
    names ← get_device_or_404 db.device_registers device_id
    ok (record db { anomaly_schedules = without_device device_id db.anomaly_schedules })

-- AnomalyInjectRequest
pub record AnomalyInjectRequest (R : Type 0) : Type 0 where
  pub register_name : String
  pub anomaly_type : String
  pub anomaly_params : Dict String (Value R)

module _ {R : Type 0} where
  unfoldable pub inject_anomaly : AnomalyInjector R → ℕ → AnomalyInjectRequest R → AnomalyInjector R
  inject_anomaly injector device_id request =
      inject injector device_id request.register_name request.anomaly_type request.anomaly_params

  unfoldable pub get_active_anomalies : AnomalyInjector R → ℕ → Registers R
  get_active_anomalies injector device_id = get_active injector device_id

  unfoldable pub remove_anomaly : AnomalyInjector R → ℕ → String → AnomalyInjector R
  remove_anomaly injector device_id register_name = remove injector device_id register_name

  unfoldable pub clear_anomalies : AnomalyInjector R → ℕ → AnomalyInjector R
  clear_anomalies injector device_id = clear_realtime injector device_id

  entry_of : ScheduleCreate R → ScheduleEntry R
  entry_of schedule = record {
    register_name = schedule.register_name;
    anomaly_type = schedule.anomaly_type;
    anomaly_params = schedule.anomaly_params;
    trigger_after_seconds = schedule.trigger_after_seconds;
    duration_seconds = schedule.duration_seconds;
  }

  enabled_entries : ℕ → List (AnomalySchedule R) → List (ScheduleEntry R)
  unfolding entry_of
  enabled_entries device_id [] = []
  enabled_entries device_id (row ∷ rows) =
      let rest = enabled_entries device_id rows in
      if row.device_id == device_id && row.schedule.is_enabled
      then entry_of row.schedule ∷ rest
      else rest

  -- `_load_anomaly_schedules` of the engine: what a task's start gives to the injector.
  unfoldable pub load_anomaly_schedules : Database R → ℕ → List (ScheduleEntry R)
  unfolding enabled_entries
  load_anomaly_schedules db device_id = enabled_entries device_id db.anomaly_schedules
