-- ===== src/Tests/Schedules.antt =====
-- The schedules of a device.
use ghost_meter.Prelude.{ℕ, ◌≡◌, ◌↔◌, refl, true, some, [], ◌∷◌, All, contains, nat_eq, string_eq}
use ghost_meter.Prelude.Int.{ℤ}
use ghost_meter.Dict.{get}
use ghost_meter.Errors.{ok, err, validation}
use ghost_meter.Services.Anomalies.{ScheduleCreate, Database, set_schedules}
use ghost_meter.Services.Anomalies.Overlaps.{PairwiseSeparate}
use ghost_meter.Services.Anomalies.Schedules.{stored, set_schedules_iff, set_schedules-stored}

abbrev drift_at : ℕ → ScheduleCreate ℤ
drift_at trigger = record {
  register_name = "voltage";
  anomaly_type = "drift";
  anomaly_params = [];
  trigger_after_seconds = trigger;
  duration_seconds = 10;
  is_enabled = true;
}

abbrev two_meters : Database ℤ
two_meters = record {
  device_registers = (1, "voltage" ∷ []) ∷ ((2, "voltage" ∷ []) ∷ []);
  anomaly_schedules = record { device_id = 1; schedule = drift_at 7 } ∷ [];
}

one_found : get two_meters.device_registers 1 ≡ some ("voltage" ∷ [])
unfolding get
one_found = refl

set_schedules_iff_example :
    ((result : Database ℤ) × (set_schedules two_meters 1 (drift_at 30 ∷ (drift_at 20 ∷ []))
        ≡ ok result))
    ↔ (All
          (λ s. contains s.register_name ("voltage" ∷ []) ≡ true)
          (drift_at 30 ∷ (drift_at 20 ∷ []))
        × PairwiseSeparate (drift_at 30 ∷ (drift_at 20 ∷ [])))
set_schedules_iff_example =
    set_schedules_iff two_meters 1 ("voltage" ∷ []) (drift_at 30 ∷ (drift_at 20 ∷ [])) one_found

abbrev replaced_meters : Database ℤ
replaced_meters = record two_meters {
  anomaly_schedules =
      record { device_id = 1; schedule = drift_at 30 }
      ∷ (record { device_id = 1; schedule = drift_at 20 } ∷ []);
}

accepted : set_schedules two_meters 1 (drift_at 30 ∷ (drift_at 20 ∷ [])) ≡ ok replaced_meters
unfolding set_schedules get
accepted = refl

set_schedules-stored_example :
    stored 1 replaced_meters.anomaly_schedules ≡ drift_at 30 ∷ (drift_at 20 ∷ [])
set_schedules-stored_example =
    set_schedules-stored two_meters replaced_meters 1 1 (drift_at 30 ∷ (drift_at 20 ∷ [])) accepted

overlapping_refused : set_schedules two_meters 1 (drift_at 25 ∷ (drift_at 20 ∷ [])) ≡ err validation
unfolding set_schedules get
overlapping_refused = refl
