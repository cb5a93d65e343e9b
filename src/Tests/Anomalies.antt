-- ===== src/Tests/Anomalies.antt =====
-- The anomaly injector over whole numbers in place of floats.
use ghost_meter.Prelude.{
  ℕ, ◌≡◌, ◌≢◌, refl, none, some, List, [], ◌∷◌, arith, All, nat_eq, string_eq,
}
use ghost_meter.Prelude.Int.{ℤ, pos, negsuc}
use ghost_meter.Dict.{get, get_or, has, put}
use ghost_meter.Errors.{ok}
use ghost_meter.Floats.{number, to_float}
use ghost_meter.Floats.Exact.{exact, exact-IsOrdered}
use ghost_meter.Simulation.AnomalyInjector.{
  AnomalyState, AnomalyInjector, covers, float_at, ScheduleEntry, inject, apply, apply_anomaly,
  get_active, update_scheduled_anomalies,
}
use ghost_meter.Simulation.AnomalyInjector.Effect.{covered, update-has_iff_covered}
use ghost_meter.Simulation.AnomalyInjector.Device
use ghost_meter.Simulation.AnomalyInjector.Device.{run_isolated}
use ghost_meter.Simulation.AnomalyInjector.Flatline.{
  Tick, Flatlines, inject-Flatlines, readings, readings-flatline, Drifts, drift_bounded,
}

abbrev empty : AnomalyInjector ℤ
empty = record { active = []; schedules = []; scheduled_active = [] }

abbrev dropout : ScheduleEntry ℤ
dropout = record {
  register_name = "voltage";
  anomaly_type = "data_loss";
  anomaly_params = [];
  trigger_after_seconds = 10;
  duration_seconds = 5;
}

abbrev scheduled : AnomalyInjector ℤ
scheduled = record { active = []; schedules = (1, dropout ∷ []) ∷ []; scheduled_active = [] }

apply_dropout : (apply scheduled 1 "voltage" (pos 230) (pos 12) (pos 0)).0 ≡ ok (pos 0)
unfolding apply apply_anomaly covers get get_or put has
apply_dropout = refl

scheduled_entries : get_or scheduled.schedules 1 [] ≢ []
unfolding get_or
scheduled_entries h = cc

update-has_iff_covered_example :
    has
      (get_or (update_scheduled_anomalies scheduled 1 "voltage" (pos 12)).scheduled_active 1 [])
      "voltage"
    ≡ covered (get_or scheduled.schedules 1 []) "voltage" (pos 12)
update-has_iff_covered_example =
    update-has_iff_covered scheduled 1 "voltage" (pos 12) scheduled_entries

abbrev other_calls : List (Device.Call ℤ)
other_calls = Device.inject_call 2 "voltage" "data_loss" [] ∷ (Device.clear_device_call 3 ∷ [])

run_isolated_example :
    ((apply (Device.run scheduled other_calls) 1 "voltage" (pos 230) (pos 12) (pos 0)).0
      ≡ (apply scheduled 1 "voltage" (pos 230) (pos 12) (pos 0)).0)
    × (get_active (Device.run scheduled other_calls) 1 ≡ get_active scheduled 1)
run_isolated_example =
    run_isolated 1 scheduled other_calls "voltage" (pos 230) (pos 12) (pos 0) (omega arith)

abbrev tick_of : ℕ → ℕ → Tick ℤ
tick_of value elapsed = record { value = pos value; elapsed = pos elapsed; roll = pos 0 }

frozen : AnomalyInjector ℤ
frozen = inject empty 1 "voltage" "flatline" []

frozen-Flatlines : Flatlines none frozen 1 "voltage"
unfolding frozen get
frozen-Flatlines = inject-Flatlines empty 1 "voltage" [] refl

readings-flatline_example :
    All (λ r. r ≡ ok (pos 230)) (readings frozen 1 "voltage" (tick_of 230 0 ∷ (tick_of 228 1 ∷ [])))
readings-flatline_example =
    readings-flatline frozen 1 "voltage" (tick_of 230 0) (tick_of 228 1 ∷ []) frozen-Flatlines

abbrev sag : AnomalyState ℤ
sag = record {
  anomaly_type = "drift";
  params = ("drift_per_second", number (negsuc 4)) ∷ (("max_drift", number (pos 50)) ∷ []);
  activated_at = some (pos 3);
  frozen_value = none;
}

drift_bounded_example :
    Drifts
      (negsuc 4)
      (pos 50)
      (exact.mul (negsuc 4) (exact.sub (pos 40) (pos 3)))
      (pos 230)
      (record sag { activated_at = some (pos 3) })
      (apply_anomaly sag (pos 230) (pos 40) (pos 0))
unfolding float_at get to_float
drift_bounded_example =
    drift_bounded exact-IsOrdered (λ x. ground arith) sag (pos 230) (pos 40) (pos 0) (negsuc 4)
      (pos 50) (pos 3) refl refl refl refl refl refl
