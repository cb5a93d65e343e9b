-- ===== src/Tests/Engine.antt =====
-- A simulated device whose task crashes, and which is stopped before its restart.
use ghost_meter.Prelude.{◌≡◌, refl, true, false, [], ◌∷◌, nat_eq}
use ghost_meter.Prelude.Int.{ℤ}
use ghost_meter.Dict.{get, put, pop, has}
use ghost_meter.Errors.{Result, ok, err, value_error}
use ghost_meter.Simulation.AnomalyInjector.{AnomalyInjector, load_schedules}
use ghost_meter.Simulation.Engine.{
  Engine, Loaded, raised, start_device, crash, on_task_done, stop_device, delayed_restart,
  is_device_simulating,
}
use ghost_meter.Simulation.Engine.Restarts.{
  Reaches, initial, started, crashes, done, woken, Reaches-IsBounded, started_depth, crashed_depth,
  done_depths,
}
use ghost_meter.Simulation.Engine.Rows.{IsBounded, at, nth, drop_at, woken_depth}

abbrev quiet : AnomalyInjector ℤ
quiet = record { active = []; schedules = []; scheduled_active = [] }

abbrev configured : Result (Loaded ℤ)
configured = ok (record { has_configs = true; schedules = [] })

abbrev idle : Engine ℤ
idle = record {
  device_states = [];
  device_values = [];
  restarts = [];
  failed = [];
  injector = quiet;
}

abbrev fails_once : Engine ℤ → Engine ℤ
fails_once s = on_task_done (crash s 1 value_error) 1 (raised value_error)

abbrev backing_off : Engine ℤ
backing_off = fails_once (start_device idle 1 configured).0

-- The restarted task crashes again.
abbrev backing_off_again : Engine ℤ
backing_off_again = fails_once (delayed_restart backing_off 0 configured)

again-Reaches : Reaches backing_off_again (at 1 1 (at 1 0 (λ d. 0))) (2 ∷ [])
unfolding start_device delayed_restart on_task_done crash load_schedules get put pop has at nth
    drop_at woken_depth started_depth crashed_depth done_depths
again-Reaches = done 1 (raised value_error) (
    crashes 1 value_error (
      woken 0 configured (
        done 1 (raised value_error)
          (crashes 1 value_error (started 1 configured (initial quiet))))))

Reaches-IsBounded_example : IsBounded backing_off_again (at 1 1 (at 1 0 (λ d. 0))) (2 ∷ [])
Reaches-IsBounded_example =
    Reaches-IsBounded backing_off_again (at 1 1 (at 1 0 (λ d. 0))) (2 ∷ []) again-Reaches

-- The stop raises what the task ended with, and the restart that waits starts the device again.
stopped_device_restarts :
    ((stop_device backing_off 1).1 ≡ err value_error)
    × (is_device_simulating (stop_device backing_off 1).0 1 ≡ false)
    × (is_device_simulating (delayed_restart (stop_device backing_off 1).0 0 configured) 1 ≡ true)
unfolding stop_device delayed_restart on_task_done crash start_device is_device_simulating
    load_schedules get put pop has
stopped_device_restarts = (refl, refl, refl)
