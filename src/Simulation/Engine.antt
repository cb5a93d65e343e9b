-- ===== src/Simulation/Engine.antt =====
-- `SimulationEngine` of backend/app/simulation/engine.py: how the tasks of devices are started,
-- stopped and restarted after a crash. What the database gives is an argument.
pub mod Rows
pub mod Restarts
pub mod Loop
use ghost_meter.Prelude.{
  ℕ, zero, suc, ◌+◌, ◌-◌, ◌*◌, ◌^◌, String, Bool, true, false, Option, none, some, List, [], ◌∷◌,
  ltb, nat_eq, if◌then◌else◌,
}
use ghost_meter.Dict.{Dict, get, put, pop, has}
use ghost_meter.Errors.{Error, Result, ok, err}
use ghost_meter.Simulation.AnomalyInjector.{
  AnomalyInjector, ScheduleEntry, load_schedules, clear_device,
}

abbrev pub max_restart_attempts : ℕ
max_restart_attempts = 5

-- RESTART_BASE_DELAY_S, a whole number of seconds
abbrev pub restart_base_delay_s : ℕ
restart_base_delay_s = 2

-- `crashed` is the exception that the task ended with, while it is still in the table.
pub record DeviceTaskState : Type 0 where
  pub crashed : Option Error
  pub restart_count : ℕ

-- A task that sleeps in `_delayed_restart`.
pub record Restart : Type 0 where
  pub device_id : ℕ
  pub restart_count : ℕ
  pub delay : ℕ

-- `failed` are the devices whose status was set to "error", the latest first.
pub record Engine (R : Type 0) : Type 0 where
  pub device_states : Dict ℕ DeviceTaskState
  pub device_values : Dict ℕ (Dict String R)
  pub restarts : List Restart
  pub failed : List ℕ
  pub injector : AnomalyInjector R

-- What the database has for a device: whether any configuration is enabled, and its schedules.
pub record Loaded (R : Type 0) : Type 0 where
  pub has_configs : Bool
  pub schedules : List (ScheduleEntry R)

-- How a task ended.
pub data Ending : Type 0 where
  cancelled returned : Ending
  raised : Error → Ending

pub restart_at : ℕ → List Restart → Option Restart
restart_at i [] = none
restart_at zero (r ∷ rs) = some r
restart_at (suc i) (r ∷ rs) = restart_at i rs

pub without : ℕ → List Restart → List Restart
without i [] = []
without zero (r ∷ rs) = rs
without (suc i) (r ∷ rs) = r ∷ without i rs

count_of : Option DeviceTaskState → ℕ
count_of none = 0
count_of (some state) = state.restart_count

module _ {R : Type 0} where
  -- `_launch_device_task`; the query may raise.
  launch_device_task : Engine R → ℕ → ℕ → Result (Loaded R) → Engine R × Result (Unit {0})
  launch_device_task s device_id restart_count (err e) = (s, err e)
  launch_device_task s device_id restart_count (ok loaded) = (
    if loaded.has_configs
        then record s {
          injector = load_schedules s.injector device_id loaded.schedules;
          device_states =
              put s.device_states device_id
                (record { crashed = none; restart_count = restart_count });
        }
        else s,
    ok tt,
  )

  unfoldable pub start_device : Engine R → ℕ → Result (Loaded R) → Engine R × Result (Unit {0})
  unfolding launch_device_task
  start_device s device_id loaded =
      if has s.device_states device_id then (s, ok tt) else launch_device_task s device_id 0 loaded

  -- A task enters its loop.
  unfoldable pub enter_loop : Engine R → ℕ → Engine R
  enter_loop s device_id = record s { device_values = put s.device_values device_id [] }

  -- A task ends with an exception; its callback is still to run.
  crash_with : Engine R → ℕ → Error → Option DeviceTaskState → Engine R
  crash_with s device_id e none = s
  crash_with s device_id e (some state) = record s {
    device_states = put s.device_states device_id (record state { crashed = some e });
  }

  unfoldable pub crash : Engine R → ℕ → Error → Engine R
  unfolding crash_with
  crash s device_id e = crash_with s device_id e (get s.device_states device_id)

  -- `_set_device_error`
  set_device_error : Engine R → ℕ → Engine R
  set_device_error s device_id = record s { failed = device_id ∷ s.failed }

  schedule_restart : Engine R → ℕ → ℕ → Engine R
  unfolding set_device_error
  schedule_restart s device_id restart_count =
      if ltb max_restart_attempts restart_count
      then set_device_error (record s { device_states = pop s.device_states device_id }) device_id
      else record s {
        restarts =
            record {
              device_id = device_id;
              restart_count = restart_count;
              delay = restart_base_delay_s * 2 ^ (restart_count - 1);
            }
            ∷ s.restarts;
      }

  -- `_on_task_done`
  unfoldable pub on_task_done : Engine R → ℕ → Ending → Engine R
  unfolding schedule_restart count_of
  on_task_done s device_id cancelled = s
  on_task_done s device_id returned = record s { device_states = pop s.device_states device_id }
  on_task_done s device_id (raised e) =
      schedule_restart s device_id (count_of (get s.device_states device_id) + 1)

  or_error : ℕ → Engine R × Result (Unit {0}) → Engine R
  unfolding set_device_error
  or_error device_id (s, ok _) = s
  or_error device_id (s, err e) = set_device_error s device_id

  wake : Engine R → Option Restart → Result (Loaded R) → Engine R
  unfolding launch_device_task or_error
  wake s none loaded = s
  wake s (some r) loaded = or_error r.device_id (
      launch_device_task (record s { device_states = pop s.device_states r.device_id }) r.device_id
        r.restart_count loaded)

  -- The rest of `_delayed_restart`, when the `i`-th sleeper wakes.
  unfoldable pub delayed_restart : Engine R → ℕ → Result (Loaded R) → Engine R
  unfolding wake restart_at without
  delayed_restart s i loaded =
      wake (record s { restarts = without i s.restarts }) (restart_at i s.restarts) loaded

  -- `await state.task` raises again what a crashed task ended with.
  stop_task : Engine R → ℕ → Option Error → Engine R × Result (Unit {0})
  stop_task s device_id (some e) = (s, err e)
  stop_task s device_id none = (
    record s {
      device_values = pop s.device_values device_id;
      injector = clear_device s.injector device_id;
    },
    ok tt,
  )

  stop_with : Engine R → ℕ → Option DeviceTaskState → Engine R × Result (Unit {0})
  unfolding stop_task
  stop_with s device_id none = (s, ok tt)
  stop_with s device_id (some state) =
      stop_task (record s { device_states = pop s.device_states device_id }) device_id state.crashed

  unfoldable pub stop_device : Engine R → ℕ → Engine R × Result (Unit {0})
  unfolding stop_with
  stop_device s device_id = stop_with s device_id (get s.device_states device_id)

  start_after : ℕ → Result (Loaded R) → Engine R × Result (Unit {0}) → Engine R × Result (Unit {0})
  start_after device_id loaded (s, ok _) = start_device s device_id loaded
  start_after device_id loaded (s, err e) = (s, err e)

  unfoldable pub reload_device : Engine R → ℕ → Result (Loaded R) → Engine R × Result (Unit {0})
  unfolding start_after
  reload_device s device_id loaded = start_after device_id loaded (stop_device s device_id)

  unfoldable pub is_device_simulating : Engine R → ℕ → Bool
  is_device_simulating s device_id = has s.device_states device_id

  unfoldable pub shutdown : Engine R → Engine R
  shutdown s = record s { device_states = []; device_values = [] }
