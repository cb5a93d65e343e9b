-- ===== src/Services/ScenarioRunner.antt =====
-- backend/app/services/scenario_runner.py: timelines of anomalies, at most one for each device.
-- A round of `_drive_timeline` holds no await before its sleep, so it is one step. Its time since
-- the start is only compared with ints, so it is given in whole seconds, rounded down.
pub mod Timeline
pub mod Window
pub mod Lifecycle
use ghost_meter.Prelude.{
  ℕ, ◌+◌, ◌-◌, max, min, String, Bool, true, false, not, ◌&&◌, Option, none, some, List, [], ◌∷◌,
  ◌++◌, map, ltb, leb, ◌==◌, contains, nat_eq, string_eq, if◌then◌else◌,
}
use ghost_meter.Dict.{Dict, get, put, pop, has}
use ghost_meter.Errors.{Result, ok, err, runtime_error}
use ghost_meter.Floats.{Value}
use ghost_meter.Simulation.AnomalyInjector.{AnomalyInjector, inject, remove}

pub record StepInfo (R : Type 0) : Type 0 where
  pub register_name : String
  pub anomaly_type : String
  pub anomaly_params : Dict String (Value R)
  pub trigger_at_seconds : ℕ
  pub duration_seconds : ℕ

-- A step of a running scenario, with whether its index is in `triggered`, the set that the
-- timeline task keeps.
pub record Slot (R : Type 0) : Type 0 where
  pub step : StepInfo R
  pub open step use *
  pub triggered : Bool

pub data Status : Type 0 where
  running completed : Status

-- The set `active_anomalies` is a list without repetition.
pub record RunningScenario (R : Type 0) : Type 0 where
  pub scenario_id : ℕ
  pub scenario_name : String
  pub total_duration_seconds : ℕ
  pub steps : List (Slot R)
  pub started_at : ℕ
  pub status : Status
  pub active_anomalies : List String

pub record ScenarioRunner (R : Type 0) : Type 0 where
  pub running : Dict ℕ (RunningScenario R)
  pub injector : AnomalyInjector R

-- `s.add(name)` and `s.discard(name)`
unfoldable pub add : List String → String → List String
add names name = if contains name names then names else names ++ name ∷ []

unfoldable pub discard : List String → String → List String
discard [] name = []
discard (n ∷ names) name = let rest = discard names name in if name == n then rest else n ∷ rest

abbrev pub is_empty : List String → Bool
is_empty [] = true
is_empty (_ ∷ _) = false

pub record ActiveStep : Type 0 where
  pub register_name : String
  pub anomaly_type : String
  pub remaining_seconds : ℕ

pub record ExecutionStatus : Type 0 where
  pub scenario_id : ℕ
  pub scenario_name : String
  pub status : Status
  pub elapsed_seconds : ℕ
  pub total_duration_seconds : ℕ
  pub active_steps : List ActiveStep

-- What a round of the timeline changes besides the marks of the steps.
pub record Effects (R : Type 0) : Type 0 where
  pub active : List String
  pub injector : AnomalyInjector R

module _ {R : Type 0} (elapsed : ℕ) where
  -- `i not in triggered and elapsed >= step.trigger_at_seconds`
  starts : Slot R → Bool
  starts slot = not slot.triggered && leb slot.trigger_at_seconds elapsed

  mark : Slot R → Slot R
  unfolding starts
  mark slot = if starts slot then record slot { triggered = true } else slot

  ends : Slot R → Effects R → Bool
  ends slot fx =
      slot.triggered
      && leb (slot.trigger_at_seconds + slot.duration_seconds) elapsed
      && contains slot.register_name fx.active

module _ {R : Type 0} (device_id elapsed : ℕ) where
  fire : Slot R → Effects R → Effects R
  unfolding starts add
  fire slot fx =
      if starts elapsed slot
      then record {
        active = add fx.active slot.register_name;
        injector =
            inject fx.injector device_id slot.register_name slot.anomaly_type slot.anomaly_params;
      }
      else fx

  -- The first loop: each step in turn.
  pub activate : List (Slot R) → Effects R → Effects R
  unfolding fire
  activate [] fx = fx
  activate (slot ∷ slots) fx = activate slots (fire slot fx)

  lift : Slot R → Effects R → Effects R
  unfolding ends discard
  lift slot fx =
      if ends elapsed slot fx
      then record {
        active = discard fx.active slot.register_name;
        injector = remove fx.injector device_id slot.register_name;
      }
      else fx

  -- The second loop, over the steps as the first loop has marked them.
  pub deactivate : List (Slot R) → Effects R → Effects R
  unfolding lift
  deactivate [] fx = fx
  deactivate (slot ∷ slots) fx = deactivate slots (lift slot fx)

  -- Both loops.
  unfoldable pub advance : List (Slot R) → Effects R → List (Slot R) × Effects R
  unfolding mark activate deactivate
  advance slots fx =
      let marked = map (mark elapsed) slots in (marked, deactivate marked (activate slots fx))

module _ {R : Type 0} where
  -- The end of a round: the scenario goes once its time is over and none of its anomalies is left.
  settle : ScenarioRunner R → ℕ → ℕ → RunningScenario R → Effects R → ScenarioRunner R
  settle s device_id elapsed run fx =
      if leb run.total_duration_seconds elapsed && is_empty fx.active
      then record s { running = pop s.running device_id; injector = fx.injector }
      else record s { running = put s.running device_id run; injector = fx.injector }

  tick_with : ScenarioRunner R → ℕ → ℕ → Option (RunningScenario R) → ScenarioRunner R
  unfolding settle advance
  tick_with s device_id elapsed none = s
  tick_with s device_id elapsed (some run) =
      let (slots, fx) =
        advance device_id elapsed run.steps
          (record { active = run.active_anomalies; injector = s.injector }) in
      settle s device_id elapsed (record run { steps = slots; active_anomalies = fx.active }) fx

  -- A round of `_drive_timeline`; a device with no scenario has no task.
  unfoldable pub tick : ScenarioRunner R → ℕ → ℕ → ScenarioRunner R
  unfolding tick_with
  tick s device_id elapsed = tick_with s device_id elapsed (get s.running device_id)

  abbrev pub fresh : StepInfo R → Slot R
  fresh step = record { step = step; triggered = false }

  abbrev pub begun : ℕ → String → ℕ → List (StepInfo R) → ℕ → RunningScenario R
  begun scenario_id scenario_name total steps now = record {
    scenario_id = scenario_id;
    scenario_name = scenario_name;
    total_duration_seconds = total;
    steps = map fresh steps;
    started_at = now;
    status = running;
    active_anomalies = [];
  }

  unfoldable pub start :
      ScenarioRunner R → ℕ → ℕ → String → ℕ → List (StepInfo R) → ℕ → Result (ScenarioRunner R)
  start s device_id scenario_id scenario_name total steps now =
      if has s.running device_id
      then err runtime_error
      else ok (record s {
        running = put s.running device_id (begun scenario_id scenario_name total steps now);
      })

  remove_all : AnomalyInjector R → ℕ → List String → AnomalyInjector R
  remove_all injector device_id [] = injector
  remove_all injector device_id (name ∷ names) =
      remove_all (remove injector device_id name) device_id names

  stop_with : ScenarioRunner R → ℕ → Option (RunningScenario R) → ScenarioRunner R
  unfolding remove_all
  stop_with s device_id none = s
  stop_with s device_id (some run) = record s {
    running = pop s.running device_id;
    injector = remove_all s.injector device_id run.active_anomalies;
  }

  -- The popped scenario's task is cancelled, so that it makes no further round.
  unfoldable pub stop : ScenarioRunner R → ℕ → ScenarioRunner R
  unfolding stop_with
  stop s device_id = stop_with s device_id (get s.running device_id)

  active_steps_at : ℕ → List (Slot R) → List ActiveStep
  active_steps_at elapsed [] = []
  active_steps_at elapsed (slot ∷ slots) =
      let end_at = slot.trigger_at_seconds + slot.duration_seconds in
      let rest = active_steps_at elapsed slots in
      if leb slot.trigger_at_seconds elapsed && ltb elapsed end_at
      then record {
        register_name = slot.register_name;
        anomaly_type = slot.anomaly_type;
        remaining_seconds = max 0 (end_at - elapsed);
      }
        ∷ rest
      else rest

  status_of : ℕ → Option (RunningScenario R) → Option ExecutionStatus
  unfolding active_steps_at
  status_of now none = none
  status_of now (some run) =
      let elapsed = now - run.started_at in
      some (record {
        scenario_id = run.scenario_id;
        scenario_name = run.scenario_name;
        status = run.status;
        elapsed_seconds = min elapsed run.total_duration_seconds;
        total_duration_seconds = run.total_duration_seconds;
        active_steps = active_steps_at elapsed run.steps;
      })

  unfoldable pub get_status : ScenarioRunner R → ℕ → ℕ → Option ExecutionStatus
  unfolding status_of
  get_status s device_id now = status_of now (get s.running device_id)
