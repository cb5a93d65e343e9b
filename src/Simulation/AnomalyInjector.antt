-- ===== src/Simulation/AnomalyInjector.antt =====
-- backend/app/simulation/anomaly_injector.py: real-time and scheduled anomalies of each device.
-- The dice of `random.random()` are an argument. `_apply_anomaly` mutates its state object only
-- after its last conversion, so an exception leaves the state as it was.
pub mod Active
pub mod Effect
pub mod Device
pub mod Flatline
use ghost_meter.Prelude.{
  ℕ, ◌+◌, String, Bool, true, false, not, ◌&&◌, Option, none, some, List, [], ◌∷◌, map, ◌==◌,
  nat_eq, string_eq, if◌then◌else◌,
}
use ghost_meter.Dict.{Dict, get, get_or, put, pop, has}
use ghost_meter.Errors.{Result, ok, err, key_error, ◌>>=◌}
use ghost_meter.Floats.{Floats, Value, to_float}

pub record AnomalyState (R : Type 0) : Type 0 where
  pub anomaly_type : String
  pub params : Dict String (Value R)
  pub activated_at : Option R
  pub frozen_value : Option R

pub record ScheduleEntry (R : Type 0) : Type 0 where
  pub register_name : String
  pub anomaly_type : String
  pub anomaly_params : Dict String (Value R)
  pub trigger_after_seconds : ℕ
  pub duration_seconds : ℕ

-- Anomaly states by register.
abbrev pub Registers : Type 0 → Type 0
Registers R = Dict String (AnomalyState R)

pub record AnomalyInjector (R : Type 0) : Type 0 where
  pub active : Dict ℕ (Registers R)
  pub schedules : Dict ℕ (List (ScheduleEntry R))
  pub scheduled_active : Dict ℕ (Registers R)

module _ {R : Type 0} where
  -- `AnomalyState(anomaly_type=…, params=…)`
  abbrev pub new_state : String → Dict String (Value R) → AnomalyState R
  new_state kind params = record {
    anomaly_type = kind;
    params = params;
    activated_at = none;
    frozen_value = none;
  }

  unfoldable pub inject :
      AnomalyInjector R → ℕ → String → String → Dict String (Value R) → AnomalyInjector R
  inject s device_id register_name kind params =
      let registers = get_or s.active device_id [] in
      record s {
        active = put s.active device_id (put registers register_name (new_state kind params));
      }

  remove_from : AnomalyInjector R → ℕ → String → Option (Registers R) → AnomalyInjector R
  remove_from s device_id register_name none = s
  remove_from s device_id register_name (some registers) = record s {
    active = put s.active device_id (pop registers register_name);
  }

  unfoldable pub remove : AnomalyInjector R → ℕ → String → AnomalyInjector R
  unfolding remove_from
  remove s device_id register_name = remove_from s device_id register_name (get s.active device_id)

  unfoldable pub clear_realtime : AnomalyInjector R → ℕ → AnomalyInjector R
  clear_realtime s device_id = record s { active = pop s.active device_id }

  unfoldable pub clear_device : AnomalyInjector R → ℕ → AnomalyInjector R
  clear_device s device_id = record s {
    active = pop s.active device_id;
    schedules = pop s.schedules device_id;
    scheduled_active = pop s.scheduled_active device_id;
  }

  unfoldable pub get_active : AnomalyInjector R → ℕ → Registers R
  get_active s device_id = get_or s.active device_id []

  unfoldable pub load_schedules : AnomalyInjector R → ℕ → List (ScheduleEntry R) → AnomalyInjector R
  load_schedules s device_id schedules = record s {
    schedules = put s.schedules device_id schedules;
    scheduled_active = pop s.scheduled_active device_id;
  }

  unfoldable pub clear_all : AnomalyInjector R → AnomalyInjector R
  clear_all s = record s { active = []; schedules = []; scheduled_active = [] }

  -- `params[key]`
  require : Dict String (Value R) → String → Result (Value R)
  require params key = elim (get params key) [ none ↦ err key_error | some v ↦ ok v ]

module _ {R : Type 0} ⦃F : Floats R⦄ where
  -- `float(params[key])`
  unfoldable pub float_at : Dict String (Value R) → String → Result R
  unfolding require
  float_at params key = do v ← require params key; to_float v

  -- `float(params.get(key, default))`
  unfoldable pub float_or : Dict String (Value R) → String → R → Result R
  float_or params key default = elim (get params key) [ none ↦ ok default | some v ↦ to_float v ]

  apply_spike : AnomalyState R → R → R → Result (R × AnomalyState R)
  apply_spike state value roll = do
    prob ← float_or state.params "probability" (F.literal 1 10)
    mult ← float_or state.params "multiplier" (F.literal 2 1)
    ok (if F.lt roll prob then F.mul value mult else value, state)

  abbrev start_of : Option R → R → R
  start_of none elapsed = elapsed
  start_of (some t) elapsed = t

  -- The drift after `time_since` seconds, with its limit.
  clamp_drift : R → R → R → R
  clamp_drift drift_rate max_drift drift =
      if F.lt (F.abs max_drift) (F.abs drift)
      then (if F.le (F.literal 0 1) drift_rate then max_drift else F.neg max_drift)
      else drift

  apply_drift : AnomalyState R → R → R → Result (R × AnomalyState R)
  unfolding clamp_drift
  apply_drift state value elapsed = do
    drift_rate ← float_at state.params "drift_per_second"
    max_drift ← float_at state.params "max_drift"
    let activated = start_of state.activated_at elapsed
    let drift = F.mul drift_rate (F.sub elapsed activated)
    ok (
      F.add value (clamp_drift drift_rate max_drift drift),
      record state { activated_at = some activated },
    )

  abbrev hold : Option R → R → R
  hold none value = value
  hold (some frozen) value = frozen

  flatline_with : Option (Value R) → AnomalyState R → R → Result (R × AnomalyState R)
  flatline_with (some v) state value = do x ← to_float v; ok (x, state)
  flatline_with none state value =
      let frozen = hold state.frozen_value value in
      ok (frozen, record state { frozen_value = some frozen })

  apply_flatline : AnomalyState R → R → Result (R × AnomalyState R)
  unfolding flatline_with
  apply_flatline state value = flatline_with (get state.params "value") state value

  apply_out_of_range : AnomalyState R → Result (R × AnomalyState R)
  apply_out_of_range state = do x ← float_at state.params "value"; ok (x, state)

  -- `match state.anomaly_type`
  dispatch : String → AnomalyState R → R → R → R → Result (R × AnomalyState R)
  unfolding apply_spike apply_drift apply_flatline apply_out_of_range float_or float_at
  dispatch kind state value elapsed roll =
      if kind == "spike"
      then apply_spike state value roll
      else if kind == "drift"
      then apply_drift state value elapsed
      else if kind == "flatline"
      then apply_flatline state value
      else if kind == "out_of_range"
      then apply_out_of_range state
      else if kind == "data_loss"
      then ok (F.literal 0 1, state)
      else ok (value, state)

  -- `_apply_anomaly`
  unfoldable pub apply_anomaly : AnomalyState R → R → R → R → Result (R × AnomalyState R)
  unfolding dispatch
  apply_anomaly state value elapsed roll = dispatch state.anomaly_type state value elapsed roll

  unfoldable pub covers : ScheduleEntry R → R → Bool
  covers sched elapsed =
      F.int_le sched.trigger_after_seconds elapsed
      && F.lt_int elapsed (sched.trigger_after_seconds + sched.duration_seconds)

  -- The first entry of the register whose interval holds the time.
  unfoldable pub find_schedule : List (ScheduleEntry R) → String → R → Option (ScheduleEntry R)
  unfolding covers
  find_schedule [] register_name elapsed = none
  find_schedule (sched ∷ rest) register_name elapsed =
      if sched.register_name == register_name && covers sched elapsed
      then some sched
      else find_schedule rest register_name elapsed

  -- The entry that an active schedule has in the table: an entry that is there stays.
  pub refresh : Registers R → Option (ScheduleEntry R) → String → R → Registers R
  refresh registers none register_name elapsed = pop registers register_name
  refresh registers (some sched) register_name elapsed =
      if has registers register_name
      then registers
      else put registers register_name (record {
        anomaly_type = sched.anomaly_type;
        params = sched.anomaly_params;
        activated_at = some elapsed;
        frozen_value = none;
      })

  update_with : AnomalyInjector R → ℕ → String → R → List (ScheduleEntry R) → AnomalyInjector R
  update_with s device_id register_name elapsed [] = s
  update_with s device_id register_name elapsed (sched ∷ rest) = record s {
    scheduled_active = put s.scheduled_active device_id (
        refresh (get_or s.scheduled_active device_id [])
          (find_schedule (sched ∷ rest) register_name elapsed) register_name elapsed);
  }

  -- `_update_scheduled_anomalies`
  unfoldable pub update_scheduled_anomalies : AnomalyInjector R → ℕ → String → R → AnomalyInjector R
  unfolding refresh find_schedule update_with
  update_scheduled_anomalies s device_id register_name elapsed =
      update_with s device_id register_name elapsed (get_or s.schedules device_id [])

  -- The mutated state object of a real-time anomaly, and of a scheduled one.
  keep_realtime :
      AnomalyInjector R → ℕ → String → Result (R × AnomalyState R) → Result R × AnomalyInjector R
  keep_realtime s device_id register_name (ok (v, state)) = (
    ok v,
    record s {
      active = put s.active device_id (put (get_or s.active device_id []) register_name state);
    },
  )
  keep_realtime s device_id register_name (err e) = (err e, s)

  keep_scheduled :
      AnomalyInjector R → ℕ → String → Result (R × AnomalyState R) → Result R × AnomalyInjector R
  keep_scheduled s device_id register_name (ok (v, state)) = (
    ok v,
    record s {
      scheduled_active =
          put s.scheduled_active device_id
            (put (get_or s.scheduled_active device_id []) register_name state);
    },
  )
  keep_scheduled s device_id register_name (err e) = (err e, s)

  apply_scheduled :
      Option (AnomalyState R)
      → AnomalyInjector R
      → ℕ
      → String
      → R
      → R
      → R
      → Result R × AnomalyInjector R
  unfolding keep_scheduled
  apply_scheduled none s device_id register_name value elapsed roll = (ok value, s)
  apply_scheduled (some state) s device_id register_name value elapsed roll =
      keep_scheduled s device_id register_name (apply_anomaly state value elapsed roll)

  -- The real-time anomaly of the register, if it has one, goes first.
  apply_first :
      Option (AnomalyState R)
      → AnomalyInjector R
      → ℕ
      → String
      → R
      → R
      → R
      → Result R × AnomalyInjector R
  unfolding keep_realtime
  apply_first (some state) s device_id register_name value elapsed roll =
      keep_realtime s device_id register_name (apply_anomaly state value elapsed roll)
  apply_first none s device_id register_name value elapsed roll =
      let updated = update_scheduled_anomalies s device_id register_name elapsed in
      apply_scheduled (get (get_or updated.scheduled_active device_id []) register_name) updated
        device_id register_name value elapsed roll

  unfoldable pub apply : AnomalyInjector R → ℕ → String → R → R → R → Result R × AnomalyInjector R
  unfolding apply_first apply_scheduled update_scheduled_anomalies
  apply s device_id register_name value elapsed roll =
      apply_first (get (get_or s.active device_id []) register_name) s device_id register_name value
        elapsed roll
