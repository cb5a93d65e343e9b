-- ===== src/Simulation/Engine/Loop.antt =====
-- `_run_device` of backend/app/simulation/engine.py: the loop of one device's task. Each round has
-- its moment and its draws; the adapter is the record Registers.
pub mod Ticks
pub mod Order
pub mod Stops
use ghost_meter.Prelude.{
  ℕ, suc, ◌+◌, String, Bool, true, false, not, ◌&&◌, ◌||◌, Option, none, some, List, [], ◌∷◌, leb,
  nat_eq, string_eq, if◌then◌else◌,
}
use ghost_meter.Prelude.Int.{ℤ, pos, leb_ℤ}
use ghost_meter.Dict.{Dict, get, put}
use ghost_meter.Errors.{Result, ok, err}
use ghost_meter.Floats.{Floats}
use ghost_meter.Simulation.AnomalyInjector.{AnomalyInjector, apply}
use ghost_meter.Simulation.Expressions.{Python}
use ghost_meter.Simulation.DataGenerator.{GeneratorContext, Draws, generate}
use ghost_meter.Services.Configurations.{SimulationConfigCreate}

pub record RegisterMeta (R : Type 0) : Type 0 where
  pub address : ℕ
  pub function_code : ℕ
  pub data_type : String
  pub byte_order : String
  pub scale_factor : R
  pub sort_order : ℤ

-- `adapter.update_register`; a call that raises leaves its state too.
pub record Registers (R W : Type 0) : Type 0 where
  pub update_register : W → ℕ → ℕ → ℕ → R → String → String → W × Result (Unit {0})

-- A round's time and draws, with `random.random()` of an anomaly by the register's name, and
-- whether another call has removed the device from `_device_values` since the round before.
pub record Moment (R : Type 0) : Type 0 where
  pub elapsed : R
  pub hour : R
  pub draws : String → Draws R
  pub roll : String → R
  pub removed : Bool

-- The state of a task's loop, and what it shares: the injector, the adapter, and whether
-- `_device_values` has the device.
pub record Loop (R W : Type 0) : Type 0 where
  pub values : Dict String R
  pub injector : AnomalyInjector R
  pub adapter : W
  pub error_count : ℕ
  pub stopped : Bool
  pub present : Bool

module _ {A : Type 0} (key : A → ℤ) where
  insert : A → List A → List A
  insert a [] = a ∷ []
  insert a (b ∷ bs) =
      let rest = insert a bs in if leb_ℤ (key a) (key b) then a ∷ (b ∷ bs) else b ∷ rest

  -- `sorted`, which is stable
  unfoldable pub sorted : List A → List A
  unfolding insert
  sorted [] = []
  sorted (a ∷ rest) = insert a (sorted rest)

module _ {R : Type 0} where
  order_of : Option (RegisterMeta R) → ℤ
  order_of none = pos 9999
  order_of (some reg) = reg.sort_order

  -- `_sort_key`
  unfoldable pub sort_key : Dict String (RegisterMeta R) → SimulationConfigCreate R → ℤ
  unfolding order_of
  sort_key register_map config = order_of (get register_map config.register_name)

  with_meta :
      Option (RegisterMeta R)
      → SimulationConfigCreate R
      → List (SimulationConfigCreate R × RegisterMeta R)
      → List (SimulationConfigCreate R × RegisterMeta R)
  with_meta none config rest = rest
  with_meta (some reg) config rest = (config, reg) ∷ rest

  known :
      Dict String (RegisterMeta R)
      → List (SimulationConfigCreate R)
      → List (SimulationConfigCreate R × RegisterMeta R)
  unfolding with_meta
  known register_map [] = []
  known register_map (config ∷ configs) =
      with_meta (get register_map config.register_name) config (known register_map configs)

  -- `valid_configs`, each with its register
  unfoldable pub valid_configs :
      Dict String (RegisterMeta R)
      → List (SimulationConfigCreate R)
      → List (SimulationConfigCreate R × RegisterMeta R)
  unfolding known sort_key
  valid_configs register_map configs = known register_map (sorted (sort_key register_map) configs)

module _ {R : Type 0} ⦃F : Floats R⦄ where
  raw_value : R → R → R
  raw_value generated scale_factor =
      if F.eq scale_factor (F.literal 0 1) then generated else F.div generated scale_factor

module _ {R W : Type 0} ⦃F : Floats R⦄ ⦃registers : Registers R W⦄ (python : Python R)
    (device_id : ℕ) where
  written : Loop R W → W × Result (Unit {0}) → Loop R W × Result (Unit {0})
  written s (w, r) = (record s { adapter = w }, r)

  store :
      Loop R W
      → String
      → RegisterMeta R
      → Result R × AnomalyInjector R
      → Loop R W × Result (Unit {0})
  unfolding raw_value written
  store s name reg (err e, injector) = (record s { injector = injector }, err e)
  store s name reg (ok generated, injector) =
      let stored = record s { injector = injector; values = put s.values name generated } in
      written stored (
        registers.update_register s.adapter device_id reg.address reg.function_code
          (raw_value generated reg.scale_factor) reg.data_type reg.byte_order)

  disturb : Loop R W → Moment R → String → RegisterMeta R → Result R → Loop R W × Result (Unit {0})
  unfolding store
  disturb s moment name reg (err e) = (s, err e)
  disturb s moment name reg (ok generated) =
      store s name reg (apply s.injector device_id name generated moment.elapsed (moment.roll name))

  -- The body of the loop over the configurations.
  unfoldable pub simulate :
      Loop R W → Moment R → SimulationConfigCreate R × RegisterMeta R → Loop R W × Result (Unit {0})
  unfolding disturb
  simulate s moment (config, reg) = disturb s moment config.register_name reg (
      generate python (moment.draws config.register_name) config.data_mode config.mode_params
        (record {
          current_values = s.values;
          elapsed_seconds = moment.elapsed;
          current_hour_utc = moment.hour;
        }))

  noted : Loop R W × Result (Unit {0}) → Bool → Loop R W × Bool
  noted (s, ok _) had_error = (s, had_error)
  noted (s, err e) had_error = (s, true)

  -- An exception is logged, and the loop goes on; the flag is `tick_had_error`.
  unfoldable pub tick :
      Loop R W × Bool
      → Moment R
      → List (SimulationConfigCreate R × RegisterMeta R)
      → Loop R W × Bool
  unfolding simulate noted
  tick (s, had_error) moment [] = (s, had_error)
  tick (s, had_error) moment (config ∷ configs) =
      tick (noted (simulate s moment config) had_error) moment configs

  -- After a tick: the errors in a row, and the stop at five, where the device's status is set.
  after_tick : Loop R W × Bool → Loop R W
  after_tick (s, had_error) =
      let n = if had_error then s.error_count + 1 else 0 in
      record s { error_count = n; stopped = leb 5 n }

  -- The outer `try`: without the device's entry the round raises before its first register, and
  -- the handler counts an error.
  pub attempt :
      Bool
      → Loop R W
      → Moment R
      → List (SimulationConfigCreate R × RegisterMeta R)
      → Loop R W × Bool
  unfolding tick
  attempt true s moment configs = tick (s, false) moment configs
  attempt false s moment configs = (s, true)

  meet : Loop R W → Moment R → Loop R W
  meet s moment = record s { present = s.present && not moment.removed }

  unfoldable pub round :
      List (SimulationConfigCreate R × RegisterMeta R) → Loop R W → Moment R → Loop R W
  unfolding attempt after_tick meet
  round configs s moment =
      let met = meet s moment in
      if s.stopped then s else after_tick (attempt met.present met moment configs)

  -- The loop at the moments of its rounds; after the stop there is none.
  unfoldable pub rounds :
      List (SimulationConfigCreate R × RegisterMeta R) → Loop R W → List (Moment R) → Loop R W
  unfolding round
  rounds configs s [] = s
  rounds configs s (moment ∷ moments) = rounds configs (round configs s moment) moments

  -- The task enters its loop.
  unfoldable pub enter : AnomalyInjector R → W → Loop R W
  enter injector adapter = record {
    values = [];
    injector = injector;
    adapter = adapter;
    error_count = 0;
    stopped = false;
    present = true;
  }
