-- ===== src/Simulation/FaultSimulator.antt =====
-- backend/app/simulation/fault_simulator.py: one fault for each device, and the clamps that the
-- adapters apply to a fault's parameters.
pub mod Clamps
use ghost_meter.Prelude.{
  ℕ, ◌≡◌, String, Bool, Option, none, some, [], nat_eq, string_eq, if◌then◌else◌,
}
use ghost_meter.Dict.{Dict, get, put, pop}
use ghost_meter.Errors.{Error, type_error, value_error, Result, ok, err}
use ghost_meter.Floats.{Floats, Value, to_float, py_min, py_max}

pub record FaultConfig (R : Type 0) : Type 0 where
  pub fault_type : String
  pub params : Dict String (Value R)

pub record FaultSimulator (R : Type 0) : Type 0 where
  pub device_faults : Dict ℕ (FaultConfig R)

module _ {R : Type 0} where
  unfoldable pub set_fault : FaultSimulator R → ℕ → FaultConfig R → FaultSimulator R
  set_fault s device_id config = record { device_faults = put s.device_faults device_id config }

  unfoldable pub clear_fault : FaultSimulator R → ℕ → FaultSimulator R
  clear_fault s device_id = record { device_faults = pop s.device_faults device_id }

  -- A device id may be missing.
  unfoldable pub get_fault : FaultSimulator R → Option ℕ → Option (FaultConfig R)
  get_fault s none = none
  get_fault s (some device_id) = get s.device_faults device_id

  unfoldable pub clear_all : FaultSimulator R → FaultSimulator R
  clear_all s = record { device_faults = [] }

abbrev pub max_delay_ms : ℕ
max_delay_ms = 10000

module _ {R : Type 0} ⦃F : Floats R⦄ where
  -- `float(params.get(key, default))`, from what `get` finds
  float_param : Option (Value R) → R → Result R
  float_param none default = ok default
  float_param (some v) default = to_float v

  -- The `try` block: a value that is no number, or not finite, is replaced. `float` may also raise
  -- OverflowError, which the block does not catch.
  recover : R → Result R → Result R
  recover default (ok x) = ok (if F.is_finite x then x else default)
  recover default (err type_error) = ok default
  recover default (err value_error) = ok default
  recover default (err e) = err e

  clamp_delay : Result R → Result R
  clamp_delay (ok x) =
      ok (F.div (py_min (py_max x (F.literal 0 1)) (F.literal max_delay_ms 1)) (F.literal 1000 1))
  clamp_delay (err e) = err e

  unfoldable pub get_delay_seconds : Dict String (Value R) → Result R
  unfolding float_param recover clamp_delay
  get_delay_seconds params =
      clamp_delay
        (recover (F.literal 500 1) (float_param (get params "delay_ms") (F.literal 500 1)))

  clamp_rate : Result R → Result R
  clamp_rate (ok x) = ok (py_min (py_max x (F.literal 0 1)) (F.literal 1 1))
  clamp_rate (err e) = err e

  unfoldable pub get_failure_rate : Dict String (Value R) → Result R
  unfolding float_param recover clamp_rate
  get_failure_rate params =
      clamp_rate (recover (F.literal 1 2) (float_param (get params "failure_rate") (F.literal 1 2)))
