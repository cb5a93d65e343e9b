-- ===== src/Simulation/DataGenerator.antt =====
-- backend/app/simulation/data_generator.py: the value of a register at one tick. The sine, the
-- circle's constant and the random draws are arguments.
use ghost_meter.Prelude.{
  String, Bool, Option, none, some, false, ◌==◌, nat_eq, string_eq, if◌then◌else◌,
}
use ghost_meter.Prelude.Int.{magnitude}
use ghost_meter.Dict.{Dict, get}
use ghost_meter.Errors.{
  Result, ok, err, value_error, key_error, attribute_error, expression_error, ◌>>=◌,
}
use ghost_meter.Floats.{Floats, Value, number, integer, text, flag, null, other}
use ghost_meter.Simulation.AnomalyInjector.{float_at, float_or}
use ghost_meter.Simulation.Expressions.{Python, parse_and_evaluate}

-- GeneratorContext; the hour of the day is given.
pub record GeneratorContext (R : Type 0) : Type 0 where
  pub current_values : Dict String R
  pub elapsed_seconds : R
  pub current_hour_utc : R

-- `random.gauss`, `random.uniform` at their draws, and `math.sin(math.pi * x / 12)`
pub record Draws (R : Type 0) : Type 0 where
  pub gauss : R → R → R
  pub uniform : R → R → R
  pub sine : R → R

is_gaussian : {R : Type 0} → Option (Value R) → Bool
is_gaussian none = false
is_gaussian (some (number x)) = false
is_gaussian (some (integer n)) = false
is_gaussian (some (text s)) = s == "gaussian"
is_gaussian (some (flag b)) = false
is_gaussian (some null) = false
is_gaussian (some other) = false

module _ {R : Type 0} ⦃F : Floats R⦄ where
  unfoldable pub generate_static : Dict String (Value R) → Result R
  generate_static params = float_at params "value"

  unfoldable pub generate_random : Draws R → Dict String (Value R) → Result R
  unfolding is_gaussian
  generate_random draws params = do
    base ← float_at params "base"
    amplitude ← float_at params "amplitude"
    ok (
        if is_gaussian (get params "distribution")
        then F.add base (draws.gauss (F.literal 0 1) (F.div amplitude (F.literal 3 1)))
        else F.add base (draws.uniform (F.neg amplitude) amplitude))

  -- The sine of the hour's distance from six hours before the peak.
  unfoldable pub generate_daily_curve :
      Draws R → Dict String (Value R) → GeneratorContext R → Result R
  generate_daily_curve draws params context = do
    base ← float_at params "base"
    amplitude ← float_at params "amplitude"
    peak_hour ← float_or params "peak_hour" (F.literal 14 1)
    ok (
        F.add base (
          F.mul amplitude
            (draws.sine (F.add (F.sub context.current_hour_utc peak_hour) (F.literal 6 1)))))

  unfoldable pub generate_accumulator : Dict String (Value R) → GeneratorContext R → Result R
  generate_accumulator params context = do
    start_value ← float_or params "start_value" (F.literal 0 1)
    increment ← float_at params "increment_per_second"
    ok (F.add start_value (F.mul increment context.elapsed_seconds))

  -- `params["expression"]`, of which a value that is false is an empty expression, and another
  -- that is not a string has no `strip`. An `other` value is a list or a dict that is not empty.
  expression_of : Option (Value R) → Result String
  expression_of none = err key_error
  expression_of (some (text s)) = ok s
  expression_of (some null) = err expression_error
  expression_of (some (number x)) =
      if F.eq x (F.literal 0 1) then err expression_error else err attribute_error
  expression_of (some (integer n)) =
      if magnitude n == 0 then err expression_error else err attribute_error
  expression_of (some (flag b)) = if b then err attribute_error else err expression_error
  expression_of (some other) = err attribute_error

  unfoldable pub generate_computed :
      Python R → Dict String (Value R) → GeneratorContext R → Result R
  unfolding expression_of
  generate_computed python params context = do
    expression ← expression_of (get params "expression")
    parse_and_evaluate python expression context.current_values

  unfoldable pub generate :
      Python R → Draws R → String → Dict String (Value R) → GeneratorContext R → Result R
  unfolding generate_static generate_random generate_daily_curve generate_computed
      generate_accumulator
  generate python draws mode params context =
      if mode == "static"
      then generate_static params
      else if mode == "random"
      then generate_random draws params
      else if mode == "daily_curve"
      then generate_daily_curve draws params context
      else if mode == "computed"
      then generate_computed python params context
      else if mode == "accumulator"
      then generate_accumulator params context
      else err value_error
