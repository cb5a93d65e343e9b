-- ===== src/Tests/Loop.antt =====
-- The loop of one device's task, over an adapter that keeps the last value of each address.
use ghost_meter.Prelude.{
  ℕ, ◌≡◌, refl, true, false, none, List, [], ◌∷◌, ◌↔◌, arith, String, nat_eq, string_eq,
}
use ghost_meter.Prelude.Int.{ℤ, pos}
use ghost_meter.Dict.{Dict, get, put, get_or}
use ghost_meter.Errors.{ok, key_error}
use ghost_meter.Floats.{Value, integer, to_float}
use ghost_meter.Floats.Exact.{exact}
use ghost_meter.Simulation.AnomalyInjector.{AnomalyInjector, float_at, apply}
use ghost_meter.Simulation.Expressions.{
  Python, Node, constant, unary_op, bin_op, u_sub, add, div, safe_ast_eval,
}
use ghost_meter.Simulation.Expressions.Meaning.{
  Means, Evaluates, safe_ast_eval-Evaluates, safe_ast_eval_iff_Means,
}
use ghost_meter.Simulation.DataGenerator.{generate, generate_static}
use ghost_meter.Simulation.Engine.Loop.{
  RegisterMeta, Registers, Moment, Loop, valid_configs, sort_key, sorted, tick, rounds,
}
use ghost_meter.Simulation.Engine.Loop.Order.{Serves, valid_configs-Serves}
use ghost_meter.Simulation.Engine.Loop.Stops.{
  Accounts, in_a_row, NeverFive, outcomes, rounds-Accounts, rounds-stop,
}
use ghost_meter.Simulation.Engine.Loop.Ticks.{Fails}
use ghost_meter.Services.Configurations.{SimulationConfigCreate}

instance abbrev memory : Registers ℤ (Dict ℕ ℤ)
memory = record {
  update_register =
      λ w device_id address function_code value data_type byte_order. (put w address value, ok tt);
}

abbrev plain : Python ℤ
plain = record { replace = λ f s. s; strip = λ s. s; str = λ x. "0"; parse = λ s. none }

abbrev quiet : AnomalyInjector ℤ
quiet = record { active = []; schedules = []; scheduled_active = [] }

abbrev second : Moment ℤ
second = record {
  elapsed = pos 1;
  hour = pos 12;
  draws = λ name. record { gauss = λ m s. m; uniform = λ a b. a; sine = λ x. x };
  roll = λ name. pos 0;
  removed = false;
}

abbrev register : ℕ → RegisterMeta ℤ
register n = record {
  address = n;
  function_code = 3;
  data_type = "uint16";
  byte_order = "big_endian";
  scale_factor = pos 1;
  sort_order = pos n;
}

abbrev config : String → Dict String (Value ℤ) → SimulationConfigCreate ℤ
config name params = record {
  register_name = name;
  data_mode = "static";
  mode_params = params;
  is_enabled = true;
  update_interval_ms = 1000;
}

-- One register has its value; the other's was forgotten.
abbrev voltage : SimulationConfigCreate ℤ
voltage = config "voltage" (("value", integer (pos 230)) ∷ [])

abbrev current : SimulationConfigCreate ℤ
current = config "current" []

abbrev start : Loop ℤ (Dict ℕ ℤ)
start = record {
  values = [];
  injector = quiet;
  adapter = [];
  error_count = 0;
  stopped = false;
  present = true;
}

abbrev five : List (Moment ℤ)
five = second ∷ (second ∷ (second ∷ (second ∷ (second ∷ []))))

start-Accounts : Accounts [] start
unfolding in_a_row NeverFive
start-Accounts = record { counts = refl; stops = refl; before = tt }

abbrev served : List (SimulationConfigCreate ℤ × RegisterMeta ℤ)
served = (voltage, register 0) ∷ ((current, register 1) ∷ [])

rounds-Accounts_example :
    Accounts (outcomes plain 1 served [] start five) (rounds plain 1 served start five)
rounds-Accounts_example = rounds-Accounts plain 1 served [] start five start-Accounts

current-Fails : Fails plain current
unfolding Fails generate generate_static float_at get
current-Fails draws context = (key_error, refl)

rounds-stop_example : (rounds plain 1 served start five).stopped ≡ true
rounds-stop_example =
    rounds-stop plain 1 ((voltage, register 0) ∷ []) current (register 1) [] start five
      current-Fails refl (omega arith)

-- The register that has its value is served in the round in which the other one fails.
serves_voltage : (tick plain 1 (start, false) second served).0.adapter ≡ (0, pos 230) ∷ []
unfolding tick generate generate_static float_at get put to_float apply get_or
serves_voltage = refl

abbrev registers : Dict String (RegisterMeta ℤ)
registers = ("current", register 1) ∷ (("voltage", register 0) ∷ [])

valid_configs-Serves_example :
    Serves registers
      (current ∷ (config "power" [] ∷ (voltage ∷ [])))
      (valid_configs registers (current ∷ (config "power" [] ∷ (voltage ∷ []))))
valid_configs-Serves_example =
    valid_configs-Serves registers (current ∷ (config "power" [] ∷ (voltage ∷ [])))

in_order : valid_configs registers (current ∷ (config "power" [] ∷ (voltage ∷ []))) ≡ served
unfolding valid_configs get sort_key sorted
in_order = refl

-- `-(6 / 0) + 4`
abbrev expression : Node ℤ
expression =
    bin_op (unary_op u_sub (bin_op (constant (integer (pos 6))) div (constant (integer (pos 0)))))
      add (constant (integer (pos 4)))

safe_ast_eval-Evaluates_example : Evaluates expression (safe_ast_eval expression)
safe_ast_eval-Evaluates_example = safe_ast_eval-Evaluates expression

safe_ast_eval_iff_Means_example : (safe_ast_eval expression ≡ ok (pos 4)) ↔ Means expression (pos 4)
safe_ast_eval_iff_Means_example = safe_ast_eval_iff_Means expression (pos 4)

evaluates_to_four : safe_ast_eval expression ≡ ok (pos 4)
unfolding safe_ast_eval to_float
evaluates_to_four = refl
