-- ===== src/Tests/Configurations.antt =====
-- The simulation of two registers of a meter.
use ghost_meter.Prelude.{◌≡◌, refl, true, String, some, List, [], ◌∷◌, nat_eq, string_eq}
use ghost_meter.Prelude.Int.{ℤ}
use ghost_meter.Dict.{get}
use ghost_meter.Errors.{err, validation}
use ghost_meter.Services.Configurations.{SimulationConfigCreate, Database, set_simulation_configs}
use ghost_meter.Services.Configurations.Lookup.{
  requested, Known, Distinct, set_simulation_configs_refuses,
}

abbrev fixed : String → SimulationConfigCreate ℤ
fixed name = record {
  register_name = name;
  data_mode = "static";
  mode_params = [];
  is_enabled = true;
  update_interval_ms = 1000;
}

abbrev names : List String
names = "voltage" ∷ ("current" ∷ [])

abbrev meter : Database ℤ
meter = record {
  device_registers = (1, names) ∷ [];
  simulation_configs = record { device_id = 1; config = fixed "voltage" } ∷ [];
  simulating = 1 ∷ [];
  reloaded = [];
}

meter_found : get meter.device_registers 1 ≡ some names
unfolding get
meter_found = refl

abbrev both : List (SimulationConfigCreate ℤ)
both = fixed "current" ∷ (fixed "voltage" ∷ [])

requested_current : requested both "current" ≡ some (fixed "current")
unfolding requested
requested_current = refl

abbrev twice : List (SimulationConfigCreate ℤ)
twice = fixed "voltage" ∷ (fixed "voltage" ∷ [])

twice-not_Distinct : ¬ (Known names twice × Distinct twice)
twice-not_Distinct = λ (_, ((apart, _), _)). cc

set_simulation_configs_refuses_example : set_simulation_configs meter 1 twice ≡ err validation
set_simulation_configs_refuses_example =
    set_simulation_configs_refuses meter 1 names twice meter_found twice-not_Distinct
