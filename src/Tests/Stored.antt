-- ===== src/Tests/Stored.antt =====
-- Scenarios of one template in the database.
use ghost_meter.Prelude.{ℕ, refl, true, false, none, List, [], ◌∷◌, All, arith, nat_eq, string_eq}
use ghost_meter.Prelude.Int.{ℤ, pos}
use ghost_meter.Table.{find}
use ghost_meter.Services.Templates.{TemplateData, RegisterDefinition}
use ghost_meter.Services.Scenarios.Stored.{
  ScenarioStep, Scenario, Database, has_id, Call, create, update, delete, import_from, perform_all,
}
use ghost_meter.Services.Scenarios.Stored.Sound.{Asked, AllSound, perform_all-AllSound}
use ghost_meter.Services.Scenarios.Stored.Builtin.{IsBuiltin, perform_all-IsBuiltin}
use ghost_meter.Tests.Scenarios.{step_at}

abbrev pub voltage : RegisterDefinition ℤ
voltage = record {
  name = "voltage";
  address = 0;
  function_code = 3;
  data_type = "uint16";
  byte_order = "big_endian";
  scale_factor = pos 1;
  unit = none;
  description = none;
  sort_order = pos 0;
  oid = none;
}

abbrev pub meter : TemplateData ℤ
meter = record {
  name = "meter";
  protocol = "modbus_tcp";
  description = none;
  registers = voltage ∷ [];
}

abbrev step : ℕ → ScenarioStep ℤ
step n = record { info = step_at n; sort_order = pos n }

abbrev outage : Scenario ℤ
outage = record {
  id = 0;
  template_id = 7;
  name = "outage";
  description = none;
  is_builtin = true;
  total_duration_seconds = 0;
  steps = [];
}

abbrev stored : Database ℤ
stored = record { templates = (7, meter) ∷ []; scenarios = outage ∷ []; next_id = 1 }

stored-AllSound : AllSound stored
stored-AllSound = (record { separate = tt; ends = tt }, tt)

abbrev calls : List (Call ℤ)
calls =
    create
      (record {
        template_id = 7;
        name = "dip";
        description = none;
        steps = step 0 ∷ (step 20 ∷ []);
      })
      false
    ∷ (delete 0
        ∷ (update 1 (record { name = "dips"; description = none; steps = step 0 ∷ (step 1 ∷ []) })
            ∷ (import_from (record {
              name = "copy";
              description = none;
              template_name = "meter";
              steps = step 5 ∷ [];
            })
                ∷ [])))

calls-Asked : All Asked calls
unfolding Asked
calls-Asked = (
  (omega arith, (omega arith, tt)),
  (tt, ((omega arith, (omega arith, tt)), ((omega arith, tt), tt))),
)

perform_all-AllSound_example : AllSound (perform_all stored calls)
perform_all-AllSound_example = perform_all-AllSound stored calls calls-Asked stored-AllSound

outage-IsBuiltin : IsBuiltin 0 outage stored
unfolding find has_id
outage-IsBuiltin = record { found = refl; builtin = refl }

perform_all-IsBuiltin_example : IsBuiltin 0 outage (perform_all stored calls)
perform_all-IsBuiltin_example = perform_all-IsBuiltin stored calls 0 outage outage-IsBuiltin
