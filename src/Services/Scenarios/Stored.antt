-- ===== src/Services/Scenarios/Stored.antt =====
-- The scenarios in the database: create, update, delete, export and import. ORDER BY leaves the
-- order of steps with one sort_order open, so that it is an argument.
pub mod Sound
pub mod Builtin
use ghost_meter.Prelude.{
  ℕ, ◌+◌, String, Bool, true, false, not, ◌&&◌, Option, none, some, List, [], ◌∷◌, ◌++◌, map, ltb,
  ◌==◌, nat_eq, string_eq,
}
use ghost_meter.Prelude.Int.{ℤ}
use ghost_meter.Dict.{Dict}
use ghost_meter.Errors.{
  Result, ok, err, runtime_error, integrity_error, not_found, conflict, raise_if, ◌>>=◌, ◌>>◌,
}
use ghost_meter.Table.{find, write, remove, count}
use ghost_meter.Services.ScenarioRunner.{StepInfo}
use ghost_meter.Services.Templates.{TemplateData, get_template}
use ghost_meter.Services.Scenarios.{validate_steps, compute_total_duration}

pub record ScenarioStep (R : Type 0) : Type 0 where
  pub info : StepInfo R
  pub sort_order : ℤ

pub record Scenario (R : Type 0) : Type 0 where
  pub id : ℕ
  pub template_id : ℕ
  pub name : String
  pub description : Option String
  pub is_builtin : Bool
  pub total_duration_seconds : ℕ
  pub steps : List (ScenarioStep R)

pub record Database (R : Type 0) : Type 0 where
  pub templates : Dict ℕ (TemplateData R)
  pub scenarios : List (Scenario R)
  pub next_id : ℕ

pub record ScenarioCreate (R : Type 0) : Type 0 where
  pub template_id : ℕ
  pub name : String
  pub description : Option String
  pub steps : List (ScenarioStep R)

pub record ScenarioUpdate (R : Type 0) : Type 0 where
  pub name : String
  pub description : Option String
  pub steps : List (ScenarioStep R)

pub record ScenarioExport (R : Type 0) : Type 0 where
  pub name : String
  pub description : Option String
  pub template_name : String
  pub steps : List (ScenarioStep R)

module _ {R : Type 0} where
  unfoldable pub has_id : ℕ → Scenario R → Bool
  has_id scenario_id scenario = scenario.id == scenario_id

  scenario_found : Option (Scenario R) → Result (Scenario R)
  scenario_found none = err (not_found "SCENARIO_NOT_FOUND")
  scenario_found (some scenario) = ok scenario

  -- `_get_scenario_or_404`
  unfoldable pub get_scenario_or_404 : List (Scenario R) → ℕ → Result (Scenario R)
  unfolding scenario_found has_id
  get_scenario_or_404 scenarios scenario_id = scenario_found (find (has_id scenario_id) scenarios)

  abbrev pub infos : List (ScenarioStep R) → List (StepInfo R)
  infos steps = map (λ step. step.info) steps

  -- Another row than that of `exclude` with a name of the template, which
  -- uq_scenario_template_name forbids.
  clashes : ℕ → String → Option ℕ → Scenario R → Bool
  clashes template_id name none scenario =
      scenario.template_id == template_id && scenario.name == name
  clashes template_id name (some scenario_id) scenario =
      scenario.template_id == template_id
      && scenario.name == name
      && not (scenario.id == scenario_id)

  -- The flush of a row, whose IntegrityError is not caught.
  pub flush_name : List (Scenario R) → ℕ → String → Option ℕ → Result (Unit {0})
  unfolding clashes
  flush_name scenarios template_id name exclude =
      raise_if (ltb 0 (count (clashes template_id name exclude) scenarios)) integrity_error

  abbrev register_names : TemplateData R → List String
  register_names template = map (λ reg. reg.name) template.registers

  unfoldable pub create_scenario : Database R → ScenarioCreate R → Bool → Result (Database R)
  create_scenario db request is_builtin = do
    template ← get_template db.templates request.template_id
    validate_steps (infos request.steps) (register_names template)
    flush_name db.scenarios request.template_id request.name none
    ok (record db {
      scenarios =
          db.scenarios
          ++ record {
            id = db.next_id;
            template_id = request.template_id;
            name = request.name;
            description = request.description;
            is_builtin = is_builtin;
            total_duration_seconds = compute_total_duration (infos request.steps);
            steps = request.steps;
          }
            ∷ [];
      next_id = db.next_id + 1;
    })

  -- Every step is replaced.
  change : ScenarioUpdate R → Scenario R → Scenario R
  change request scenario = record scenario {
    name = request.name;
    description = request.description;
    total_duration_seconds = compute_total_duration (infos request.steps);
    steps = request.steps;
  }

  unfoldable pub update_scenario : Database R → ℕ → ScenarioUpdate R → Result (Database R)
  unfolding change
  update_scenario db scenario_id request = do
    scenario ← get_scenario_or_404 db.scenarios scenario_id
    raise_if scenario.is_builtin (conflict "BUILTIN_PROTECTED")
    template ← get_template db.templates scenario.template_id
    validate_steps (infos request.steps) (register_names template)
    flush_name db.scenarios scenario.template_id request.name (some scenario_id)
    ok (record db { scenarios = write (has_id scenario_id) (change request) db.scenarios })

  unfoldable pub delete_scenario : Database R → ℕ → Result (Database R)
  delete_scenario db scenario_id = do
    scenario ← get_scenario_or_404 db.scenarios scenario_id
    raise_if scenario.is_builtin (conflict "BUILTIN_PROTECTED")
    ok (record db { scenarios = remove (has_id scenario_id) db.scenarios })

  -- `by_sort_order` is the order in which the database gives the steps.
  unfoldable pub export_scenario :
      (List (ScenarioStep R) → List (ScenarioStep R)) → Database R → ℕ → Result (ScenarioExport R)
  export_scenario by_sort_order db scenario_id = do
    scenario ← get_scenario_or_404 db.scenarios scenario_id
    template ← get_template db.templates scenario.template_id
    ok (record {
      name = scenario.name;
      description = scenario.description;
      template_name = template.name;
      steps = by_sort_order scenario.steps;
    })

  named : String → ℕ × TemplateData R → Bool
  named name row = row.1.name == name

  id_found : Option (ℕ × TemplateData R) → Result ℕ
  id_found none = err (not_found "TEMPLATE_NOT_FOUND")
  id_found (some (template_id, template)) = ok template_id

  -- The query by name; `scalar_one_or_none` raises where two rows are found.
  find_template : Dict ℕ (TemplateData R) → String → Result ℕ
  unfolding named id_found
  find_template templates name = do
    raise_if (ltb 1 (count (named name) templates)) runtime_error
    id_found (find (named name) templates)

  unfoldable pub import_scenario : Database R → ScenarioExport R → Result (Database R)
  unfolding find_template
  import_scenario db request = do
    template_id ← find_template db.templates request.template_name
    create_scenario db
        (record {
          template_id = template_id;
          name = request.name;
          description = request.description;
          steps = request.steps;
        })
        false

-- The calls that the routes make, and the seed, which creates built-in scenarios.
pub data Call (R : Type 0) : Type 0 where
  create : ScenarioCreate R → Bool → Call R
  update : ℕ → ScenarioUpdate R → Call R
  delete : ℕ → Call R
  import_from : ScenarioExport R → Call R

module _ {R : Type 0} where
  unfoldable pub perform : Database R → Call R → Result (Database R)
  perform db (create request is_builtin) = create_scenario db request is_builtin
  perform db (update scenario_id request) = update_scenario db scenario_id request
  perform db (delete scenario_id) = delete_scenario db scenario_id
  perform db (import_from request) = import_scenario db request

  -- A call that raises is rolled back.
  abbrev pub committed : Database R → Result (Database R) → Database R
  committed db (ok after) = after
  committed db (err e) = db

  unfoldable pub perform_all : Database R → List (Call R) → Database R
  unfolding perform
  perform_all db [] = db
  perform_all db (call ∷ calls) = perform_all (committed db (perform db call)) calls
