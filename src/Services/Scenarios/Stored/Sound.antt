-- ===== src/Services/Scenarios/Stored/Sound.antt =====
-- Stored scenarios can be run: their steps are apart, and all end by the stored duration.
use mathlib.Core.Path.{subst}
use ghost_meter.Prelude.{
  ℕ, ◌≡◌, refl, ap, String, Bool, false, none, some, List, [], ◌∷◌, All, All-append, nat_eq,
}
use ghost_meter.Errors.{Result, ok, err, conflict, raise_if, >>=-eq-ok}
use ghost_meter.Table.{All-write, All-remove}
use ghost_meter.Services.ScenarioRunner.{StepInfo}
use ghost_meter.Services.ScenarioRunner.Lifecycle.{EndsBy}
use ghost_meter.Services.Templates.{get_template}
use ghost_meter.Services.Scenarios.{validate_steps}
use ghost_meter.Services.Scenarios.Steps.{
  Lasting, PairwiseSeparate, validate_steps_iff, compute_total_duration-EndsBy,
}
use ghost_meter.Services.Scenarios.Stored.{
  Scenario, Database, ScenarioCreate, ScenarioUpdate, ScenarioExport, has_id, get_scenario_or_404,
  infos, register_names, flush_name, create_scenario, change, update_scenario, delete_scenario,
  find_template, import_scenario, Call, create, update, delete, import_from, perform, committed,
  perform_all,
}

module _ {R : Type 0} where
  pub record IsSound (scenario : Scenario R) : Type 0 where
    pub separate : PairwiseSeparate (infos scenario.steps)
    pub ends : EndsBy scenario.total_duration_seconds (infos scenario.steps)

  -- The schema of a request: its steps last.
  unfoldable pub Asked : Call R → Type 0
  Asked (create request is_builtin) = Lasting (infos request.steps)
  Asked (update scenario_id request) = Lasting (infos request.steps)
  Asked (delete scenario_id) = Unit
  Asked (import_from request) = Lasting (infos request.steps)

  abbrev pub AllSound : Database R → Type 0
  AllSound db = All IsSound db.scenarios

  validate_steps-separate :
      (steps : List (StepInfo R)) (names : List String) (u : Unit {0})
      → Lasting steps
      → validate_steps steps names ≡ ok u
      → PairwiseSeparate steps
  validate_steps-separate steps names tt lasting e =
      ((validate_steps_iff steps names lasting).0 e).1

  create_scenario-AllSound :
      (db : Database R) (request : ScenarioCreate R) (is_builtin : Bool) (after : Database R)
      → create_scenario db request is_builtin ≡ ok after
      → Lasting (infos request.steps)
      → AllSound db
      → AllSound after
  unfolding create_scenario
  create_scenario-AllSound db request is_builtin after e lasting h =
      let (template, _, e1) = >>=-eq-ok (get_template db.templates request.template_id) _ e in
      let (u, valid, e2) =
        >>=-eq-ok (validate_steps (infos request.steps) (register_names template)) _ e1 in
      let (_, _, e3) =
        >>=-eq-ok (flush_name db.scenarios request.template_id request.name none) _ e2 in
      subst AllSound (ap (committed db) e3) (
        All-append IsSound db.scenarios _ h (
          record {
            separate =
                validate_steps-separate (infos request.steps) (register_names template) u lasting
                  valid;
            ends = compute_total_duration-EndsBy (infos request.steps);
          },
          tt,
        ))

  update_scenario-AllSound :
      (db : Database R) (scenario_id : ℕ) (request : ScenarioUpdate R) (after : Database R)
      → update_scenario db scenario_id request ≡ ok after
      → Lasting (infos request.steps)
      → AllSound db
      → AllSound after
  unfolding update_scenario change
  update_scenario-AllSound db scenario_id request after e lasting h =
      let (scenario, _, e1) = >>=-eq-ok (get_scenario_or_404 db.scenarios scenario_id) _ e in
      let (_, _, e2) =
        >>=-eq-ok (raise_if scenario.is_builtin (conflict "BUILTIN_PROTECTED")) _ e1 in
      let (template, _, e3) = >>=-eq-ok (get_template db.templates scenario.template_id) _ e2 in
      let (u, valid, e4) =
        >>=-eq-ok (validate_steps (infos request.steps) (register_names template)) _ e3 in
      let (_, _, e5) =
        >>=-eq-ok (flush_name db.scenarios scenario.template_id request.name (some scenario_id)) _
          e4 in
      subst AllSound (ap (committed db) e5) (
        All-write IsSound (has_id scenario_id) (change request) db.scenarios
          (λ _. record {
            separate =
                validate_steps-separate (infos request.steps) (register_names template) u lasting
                  valid;
            ends = compute_total_duration-EndsBy (infos request.steps);
          })
          h)

  delete_scenario-AllSound :
      (db : Database R) (scenario_id : ℕ) (after : Database R)
      → delete_scenario db scenario_id ≡ ok after
      → AllSound db
      → AllSound after
  unfolding delete_scenario
  delete_scenario-AllSound db scenario_id after e h =
      let (scenario, _, e1) = >>=-eq-ok (get_scenario_or_404 db.scenarios scenario_id) _ e in
      let (_, _, e2) =
        >>=-eq-ok (raise_if scenario.is_builtin (conflict "BUILTIN_PROTECTED")) _ e1 in
      subst AllSound (ap (committed db) e2) (All-remove IsSound (has_id scenario_id) db.scenarios h)

  import_scenario-AllSound :
      (db : Database R) (request : ScenarioExport R) (after : Database R)
      → import_scenario db request ≡ ok after
      → Lasting (infos request.steps)
      → AllSound db
      → AllSound after
  unfolding import_scenario
  import_scenario-AllSound db request after e lasting h =
      let (template_id, _, e1) = >>=-eq-ok (find_template db.templates request.template_name) _ e in
      create_scenario-AllSound db _ false after e1 lasting h

  perform-AllSound :
      (db : Database R) (call : Call R) (after : Database R)
      → perform db call ≡ ok after
      → Asked call
      → AllSound db
      → AllSound after
  unfolding perform Asked
  perform-AllSound db (create request is_builtin) after e asked h =
      create_scenario-AllSound db request is_builtin after e asked h
  perform-AllSound db (update scenario_id request) after e asked h =
      update_scenario-AllSound db scenario_id request after e asked h
  perform-AllSound db (delete scenario_id) after e asked h =
      delete_scenario-AllSound db scenario_id after e h
  perform-AllSound db (import_from request) after e asked h =
      import_scenario-AllSound db request after e asked h

  committed-AllSound :
      (db : Database R) (r : Result (Database R))
      → ((after : Database R) → r ≡ ok after → AllSound after)
      → AllSound db
      → AllSound (committed db r)
  committed-AllSound db (ok after) done h = done after refl
  committed-AllSound db (err e) done h = h

  -- Where the steps of every stored scenario are pairwise apart on each register and end by its
  -- stored duration, that is so after any calls whose steps last, those that fail included.
  pub perform_all-AllSound :
      (db : Database R) (calls : List (Call R))
      → All Asked calls
      → AllSound db
      → AllSound (perform_all db calls)
  unfolding perform_all
  perform_all-AllSound db [] asked h = h
  perform_all-AllSound db (call ∷ calls) (first, rest) h =
      perform_all-AllSound (committed db (perform db call)) calls rest (
        committed-AllSound db (perform db call)
          (λ after e. perform-AllSound db call after e first h) h)
