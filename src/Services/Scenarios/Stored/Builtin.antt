-- ===== src/Services/Scenarios/Stored/Builtin.antt =====
-- A built-in scenario stays as it is.
use ghost_meter.Prelude.{
  ℕ, ◌≡◌, refl, sym, ap, ◌∙◌, Bool, true, false, Option, none, some, List, [], ◌∷◌, arith, ◌==◌,
  ==_iff, nat_eq, Bool-cases, inl, inr,
}
use ghost_meter.Errors.{Result, ok, err, conflict, raise_if, raise_if-eq-ok, >>=-eq-ok}
use ghost_meter.Table.{find, find-write, find-remove, find-append}
use ghost_meter.Services.Templates.{get_template}
use ghost_meter.Services.Scenarios.{validate_steps}
use ghost_meter.Services.Scenarios.Stored.{
  Scenario, Database, ScenarioCreate, ScenarioUpdate, has_id, scenario_found, get_scenario_or_404,
  infos, register_names, flush_name, create_scenario, change, update_scenario, delete_scenario,
  find_template, import_scenario, Call, create, update, delete, import_from, perform, committed,
  perform_all,
}

module _ {R : Type 0} where
  -- The scenario of one id is found, and is built-in.
  pub record IsBuiltin (scenario_id : ℕ) (scenario : Scenario R) (db : Database R) : Type 0 where
    pub found : find (has_id scenario_id) db.scenarios ≡ some scenario
    pub builtin : scenario.is_builtin ≡ true

  abbrev scenario_or : Scenario R → Option (Scenario R) → Scenario R
  scenario_or s none = s
  scenario_or s (some t) = t

  scenario_found-eq-ok :
      (o : Option (Scenario R)) (s : Scenario R) → scenario_found o ≡ ok s → o ≡ some s
  unfolding scenario_found
  scenario_found-eq-ok none s e = cc
  scenario_found-eq-ok (some t) s e = cc

  get_scenario-eq-ok :
      (rows : List (Scenario R)) (j : ℕ) (s : Scenario R)
      → get_scenario_or_404 rows j ≡ ok s
      → find (has_id j) rows ≡ some s
  unfolding get_scenario_or_404
  get_scenario-eq-ok rows j s e = scenario_found-eq-ok (find (has_id j) rows) s e

  -- A scenario that a call may change is another one.
  has_id-other :
      (i j : ℕ) (s t : Scenario R) (db : Database R)
      → IsBuiltin i s db
      → find (has_id j) db.scenarios ≡ some t
      → t.is_builtin ≡ false
      → (a : Scenario R) → has_id j a ≡ true
      → has_id i a ≡ false
  has_id-other i j s t db h found plain a hit = elim (Bool-cases (i == j)) [
    | inl same ↦
        let e : find (has_id i) db.scenarios ≡ some t = rw ((==_iff i j).0 same) found in
        let one : s ≡ t = ap (scenario_or s) (sym h.found ∙ e) in
        let both : true ≡ false = sym h.builtin ∙ (ap (λ x. x.is_builtin) one ∙ plain) in cc
    | inr apart ↦ unfold has_id in ground (arith, ==_iff a.id i, ==_iff a.id j, ==_iff i j)
  ]

  create_scenario-IsBuiltin :
      (db : Database R) (request : ScenarioCreate R) (is_builtin : Bool) (i : ℕ) (s : Scenario R)
      (after : Database R)
      → create_scenario db request is_builtin ≡ ok after
      → IsBuiltin i s db
      → IsBuiltin i s after
  unfolding create_scenario
  create_scenario-IsBuiltin db request is_builtin i s after e h =
      let (template, _, e1) = >>=-eq-ok (get_template db.templates request.template_id) _ e in
      let (u, _, e2) =
        >>=-eq-ok (validate_steps (infos request.steps) (register_names template)) _ e1 in
      let (_, _, e3) =
        >>=-eq-ok (flush_name db.scenarios request.template_id request.name none) _ e2 in
      record {
        found =
            ap (λ r. find (has_id i) (committed db r).scenarios) (sym e3)
            ∙ find-append (has_id i) db.scenarios _ s h.found;
        builtin = h.builtin;
      }

  update_scenario-IsBuiltin :
      (db : Database R) (j : ℕ) (request : ScenarioUpdate R) (i : ℕ) (s : Scenario R)
      (after : Database R)
      → update_scenario db j request ≡ ok after
      → IsBuiltin i s db
      → IsBuiltin i s after
  unfolding update_scenario change has_id
  update_scenario-IsBuiltin db j request i s after e h =
      let (t, got, e1) = >>=-eq-ok (get_scenario_or_404 db.scenarios j) _ e in
      let (v, plain, e2) = >>=-eq-ok (raise_if t.is_builtin (conflict "BUILTIN_PROTECTED")) _ e1 in
      let (template, _, e3) = >>=-eq-ok (get_template db.templates t.template_id) _ e2 in
      let (u, _, e4) =
        >>=-eq-ok (validate_steps (infos request.steps) (register_names template)) _ e3 in
      let (_, _, e5) =
        >>=-eq-ok (flush_name db.scenarios t.template_id request.name (some j)) _ e4 in
      let apart =
        has_id-other i j s t db h (get_scenario-eq-ok db.scenarios j t got)
          (raise_if-eq-ok _ _ v plain) in
      record {
        found =
            ap (λ r. find (has_id i) (committed db r).scenarios) (sym e5)
            ∙ (find-write (has_id i) (has_id j) (change request) db.scenarios (λ _. refl) apart
                ∙ h.found);
        builtin = h.builtin;
      }

  delete_scenario-IsBuiltin :
      (db : Database R) (j i : ℕ) (s : Scenario R) (after : Database R)
      → delete_scenario db j ≡ ok after
      → IsBuiltin i s db
      → IsBuiltin i s after
  unfolding delete_scenario
  delete_scenario-IsBuiltin db j i s after e h =
      let (t, got, e1) = >>=-eq-ok (get_scenario_or_404 db.scenarios j) _ e in
      let (v, plain, e2) = >>=-eq-ok (raise_if t.is_builtin (conflict "BUILTIN_PROTECTED")) _ e1 in
      let apart =
        has_id-other i j s t db h (get_scenario-eq-ok db.scenarios j t got)
          (raise_if-eq-ok _ _ v plain) in
      record {
        found =
            ap (λ r. find (has_id i) (committed db r).scenarios) (sym e2)
            ∙ (find-remove (has_id i) (has_id j) db.scenarios apart ∙ h.found);
        builtin = h.builtin;
      }

  perform-IsBuiltin :
      (db : Database R) (call : Call R) (i : ℕ) (s : Scenario R) (after : Database R)
      → perform db call ≡ ok after
      → IsBuiltin i s db
      → IsBuiltin i s after
  unfolding perform import_scenario
  perform-IsBuiltin db (create request is_builtin) i s after e h =
      create_scenario-IsBuiltin db request is_builtin i s after e h
  perform-IsBuiltin db (update j request) i s after e h =
      update_scenario-IsBuiltin db j request i s after e h
  perform-IsBuiltin db (delete j) i s after e h = delete_scenario-IsBuiltin db j i s after e h
  perform-IsBuiltin db (import_from request) i s after e h =
      let (template_id, _, e1) = >>=-eq-ok (find_template db.templates request.template_name) _ e in
      create_scenario-IsBuiltin db _ false i s after e1 h

  committed-IsBuiltin :
      (db : Database R) (i : ℕ) (s : Scenario R) (r : Result (Database R))
      → ((after : Database R) → r ≡ ok after → IsBuiltin i s after)
      → IsBuiltin i s db
      → IsBuiltin i s (committed db r)
  committed-IsBuiltin db i s (ok after) done h = done after refl
  committed-IsBuiltin db i s (err e) done h = h

  -- A built-in scenario is found unchanged, all its steps included, after any calls.
  pub perform_all-IsBuiltin :
      (db : Database R) (calls : List (Call R)) (i : ℕ) (s : Scenario R)
      → IsBuiltin i s db
      → IsBuiltin i s (perform_all db calls)
  unfolding perform_all
  perform_all-IsBuiltin db [] i s h = h
  perform_all-IsBuiltin db (call ∷ calls) i s h =
      perform_all-IsBuiltin (committed db (perform db call)) calls i s (
        committed-IsBuiltin db i s (perform db call)
          (λ after e. perform-IsBuiltin db call i s after e h) h)
