-- ===== src/Services/Scenarios.antt =====
-- backend/app/services/scenario_service.py: the checks on a scenario's steps and the duration
-- that is computed for it.
pub mod Steps
pub mod Stored
use ghost_meter.Prelude.{
  ℕ, ◌+◌, max, String, Bool, true, false, not, ◌&&◌, Option, none, some, List, [], ◌∷◌, map, ltb,
  contains, ◌==◌, nat_eq, string_eq, if◌then◌else◌,
}
use ghost_meter.Errors.{Result, ok, err, validation, raise_if, ◌>>=◌, ◌>>◌}
use ghost_meter.Intervals.{no_overlap}
use ghost_meter.Services.ScenarioRunner.{StepInfo}

module _ {R : Type 0} where
  known : List String → List (StepInfo R) → Bool
  known names [] = true
  known names (step ∷ steps) = contains step.register_name names && known names steps

  end_of : StepInfo R → ℕ
  end_of step = step.trigger_at_seconds + step.duration_seconds

  -- `end_a > start_b`
  runs_into : StepInfo R → StepInfo R → Bool
  unfolding end_of
  runs_into a b = ltb b.trigger_at_seconds (end_of a)

  -- `_validate_steps`
  unfoldable pub validate_steps : List (StepInfo R) → List String → Result (Unit {0})
  unfolding known runs_into
  validate_steps steps register_names = do
    raise_if (not (known register_names steps)) validation
    raise_if (not (no_overlap (λ s. s.register_name) (λ s. s.trigger_at_seconds) runs_into steps))
        validation

  max_end : ℕ → List (StepInfo R) → ℕ
  unfolding end_of
  max_end best [] = best
  max_end best (step ∷ steps) = max_end (max best (end_of step)) steps

  -- `_compute_total_duration`
  unfoldable pub compute_total_duration : List (StepInfo R) → ℕ
  unfolding max_end
  compute_total_duration [] = 0
  compute_total_duration (step ∷ steps) = max_end (end_of step) steps
