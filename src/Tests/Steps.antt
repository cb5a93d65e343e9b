-- ===== src/Tests/Steps.antt =====
-- The checks on the steps of a scenario.
use ghost_meter.Prelude.{◌≡◌, ◌↔◌, refl, true, [], ◌∷◌, arith, All, contains, string_eq}
use ghost_meter.Errors.{ok, err, validation}
use ghost_meter.Dict.{put, get_or}
use ghost_meter.Intervals.{no_overlap}
use ghost_meter.Services.Scenarios.{validate_steps, compute_total_duration}
use ghost_meter.Services.Scenarios.Steps.{
  PairwiseSeparate, validate_steps_iff, compute_total_duration-EndsBy,
}
use ghost_meter.Services.ScenarioRunner.Lifecycle.{EndsBy}
use ghost_meter.Tests.Scenarios.{two_steps, step_at}

validate_steps_iff_example : (validate_steps two_steps ("voltage" ∷ []) ≡ ok tt) ↔ (
    All (λ step. contains step.register_name ("voltage" ∷ []) ≡ true) two_steps
    × PairwiseSeparate two_steps)
validate_steps_iff_example =
    validate_steps_iff two_steps ("voltage" ∷ []) (omega arith, (omega arith, tt))

two_steps_pass : validate_steps two_steps ("voltage" ∷ []) ≡ ok tt
unfolding validate_steps no_overlap put get_or
two_steps_pass = refl

overlapping_steps_fail : validate_steps (step_at 5 ∷ two_steps) ("voltage" ∷ []) ≡ err validation
unfolding validate_steps no_overlap put get_or
overlapping_steps_fail = refl

compute_total_duration-EndsBy_example : EndsBy (compute_total_duration two_steps) two_steps
compute_total_duration-EndsBy_example = compute_total_duration-EndsBy two_steps
