-- ===== src/Services/Scenarios/Steps.antt =====
-- What the checks on a scenario's steps promise to the runner.
use ghost_meter.Prelude.{
  ℕ, ◌+◌, ◌≤◌, ◌<◌, ◌≡◌, ◌↔◌, refl, String, true, not, ◌||◌, List, [], ◌∷◌, arith, All, max, leb,
  leb→le, contains, ◌==◌, ==_iff, nat_eq, string_eq, Bool-cases, inl, inr, ◌⊎◌,
}
use ghost_meter.Errors.{ok}
use ghost_meter.Intervals.{no_overlap}
use ghost_meter.Intervals.Sorted.{Wide}
use ghost_meter.Intervals.Groups.{apart_in_keys, all_apart_in_key, no_overlap-apart_in_keys}
use ghost_meter.Services.ScenarioRunner.{StepInfo}
use ghost_meter.Services.ScenarioRunner.Lifecycle.{EndsBy}
use ghost_meter.Services.Scenarios.{
  known, end_of, runs_into, validate_steps, max_end, compute_total_duration,
}

module _ {R : Type 0} where
  -- Every step lasts, as the request schema demands.
  abbrev pub Lasting : List (StepInfo R) → Type 0
  Lasting = All (λ step. 0 < step.duration_seconds)

  -- The time of one step is over before the other's begins, if they share a register.
  abbrev pub Separate : StepInfo R → StepInfo R → Type 0
  Separate a b =
      a.register_name ≡ b.register_name
      → (a.trigger_at_seconds + a.duration_seconds ≤ b.trigger_at_seconds)
        ⊎ (b.trigger_at_seconds + b.duration_seconds ≤ a.trigger_at_seconds)

  abbrev pub PairwiseSeparate : List (StepInfo R) → Type 0
  PairwiseSeparate [] = Unit
  PairwiseSeparate (step ∷ steps) = All (Separate step) steps × PairwiseSeparate steps

  abbrev start_of : StepInfo R → ℕ
  start_of step = step.trigger_at_seconds

  Lasting-Wide : (steps : List (StepInfo R)) → Lasting steps → Wide start_of end_of steps
  unfolding end_of
  Lasting-Wide [] h = tt
  Lasting-Wide (step ∷ steps) (first, h) = (omega arith, Lasting-Wide steps h)

  gap→Separate :
      (a b : StepInfo R)
      → (not (a.register_name == b.register_name)
          || (leb (end_of a) (start_of b) || leb (end_of b) (start_of a)))
        ≡ true
      → Separate a b
  unfolding end_of
  gap→Separate a b h same =
      elim (Bool-cases (leb (a.trigger_at_seconds + a.duration_seconds) b.trigger_at_seconds)) [
        | inl le ↦ inl (leb→le _ _ le)
        | inr gt ↦ inr (ground (arith, ==_iff a.register_name b.register_name))
      ]

  Separate→gap :
      (a b : StepInfo R)
      → Separate a b
      → (not (a.register_name == b.register_name)
          || (leb (end_of a) (start_of b) || leb (end_of b) (start_of a)))
        ≡ true
  unfolding end_of
  Separate→gap a b h = elim (Bool-cases (a.register_name == b.register_name)) [
    | inl same ↦ ground (arith, h ((==_iff a.register_name b.register_name).0 same))
    | inr other ↦ rw other
  ]

  apart→separate :
      (a : StepInfo R) (bs : List (StepInfo R))
      → all_apart_in_key (λ s. s.register_name) start_of end_of a bs ≡ true
      → All (Separate a) bs
  unfolding all_apart_in_key
  apart→separate a [] h = tt
  apart→separate a (b ∷ bs) h =
      (gap→Separate a b (ground arith), apart→separate a bs (ground arith))

  separate→apart :
      (a : StepInfo R) (bs : List (StepInfo R))
      → All (Separate a) bs
      → all_apart_in_key (λ s. s.register_name) start_of end_of a bs ≡ true
  unfolding all_apart_in_key
  separate→apart a [] h = refl
  separate→apart a (b ∷ bs) (first, h) = rw (Separate→gap a b first) (separate→apart a bs h)

  apart_iff :
      (steps : List (StepInfo R))
      → (apart_in_keys (λ s. s.register_name) start_of end_of steps ≡ true) ↔ PairwiseSeparate steps
  unfolding apart_in_keys
  apart_iff [] = (λ h. tt, λ h. refl)
  apart_iff (step ∷ steps) = (
    λ h. (apart→separate step steps (ground arith), (apart_iff steps).0 (ground arith)),
    λ (first, h). rw (separate→apart step steps first) ((apart_iff steps).1 h),
  )

  known_iff :
      (names : List String) (steps : List (StepInfo R))
      → (known names steps ≡ true) ↔ All (λ step. contains step.register_name names ≡ true) steps
  unfolding known
  known_iff names [] = (λ h. tt, λ h. refl)
  known_iff names (step ∷ steps) = (
    λ h. (ground arith, (known_iff names steps).0 (ground arith)),
    λ (first, h). rw first ((known_iff names steps).1 h),
  )

  no_overlap-apart :
      (steps : List (StepInfo R))
      → Lasting steps
      → no_overlap (λ s. s.register_name) start_of runs_into steps
        ≡ apart_in_keys (λ s. s.register_name) start_of end_of steps
  no_overlap-apart steps lasting =
      no_overlap-apart_in_keys (λ (s : StepInfo R). s.register_name) start_of end_of runs_into
        (λ x y. unfold runs_into in refl) steps (Lasting-Wide steps lasting)

  -- Lasting steps are accepted exactly when every step names a register of the template and no
  -- two steps on one register overlap; steps that follow each other at once are accepted.
  pub validate_steps_iff :
      (steps : List (StepInfo R)) (names : List String)
      → Lasting steps
      → (validate_steps steps names ≡ ok tt)
        ↔ (All (λ step. contains step.register_name names ≡ true) steps × PairwiseSeparate steps)
  unfolding validate_steps
  validate_steps_iff steps names lasting =
      let e = no_overlap-apart steps lasting in
      (
        λ passed.
            ((known_iff names steps).0 (ground arith), (apart_iff steps).0 (ground (arith, e))),
        λ (names_known, separate).
            rw ((known_iff names steps).1 names_known) (rw e (rw ((apart_iff steps).1 separate))),
      )

  max_end-le :
      (best : ℕ) (steps : List (StepInfo R))
      → (best ≤ max_end best steps) × EndsBy (max_end best steps) steps
  unfolding max_end end_of
  max_end-le best [] = (omega arith, tt)
  max_end-le best (step ∷ steps) =
      let (above, h) =
        max_end-le (max best (step.trigger_at_seconds + step.duration_seconds)) steps in
      (omega arith, (omega arith, h))

  -- Every step of a scenario ends by the duration that is computed for it.
  pub compute_total_duration-EndsBy :
      (steps : List (StepInfo R)) → EndsBy (compute_total_duration steps) steps
  unfolding compute_total_duration end_of
  compute_total_duration-EndsBy [] = tt
  compute_total_duration-EndsBy (step ∷ steps) =
      let (above, h) = max_end-le (end_of step) steps in (above, h)
