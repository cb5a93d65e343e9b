-- ===== src/Services/ScenarioRunner/Timeline.antt =====
-- Which registers a round of the timeline leaves disturbed: those on which some step has started
-- and no step has ended.
use ghost_meter.Prelude.{
  ℕ, ◌+◌, ◌≡◌, refl, String, Bool, false, not, ◌&&◌, ◌||◌, List, [], ◌∷◌, ◌++◌, map, arith, leb,
  ◌==◌, ==_iff, contains, nat_eq, string_eq,
}
use ghost_meter.Dict.{has}
use ghost_meter.Simulation.AnomalyInjector.{get_active}
use ghost_meter.Simulation.AnomalyInjector.Active.{has-inject, has-remove}
use ghost_meter.Services.ScenarioRunner.{
  StepInfo, Slot, Effects, add, discard, fire, activate, lift, deactivate,
}

contains-append :
    (x : String) (xs : List String) (y : String)
    → contains x (xs ++ y ∷ []) ≡ (contains x xs || x == y)
contains-append x [] y = ground arith
contains-append x (z ∷ xs) y = ground (arith, contains-append x xs y)

contains-add : (xs : List String) (x y : String) → contains x (add xs y) ≡ (x == y || contains x xs)
unfolding add
contains-add xs x y = ground (arith, contains-append x xs y, ==_iff x y)

contains-discard :
    (xs : List String) (x y : String) → contains x (discard xs y) ≡ (not (x == y) && contains x xs)
unfolding discard
contains-discard [] x y = ground arith
contains-discard (z ∷ xs) x y =
    ground (arith, contains-discard xs x y, ==_iff x y, ==_iff y z, ==_iff x z)

module _ {R : Type 0} where
  -- Some step on the register has started, or has ended, by `elapsed`.
  unfoldable pub started : ℕ → String → List (StepInfo R) → Bool
  started elapsed reg [] = false
  started elapsed reg (step ∷ steps) =
      (reg == step.register_name && leb step.trigger_at_seconds elapsed)
      || started elapsed reg steps

  unfoldable pub ended : ℕ → String → List (StepInfo R) → Bool
  ended elapsed reg [] = false
  ended elapsed reg (step ∷ steps) =
      (reg == step.register_name && leb (step.trigger_at_seconds + step.duration_seconds) elapsed)
      || ended elapsed reg steps

  abbrev pub steps_of : List (Slot R) → List (StepInfo R)
  steps_of = map (λ slot. slot.step)

  -- Some step on the register is marked, or is about to be.
  unfoldable pub due : ℕ → String → List (Slot R) → Bool
  due elapsed reg [] = false
  due elapsed reg (slot ∷ slots) =
      (reg == slot.register_name && not slot.triggered && leb slot.trigger_at_seconds elapsed)
      || due elapsed reg slots

module _ {R : Type 0} (elapsed : ℕ) (reg : String) where
  -- Some marked step on the register has ended.
  unfoldable pub over : List (Slot R) → Bool
  over [] = false
  over (slot ∷ slots) =
      (reg == slot.register_name
        && slot.triggered
        && leb (slot.trigger_at_seconds + slot.duration_seconds) elapsed)
      || over slots

module _ {R : Type 0} (device_id elapsed : ℕ) (reg : String) where
  fire-contains :
      (slot : Slot R) (fx : Effects R)
      → contains reg (fire device_id elapsed slot fx).active ≡ (
          (reg == slot.register_name && not slot.triggered && leb slot.trigger_at_seconds elapsed)
          || contains reg fx.active)
  unfolding fire
  fire-contains slot fx = ground (arith, contains-add fx.active reg slot.register_name)

  pub activate-contains :
      (slots : List (Slot R)) (fx : Effects R)
      → contains reg (activate device_id elapsed slots fx).active
        ≡ (due elapsed reg slots || contains reg fx.active)
  unfolding activate due
  activate-contains [] fx = refl
  activate-contains (slot ∷ slots) fx =
      ground
        (arith, activate-contains slots (fire device_id elapsed slot fx), fire-contains slot fx)

  lift-contains :
      (slot : Slot R) (fx : Effects R)
      → contains reg (lift device_id elapsed slot fx).active ≡ (
          contains reg fx.active
          && not (
              reg == slot.register_name
              && slot.triggered
              && leb (slot.trigger_at_seconds + slot.duration_seconds) elapsed))
  unfolding lift
  lift-contains slot fx =
      ground
        (arith, contains-discard fx.active reg slot.register_name, ==_iff reg slot.register_name)

  pub deactivate-contains :
      (slots : List (Slot R)) (fx : Effects R)
      → contains reg (deactivate device_id elapsed slots fx).active
        ≡ (contains reg fx.active && not (over elapsed reg slots))
  unfolding deactivate over
  deactivate-contains [] fx = ground arith
  deactivate-contains (slot ∷ slots) fx =
      ground
        (arith, deactivate-contains slots (lift device_id elapsed slot fx), lift-contains slot fx)

-- The injector's real-time anomalies of the device are those of the scenario.
unfoldable pub Same : {R : Type 0} → ℕ → Effects R → Type 0
Same d fx = (reg : String) → has (get_active fx.injector d) reg ≡ contains reg fx.active

module _ {R : Type 0} (device_id elapsed : ℕ) where
  fire-Same :
      (slot : Slot R) (fx : Effects R)
      → Same device_id fx
      → Same device_id (fire device_id elapsed slot fx)
  unfolding fire Same
  fire-Same slot fx h reg = ground (
    arith,
    has-inject fx.injector device_id slot.register_name slot.anomaly_type reg slot.anomaly_params,
    contains-add fx.active reg slot.register_name,
    h reg,
  )

  lift-Same :
      (slot : Slot R) (fx : Effects R)
      → Same device_id fx
      → Same device_id (lift device_id elapsed slot fx)
  unfolding lift Same
  lift-Same slot fx h reg = ground (
    arith,
    has-remove fx.injector device_id slot.register_name reg,
    contains-discard fx.active reg slot.register_name,
    h reg,
  )

  pub activate-Same :
      (slots : List (Slot R)) (fx : Effects R)
      → Same device_id fx
      → Same device_id (activate device_id elapsed slots fx)
  unfolding activate
  activate-Same [] fx h = h
  activate-Same (slot ∷ slots) fx h = activate-Same slots _ (fire-Same slot fx h)

  pub deactivate-Same :
      (slots : List (Slot R)) (fx : Effects R)
      → Same device_id fx
      → Same device_id (deactivate device_id elapsed slots fx)
  unfolding deactivate
  deactivate-Same [] fx h = h
  deactivate-Same (slot ∷ slots) fx h = deactivate-Same slots _ (lift-Same slot fx h)
