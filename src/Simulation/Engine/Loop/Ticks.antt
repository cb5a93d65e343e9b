-- ===== src/Simulation/Engine/Loop/Ticks.antt =====
-- A tick's error count and its flag: whether some register of the round raises.
use ghost_meter.Prelude.{
  ℕ, ◌≡◌, refl, ap, ◌∙◌, Bool, true, false, not, ◌||◌, String, List, [], ◌∷◌, ◌++◌,
}
use ghost_meter.Errors.{Error, Result, ok, err}
use ghost_meter.Floats.{Floats}
use ghost_meter.Simulation.AnomalyInjector.{AnomalyInjector}
use ghost_meter.Simulation.Expressions.{Python}
use ghost_meter.Simulation.DataGenerator.{GeneratorContext, Draws, generate}
use ghost_meter.Services.Configurations.{SimulationConfigCreate}
use ghost_meter.Simulation.Engine.Loop.{
  RegisterMeta, Registers, Moment, Loop, store, written, disturb, simulate, noted, tick, attempt,
}

raises : Result (Unit {0}) → Bool
raises (ok _) = false
raises (err e) = true

or_assoc : (a b c : Bool) → (a || b) || c ≡ a || (b || c)
or_assoc true b c = refl
or_assoc false b c = refl

module _ {R : Type 0} ⦃F : Floats R⦄ (python : Python R) where
  -- No draw and no context gives the configuration a value.
  unfoldable pub Fails : SimulationConfigCreate R → Type 0
  Fails config =
      (draws : Draws R) (context : GeneratorContext R)
      → (e : Error) × (generate python draws config.data_mode config.mode_params context ≡ err e)

module _ {R W : Type 0} ⦃F : Floats R⦄ ⦃registers : Registers R W⦄ (python : Python R)
    (device_id : ℕ) where
  store-error_count :
      (s : Loop R W) (name : String) (reg : RegisterMeta R) (r : Result R × AnomalyInjector R)
      → (store python device_id s name reg r).0.error_count ≡ s.error_count
  unfolding store written
  store-error_count s name reg (err e, injector) = refl
  store-error_count s name reg (ok x, injector) = refl

  disturb-error_count :
      (s : Loop R W) (moment : Moment R) (name : String) (reg : RegisterMeta R) (r : Result R)
      → (disturb python device_id s moment name reg r).0.error_count ≡ s.error_count
  unfolding disturb
  disturb-error_count s moment name reg (err e) = refl
  disturb-error_count s moment name reg (ok x) = store-error_count s name reg _

  noted-error_count :
      (r : Loop R W × Result (Unit {0})) (b : Bool)
      → (noted python device_id r b).0.error_count ≡ r.0.error_count
  unfolding noted
  noted-error_count (s, ok _) b = refl
  noted-error_count (s, err e) b = refl

  tick-error_count :
      (s : Loop R W) (b : Bool) (moment : Moment R)
      (more : List (SimulationConfigCreate R × RegisterMeta R))
      → (tick python device_id (s, b) moment more).0.error_count ≡ s.error_count
  unfolding tick simulate
  tick-error_count s b moment [] = refl
  tick-error_count s b moment ((config, reg) ∷ more) =
      let r = simulate python device_id s moment (config, reg) in
      tick-error_count (noted python device_id r b).0 (noted python device_id r b).1 moment more
      ∙ (noted-error_count r b ∙ disturb-error_count s moment config.register_name reg _)

  noted-state : (r : Loop R W × Result (Unit {0})) (b : Bool) → (noted python device_id r b).0 ≡ r.0
  unfolding noted
  noted-state (s, ok _) b = refl
  noted-state (s, err e) b = refl

  -- Whether the registers of a round have an error: some generation, disturbance or write raises.
  pub any_error : Loop R W → Moment R → List (SimulationConfigCreate R × RegisterMeta R) → Bool
  any_error s moment [] = false
  any_error s moment (config ∷ more) =
      let (s', r) = simulate python device_id s moment config in
      raises r || any_error s' moment more

  -- Whether a round has an error: the device's values are gone, or a register has one.
  unfoldable pub had_error :
      Loop R W → Moment R → List (SimulationConfigCreate R × RegisterMeta R) → Bool
  had_error s moment configs = not s.present || any_error s moment configs

  noted-flag :
      (r : Loop R W × Result (Unit {0})) (b : Bool)
      → (noted python device_id r b).1 ≡ b || raises r.1
  unfolding noted raises
  noted-flag (s, ok _) true = refl
  noted-flag (s, ok _) false = refl
  noted-flag (s, err e) true = refl
  noted-flag (s, err e) false = refl

  tick-any_error :
      (s : Loop R W) (b : Bool) (moment : Moment R)
      (more : List (SimulationConfigCreate R × RegisterMeta R))
      → (tick python device_id (s, b) moment more).1 ≡ b || any_error s moment more
  unfolding tick any_error
  tick-any_error s true moment [] = refl
  tick-any_error s false moment [] = refl
  tick-any_error s b moment (config ∷ more) =
      let r = simulate python device_id s moment config in
      tick-any_error (noted python device_id r b).0 (noted python device_id r b).1 moment more
      ∙ ap (λ s'. (noted python device_id r b).1 || any_error s' moment more) (noted-state r b)
      ∙ ap (λ flag. flag || any_error r.0 moment more) (noted-flag r b)
      ∙ or_assoc b (raises r.1) (any_error r.0 moment more)

  pub attempt-had_error :
      (s : Loop R W) (present : Bool) (moment : Moment R)
      (configs : List (SimulationConfigCreate R × RegisterMeta R))
      → (attempt python device_id present s moment configs).1
        ≡ not present || any_error s moment configs
  unfolding attempt
  attempt-had_error s true moment configs = tick-any_error s false moment configs
  attempt-had_error s false moment configs = refl

  pub attempt-error_count :
      (s : Loop R W) (present : Bool) (moment : Moment R)
      (configs : List (SimulationConfigCreate R × RegisterMeta R))
      → (attempt python device_id present s moment configs).0.error_count ≡ s.error_count
  unfolding attempt
  attempt-error_count s true moment configs = tick-error_count s false moment configs
  attempt-error_count s false moment configs = refl

  noted-true : (r : Loop R W × Result (Unit {0})) → (noted python device_id r true).1 ≡ true
  unfolding noted
  noted-true (s, ok _) = refl
  noted-true (s, err e) = refl

  noted-err :
      (r : Loop R W × Result (Unit {0})) (b : Bool) (e : Error)
      → r.1 ≡ err e
      → (noted python device_id r b).1 ≡ true
  unfolding noted
  noted-err (s, ok _) b e h = cc
  noted-err (s, err x) b e h = refl

  tick-true :
      (state : Loop R W × Bool) (moment : Moment R)
      (more : List (SimulationConfigCreate R × RegisterMeta R))
      → state.1 ≡ true
      → (tick python device_id state moment more).1 ≡ true
  unfolding tick
  tick-true state moment [] e = e
  tick-true state moment (config ∷ more) e =
      tick-true (noted python device_id (simulate python device_id state.0 moment config) state.1)
        moment more (rw e (noted-true (simulate python device_id state.0 moment config)))

  simulate-Fails :
      (s : Loop R W) (moment : Moment R) (config : SimulationConfigCreate R) (reg : RegisterMeta R)
      → Fails python config
      → (e : Error) × ((simulate python device_id s moment (config, reg)).1 ≡ err e)
  unfolding simulate disturb Fails
  simulate-Fails s moment config reg fails =
      let (e, raised) = fails (moment.draws config.register_name) (record {
        current_values = s.values;
        elapsed_seconds = moment.elapsed;
        current_hour_utc = moment.hour;
      }) in
      (e, rw raised refl)

  tick-Fails :
      (state : Loop R W × Bool) (moment : Moment R)
      (before : List (SimulationConfigCreate R × RegisterMeta R))
      (config : SimulationConfigCreate R) (reg : RegisterMeta R)
      (after : List (SimulationConfigCreate R × RegisterMeta R))
      → Fails python config
      → (tick python device_id state moment (before ++ (config, reg) ∷ after)).1 ≡ true
  unfolding tick
  tick-Fails state moment [] config reg after fails =
      let r = simulate python device_id state.0 moment (config, reg) in
      let (e, raised) = simulate-Fails state.0 moment config reg fails in
      tick-true (noted python device_id r state.1) moment after (noted-err r state.1 e raised)
  tick-Fails state moment (first ∷ before) config reg after fails =
      tick-Fails (noted python device_id (simulate python device_id state.0 moment first) state.1)
        moment before config reg after fails

  pub attempt-Fails :
      (s : Loop R W) (present : Bool) (moment : Moment R)
      (before : List (SimulationConfigCreate R × RegisterMeta R))
      (config : SimulationConfigCreate R) (reg : RegisterMeta R)
      (after : List (SimulationConfigCreate R × RegisterMeta R))
      → Fails python config
      → (attempt python device_id present s moment (before ++ (config, reg) ∷ after)).1 ≡ true
  unfolding attempt
  attempt-Fails s true moment before config reg after fails =
      tick-Fails (s, false) moment before config reg after fails
  attempt-Fails s false moment before config reg after fails = refl
