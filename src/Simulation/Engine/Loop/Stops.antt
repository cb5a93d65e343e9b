-- ===== src/Simulation/Engine/Loop/Stops.antt =====
-- The loop goes on through errors, and stops at the fifth round in a row that has one.
use mathlib.Core.Path.{subst}
use ghost_meter.Prelude.{
  ℕ, suc, ◌+◌, ◌≤◌, ◌<◌, ◌≡◌, refl, Bool, true, false, List, [], ◌∷◌, ◌++◌, length, leb, arith,
  if◌then◌else◌,
}
use ghost_meter.Floats.{Floats}
use ghost_meter.Simulation.Expressions.{Python}
use ghost_meter.Services.Configurations.{SimulationConfigCreate}
use ghost_meter.Simulation.Engine.Loop.{
  RegisterMeta, Registers, Moment, Loop, attempt, meet, after_tick, round, rounds,
}
use ghost_meter.Simulation.Engine.Loop.Ticks.{
  Fails, had_error, attempt-had_error, attempt-error_count, attempt-Fails,
}

-- The rounds in a row, the latest first, that had an error.
unfoldable pub in_a_row : List Bool → ℕ
in_a_row [] = 0
in_a_row (b ∷ history) = let n = in_a_row history in if b then suc n else 0

-- Before its latest round there were fewer than five in a row.
unfoldable pub NeverFive : List Bool → Type 0
NeverFive [] = Unit
NeverFive (b ∷ history) = (in_a_row history < 5) × NeverFive history

module _ {R W : Type 0} where
  pub record Accounts (history : List Bool) (s : Loop R W) : Type 0 where
    pub counts : s.error_count ≡ in_a_row history
    pub stops : s.stopped ≡ leb 5 (in_a_row history)
    pub before : NeverFive history

module _ {R W : Type 0} ⦃F : Floats R⦄ ⦃registers : Registers R W⦄ (python : Python R)
    (device_id : ℕ) where
  after_tick-Accounts :
      (history : List Bool) (s t : Loop R W) (had_error : Bool)
      → Accounts history s
      → s.stopped ≡ false
      → t.error_count ≡ s.error_count
      → Accounts (had_error ∷ history) (after_tick python device_id (t, had_error))
  unfolding after_tick in_a_row NeverFive
  after_tick-Accounts history s t had_error h going same = record {
    counts = ground (arith, h.counts, same);
    stops = ground (arith, h.counts, same);
    before = (ground (arith, h.stops, going), h.before);
  }

module _ {R W : Type 0} ⦃F : Floats R⦄ ⦃registers : Registers R W⦄ (python : Python R)
    (device_id : ℕ) (configs : List (SimulationConfigCreate R × RegisterMeta R)) where
  -- Whether the rounds had an error, the latest first, after those of `history`.
  pub outcomes : List Bool → Loop R W → List (Moment R) → List Bool
  outcomes history s [] = history
  outcomes history s (moment ∷ moments) =
      let b = had_error python device_id (meet python device_id s moment) moment configs in
      outcomes (if s.stopped then history else b ∷ history)
        (round python device_id configs s moment) moments

  round-Accounts :
      (history : List Bool) (s : Loop R W) (moment : Moment R) (stopped : Bool)
      → s.stopped ≡ stopped
      → Accounts history s
      → Accounts
          (if stopped
            then history
            else had_error python device_id (meet python device_id s moment) moment configs
              ∷ history)
          (if stopped
            then s
            else after_tick python device_id (
                attempt python device_id
                  (meet python device_id s moment).present
                  (meet python device_id s moment)
                  moment
                  configs))
  unfolding meet had_error
  round-Accounts history s moment true e h = h
  round-Accounts history s moment false e h =
      let met = meet python device_id s moment in
      let result = attempt python device_id met.present met moment configs in
      subst (λ b. Accounts (b ∷ history) (after_tick python device_id result))
        (attempt-had_error python device_id met met.present moment configs)
        (after_tick-Accounts python device_id history s result.0 result.1 h e
          (attempt-error_count python device_id met met.present moment configs))

  -- A round has an error if the device's values are gone, or if a register raises. From a state
  -- that agrees with the rounds before it: after any rounds the error count is the
  -- number of rounds in a row, up to the latest, that had an error, the loop has stopped exactly
  -- if it is five or more, and it was less than five after each round but the latest.
  pub rounds-Accounts :
      (history : List Bool) (s : Loop R W) (moments : List (Moment R))
      → Accounts history s
      → Accounts (outcomes history s moments) (rounds python device_id configs s moments)
  unfolding rounds outcomes round
  rounds-Accounts history s [] h = h
  rounds-Accounts history s (moment ∷ moments) h =
      rounds-Accounts
        (if s.stopped
          then history
          else had_error python device_id (meet python device_id s moment) moment configs ∷ history)
        (round python device_id configs s moment) moments
        (round-Accounts history s moment s.stopped refl h)

module _ {R W : Type 0} where
  -- The count and the flag agree, and the rounds that are left are enough.
  record IsNear (n : ℕ) (s : Loop R W) : Type 0 where
    agrees : s.stopped ≡ leb 5 s.error_count
    enough : 5 ≤ s.error_count + n

module _ {R W : Type 0} ⦃F : Floats R⦄ ⦃registers : Registers R W⦄ (python : Python R)
    (device_id : ℕ) where
  failed-IsNear :
      (n : ℕ) (s t : Loop R W) (had_error : Bool)
      → had_error ≡ true
      → t.error_count ≡ s.error_count
      → IsNear (suc n) s
      → IsNear n (after_tick python device_id (t, had_error))
  unfolding after_tick
  failed-IsNear n s t had_error failed same h = record {
    agrees = refl;
    enough = ground (arith, h.enough);
  }

module _ {R W : Type 0} ⦃F : Floats R⦄ ⦃registers : Registers R W⦄ (python : Python R)
    (device_id : ℕ) (before : List (SimulationConfigCreate R × RegisterMeta R))
    (config : SimulationConfigCreate R) (reg : RegisterMeta R)
    (after : List (SimulationConfigCreate R × RegisterMeta R)) where
  round-IsNear :
      (n : ℕ) (s : Loop R W) (moment : Moment R) (stopped : Bool)
      → Fails python config
      → s.stopped ≡ stopped
      → IsNear (suc n) s
      → IsNear n (
          if stopped
          then s
          else after_tick python device_id (
              attempt python device_id
                (meet python device_id s moment).present
                (meet python device_id s moment)
                moment
                (before ++ (config, reg) ∷ after)))
  unfolding meet
  round-IsNear n s moment true fails e h = record {
    agrees = h.agrees;
    enough = ground (arith, h.agrees, e);
  }
  round-IsNear n s moment false fails e h =
      let all = before ++ (config, reg) ∷ after in
      let met = meet python device_id s moment in
      let result = attempt python device_id met.present met moment all in
      failed-IsNear python device_id n s result.0 result.1
        (attempt-Fails python device_id met met.present moment before config reg after fails)
        (attempt-error_count python device_id met met.present moment all) h

  -- Where one configuration gets no value at any draws and context, and the flag of the loop
  -- agrees with its error count, the loop has stopped once the errors that it has counted and the
  -- rounds together are five.
  pub rounds-stop :
      (s : Loop R W) (moments : List (Moment R))
      → Fails python config
      → s.stopped ≡ leb 5 s.error_count
      → 5 ≤ s.error_count + length moments
      → (rounds python device_id (before ++ (config, reg) ∷ after) s moments).stopped ≡ true
  unfolding rounds round
  rounds-stop s [] fails agrees enough = ground arith
  rounds-stop s (moment ∷ moments) fails agrees enough =
      let near =
        round-IsNear (length moments) s moment s.stopped fails refl
          (record { agrees = agrees; enough = enough }) in
      rounds-stop (round python device_id (before ++ (config, reg) ∷ after) s moment) moments fails
        near.agrees near.enough
