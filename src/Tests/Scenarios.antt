-- ===== src/Tests/Scenarios.antt =====
-- A scenario of two steps that follow each other on one register.
use ghost_meter.Prelude.{
  ℕ, ◌≡◌, refl, String, false, not, ◌&&◌, none, List, [], ◌∷◌, arith, nat_eq, string_eq,
}
use ghost_meter.Dict.{get, get_or, put, pop, has}
use ghost_meter.Prelude.Int.{ℤ}
use ghost_meter.Errors.{ok}
use ghost_meter.Simulation.AnomalyInjector.{inject, remove, get_active}
use ghost_meter.Services.ScenarioRunner.{
  StepInfo, ScenarioRunner, begun, start, tick, add, discard, advance,
}
use ghost_meter.Services.ScenarioRunner.Timeline.{started, ended}
use ghost_meter.Services.ScenarioRunner.Lifecycle.{
  Rounds, at_start, round, Quiet, Rounds-window, Rounds-complete,
}

abbrev pub step_at : ℕ → StepInfo ℤ
step_at trigger = record {
  register_name = "voltage";
  anomaly_type = "data_loss";
  anomaly_params = [];
  trigger_at_seconds = trigger;
  duration_seconds = 10;
}

abbrev pub two_steps : List (StepInfo ℤ)
two_steps = step_at 0 ∷ (step_at 10 ∷ [])

abbrev idle : ScenarioRunner ℤ
idle = record {
  running = [];
  injector = record { active = []; schedules = []; scheduled_active = [] };
}

abbrev playing : ScenarioRunner ℤ
playing = record idle { running = (1, begun 7 "sag" 20 two_steps 100) ∷ [] }

starts_playing : start idle 1 7 "sag" 20 two_steps 100 ≡ ok playing
unfolding start has put
starts_playing = refl

idle-Quiet : Quiet 1 idle.injector
unfolding get_active get_or get has
idle-Quiet reg = refl

Rounds-playing_12 : Rounds 1 playing 13 (tick (tick playing 1 3) 1 12)
Rounds-playing_12 = round 12 (round 3 (at_start 0 refl) (omega arith)) (omega arith)

Rounds-window_example :
    has (get_active (tick (tick playing 1 3) 1 12).injector 1) "voltage"
    ≡ (started 12 "voltage" two_steps && not (ended 12 "voltage" two_steps))
Rounds-window_example =
    Rounds-window 1 20 two_steps (omega arith) idle playing (tick (tick playing 1 3) 1 12) 7 100 12
      "sag" "voltage" idle-Quiet starts_playing Rounds-playing_12

-- The second step should disturb the register at 12 seconds, and does not.
second_step_lost : has (get_active (tick (tick playing 1 3) 1 12).injector 1) "voltage" ≡ false
unfolding tick advance add discard inject remove get_active get get_or put pop has
second_step_lost = refl

Rounds-playing_20 : Rounds 1 playing 21 (tick (tick playing 1 3) 1 20)
Rounds-playing_20 = round 20 (round 3 (at_start 0 refl) (omega arith)) (omega arith)

Rounds-complete_example :
    (get (tick (tick playing 1 3) 1 20).running 1 ≡ none)
    × ((reg : String) → has (get_active (tick (tick playing 1 3) 1 20).injector 1) reg ≡ false)
Rounds-complete_example =
    Rounds-complete 1 20 two_steps (omega arith) idle playing (tick (tick playing 1 3) 1 20) 7 100
      20 "sag" idle-Quiet starts_playing Rounds-playing_20 (omega arith)
