-- ===== src/Services/ScenarioRunner/Lifecycle.antt =====
-- A scenario from its start to its end, over any rounds at times that do not go back.
use ghost_meter.Prelude.{
  ℕ, suc, ◌+◌, ◌≤◌, ◌<◌, ◌≡◌, refl, sym, ◌∙◌, ap, ap₂, String, true, false, not, ◌&&◌, Option, none,
  some, List, [], ◌∷◌, map, arith, All, leb, ==_refl, contains, nat_eq, string_eq, Bool-cases, inl,
  inr,
}
use ghost_meter.Dict.{get, put, has, get-put, get-pop}
use ghost_meter.Errors.{ok}
use ghost_meter.Simulation.AnomalyInjector.{AnomalyInjector, get_active}
use ghost_meter.Services.ScenarioRunner.{
  StepInfo, Slot, Effects, RunningScenario, ScenarioRunner, is_empty, advance, mark, settle,
  tick_with, tick, start, begun, fresh,
}
use ghost_meter.Services.ScenarioRunner.Timeline.{started, ended, steps_of, Same}
use ghost_meter.Services.ScenarioRunner.Window.{
  Marked, started_before, ended_before, Window, advance-Window,
}

none_contained :
    (names : List String) → ((reg : String) → contains reg names ≡ false) → is_empty names ≡ true
none_contained [] h = refl
none_contained (name ∷ names) h = ground (arith, h name, ==_refl name)

empty_contains :
    (names : List String) (reg : String) → is_empty names ≡ true → contains reg names ≡ false
empty_contains [] reg h = refl
empty_contains (name ∷ names) reg h = cc

-- Rounds of the device's timeline from one state to another; `m` is one more than the time of the
-- last round, and 0 before the first.
pub data Rounds {R : Type 0} (d : ℕ) (s : ScenarioRunner R) : ℕ → ScenarioRunner R → Type 0 where
  at_start : (m : ℕ) → m ≡ 0 → Rounds d s m s
  round :
      {m : ℕ} {t : ScenarioRunner R} (elapsed : ℕ)
      → Rounds d s m t
      → m ≤ suc elapsed
      → Rounds d s (suc elapsed) (tick t d elapsed)

module _ {R : Type 0} where
  -- Every step is over by the scenario's total duration.
  abbrev pub EndsBy : ℕ → List (StepInfo R) → Type 0
  EndsBy total = All (λ step. step.trigger_at_seconds + step.duration_seconds ≤ total)

  abbrev pub Quiet : ℕ → AnomalyInjector R → Type 0
  Quiet d injector = (reg : String) → has (get_active injector d) reg ≡ false

  started-before :
      (elapsed : ℕ) (reg : String) (slots : List (Slot R))
      → (started_before (suc elapsed) reg slots ≡ started elapsed reg (steps_of slots))
        × (ended_before (suc elapsed) reg slots ≡ ended elapsed reg (steps_of slots))
  unfolding started_before ended_before started ended
  started-before elapsed reg [] = (refl, refl)
  started-before elapsed reg (slot ∷ slots) =
      let ih = started-before elapsed reg slots in (ground arith, ground arith)

  before_first :
      (reg : String) (steps : List (StepInfo R))
      → (started_before 0 reg (map fresh steps) ≡ false)
        × Marked 0 (map fresh steps)
        × (steps_of (map fresh steps) ≡ steps)
  unfolding started_before Marked
  before_first reg [] = (refl, tt, refl)
  before_first reg (step ∷ steps) =
      let (off, marks, same) = before_first reg steps in
      (ground arith, (ground arith, marks), ap (◌∷◌ step) same)

  all_ended :
      (total elapsed : ℕ) (reg : String) (steps : List (StepInfo R))
      → EndsBy total steps
      → total ≤ elapsed
      → (started elapsed reg steps && not (ended elapsed reg steps)) ≡ false
  unfolding started ended
  all_ended total elapsed reg [] h le = refl
  all_ended total elapsed reg (step ∷ steps) (first, h) le =
      ground (arith, all_ended total elapsed reg steps h le)

module _ {R : Type 0} (d total : ℕ) (steps : List (StepInfo R)) (fits : EndsBy total steps) where
  -- What a state between two rounds holds, while the scenario runs and after it is gone.
  Holds : ℕ → AnomalyInjector R → Option (RunningScenario R) → Type 0
  Holds m injector none = (total < m) × Quiet d injector
  Holds m injector (some run) =
      Window m d run.steps (record { active = run.active_anomalies; injector = injector })
      × (steps_of run.steps ≡ steps)
      × (run.total_duration_seconds ≡ total)
      × (total < m → is_empty run.active_anomalies ≡ false)

  map-mark-steps_of :
      (elapsed : ℕ) (slots : List (Slot R)) → steps_of (map (mark elapsed) slots) ≡ steps_of slots
  unfolding mark
  map-mark-steps_of elapsed [] = refl
  map-mark-steps_of elapsed (slot ∷ slots) = ground (arith, map-mark-steps_of elapsed slots)

  Window-Quiet :
      (m : ℕ) (slots : List (Slot R)) (fx : Effects R)
      → Window m d slots fx
      → is_empty fx.active ≡ true
      → Quiet d fx.injector
  unfolding Same
  Window-Quiet m slots fx w empty reg = w.same reg ∙ empty_contains fx.active reg empty

  settle-Holds :
      (s : ScenarioRunner R) (elapsed : ℕ) (run : RunningScenario R) (fx : Effects R)
      → Window (suc elapsed) d run.steps fx
      → steps_of run.steps ≡ steps
      → run.total_duration_seconds ≡ total
      → Holds
          (suc elapsed)
          (settle s d elapsed (record run { active_anomalies = fx.active }) fx).injector
          (get (settle s d elapsed (record run { active_anomalies = fx.active }) fx).running d)
  unfolding settle Holds
  settle-Holds s elapsed run fx w h t =
      elim (Bool-cases (leb run.total_duration_seconds elapsed && is_empty fx.active)) [
        | inl done ↦ rw done (
            rw (get-pop, ==_refl d)
              (ground (arith, t), Window-Quiet (suc elapsed) run.steps fx w (ground arith)))
        | inr going ↦ rw going (rw (get-put, ==_refl d) (w, h, t, λ late. ground arith))
      ]

  abbrev effects_of : ScenarioRunner R → RunningScenario R → Effects R
  effects_of s run = record { active = run.active_anomalies; injector = s.injector }

  tick_with-Holds :
      (s : ScenarioRunner R) (m elapsed : ℕ) (o : Option (RunningScenario R))
      → get s.running d ≡ o
      → m ≤ suc elapsed
      → Holds m s.injector o
      → Holds
          (suc elapsed)
          (tick_with s d elapsed o).injector
          (get (tick_with s d elapsed o).running d)
  unfolding tick_with Holds
  tick_with-Holds s m elapsed none found le (late, quiet) = rw found (omega arith, quiet)
  tick_with-Holds s m elapsed (some run) found le (w, h, t, busy) =
      settle-Holds s elapsed
        (record run { steps = (advance d elapsed run.steps (effects_of s run)).0 })
        (advance d elapsed run.steps (effects_of s run)).1
        (advance-Window m d elapsed run.steps _ le w)
        (unfold advance in (map-mark-steps_of elapsed run.steps ∙ h)) t

  Rounds-Holds :
      {s t : ScenarioRunner R} {m : ℕ}
      → Holds 0 s.injector (get s.running d)
      → Rounds d s m t
      → Holds m t.injector (get t.running d)
  unfolding tick
  Rounds-Holds h (at_start m e) = rw e h
  Rounds-Holds h (round {m} {t} elapsed rounds le) =
      tick_with-Holds t m elapsed (get t.running d) refl le (Rounds-Holds h rounds)

  Holds-window :
      (elapsed : ℕ) (injector : AnomalyInjector R) (o : Option (RunningScenario R)) (reg : String)
      → Holds (suc elapsed) injector o
      → has (get_active injector d) reg
        ≡ (started elapsed reg steps && not (ended elapsed reg steps))
  unfolding Holds Same
  Holds-window elapsed injector none reg (late, quiet) =
      quiet reg ∙ sym (all_ended total elapsed reg steps fits (omega arith))
  Holds-window elapsed injector (some run) reg (w, h, t, busy) =
      let e = started-before elapsed reg run.steps in
      w.same reg
      ∙ w.active reg
      ∙ ap₂ (λ a b. a && not b) (e.0 ∙ ap (started elapsed reg) h) (e.1 ∙ ap (ended elapsed reg) h)

  start-ok :
      (s t : ScenarioRunner R) (id now : ℕ) (name : String)
      → start s d id name total steps now ≡ ok t
      → record s { running = put s.running d (begun id name total steps now) } ≡ t
  unfolding start
  start-ok s t id now name e = ground arith

  start-Holds :
      (s t : ScenarioRunner R) (id now : ℕ) (name : String)
      → Quiet d s.injector
      → start s d id name total steps now ≡ ok t
      → Holds 0 t.injector (get t.running d)
  unfolding Holds
  start-Holds s t id now name quiet e = rw (← start-ok s t id now name e) (
      rw (get-put, ==_refl d)
        (
          record {
            marked = (before_first "" steps).1;
            active = λ reg. rw ((before_first reg steps).0);
            same = unfold Same in quiet;
          },
          (before_first "" steps).2,
          refl,
          λ early. absurd (omega arith),
        ))

  -- While a scenario whose steps are over by its total duration plays on a device that had no
  -- real-time anomaly, and after it is gone: after a round at `elapsed` seconds, whatever the
  -- rounds before it were, a register has a real-time anomaly exactly when some step on it has
  -- started and no step on it has ended. So a second step on a register never takes effect.
  pub Rounds-window :
      (s t u : ScenarioRunner R) (id now elapsed : ℕ) (name reg : String)
      → Quiet d s.injector
      → start s d id name total steps now ≡ ok t
      → Rounds d t (suc elapsed) u
      → has (get_active u.injector d) reg
        ≡ (started elapsed reg steps && not (ended elapsed reg steps))
  Rounds-window s t u id now elapsed name reg quiet e rounds =
      Holds-window elapsed u.injector (get u.running d) reg
        (Rounds-Holds (start-Holds s t id now name quiet e) rounds)

  Holds-gone :
      (elapsed : ℕ) (injector : AnomalyInjector R) (o : Option (RunningScenario R))
      → Holds (suc elapsed) injector o
      → total ≤ elapsed
      → o ≡ none
  unfolding Holds
  Holds-gone elapsed injector none h late = refl
  Holds-gone elapsed injector (some run) (w, h, t, busy) late =
      let quiet = none_contained run.active_anomalies λ reg.
        w.active reg
        ∙ ap₂ (λ a b. a && not b)
            ((started-before elapsed reg run.steps).0 ∙ ap (started elapsed reg) h)
            ((started-before elapsed reg run.steps).1 ∙ ap (ended elapsed reg) h)
        ∙ all_ended total elapsed reg steps fits late in
      cc (quiet, busy (omega arith))

  -- Under the same conditions, after a round at or past the total duration the scenario is no
  -- longer running, and the device has no real-time anomaly.
  pub Rounds-complete :
      (s t u : ScenarioRunner R) (id now elapsed : ℕ) (name : String)
      → Quiet d s.injector
      → start s d id name total steps now ≡ ok t
      → Rounds d t (suc elapsed) u
      → total ≤ elapsed
      → (get u.running d ≡ none) × ((reg : String) → has (get_active u.injector d) reg ≡ false)
  Rounds-complete s t u id now elapsed name quiet e rounds late = (
    Holds-gone elapsed u.injector (get u.running d)
        (Rounds-Holds (start-Holds s t id now name quiet e) rounds) late,
    λ reg.
        Rounds-window s t u id now elapsed name reg quiet e rounds
        ∙ all_ended total elapsed reg steps fits late,
  )
