-- ===== src/Services/ScenarioRunner/Window.antt =====
-- The window of a disturbance: after any rounds of the timeline the disturbed registers are those
-- on which some step has started and no step has ended.
use ghost_meter.Prelude.{
  ℕ, suc, ◌+◌, ◌≤◌, ◌≡◌, refl, sym, ◌∙◌, ap₂, String, Bool, true, false, not, ◌&&◌, ◌||◌, List, [],
  ◌∷◌, map, arith, All, ltb, ◌==◌, contains, nat_eq, string_eq,
}
use ghost_meter.Services.ScenarioRunner.Timeline.{
  due, over, activate-contains, deactivate-contains, Same, activate-Same, deactivate-Same,
}
use ghost_meter.Services.ScenarioRunner.{Slot, Effects, mark, activate, advance}

-- The boolean identity behind a round: what was disturbed before, or is due, and is not over.
round_identity :
    (was now on off off' : Bool)
    → (now || was) ≡ on
    → (off ≡ true → off' ≡ true)
    → ((now || (was && not off)) && not off') ≡ (on && not off')
round_identity was now on off off' h mono = ground arith

module _ {R : Type 0} where
  -- The marks are right for the seconds before `m`: with `m` = 0 no step is marked.
  unfoldable pub Marked : ℕ → List (Slot R) → Type 0
  Marked m = All (λ slot. slot.triggered ≡ ltb slot.trigger_at_seconds m)

  -- `started` and `ended` for the seconds before `m`.
  unfoldable pub started_before : ℕ → String → List (Slot R) → Bool
  started_before m reg [] = false
  started_before m reg (slot ∷ slots) =
      (reg == slot.register_name && ltb slot.trigger_at_seconds m) || started_before m reg slots

  unfoldable pub ended_before : ℕ → String → List (Slot R) → Bool
  ended_before m reg [] = false
  ended_before m reg (slot ∷ slots) =
      (reg == slot.register_name && ltb (slot.trigger_at_seconds + slot.duration_seconds) m)
      || ended_before m reg slots

  due-started :
      (m elapsed : ℕ) (reg : String) (slots : List (Slot R))
      → m ≤ suc elapsed
      → Marked m slots
      → (due elapsed reg slots || started_before m reg slots)
        ≡ started_before (suc elapsed) reg slots
  unfolding due started_before Marked
  due-started m elapsed reg [] le h = refl
  due-started m elapsed reg (slot ∷ slots) le (mk, h) =
      ground (arith, due-started m elapsed reg slots le h)

  ended_mono :
      (m elapsed : ℕ) (reg : String) (slots : List (Slot R))
      → m ≤ suc elapsed
      → ended_before m reg slots ≡ true
      → ended_before (suc elapsed) reg slots ≡ true
  unfolding ended_before
  ended_mono m elapsed reg [] le h = h
  ended_mono m elapsed reg (slot ∷ slots) le h = ground (arith, ended_mono m elapsed reg slots le)

  mark-Marked :
      (m elapsed : ℕ) (slots : List (Slot R))
      → m ≤ suc elapsed
      → Marked m slots
      → Marked (suc elapsed) (map (mark elapsed) slots)
  unfolding mark Marked
  mark-Marked m elapsed [] le h = tt
  mark-Marked m elapsed (slot ∷ slots) le (mk, h) = (ground arith, mark-Marked m elapsed slots le h)

  over-mark :
      (m elapsed : ℕ) (reg : String) (slots : List (Slot R))
      → m ≤ suc elapsed
      → Marked m slots
      → over elapsed reg (map (mark elapsed) slots) ≡ ended_before (suc elapsed) reg slots
  unfolding over mark ended_before Marked
  over-mark m elapsed reg [] le h = refl
  over-mark m elapsed reg (slot ∷ slots) le (mk, h) =
      ground (arith, over-mark m elapsed reg slots le h)

  pub record Window (m d : ℕ) (slots : List (Slot R)) (fx : Effects R) : Type 0 where
    pub marked : Marked m slots
    pub active :
        (reg : String)
        → contains reg fx.active ≡ (started_before m reg slots && not (ended_before m reg slots))
    pub same : Same d fx

  advance-contains :
      (m d elapsed : ℕ) (slots : List (Slot R)) (fx : Effects R) (reg : String)
      → m ≤ suc elapsed
      → Window m d slots fx
      → contains reg (advance d elapsed slots fx).1.active
        ≡ (started_before (suc elapsed) reg slots && not (ended_before (suc elapsed) reg slots))
  unfolding advance
  advance-contains m d elapsed slots fx reg le w =
      deactivate-contains d elapsed reg (map (mark elapsed) slots) (activate d elapsed slots fx)
      ∙ rw (over-mark m elapsed reg slots le w.marked) (
          rw (activate-contains d elapsed reg slots fx) (
            rw (w.active reg) (
              round_identity (started_before m reg slots) (due elapsed reg slots) _
                (ended_before m reg slots) (ended_before (suc elapsed) reg slots)
                (due-started m elapsed reg slots le w.marked) (ended_mono m elapsed reg slots le))))

  map-mark-window :
      (m elapsed : ℕ) (reg : String) (slots : List (Slot R))
      → (started_before m reg (map (mark elapsed) slots) ≡ started_before m reg slots)
        × (ended_before m reg (map (mark elapsed) slots) ≡ ended_before m reg slots)
  unfolding started_before ended_before mark
  map-mark-window m elapsed reg [] = (refl, refl)
  map-mark-window m elapsed reg (slot ∷ slots) =
      let ih = map-mark-window m elapsed reg slots in (ground arith, ground arith)

  pub advance-Window :
      (m d elapsed : ℕ) (slots : List (Slot R)) (fx : Effects R)
      → m ≤ suc elapsed
      → Window m d slots fx
      → Window (suc elapsed) d (advance d elapsed slots fx).0 (advance d elapsed slots fx).1
  advance-Window m d elapsed slots fx le w = record {
    marked = unfold advance in mark-Marked m elapsed slots le w.marked;
    active = λ reg.
        advance-contains m d elapsed slots fx reg le w
        ∙ unfold advance in
          (let e = map-mark-window (suc elapsed) elapsed reg slots in
            ap₂ (λ a b. a && not b) (sym e.0) (sym e.1));
    same =
        unfold advance in
        deactivate-Same d elapsed (map (mark elapsed) slots) _
          (activate-Same d elapsed slots fx w.same);
  }
