-- ===== src/Simulation/AnomalyInjector/Effect.antt =====
-- `apply` as a function of what the injector holds for the device: the real-time anomaly of the
-- register, or else the scheduled one that the time calls for.
use ghost_meter.Prelude.{
  ℕ, ◌+◌, ◌≡◌, ◌≢◌, refl, ◌∙◌, ap, String, Bool, true, false, ◌&&◌, ◌||◌, Option, none, some, List,
  [], ◌∷◌, arith, ◌==◌, ==_refl, nat_eq, string_eq, Bool-cases, inl, inr,
}
use ghost_meter.Dict.{get, get_or, has, get-put, get-pop, has-get, get_or-put}
use ghost_meter.Errors.{Result, ok, err}
use ghost_meter.Floats.{Floats}
use ghost_meter.Simulation.AnomalyInjector.{
  AnomalyState, ScheduleEntry, Registers, AnomalyInjector, apply, apply_scheduled, apply_first,
  keep_realtime, keep_scheduled, update_with, apply_anomaly, update_scheduled_anomalies, refresh,
  find_schedule,
}

abbrev is_some : {A : Type 0} → Option A → Bool
is_some none = false
is_some (some _) = true

abbrev value_of : {R : Type 0} → Result (R × AnomalyState R) → Result R
value_of (ok (v, _)) = ok v
value_of (err e) = err e

module _ {R : Type 0} ⦃F : Floats R⦄ where
  -- The value that an anomaly, if there is one, makes of `value`.
  abbrev pub disturb : Option (AnomalyState R) → R → R → R → Result R
  disturb none value elapsed roll = ok value
  disturb (some state) value elapsed roll = value_of (apply_anomaly state value elapsed roll)

  -- The scheduled anomalies of a device after the update of one register. Without schedules
  -- nothing is updated.
  abbrev pub refreshed : List (ScheduleEntry R) → Registers R → String → R → Registers R
  refreshed [] registers reg elapsed = registers
  refreshed (sched ∷ rest) registers reg elapsed =
      refresh registers (find_schedule (sched ∷ rest) reg elapsed) reg elapsed

  abbrev or_else : Option (AnomalyState R) → Option (AnomalyState R) → Option (AnomalyState R)
  or_else none o = o
  or_else (some state) o = some state

  abbrev pub effective : AnomalyInjector R → ℕ → String → R → Option (AnomalyState R)
  effective s d reg elapsed =
      or_else (get (get_or s.active d []) reg)
        (get (refreshed (get_or s.schedules d []) (get_or s.scheduled_active d []) reg elapsed) reg)

  get_or-update_with :
      (s : AnomalyInjector R) (d : ℕ) (reg : String) (elapsed : R)
      (entries : List (ScheduleEntry R))
      → get_or (update_with s d reg elapsed entries).scheduled_active d []
        ≡ refreshed entries (get_or s.scheduled_active d []) reg elapsed
  unfolding update_with
  get_or-update_with s d reg elapsed [] = refl
  get_or-update_with s d reg elapsed (sched ∷ rest) = rw (get_or-put, ==_refl d)

  keep_realtime-value :
      (s : AnomalyInjector R) (d : ℕ) (reg : String) (r : Result (R × AnomalyState R))
      → (keep_realtime s d reg r).0 ≡ value_of r
  unfolding keep_realtime
  keep_realtime-value s d reg (ok (v, state)) = refl
  keep_realtime-value s d reg (err e) = refl

  apply_scheduled-value :
      (o : Option (AnomalyState R)) (s : AnomalyInjector R) (d : ℕ) (reg : String)
      (value elapsed roll : R)
      → (apply_scheduled o s d reg value elapsed roll).0 ≡ disturb o value elapsed roll
  unfolding apply_scheduled keep_scheduled
  apply_scheduled-value none s d reg value elapsed roll = refl
  apply_scheduled-value (some state) s d reg value elapsed roll =
      kept (apply_anomaly state value elapsed roll)
    where
      kept : (r : Result (R × AnomalyState R)) → (keep_scheduled s d reg r).0 ≡ value_of r
      kept (ok (v, state')) = refl
      kept (err e) = refl

  apply_first-value :
      (o : Option (AnomalyState R)) (s : AnomalyInjector R) (d : ℕ) (reg : String)
      (value elapsed roll : R)
      → (apply_first o s d reg value elapsed roll).0
        ≡ disturb
            (or_else o (
              get
                (refreshed (get_or s.schedules d []) (get_or s.scheduled_active d []) reg elapsed)
                reg))
            value
            elapsed
            roll
  unfolding apply_first update_scheduled_anomalies
  apply_first-value (some state) s d reg value elapsed roll = keep_realtime-value s d reg _
  apply_first-value none s d reg value elapsed roll =
      apply_scheduled-value _ _ d reg value elapsed roll
      ∙ ap (λ registers. disturb (get registers reg) value elapsed roll)
          (get_or-update_with s d reg elapsed (get_or s.schedules d []))

  -- `apply` gives what the effective anomaly makes of the value.
  pub apply-value :
      (s : AnomalyInjector R) (d : ℕ) (reg : String) (value elapsed roll : R)
      → (apply s d reg value elapsed roll).0
        ≡ disturb (effective s d reg elapsed) value elapsed roll
  unfolding apply
  apply-value s d reg value elapsed roll = apply_first-value _ s d reg value elapsed roll

  -- Whether some entry names the register and holds the time.
  pub covered : List (ScheduleEntry R) → String → R → Bool
  covered [] reg elapsed = false
  covered (sched ∷ rest) reg elapsed =
      (sched.register_name == reg
        && F.int_le sched.trigger_after_seconds elapsed
        && F.lt_int elapsed (sched.trigger_after_seconds + sched.duration_seconds))
      || covered rest reg elapsed

  find_schedule-covered :
      (entries : List (ScheduleEntry R)) (reg : String) (elapsed : R)
      → is_some (find_schedule entries reg elapsed) ≡ covered entries reg elapsed
  unfolding find_schedule covered
  find_schedule-covered [] reg elapsed = refl
  find_schedule-covered (sched ∷ rest) reg elapsed =
      ground (arith, find_schedule-covered rest reg elapsed)

  has-refresh :
      (registers : Registers R) (o : Option (ScheduleEntry R)) (reg : String) (elapsed : R)
      → has (refresh registers o reg elapsed) reg ≡ is_some o
  unfolding refresh
  has-refresh registers none reg elapsed = rw (has-get, get-pop, ==_refl reg)
  has-refresh registers (some sched) reg elapsed = elim (Bool-cases (has registers reg)) [
    | inl present ↦ rw present present
    | inr absent ↦ rw (absent, has-get, get-put, ==_refl reg)
  ]

  -- Where a device has schedules, the update leaves a scheduled anomaly on the register exactly
  -- when an entry names the register and holds the time, whatever was there before.
  pub update-has_iff_covered :
      (s : AnomalyInjector R) (d : ℕ) (reg : String) (elapsed : R)
      → get_or s.schedules d [] ≢ []
      → has (get_or (update_scheduled_anomalies s d reg elapsed).scheduled_active d []) reg
        ≡ covered (get_or s.schedules d []) reg elapsed
  unfolding update_scheduled_anomalies
  update-has_iff_covered s d reg elapsed = go (get_or s.schedules d [])
    where
      go :
          (entries : List (ScheduleEntry R))
          → entries ≢ []
          → has (get_or (update_with s d reg elapsed entries).scheduled_active d []) reg
            ≡ covered entries reg elapsed
      go [] h = absurd (h refl)
      go (sched ∷ rest) h =
          ap (λ (m : Registers R). has m reg) (get_or-update_with s d reg elapsed (sched ∷ rest))
          ∙ has-refresh _ (find_schedule (sched ∷ rest) reg elapsed) reg elapsed
          ∙ find_schedule-covered (sched ∷ rest) reg elapsed
