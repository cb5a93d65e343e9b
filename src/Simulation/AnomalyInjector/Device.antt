-- ===== src/Simulation/AnomalyInjector/Device.antt =====
-- What a device's readers see depends on the calls that name the device, and on no other.
use ghost_meter.Prelude.{
  ℕ, ◌≡◌, ◌≢◌, refl, sym, ◌∙◌, ap, String, Option, none, some, List, [], ◌∷◌, arith, All, ==_iff,
  nat_eq, string_eq,
}
use ghost_meter.Dict.{Dict, get, get_or, put, pop, get-put, get-pop}
use ghost_meter.Errors.{Result, ok, err}
use ghost_meter.Floats.{Floats, Value}
use ghost_meter.Simulation.AnomalyInjector.{
  AnomalyState, ScheduleEntry, Registers, AnomalyInjector, inject, remove, clear_realtime,
  clear_device, load_schedules, get_active, apply, apply_scheduled, apply_first, keep_realtime,
  keep_scheduled, remove_from, update_with, update_scheduled_anomalies,
}
use ghost_meter.Simulation.AnomalyInjector.Effect.{apply-value, disturb, effective}

pub data Call (R : Type 0) : Type 0 where
  inject_call : ℕ → String → String → Dict String (Value R) → Call R
  remove_call : ℕ → String → Call R
  clear_realtime_call clear_device_call : ℕ → Call R
  load_schedules_call : ℕ → List (ScheduleEntry R) → Call R
  apply_call : ℕ → String → R → R → R → Call R

abbrev pub device_of : {R : Type 0} → Call R → ℕ
device_of (inject_call d _ _ _) = d
device_of (remove_call d _) = d
device_of (clear_realtime_call d) = d
device_of (clear_device_call d) = d
device_of (load_schedules_call d _) = d
device_of (apply_call d _ _ _ _) = d

-- Two injectors that hold the same for one device.
pub record Agree {R : Type 0} (j : ℕ) (s t : AnomalyInjector R) : Type 0 where
  pub active : get s.active j ≡ get t.active j
  pub schedules : get s.schedules j ≡ get t.schedules j
  pub scheduled_active : get s.scheduled_active j ≡ get t.scheduled_active j

module _ {R : Type 0} ⦃F : Floats R⦄ where
  unfoldable pub step : AnomalyInjector R → Call R → AnomalyInjector R
  step s (inject_call d reg kind params) = inject s d reg kind params
  step s (remove_call d reg) = remove s d reg
  step s (clear_realtime_call d) = clear_realtime s d
  step s (clear_device_call d) = clear_device s d
  step s (load_schedules_call d entries) = load_schedules s d entries
  step s (apply_call d reg value elapsed roll) = (apply s d reg value elapsed roll).1

  unfoldable pub run : AnomalyInjector R → List (Call R) → AnomalyInjector R
  run s [] = s
  run s (c ∷ cs) = run (step s c) cs

  Agree-refl : (j : ℕ) (s : AnomalyInjector R) → Agree j s s
  Agree-refl j s = record { active = refl; schedules = refl; scheduled_active = refl }

  Agree-trans : {j : ℕ} {s t u : AnomalyInjector R} → Agree j s t → Agree j t u → Agree j s u
  Agree-trans h k = record {
    active = h.active ∙ k.active;
    schedules = h.schedules ∙ k.schedules;
    scheduled_active = h.scheduled_active ∙ k.scheduled_active;
  }

module _ (d j : ℕ) (other : d ≢ j) where
  kept_by_put {ℓ} : {V : Type ℓ} (m : Dict ℕ V) (v : V) → get m j ≡ get (put m d v) j
  kept_by_put m v = ground (arith, get-put m d j v, ==_iff j d)

  kept_by_pop {ℓ} : {V : Type ℓ} (m : Dict ℕ V) → get m j ≡ get (pop m d) j
  kept_by_pop m = ground (arith, get-pop m d j, ==_iff j d)

module _ {R : Type 0} ⦃F : Floats R⦄ (d j : ℕ) (other : d ≢ j) where
  active-Agree :
      (s : AnomalyInjector R) (registers : Registers R)
      → Agree j s (record s { active = put s.active d registers })
  active-Agree s registers = record {
    active = kept_by_put d j other s.active registers;
    schedules = refl;
    scheduled_active = refl;
  }

  scheduled-Agree :
      (s : AnomalyInjector R) (registers : Registers R)
      → Agree j s (record s { scheduled_active = put s.scheduled_active d registers })
  scheduled-Agree s registers = record {
    active = refl;
    schedules = refl;
    scheduled_active = kept_by_put d j other s.scheduled_active registers;
  }

  remove_from-Agree :
      (s : AnomalyInjector R) (reg : String) (o : Option (Registers R))
      → Agree j s (remove_from s d reg o)
  unfolding remove_from
  remove_from-Agree s reg none = Agree-refl j s
  remove_from-Agree s reg (some registers) = active-Agree s (pop registers reg)

  update_with-Agree :
      (s : AnomalyInjector R) (reg : String) (elapsed : R) (entries : List (ScheduleEntry R))
      → Agree j s (update_with s d reg elapsed entries)
  unfolding update_with
  update_with-Agree s reg elapsed [] = Agree-refl j s
  update_with-Agree s reg elapsed (sched ∷ rest) = scheduled-Agree s _

  keep_realtime-Agree :
      (s : AnomalyInjector R) (reg : String) (r : Result (R × AnomalyState R))
      → Agree j s (keep_realtime s d reg r).1
  unfolding keep_realtime
  keep_realtime-Agree s reg (ok (v, state)) = active-Agree s _
  keep_realtime-Agree s reg (err e) = Agree-refl j s

  keep_scheduled-Agree :
      (s : AnomalyInjector R) (reg : String) (r : Result (R × AnomalyState R))
      → Agree j s (keep_scheduled s d reg r).1
  unfolding keep_scheduled
  keep_scheduled-Agree s reg (ok (v, state)) = scheduled-Agree s _
  keep_scheduled-Agree s reg (err e) = Agree-refl j s

  apply_scheduled-Agree :
      (o : Option (AnomalyState R)) (s : AnomalyInjector R) (reg : String) (value elapsed roll : R)
      → Agree j s (apply_scheduled o s d reg value elapsed roll).1
  unfolding apply_scheduled
  apply_scheduled-Agree none s reg value elapsed roll = Agree-refl j s
  apply_scheduled-Agree (some state) s reg value elapsed roll = keep_scheduled-Agree s reg _

  apply_first-Agree :
      (o : Option (AnomalyState R)) (s : AnomalyInjector R) (reg : String) (value elapsed roll : R)
      → Agree j s (apply_first o s d reg value elapsed roll).1
  unfolding apply_first update_scheduled_anomalies
  apply_first-Agree (some state) s reg value elapsed roll = keep_realtime-Agree s reg _
  apply_first-Agree none s reg value elapsed roll =
      Agree-trans (update_with-Agree s reg elapsed (get_or s.schedules d []))
        (apply_scheduled-Agree _ _ reg value elapsed roll)

module _ (j : ℕ) where
  get_or-Agree {ℓ} :
      {V : Type ℓ} (m n : Dict ℕ V) (v : V) → get m j ≡ get n j → get_or m j v ≡ get_or n j v
  unfolding get_or
  get_or-Agree m n v h = ground arith

module _ {R : Type 0} ⦃F : Floats R⦄ (j : ℕ) where
  step-Agree : (s : AnomalyInjector R) (c : Call R) → device_of c ≢ j → Agree j s (step s c)
  unfolding step inject remove clear_realtime clear_device load_schedules apply
  step-Agree s (inject_call d reg kind params) other = active-Agree d j other s _
  step-Agree s (remove_call d reg) other = remove_from-Agree d j other s reg _
  step-Agree s (clear_realtime_call d) other = record {
    active = kept_by_pop d j other s.active;
    schedules = refl;
    scheduled_active = refl;
  }
  step-Agree s (clear_device_call d) other = record {
    active = kept_by_pop d j other s.active;
    schedules = kept_by_pop d j other s.schedules;
    scheduled_active = kept_by_pop d j other s.scheduled_active;
  }
  step-Agree s (load_schedules_call d entries) other = record {
    active = refl;
    schedules = kept_by_put d j other s.schedules entries;
    scheduled_active = kept_by_pop d j other s.scheduled_active;
  }
  step-Agree s (apply_call d reg value elapsed roll) other =
      apply_first-Agree d j other _ s reg value elapsed roll

  abbrev pub Elsewhere : List (Call R) → Type 0
  Elsewhere = All (λ c. device_of c ≢ j)

  run-Agree : (s : AnomalyInjector R) (cs : List (Call R)) → Elsewhere cs → Agree j s (run s cs)
  unfolding run
  run-Agree s [] h = Agree-refl j s
  run-Agree s (c ∷ cs) (other, h) = Agree-trans (step-Agree s c other) (run-Agree (step s c) cs h)

  effective-Agree :
      (s t : AnomalyInjector R) (reg : String) (elapsed : R)
      → Agree j s t
      → effective s j reg elapsed ≡ effective t j reg elapsed
  effective-Agree s t reg elapsed h = rw (get_or-Agree j s.active t.active [] h.active) (
      rw (get_or-Agree j s.schedules t.schedules [] h.schedules)
        (rw (get_or-Agree j s.scheduled_active t.scheduled_active [] h.scheduled_active)))

  -- The value that `apply` returns is a function of what the injector holds for the device.
  apply-Agree :
      (s t : AnomalyInjector R) (reg : String) (value elapsed roll : R)
      → Agree j s t
      → (apply s j reg value elapsed roll).0 ≡ (apply t j reg value elapsed roll).0
  apply-Agree s t reg value elapsed roll h =
      apply-value s j reg value elapsed roll
      ∙ ap (λ o. disturb o value elapsed roll) (effective-Agree s t reg elapsed h)
      ∙ sym (apply-value t j reg value elapsed roll)

  -- Calls that name other devices change neither the value that `apply` gives for a register of
  -- this device nor the anomalies that are listed for it.
  pub run_isolated :
      (s : AnomalyInjector R) (cs : List (Call R)) (reg : String) (value elapsed roll : R)
      → Elsewhere cs
      → ((apply (run s cs) j reg value elapsed roll).0 ≡ (apply s j reg value elapsed roll).0)
        × (get_active (run s cs) j ≡ get_active s j)
  unfolding get_active
  run_isolated s cs reg value elapsed roll h =
      let agree = run-Agree s cs h in
      (
        sym (apply-Agree s (run s cs) reg value elapsed roll agree),
        get_or-Agree j _ _ [] (sym agree.active),
      )
