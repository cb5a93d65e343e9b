-- ===== src/Simulation/AnomalyInjector/Flatline.antt =====
-- Anomalies that carry state from tick to tick: a flatline holds the first value that it met, and
-- a drift counts from the first tick that it met.
use ghost_meter.Prelude.{
  ℕ, ◌≡◌, refl, sym, ◌∙◌, ap, String, true, false, Option, none, some, List, [], ◌∷◌, arith, All,
  ==_refl, nat_eq, string_eq,
}
use ghost_meter.Dict.{Dict, get, get-put, get_or-put}
use ghost_meter.Errors.{Result, ok}
use ghost_meter.Floats.{Floats, IsOrdered, Value}
use ghost_meter.Simulation.AnomalyInjector.{
  AnomalyState, AnomalyInjector, inject, new_state, apply, apply_first, keep_realtime,
  apply_anomaly, float_at, clamp_drift, start_of, apply_drift, dispatch, flatline_with, hold,
  get_active,
}

-- The device and register of each tick stay; the generated value, the time and the dice differ.
pub record Tick (R : Type 0) : Type 0 where
  pub value : R
  pub elapsed : R
  pub roll : R

module _ {R : Type 0} ⦃F : Floats R⦄ where
  pub readings : AnomalyInjector R → ℕ → String → List (Tick R) → List (Result R)
  readings s d reg [] = []
  readings s d reg (t ∷ ts) =
      let (r, s') = apply s d reg t.value t.elapsed t.roll in r ∷ readings s' d reg ts

  -- A flatline anomaly with no fixed value, which holds `x` if it holds something.
  pub record IsFlatline (frozen : Option R) (state : AnomalyState R) : Type 0 where
    pub kind : state.anomaly_type ≡ "flatline"
    pub no_value : get state.params "value" ≡ none
    pub holds : state.frozen_value ≡ frozen

  apply_anomaly-Frozen :
      (state : AnomalyState R) (frozen : Option R) (value elapsed roll : R)
      → IsFlatline frozen state
      → (state' : AnomalyState R) × (apply_anomaly state value elapsed roll
          ≡ ok (hold frozen value, state'))
        × IsFlatline (some (hold frozen value)) state'
  unfolding apply_anomaly
  apply_anomaly-Frozen state frozen value elapsed roll h = (
    record state { frozen_value = some (hold frozen value) },
    ap (λ kind. dispatch kind state value elapsed roll) h.kind
        ∙ ap (λ o. flatline_with o state value) h.no_value
        ∙ ap (λ o. ok (hold o value, record state { frozen_value = some (hold o value) })) h.holds,
    record { kind = h.kind; no_value = h.no_value; holds = refl },
  )

  -- A flatline that is the register's real-time anomaly.
  pub Flatlines : Option R → AnomalyInjector R → ℕ → String → Type 0
  Flatlines frozen s d reg =
      (state : AnomalyState R) × (get (get_active s d) reg ≡ some state) × IsFlatline frozen state

  pub inject-Flatlines :
      (s : AnomalyInjector R) (d : ℕ) (reg : String) (params : Dict String (Value R))
      → get params "value" ≡ none
      → Flatlines none (inject s d reg "flatline" params) d reg
  unfolding Flatlines inject get_active
  inject-Flatlines s d reg params h = (
    new_state "flatline" params,
    rw (get_or-put, ==_refl d) (rw (get-put, ==_refl reg)),
    record { kind = refl; no_value = h; holds = refl },
  )

  keep_realtime-Flatlines :
      (s : AnomalyInjector R) (d : ℕ) (reg : String) (x : R) (state : AnomalyState R)
      → IsFlatline (some x) state
      → Flatlines (some x) (keep_realtime s d reg (ok (x, state))).1 d reg
  unfolding keep_realtime Flatlines get_active
  keep_realtime-Flatlines s d reg x state h =
      (state, rw (get_or-put, ==_refl d) (rw (get-put, ==_refl reg)), h)

  apply-keep_realtime :
      (s : AnomalyInjector R) (d : ℕ) (reg : String) (value elapsed roll : R)
      {state : AnomalyState R} {r : Result (R × AnomalyState R)}
      → get (get_active s d) reg ≡ some state
      → apply_anomaly state value elapsed roll ≡ r
      → apply s d reg value elapsed roll ≡ keep_realtime s d reg r
  unfolding apply get_active
  apply-keep_realtime s d reg value elapsed roll found applied =
      ap (λ o. apply_first o s d reg value elapsed roll) found ∙ ap (keep_realtime s d reg) applied

  apply-Flatlines :
      (s : AnomalyInjector R) (d : ℕ) (reg : String) (frozen : Option R) (value elapsed roll : R)
      → Flatlines frozen s d reg
      → ((apply s d reg value elapsed roll).0 ≡ ok (hold frozen value))
        × Flatlines (some (hold frozen value)) (apply s d reg value elapsed roll).1 d reg
  unfolding Flatlines keep_realtime
  apply-Flatlines s d reg frozen value elapsed roll (state, found, h) =
      let (state', applied, h') = apply_anomaly-Frozen state frozen value elapsed roll h in
      rw (apply-keep_realtime s d reg value elapsed roll found applied)
        (refl, keep_realtime-Flatlines s d reg (hold frozen value) state' h')

  readings-frozen :
      (s : AnomalyInjector R) (d : ℕ) (reg : String) (x : R) (ts : List (Tick R))
      → Flatlines (some x) s d reg
      → All (λ r. r ≡ ok x) (readings s d reg ts)
  unfolding readings
  readings-frozen s d reg x [] h = tt
  readings-frozen s d reg x (t ∷ ts) h =
      let (first, h') = apply-Flatlines s d reg (some x) t.value t.elapsed t.roll h in
      (first, readings-frozen (apply s d reg t.value t.elapsed t.roll).1 d reg x ts h')

  -- A real-time flatline with no value of its own that holds nothing yet repeats, for as long as
  -- it stays, the value that is generated at its first tick.
  pub readings-flatline :
      (s : AnomalyInjector R) (d : ℕ) (reg : String) (t : Tick R) (ts : List (Tick R))
      → Flatlines none s d reg
      → All (λ r. r ≡ ok t.value) (readings s d reg (t ∷ ts))
  unfolding readings
  readings-flatline s d reg t ts h =
      let (first, h') = apply-Flatlines s d reg none t.value t.elapsed t.roll h in
      (first, readings-frozen (apply s d reg t.value t.elapsed t.roll).1 d reg t.value ts h')

module _ {R : Type 0} ⦃F : Floats R⦄ where
  -- The tick at which a drift was first seen: this one, if there was none before.
  abbrev pub FirstSeen : Option R → R → R → Type 0
  FirstSeen none elapsed first = first ≡ elapsed
  FirstSeen (some activated) elapsed first = first ≡ activated

  FirstSeen-start_of :
      (o : Option R) (elapsed first : R) → FirstSeen o elapsed first → start_of o elapsed ≡ first
  FirstSeen-start_of none elapsed first e = sym e
  FirstSeen-start_of (some t) elapsed first e = sym e

  -- A result is the value with an offset: `raw` within the limit, and else the limit, towards the
  -- side of the rate.
  abbrev pub Drifts : R → R → R → R → AnomalyState R → Result (R × AnomalyState R) → Type 0
  Drifts rate m raw value state result =
      (offset : R) × (result ≡ ok (F.add value offset, state))
      × (F.le (F.abs offset) (F.abs m) ≡ true)
      × (F.lt (F.abs m) (F.abs raw) ≡ false → offset ≡ raw)
      × (F.lt (F.abs m) (F.abs raw) ≡ true → F.le (F.literal 0 1) rate ≡ true → offset ≡ m)
      × (F.lt (F.abs m) (F.abs raw) ≡ true → F.le (F.literal 0 1) rate ≡ false → offset ≡ F.neg m)

module _ {R : Type 0} ⦃F : Floats R⦄ (laws : IsOrdered F)
    (abs-neg : (x : R) → F.abs (F.neg x) ≡ F.abs x) where
  clamp_drift_bounded :
      (rate m drift : R)
      → F.is_finite (F.abs m) ≡ true
      → F.is_finite (F.abs drift) ≡ true
      → F.le (F.abs (clamp_drift rate m drift)) (F.abs m) ≡ true
  unfolding clamp_drift
  clamp_drift_bounded rate m drift m_finite drift_finite = ground (
    arith,
    abs-neg m,
    laws.le_refl (F.abs m) m_finite,
    laws.le_of_not_lt (F.abs m) (F.abs drift) m_finite drift_finite,
  )

  apply_drift-offset :
      (state : AnomalyState R) (value elapsed : R) {rate m : R}
      → float_at state.params "drift_per_second" ≡ ok rate
      → float_at state.params "max_drift" ≡ ok m
      → apply_drift state value elapsed
        ≡ ok (
          F.add value (
              clamp_drift rate m
                (F.mul rate (F.sub elapsed (start_of state.activated_at elapsed)))),
          record state { activated_at = some (start_of state.activated_at elapsed) },
        )
  unfolding apply_drift
  apply_drift-offset state value elapsed has_rate has_max =
      rw (has_rate, apply_drift) (rw (has_max))

  clamp_drift_within :
      (rate m raw : R) → F.lt (F.abs m) (F.abs raw) ≡ false → clamp_drift rate m raw ≡ raw
  unfolding clamp_drift
  clamp_drift_within rate m raw e = rw e

  clamp_drift_up :
      (rate m raw : R)
      → F.lt (F.abs m) (F.abs raw) ≡ true
      → F.le (F.literal 0 1) rate ≡ true
      → clamp_drift rate m raw ≡ m
  unfolding clamp_drift
  clamp_drift_up rate m raw e up = rw (e, up)

  clamp_drift_down :
      (rate m raw : R)
      → F.lt (F.abs m) (F.abs raw) ≡ true
      → F.le (F.literal 0 1) rate ≡ false
      → clamp_drift rate m raw ≡ F.neg m
  unfolding clamp_drift
  clamp_drift_down rate m raw e down = rw (e, down)

  -- A drift whose parameters convert adds its rate times the seconds since the tick at which it
  -- was first seen, where that is no larger than `max_drift`, and otherwise `max_drift`, negated
  -- for a negative rate; so that the offset is no larger than `max_drift`, either sign, as long
  -- as the limit and the raw drift are finite. It keeps the tick at which it was first seen.
  pub drift_bounded :
      (state : AnomalyState R) (value elapsed roll rate m first : R)
      → state.anomaly_type ≡ "drift"
      → FirstSeen state.activated_at elapsed first
      → float_at state.params "drift_per_second" ≡ ok rate
      → float_at state.params "max_drift" ≡ ok m
      → F.is_finite (F.abs m) ≡ true
      → F.is_finite (F.abs (F.mul rate (F.sub elapsed first))) ≡ true
      → Drifts rate m
          (F.mul rate (F.sub elapsed first))
          value
          (record state { activated_at = some first })
          (apply_anomaly state value elapsed roll)
  unfolding apply_anomaly
  drift_bounded state value elapsed roll rate m first kind seen has_rate has_max m_finite finite =
      let raw = F.mul rate (F.sub elapsed first) in
      (
        clamp_drift rate m raw,
        ap (λ k. dispatch k state value elapsed roll) kind
            ∙ apply_drift-offset state value elapsed has_rate has_max
            ∙ ap
                (λ t. ok (
                  F.add value (clamp_drift rate m (F.mul rate (F.sub elapsed t))),
                  record state { activated_at = some t },
                ))
                (FirstSeen-start_of state.activated_at elapsed first seen),
        clamp_drift_bounded rate m raw m_finite finite,
        clamp_drift_within rate m raw,
        clamp_drift_up rate m raw,
        clamp_drift_down rate m raw,
      )
