-- ===== src/Simulation/FaultSimulator/Clamps.antt =====
-- The clamps hold for any parameters, and fail for one kind of value only.
use ghost_meter.Prelude.{
  ℕ, ◌<◌, ◌^◌, ◌↔◌, ◌≡◌, refl, String, true, Option, none, some, arith, string_eq,
}
use ghost_meter.Dict.{Dict, get}
use ghost_meter.Errors.{Error, overflow_error, Result, ok, err}
use ghost_meter.Floats.{
  Floats, IsOrdered, Value, integer, number, text, flag, null, other, to_float, py_min, py_max,
}
use ghost_meter.Simulation.FaultSimulator.{
  float_param, recover, clamp_delay, clamp_rate, get_delay_seconds, get_failure_rate, max_delay_ms,
}

module _ {R : Type 0} ⦃F : Floats R⦄ (laws : IsOrdered F) where
  abbrev pub Between : ℕ → ℕ → R → Type 0
  Between lo hi x = (F.le (F.literal lo 1) x ≡ true) × (F.le x (F.literal hi 1) ≡ true)

  clamp-Between :
      (hi : ℕ) (x : R)
      → hi < 2 ^ 53
      → F.is_finite x ≡ true
      → Between 0 hi (py_min (py_max x (F.literal 0 1)) (F.literal hi 1))
  clamp-Between hi x small finite =
      let zero_finite = laws.literal_finite 0 1 (omega arith) (omega arith) in
      let hi_finite = laws.literal_finite hi 1 small (omega arith) in
      let order = laws.literal_mono 0 hi (omega arith) small in
      ground (
        arith,
        laws.le_of_not_lt x (F.literal 0 1) finite zero_finite,
        laws.le_of_not_lt (F.literal hi 1) x hi_finite finite,
        laws.le_of_not_lt (F.literal hi 1) (F.literal 0 1) hi_finite zero_finite,
        laws.le_refl (F.literal 0 1) zero_finite,
        laws.le_refl (F.literal hi 1) hi_finite,
      )

  recover_finite :
      (n d : ℕ) (r : Result R) (x : R)
      → n < 2 ^ 53
      → 0 < d
      → recover (F.literal n d) r ≡ ok x
      → F.is_finite x ≡ true
  unfolding recover
  recover_finite n d r x small pos h = ground (arith, laws.literal_finite n d small pos)

  clamp_delay_bounds :
      (r : Result R) (s : R)
      → ((x : R) → r ≡ ok x → F.is_finite x ≡ true)
      → clamp_delay r ≡ ok s
      → (ms : R) × (s ≡ F.div ms (F.literal 1000 1)) × Between 0 max_delay_ms ms
  unfolding clamp_delay
  clamp_delay_bounds (ok x) s finite h =
      (_, ground arith, clamp-Between max_delay_ms x (omega arith) (finite x refl))
  clamp_delay_bounds (err e) s finite h = cc

  clamp_rate_bounds :
      (r : Result R) (rate : R)
      → ((x : R) → r ≡ ok x → F.is_finite x ≡ true)
      → clamp_rate r ≡ ok rate
      → Between 0 1 rate
  unfolding clamp_rate
  clamp_rate_bounds (ok x) rate finite h =
      let bounds = clamp-Between 1 x (omega arith) (finite x refl) in ground arith
  clamp_rate_bounds (err e) rate finite h = cc

  -- A delay that is returned is the quotient by 1000 of a number of milliseconds between 0 and
  -- `max_delay_ms`, whatever the parameters hold, if finite floats are ordered.
  pub get_delay_seconds_bounds :
      (params : Dict String (Value R)) (s : R)
      → get_delay_seconds params ≡ ok s
      → (ms : R) × (s ≡ F.div ms (F.literal 1000 1)) × Between 0 max_delay_ms ms
  unfolding get_delay_seconds
  get_delay_seconds_bounds params s h =
      clamp_delay_bounds _ s (λ x. recover_finite 500 1 _ x (omega arith) (omega arith)) h

  -- A failure rate that is returned lies between 0 and 1, whatever the parameters hold, if finite
  -- floats are ordered.
  pub get_failure_rate_bounds :
      (params : Dict String (Value R)) (rate : R)
      → get_failure_rate params ≡ ok rate
      → Between 0 1 rate
  unfolding get_failure_rate
  get_failure_rate_bounds params rate h =
      clamp_rate_bounds _ rate (λ x. recover_finite 1 2 _ x (omega arith) (omega arith)) h

module _ {R : Type 0} ⦃F : Floats R⦄ where
  abbrev pub TooLarge : Option (Value R) → Type 0
  TooLarge (some (integer n)) = F.of_int n ≡ none
  TooLarge _ = ⊥

  raises→TooLarge :
      (o : Option (Value R)) (x : R) (e : Error)
      → clamp_delay (recover x (float_param o x)) ≡ err e
      → TooLarge o
  unfolding clamp_delay recover float_param to_float
  raises→TooLarge none x e h = cc
  raises→TooLarge (some (number y)) x e h = cc
  raises→TooLarge (some (integer n)) x e h = ground arith
  raises→TooLarge (some (text s)) x e h = ground arith
  raises→TooLarge (some (flag b)) x e h = cc
  raises→TooLarge (some null) x e h = cc
  raises→TooLarge (some other) x e h = cc

  TooLarge→raises :
      (o : Option (Value R)) (x : R)
      → TooLarge o
      → clamp_delay (recover x (float_param o x)) ≡ err overflow_error
  unfolding clamp_delay recover float_param to_float
  TooLarge→raises (some (integer n)) x h = ground arith
  TooLarge→raises none x h = absurd h
  TooLarge→raises (some (number y)) x h = absurd h
  TooLarge→raises (some (text s)) x h = absurd h
  TooLarge→raises (some (flag b)) x h = absurd h
  TooLarge→raises (some null) x h = absurd h
  TooLarge→raises (some other) x h = absurd h

  -- `get_delay_seconds` raises exactly when the parameter is an integer that no float can hold.
  pub get_delay_seconds-raises_iff :
      (params : Dict String (Value R))
      → ((e : Error) × (get_delay_seconds params ≡ err e)) ↔ TooLarge (get params "delay_ms")
  unfolding get_delay_seconds
  get_delay_seconds-raises_iff params = (
    λ (e, h). raises→TooLarge (get params "delay_ms") (F.literal 500 1) e h,
    λ large. (overflow_error, TooLarge→raises (get params "delay_ms") (F.literal 500 1) large),
  )
