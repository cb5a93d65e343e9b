-- ===== src/Tests/Faults.antt =====
-- The clamps of a fault's parameters, over whole numbers in place of floats.
use ghost_meter.Prelude.{◌^◌, ◌≡◌, ◌↔◌, refl, String, [], ◌∷◌, nat_eq, string_eq}
use ghost_meter.Prelude.Int.{ℤ, pos}
use ghost_meter.Dict.{Dict, get}
use ghost_meter.Errors.{Error, ok, err, overflow_error}
use ghost_meter.Floats.{Value, integer, number, to_float}
use ghost_meter.Floats.Exact.{exact, exact-IsOrdered}
use ghost_meter.Simulation.FaultSimulator.{get_delay_seconds, get_failure_rate}
use ghost_meter.Simulation.FaultSimulator.Clamps.{
  Between, TooLarge, get_delay_seconds_bounds, get_failure_rate_bounds,
  get_delay_seconds-raises_iff,
}

abbrev slow : Dict String (Value ℤ)
slow = ("delay_ms", integer (pos 70000)) ∷ []

delay_of_slow : get_delay_seconds slow ≡ ok (pos 10)
unfolding get_delay_seconds to_float get
delay_of_slow = refl

get_delay_seconds_bounds_example :
    (ms : ℤ) × (pos 10 ≡ exact.div ms (pos 1000)) × Between exact-IsOrdered 0 10000 ms
get_delay_seconds_bounds_example =
    get_delay_seconds_bounds exact-IsOrdered slow (pos 10) delay_of_slow

abbrev always : Dict String (Value ℤ)
always = ("failure_rate", number (pos 3)) ∷ []

rate_of_always : get_failure_rate always ≡ ok (pos 1)
unfolding get_failure_rate to_float get
rate_of_always = refl

get_failure_rate_bounds_example : Between exact-IsOrdered 0 1 (pos 1)
get_failure_rate_bounds_example =
    get_failure_rate_bounds exact-IsOrdered always (pos 1) rate_of_always

abbrev huge : Dict String (Value ℤ)
huge = ("delay_ms", integer (pos (2 ^ 2000))) ∷ []

get_delay_seconds-raises_iff_example :
    ((e : Error) × (get_delay_seconds huge ≡ err e)) ↔ TooLarge (get huge "delay_ms")
get_delay_seconds-raises_iff_example = get_delay_seconds-raises_iff huge

-- A delay that the route's schema accepts makes the clamp raise.
huge_raises : get_delay_seconds huge ≡ err overflow_error
unfolding get_delay_seconds to_float get
huge_raises = refl
