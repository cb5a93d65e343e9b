-- ===== src/Tests/Profiles.antt =====
-- Profiles of one template.
use ghost_meter.Prelude.{
  ◌≡◌, refl, String, true, false, Option, none, some, [], ◌∷◌, arith, nat_eq, string_eq,
}
use ghost_meter.Prelude.Int.{ℤ}
use ghost_meter.Errors.{err, validation, integrity_error}
use ghost_meter.Services.Profiles.{
  SimulationProfileUpdate, update_profile, taken_at_select, set_before_cleared, get_profile,
  is_default_of, SimulationProfile, SimulationProfileCreate, Database, count_default, count_named,
}
use ghost_meter.Services.Profiles.Causes.{create, IsConsistent, Safe}
use ghost_meter.Services.Profiles.Defaults.{perform, perform-Safe}

abbrev normal : SimulationProfile ℤ
normal = record {
  id = 0;
  template_id = 7;
  name = "normal";
  description = none;
  is_builtin = true;
  is_default = true;
  configs = [];
}

abbrev profiles : Database ℤ
profiles = record { templates = (7, "meter") ∷ []; profiles = normal ∷ []; next_id = 1 }

abbrev night : SimulationProfileCreate ℤ
night = record {
  template_id = 7;
  name = "night";
  description = none;
  is_default = true;
  configs = [];
}

profiles-IsConsistent : IsConsistent profiles
unfolding count_default count_named
profiles-IsConsistent = record {
  one_default = λ t. ground arith;
  distinct_names = λ t name. ground arith;
}

perform-Safe_example : Safe profiles (create night) (perform profiles (create night))
perform-Safe_example = perform-Safe profiles (create night) profiles-IsConsistent

-- The built-in default has the higher id.
abbrev switched : Database ℤ
switched = record {
  templates = (7, "meter") ∷ [];
  profiles =
      record normal { id = 1; is_default = false; name = "night" }
      ∷ (record normal { id = 2 } ∷ []);
  next_id = 3;
}

abbrev make_default : Option String → SimulationProfileUpdate ℤ
make_default name = record {
  name = name;
  description = none;
  is_default = some true;
  configs = none;
}

-- The earlier profile cannot be made the default, nor one be renamed to a taken name with it.
switch_raises :
    (update_profile switched 1 (make_default none) ≡ err validation)
    × (update_profile switched 2 (make_default (some "night")) ≡ err integrity_error)
unfolding update_profile taken_at_select set_before_cleared get_profile count_default count_named
    is_default_of
switch_raises = (refl, refl)
