-- ===== src/Tests/Templates.antt =====
-- A template of two registers that share an address, and one whose registers follow each other.
use ghost_meter.Prelude.{ℕ, ◌≡◌, ◌↔◌, ◌⊎◌, refl, none, some, List, [], ◌∷◌, nat_eq, string_eq}
use ghost_meter.Prelude.Int.{ℤ, pos}
use ghost_meter.Errors.{ok, err, validation}
use ghost_meter.Dict.{put, get_or}
use ghost_meter.Intervals.{no_overlap}
use ghost_meter.Services.Templates.{RegisterDefinition, register_count, validate_no_address_overlap}
use ghost_meter.Services.Templates.Overlap.{KnownTypes, PairwiseDisjoint, validate_iff_disjoint}

abbrev register_at : ℕ → RegisterDefinition ℤ
register_at address = record {
  name = "voltage";
  address = address;
  function_code = 4;
  data_type = "float32";
  byte_order = "big_endian";
  scale_factor = pos 1;
  unit = some "V";
  description = none;
  sort_order = pos 0;
  oid = some "1.3.6";
}

abbrev in_a_row : List (RegisterDefinition ℤ)
in_a_row = register_at 2 ∷ (register_at 0 ∷ [])

abbrev colliding : List (RegisterDefinition ℤ)
colliding = register_at 1 ∷ (register_at 0 ∷ [])

in_a_row-KnownTypes : KnownTypes in_a_row
unfolding register_count
in_a_row-KnownTypes = ((2, refl), ((2, refl), tt))

validate_iff_disjoint_example :
    ((validate_no_address_overlap in_a_row ≡ ok tt) ↔ PairwiseDisjoint in_a_row)
    × ((validate_no_address_overlap in_a_row ≡ ok tt)
        ⊎ (validate_no_address_overlap in_a_row ≡ err validation))
validate_iff_disjoint_example = validate_iff_disjoint in_a_row in_a_row-KnownTypes

in_a_row_passes : validate_no_address_overlap in_a_row ≡ ok tt
unfolding validate_no_address_overlap register_count no_overlap put get_or
in_a_row_passes = refl

colliding_fails : validate_no_address_overlap colliding ≡ err validation
unfolding validate_no_address_overlap register_count no_overlap put get_or
colliding_fails = refl
