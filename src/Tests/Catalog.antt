-- ===== src/Tests/Catalog.antt =====
-- Templates in the database, one of which a device uses.
use ghost_meter.Prelude.{
  ◌≡◌, refl, true, false, none, [], ◌∷◌, List, All, arith, ==_iff, nat_eq, string_eq,
}
use ghost_meter.Prelude.Int.{ℤ}
use ghost_meter.Errors.{err, integrity_error}
use ghost_meter.Dict.{get_or, put}
use ghost_meter.Intervals.{no_overlap}
use ghost_meter.Table.{count, find}
use ghost_meter.Services.Templates.{register_count, validate_no_address_overlap}
use ghost_meter.Services.Templates.Stored.{
  DeviceTemplate, Database, has_id, named, Call, create, update, delete, clone, perform,
  perform_all, update_template,
}
use ghost_meter.Services.Templates.Stored.Invariant.{Asked, IsKept}
use ghost_meter.Services.Templates.Stored.Kept.{perform_all-IsKept}
use ghost_meter.Tests.Stored.{meter}

abbrev first : DeviceTemplate ℤ
first = record { id = 0; is_builtin = true; content = meter }

abbrev stored : Database ℤ
stored = record { templates = first ∷ []; devices = 0 ∷ []; next_id = 1 }

stored-IsKept : IsKept stored
unfolding count named has_id find register_count
stored-IsKept = record {
  one_name = λ name. ground arith;
  one_id = λ i. ground arith;
  fresh = λ i above. ground (arith, ==_iff 0 i);
  served = (record { known = ((1, refl), tt); apart = λ modbus. (tt, tt) }, tt);
  present = λ i used. (first, ground (arith, ==_iff 0 i));
}

abbrev calls : List (Call ℤ)
calls =
    clone 0 none
    ∷ (update 1 (record meter { name = "other" }) ∷ (delete 0 ∷ (create meter false ∷ [])))

calls-Asked : All Asked calls
unfolding Asked register_count
calls-Asked = (tt, (((1, refl), tt), (tt, (((1, refl), tt), tt))))

perform_all-IsKept_example : IsKept (perform_all stored calls)
perform_all-IsKept_example = perform_all-IsKept stored calls calls-Asked stored-IsKept

-- A rename to a name that is taken is not refused as in a creation.
rename_raises :
    perform
      (record stored {
        templates =
            first
            ∷ (record { id = 1; is_builtin = false; content = record meter { name = "other" } }
                ∷ []);
      })
      (update 1 meter)
    ≡ err integrity_error
unfolding perform update_template find has_id named count validate_no_address_overlap no_overlap
    get_or put register_count
rename_raises = refl
