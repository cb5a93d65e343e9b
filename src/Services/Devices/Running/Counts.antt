-- ===== src/Services/Devices/Running/Counts.antt =====
-- What a batch action reports.
use mathlib.Core.Path.{subst}
use ghost_meter.Prelude.{
  ℕ, ◌+◌, ◌≡◌, sym, String, Bool, true, false, not, Option, List, [], ◌∷◌, length, arith, ◌==◌,
  nat_eq, string_eq, if◌then◌else◌, Bool-cases, inl, inr,
}
use ghost_meter.Errors.{Result, ok, err}
use ghost_meter.Table.{count}
use ghost_meter.Services.Devices.{DeviceInstance, Database, Outcome}
use ghost_meter.Services.Devices.Running.{
  BatchActionResult, selected, no_counts, counted, act, act_each, batch_device_action,
}

-- An action that returned.
pub succeeded : Result (Unit {0}) → Bool
succeeded (ok _) = true
succeeded (err e) = false

-- Each of the devices is counted once: as skipped, if it has the status to skip, and else by what
-- the action gave it, which `results` lists.
pub record Adds (skip_status : String) (devices : List DeviceInstance)
    (results : List (Result (Unit {0}))) (before after : BatchActionResult) : Type 0 where
  pub total :
      after.success_count + after.skipped_count + after.error_count
      ≡ before.success_count + before.skipped_count + before.error_count + length devices
  pub skipped :
      after.skipped_count ≡ before.skipped_count + count (λ d. d.status == skip_status) devices
  pub successes : after.success_count ≡ before.success_count + count succeeded results
  pub errors : after.error_count ≡ before.error_count + count (λ r. not (succeeded r)) results

module _ {R W : Type 0} (skip_status : String)
    (action : Database R W → ℕ → Outcome R W (Unit {0})) where
  -- What the action gives the devices that are not skipped, one after the other.
  pub results_of : Database R W → List DeviceInstance → List (Result (Unit {0}))
  results_of db [] = []
  results_of db (device ∷ devices) =
      let passed = results_of db devices in
      let (db', r) = action db device.id in
      let run = r ∷ results_of db' devices in if device.status == skip_status then passed else run

  run-Adds :
      (n : BatchActionResult) (r : Outcome R W (Unit {0})) (device : DeviceInstance)
      (devices : List DeviceInstance)
      → device.status == skip_status ≡ false
      → ((n' : BatchActionResult)
          → Adds skip_status devices
              (results_of r.0 devices)
              n'
              (act_each skip_status action (r.0, n') devices).1)
      → Adds skip_status
          (device ∷ devices)
          (r.1 ∷ results_of r.0 devices)
          n
          (act_each skip_status action (counted skip_status action n r) devices).1
  unfolding counted count succeeded
  run-Adds n (db, ok _) device devices run rest =
      let h = rest (record n { success_count = n.success_count + 1 }) in
      record {
        total = omega (arith, h.total);
        skipped = rw run (h.skipped);
        successes = omega (arith, h.successes);
        errors = h.errors;
      }
  run-Adds n (db, err e) device devices run rest =
      let h = rest (record n { error_count = n.error_count + 1 }) in
      record {
        total = omega (arith, h.total);
        skipped = rw run (h.skipped);
        successes = h.successes;
        errors = omega (arith, h.errors);
      }

  skip-Adds :
      (n after : BatchActionResult) (device : DeviceInstance) (devices : List DeviceInstance)
      (results : List (Result (Unit {0})))
      → device.status == skip_status ≡ true
      → Adds skip_status devices results (record n { skipped_count = n.skipped_count + 1 }) after
      → Adds skip_status (device ∷ devices) results n after
  unfolding count
  skip-Adds n after device devices results skip h = record {
    total = omega (arith, h.total);
    skipped = rw skip (omega (arith, h.skipped));
    successes = h.successes;
    errors = h.errors;
  }

  act_skipped :
      (db : Database R W) (n : BatchActionResult) (device : DeviceInstance)
      → device.status == skip_status ≡ true
      → act skip_status action (db, n) device
        ≡ (db, record n { skipped_count = n.skipped_count + 1 })
  unfolding act
  act_skipped db n device skip = rw skip

  act_run :
      (db : Database R W) (n : BatchActionResult) (device : DeviceInstance)
      → device.status == skip_status ≡ false
      → act skip_status action (db, n) device ≡ counted skip_status action n (action db device.id)
  unfolding act
  act_run db n device run = rw run

  act_each-Adds :
      (db : Database R W) (n : BatchActionResult) (devices : List DeviceInstance)
      → Adds skip_status devices
          (results_of db devices)
          n
          (act_each skip_status action (db, n) devices).1
  unfolding act_each count results_of
  act_each-Adds db n [] = record {
    total = omega arith;
    skipped = omega arith;
    successes = omega arith;
    errors = omega arith;
  }
  act_each-Adds db n (device ∷ devices) = elim (Bool-cases (device.status == skip_status)) [
    | inl skip ↦
        subst
          (λ state.
            Adds skip_status (device ∷ devices) (results_of db (device ∷ devices)) n
              (act_each skip_status action state devices).1)
          (sym (act_skipped db n device skip))
          (rw skip (
            skip-Adds n _ device devices (results_of db devices) skip
              (act_each-Adds db (record n { skipped_count = n.skipped_count + 1 }) devices)))
    | inr run ↦
        subst
          (λ state.
            Adds skip_status (device ∷ devices) (results_of db (device ∷ devices)) n
              (act_each skip_status action state devices).1)
          (sym (act_run db n device run))
          (rw run (
            run-Adds n (action db device.id) device devices run
              (λ n'. act_each-Adds (action db device.id).0 n' devices)))
  ]

  -- Whatever the action does and raises, a batch counts each of the devices that it selects once:
  -- as skipped those that have the status to skip, and of the others as a success each at which
  -- the action returns, and as an error each at which it raises.
  pub batch_device_action-Adds :
      (db : Database R W) (device_ids : Option (List ℕ)) (default_filter : DeviceInstance → Bool)
      → Adds skip_status
          (selected device_ids default_filter db.devices)
          (results_of db (selected device_ids default_filter db.devices))
          (record { success_count = 0; skipped_count = 0; error_count = 0 })
          (batch_device_action skip_status action db device_ids default_filter).1
  unfolding batch_device_action no_counts
  batch_device_action-Adds db device_ids default_filter =
      act_each-Adds db no_counts (selected device_ids default_filter db.devices)
