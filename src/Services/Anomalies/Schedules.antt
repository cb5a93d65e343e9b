-- ===== src/Services/Anomalies/Schedules.antt =====
-- Which schedules are accepted, and what the table holds then.
use mathlib.Core.List.{append-nil}
use ghost_meter.Prelude.{
  ℕ, ◌≡◌, ◌↔◌, refl, ◌∙◌, String, Bool, true, false, some, List, [], ◌∷◌, ◌++◌, map, arith, All,
  contains, ◌==◌, ==_iff, nat_eq, string_eq, if◌then◌else◌, Bool-cases, Option-cases, inl, inr,
}
use ghost_meter.Dict.{get}
use ghost_meter.Errors.{Result, Result-cases, ok, err, validation, not_found}
use ghost_meter.Services.Anomalies.Overlaps.{
  PairwiseSeparate, check_names→PairwiseSeparate, PairwiseSeparate→check_names, all_known_iff,
}
use ghost_meter.Services.Anomalies.{
  ScheduleCreate, AnomalySchedule, Database, found_or_404, get_device_or_404, check_names,
  all_known, without_device, rows_of, set_schedules,
}

module _ {R : Type 0} where
  -- The schedules that the table holds for a device.
  pub stored : ℕ → List (AnomalySchedule R) → List (ScheduleCreate R)
  stored device_id [] = []
  stored device_id (row ∷ rows) =
      let rest = stored device_id rows in
      if row.device_id == device_id then row.schedule ∷ rest else rest

  stored-append :
      (j : ℕ) (rows more : List (AnomalySchedule R))
      → stored j (rows ++ more) ≡ stored j rows ++ stored j more
  unfolding stored
  stored-append j [] more = refl
  stored-append j (row ∷ rows) more = ground (arith, stored-append j rows more)

  stored-without_device :
      (d j : ℕ) (rows : List (AnomalySchedule R))
      → stored j (without_device d rows) ≡ (if j == d then [] else stored j rows)
  unfolding stored without_device
  stored-without_device d j [] = ground arith
  stored-without_device d j (row ∷ rows) = ground (
    arith,
    stored-without_device d j rows,
    ==_iff row.device_id d,
    ==_iff row.device_id j,
    ==_iff j d,
  )

  stored-rows_of :
      (d j : ℕ) (schedules : List (ScheduleCreate R))
      → stored j (rows_of d schedules) ≡ (if j == d then schedules else [])
  unfolding stored rows_of
  stored-rows_of d j [] = ground arith
  stored-rows_of d j (s ∷ schedules) =
      ground (arith, stored-rows_of d j schedules, ==_iff d j, ==_iff j d)

  abbrev replaced : Database R → ℕ → List (ScheduleCreate R) → Database R
  replaced db device_id schedules = record db {
    anomaly_schedules =
        without_device device_id db.anomaly_schedules ++ rows_of device_id schedules;
  }

  abbrev check_all : List (ScheduleCreate R) → Result (Unit {0})
  check_all schedules = check_names schedules (map (λ s. s.register_name) schedules)

  set_schedules-replaced :
      (db : Database R) (device_id : ℕ) (names : List String) (schedules : List (ScheduleCreate R))
      → get db.device_registers device_id ≡ some names
      → all_known names schedules ≡ true
      → check_all schedules ≡ ok tt
      → set_schedules db device_id schedules ≡ ok (replaced db device_id schedules)
  unfolding set_schedules get_device_or_404 found_or_404
  set_schedules-replaced db device_id names schedules found known passed = rw (found, known, passed)

  -- What a call that returns has checked and done.
  set_schedules-passed :
      (db result : Database R) (device_id : ℕ) (schedules : List (ScheduleCreate R))
      → set_schedules db device_id schedules ≡ ok result
      → (names : List String) × (get db.device_registers device_id ≡ some names)
        × (all_known names schedules ≡ true)
        × (check_all schedules ≡ ok tt)
        × (replaced db device_id schedules ≡ result)
  unfolding set_schedules get_device_or_404 found_or_404
  set_schedules-passed db result device_id schedules e =
      elim (Option-cases (get db.device_registers device_id)) [
        | inl missing ↦
            let failed : err (not_found "DEVICE_NOT_FOUND") ≡ ok result = rw missing at e in cc
        | inr (names, found) ↦ elim (Bool-cases (all_known names schedules)) [
          | inl known ↦ elim (Result-cases (check_all schedules)) [
            | inl (_, passed) ↦ (
              names,
              found,
              known,
              passed,
              let done : ok (replaced db device_id schedules) ≡ ok result =
                    rw (found, known, passed) at e in
                  cc,
            )
            | inr (x, failed) ↦
                let raised : err x ≡ ok result = rw (found, known, failed) at e in cc
          ]
          | inr unknown ↦ let raised : err validation ≡ ok result = rw (found, unknown) at e in cc
        ]
      ]

  -- For a device that exists, schedules are accepted exactly when each names a register of the
  -- device's template and no two on one register overlap.
  pub set_schedules_iff :
      (db : Database R) (device_id : ℕ) (names : List String) (schedules : List (ScheduleCreate R))
      → get db.device_registers device_id ≡ some names
      → ((result : Database R) × (set_schedules db device_id schedules ≡ ok result))
        ↔ (All (λ s. contains s.register_name names ≡ true) schedules × PairwiseSeparate schedules)
  set_schedules_iff db device_id names schedules found = (
    λ (result, e).
        let (names', found', known, passed, _) =
          set_schedules-passed db result device_id schedules e in
        let same : names' ≡ names = cc in
        (
          (all_known_iff names schedules).0 (rw (← same) known),
          check_names→PairwiseSeparate schedules passed,
        ),
    λ (known, separate). (
      replaced db device_id schedules,
      set_schedules-replaced db device_id names schedules found
          ((all_known_iff names schedules).1 known)
          (PairwiseSeparate→check_names schedules (map (λ s. s.register_name) schedules) separate),
    ),
  )

  chosen-append :
      (xs ys : List (ScheduleCreate R)) (test : Bool)
      → (if test then [] else xs) ++ (if test then ys else []) ≡ (if test then ys else xs)
  chosen-append xs ys true = refl
  chosen-append xs ys false = append-nil xs

  -- Schedules that are accepted are then the device's schedules, in order, and those of every
  -- other device are as before.
  pub set_schedules-stored :
      (db result : Database R) (device_id j : ℕ) (schedules : List (ScheduleCreate R))
      → set_schedules db device_id schedules ≡ ok result
      → stored j result.anomaly_schedules
        ≡ (if j == device_id then schedules else stored j db.anomaly_schedules)
  set_schedules-stored db result device_id j schedules e =
      let (_, _, _, _, done) = set_schedules-passed db result device_id schedules e in
      rw (← done) (
        stored-append j (without_device device_id db.anomaly_schedules)
          (rows_of device_id schedules)
        ∙ rw
            (
              stored-without_device device_id j db.anomaly_schedules,
              stored-rows_of device_id j schedules,
            )
            (chosen-append (stored j db.anomaly_schedules) schedules (j == device_id)))
