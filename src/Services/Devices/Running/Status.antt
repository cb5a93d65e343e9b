-- ===== src/Services/Devices/Running/Status.antt =====
-- What the start and the stop of a device do to its status.
use mathlib.Core.Path.{subst}
use ghost_meter.Prelude.{
  ℕ, ◌≡◌, refl, sym, ap, ◌∙◌, not, some, arith, ◌==◌, ==_iff, nat_eq, string_eq, Bool-cases, inl,
  inr,
}
use ghost_meter.Errors.{Result, ok, err, raise_if, raise_if-eq-ok, conflict, >>=-eq-ok}
use ghost_meter.Table.{find-hit, given}
use ghost_meter.Services.Templates.{TemplateData}
use ghost_meter.Services.Devices.{DeviceInstance, Database, has_id, get_device_raw}
use ghost_meter.Services.Templates.{get_template}
use ghost_meter.Services.Devices.Creation.Updates.{get_device_raw-eq-ok}
use ghost_meter.Services.Devices.Evolution.{
  start, stop, Evolves, started, failed, stopped, row, same_row, evolved, has_id_self, differs,
  find-write_other, find-write_same,
}
use ghost_meter.Services.Devices.Running.{
  Runtime, set_status, register_device_runtime, with_status, finish_start, check_start, start_with,
  start_device, unregister, finish_stop, stop_all, check_stop, stop_with, stop_device,
}

module _ {R W : Type 0} ⦃runtime : Runtime W⦄ where
  finish_start-Evolves :
      (i : ℕ) (db : Database R W) (d : DeviceInstance) (template : TemplateData R)
      (r : W × Result (Unit {0}))
      → d.id ≡ i
      → d.status ≡ "stopped"
      → row i db ≡ some d
      → Evolves i d (start i) (row i (finish_start db d template r).0)
  unfolding finish_start with_status has_id set_status
  finish_start-Evolves i db d template (w, ok _) here idle e =
      evolved i (start i) d
        (find-write_same i d.id (set_status "running") db.devices d here (λ _. refl) e)
        (started idle)
  finish_start-Evolves i db d template (w, err x) here idle e =
      evolved i (start i) d
        (find-write_same i d.id (set_status "error") db.devices d here (λ _. refl) e) (failed idle)

  finish_start-other :
      (i : ℕ) (db : Database R W) (d : DeviceInstance) (template : TemplateData R)
      (r : W × Result (Unit {0}))
      → ¬ (i ≡ d.id)
      → row i (finish_start db d template r).0 ≡ row i db
  unfolding finish_start with_status has_id set_status
  finish_start-other i db d template (w, ok _) apart =
      find-write_other i d.id (set_status "running") db.devices (λ _. refl) apart
  finish_start-other i db d template (w, err e) apart =
      find-write_other i d.id (set_status "error") db.devices (λ _. refl) apart

  check_start-eq-ok :
      (db : Database R W) (j : ℕ) (device : DeviceInstance) (template : TemplateData R)
      → check_start db j ≡ ok (device, template)
      → (row j db ≡ some device) × (device.status ≡ "stopped")
  unfolding check_start
  check_start-eq-ok db j device template e =
      let (found, e1, e2) = >>=-eq-ok (get_device_raw db.devices j) _ e in
      let (u, e3, e4) =
        >>=-eq-ok (raise_if (not (found.status == "stopped")) (conflict "INVALID_STATE_TRANSITION"))
          _ e2 in
      let (t, e5, e6) = >>=-eq-ok (get_template db.templates found.template_id) _ e4 in
      let same : found ≡ device = ap (λ r. elim r [ ok p ↦ p.0 | err _ ↦ found ]) e6 in
      let idle = raise_if-eq-ok _ _ u e3 in
      rw (← same) (
        get_device_raw-eq-ok db.devices j found e1,
        ground (arith, ==_iff found.status "stopped", idle),
      )

  start_with-self :
      (i : ℕ) (db : Database R W) (d : DeviceInstance)
      (r : Result (DeviceInstance × TemplateData R))
      → ((device : DeviceInstance) (template : TemplateData R)
          → r ≡ ok (device, template)
          → (row i db ≡ some device) × (device.status ≡ "stopped"))
      → row i db ≡ some d
      → Evolves i d (start i) (row i (start_with db r).0)
  unfolding start_with
  start_with-self i db d (err x) checked e = same_row i (start i) d _ e
  start_with-self i db d (ok (device, template)) checked e =
      let (found, idle) = checked device template refl in
      let same : device ≡ d = ap (λ o. given o device) (sym found ∙ e) in
      let here = has_id_self i device (find-hit (has_id i) db.devices device found) in
      subst
        (λ x. Evolves i x (start i) (
          row i
            (finish_start db device template (register_device_runtime db.world device template)).0))
        same
        (finish_start-Evolves i db device template
          (register_device_runtime db.world device template) here idle found)

  start_with-other :
      (i j : ℕ) (db : Database R W) (r : Result (DeviceInstance × TemplateData R))
      → ((device : DeviceInstance) (template : TemplateData R)
          → r ≡ ok (device, template)
          → (row j db ≡ some device) × (device.status ≡ "stopped"))
      → ¬ (i ≡ j)
      → row i (start_with db r).0 ≡ row i db
  unfolding start_with
  start_with-other i j db (err x) checked apart = refl
  start_with-other i j db (ok (device, template)) checked apart =
      let (found, _) = checked device template refl in
      let there = has_id_self j device (find-hit (has_id j) db.devices device found) in
      finish_start-other i db device template (register_device_runtime db.world device template)
        (λ same. apart (same ∙ there))

  pub start_device-Evolves :
      (i j : ℕ) (db : Database R W) (d : DeviceInstance)
      → row i db ≡ some d
      → Evolves i d (start j) (row i (start_device db j).0)
  unfolding start_device
  start_device-Evolves i j db d e = elim (Bool-cases (i == j)) [
    | inl same ↦
        subst (λ k. Evolves i d (start k) (row i (start_device db k).0)) ((==_iff i j).0 same)
          (start_with-self i db d (check_start db i) (check_start-eq-ok db i) e)
    | inr other ↦ same_row i (start j) d _ (
        start_with-other i j db (check_start db j) (check_start-eq-ok db j)
          (λ same. ground (arith, ==_iff i j))
        ∙ e)
  ]

  finish_stop-Evolves :
      (i : ℕ) (db : Database R W) (d : DeviceInstance) (w : W) (r : Result W)
      → d.id ≡ i
      → ¬ (d.status ≡ "stopped")
      → row i db ≡ some d
      → Evolves i d (stop i) (row i (finish_stop db d w r).0)
  unfolding finish_stop with_status has_id set_status
  finish_stop-Evolves i db d w (err x) here busy e = same_row i (stop i) d _ e
  finish_stop-Evolves i db d w (ok w') here busy e =
      evolved i (stop i) d
        (find-write_same i d.id (set_status "stopped") db.devices d here (λ _. refl) e)
        (stopped busy)

  finish_stop-other :
      (i : ℕ) (db : Database R W) (d : DeviceInstance) (w : W) (r : Result W)
      → ¬ (i ≡ d.id)
      → row i (finish_stop db d w r).0 ≡ row i db
  unfolding finish_stop with_status has_id set_status
  finish_stop-other i db d w (err x) apart = refl
  finish_stop-other i db d w (ok w') apart =
      find-write_other i d.id (set_status "stopped") db.devices (λ _. refl) apart

  check_stop-eq-ok :
      (db : Database R W) (j : ℕ) (device : DeviceInstance)
      → check_stop db j ≡ ok device
      → (row j db ≡ some device) × (¬ (device.status ≡ "stopped"))
  unfolding check_stop
  check_stop-eq-ok db j device e =
      let (found, e1, e2) = >>=-eq-ok (get_device_raw db.devices j) _ e in
      let (u, e3, e4) =
        >>=-eq-ok (raise_if (found.status == "stopped") (conflict "INVALID_STATE_TRANSITION")) _
          e2 in
      let same : found ≡ device = ap (λ r. elim r [ ok p ↦ p | err _ ↦ found ]) e4 in
      rw (← same) (
        get_device_raw-eq-ok db.devices j found e1,
        differs found.status "stopped" (raise_if-eq-ok _ _ u e3),
      )

  stop_with-self :
      (i : ℕ) (db : Database R W) (d : DeviceInstance) (r : Result DeviceInstance)
      → ((device : DeviceInstance)
          → r ≡ ok device
          → (row i db ≡ some device) × (¬ (device.status ≡ "stopped")))
      → row i db ≡ some d
      → Evolves i d (stop i) (row i (stop_with db r).0)
  unfolding stop_with
  stop_with-self i db d (err x) checked e = same_row i (stop i) d _ e
  stop_with-self i db d (ok device) checked e =
      let (found, busy) = checked device refl in
      let same : device ≡ d = ap (λ o. given o device) (sym found ∙ e) in
      let here = has_id_self i device (find-hit (has_id i) db.devices device found) in
      let w = stop_all db.world device.id in
      subst (λ x. Evolves i x (stop i) (row i (finish_stop db device w (unregister db device w)).0))
        same (finish_stop-Evolves i db device w (unregister db device w) here busy found)

  stop_with-other :
      (i j : ℕ) (db : Database R W) (r : Result DeviceInstance)
      → ((device : DeviceInstance)
          → r ≡ ok device
          → (row j db ≡ some device) × (¬ (device.status ≡ "stopped")))
      → ¬ (i ≡ j)
      → row i (stop_with db r).0 ≡ row i db
  unfolding stop_with
  stop_with-other i j db (err x) checked apart = refl
  stop_with-other i j db (ok device) checked apart =
      let (found, _) = checked device refl in
      let there = has_id_self j device (find-hit (has_id j) db.devices device found) in
      let w = stop_all db.world device.id in
      finish_stop-other i db device w (unregister db device w) (λ same. apart (same ∙ there))

  pub stop_device-Evolves :
      (i j : ℕ) (db : Database R W) (d : DeviceInstance)
      → row i db ≡ some d
      → Evolves i d (stop j) (row i (stop_device db j).0)
  unfolding stop_device
  stop_device-Evolves i j db d e = elim (Bool-cases (i == j)) [
    | inl same ↦
        subst (λ k. Evolves i d (stop k) (row i (stop_device db k).0)) ((==_iff i j).0 same)
          (stop_with-self i db d (check_stop db i) (check_stop-eq-ok db i) e)
    | inr other ↦ same_row i (stop j) d _ (
        stop_with-other i j db (check_stop db j) (check_stop-eq-ok db j)
          (λ same. ground (arith, ==_iff i j))
        ∙ e)
  ]
