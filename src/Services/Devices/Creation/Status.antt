-- ===== src/Services/Devices/Creation/Status.antt =====
-- The calls that make, edit and delete devices leave the other rows as they are, and a running
-- device's own row too.
use mathlib.Core.Path.{subst}
use ghost_meter.Prelude.{
  ℕ, ◌≡◌, refl, sym, ap, ◌∙◌, String, some, List, arith, ◌==◌, ==_iff, nat_eq, string_eq,
  Bool-cases, inl, inr,
}
use ghost_meter.Errors.{Result, ok, err, raise_if, raise_if-eq-ok, conflict, >>=-eq-ok}
use ghost_meter.Table.{find-append, find-remove, find-remove_self, given}
use ghost_meter.Services.Configurations.{SimulationConfig}
use ghost_meter.Services.Devices.{DeviceInstance, Database, Settings, has_id, get_device_raw}
use ghost_meter.Services.Devices.Creation.{
  DeviceCreate, DeviceBatchCreate, DeviceUpdate, create_device, batch_create_devices, update_device,
  delete_device, change, check_create, create_at, commit_profiles, add_device, check_batch,
  batch_at, add_devices, check_update, update_at, check_delete, delete_at,
}
use ghost_meter.Services.Devices.Creation.Unique.{Unique}
use ghost_meter.Services.Devices.Creation.Updates.{get_device_raw-eq-ok}
use ghost_meter.Services.Devices.Evolution.{
  update, delete, Evolves, deleted, edited, row, same_row, evolved, has_id-other, differs,
  find-write_other, find-write_same,
}

module _ {R W : Type 0} where
  commit_profiles-row :
      (i : ℕ) (db : Database R W) (r : Result (List (SimulationConfig R)))
      → row i (commit_profiles db r).0 ≡ row i db
  unfolding commit_profiles
  commit_profiles-row i db (ok rows) = refl
  commit_profiles-row i db (err x) = refl

  create_at-row :
      (i : ℕ) (db : Database R W) (request : DeviceCreate) (r : Result ℕ) (d : DeviceInstance)
      → row i db ≡ some d
      → row i (create_at db request r).0 ≡ some d
  unfolding create_at add_device
  create_at-row i db request (err x) d e = e
  create_at-row i db request (ok port) d e =
      commit_profiles-row i _ _ ∙ find-append (has_id i) db.devices _ d e

  pub create_device-row :
      (i : ℕ) (settings : Settings) (db : Database R W) (request : DeviceCreate)
      (d : DeviceInstance)
      → row i db ≡ some d
      → row i (create_device settings db request).0 ≡ some d
  unfolding create_device
  create_device-row i settings db request d e =
      create_at-row i db request (check_create settings db request) d e

  batch_at-row :
      (i : ℕ) (db : Database R W) (request : DeviceBatchCreate) (r : Result (List DeviceInstance))
      (d : DeviceInstance)
      → row i db ≡ some d
      → row i (batch_at db request r).0 ≡ some d
  unfolding batch_at add_devices
  batch_at-row i db request (err x) d e = e
  batch_at-row i db request (ok built) d e =
      commit_profiles-row i _ _ ∙ find-append (has_id i) db.devices built d e

  pub batch_create_devices-row :
      (i : ℕ) (str : ℕ → String) (len : String → ℕ) (settings : Settings) (db : Database R W)
      (request : DeviceBatchCreate) (d : DeviceInstance)
      → row i db ≡ some d
      → row i (batch_create_devices str len settings db request).0 ≡ some d
  unfolding batch_create_devices
  batch_create_devices-row i str len settings db request d e =
      batch_at-row i db request (check_batch str len settings db request) d e

  check_delete-eq-ok :
      (db : Database R W) (j : ℕ) (u : Unit {0})
      → check_delete db j ≡ ok u
      → (device : DeviceInstance) × (row j db ≡ some device) × (¬ (device.status ≡ "running"))
  unfolding check_delete
  check_delete-eq-ok db j u e =
      let (found, e1, e2) = >>=-eq-ok (get_device_raw db.devices j) _ e in
      (
        found,
        get_device_raw-eq-ok db.devices j found e1,
        differs found.status "running" (raise_if-eq-ok _ _ u e2),
      )

  delete_at-self :
      (i : ℕ) (db : Database R W) (d : DeviceInstance) (r : Result (Unit {0}))
      → ((u : Unit {0})
          → r ≡ ok u
          → (device : DeviceInstance) × (row i db ≡ some device) × (¬ (device.status ≡ "running")))
      → Unique db
      → row i db ≡ some d
      → Evolves i d (delete i) (row i (delete_at db i r).0)
  unfolding delete_at
  delete_at-self i db d (err x) checked h e = same_row i (delete i) d _ e
  delete_at-self i db d (ok u) checked h e =
      let (device, found, idle) = checked u refl in
      let same : device ≡ d = ap (λ o. given o device) (sym found ∙ e) in
      evolved i (delete i) d (find-remove_self (has_id i) db.devices (h.one_id i))
        (deleted (subst (λ x. ¬ (x.status ≡ "running")) same idle))

  delete_at-other :
      (i j : ℕ) (db : Database R W) (r : Result (Unit {0}))
      → ¬ (i ≡ j)
      → row i (delete_at db j r).0 ≡ row i db
  unfolding delete_at
  delete_at-other i j db (err x) apart = refl
  delete_at-other i j db (ok u) apart =
      find-remove (has_id i) (has_id j) db.devices (has_id-other i j apart)

  pub delete_device-Evolves :
      (i j : ℕ) (db : Database R W) (d : DeviceInstance)
      → Unique db
      → row i db ≡ some d
      → Evolves i d (delete j) (row i (delete_device db j).0)
  unfolding delete_device
  delete_device-Evolves i j db d h e = elim (Bool-cases (i == j)) [
    | inl same ↦
        subst (λ k. Evolves i d (delete k) (row i (delete_device db k).0)) ((==_iff i j).0 same)
          (delete_at-self i db d (check_delete db i) (check_delete-eq-ok db i) h e)
    | inr other ↦
        same_row i (delete j) d _
          (delete_at-other i j db (check_delete db j) (λ same. ground (arith, ==_iff i j)) ∙ e)
  ]

  check_update-eq-ok :
      (settings : Settings) (db : Database R W) (j : ℕ) (request : DeviceUpdate) (port : ℕ)
      → check_update settings db j request ≡ ok port
      → (device : DeviceInstance) × (row j db ≡ some device) × (¬ (device.status ≡ "running"))
  unfolding check_update
  check_update-eq-ok settings db j request port e =
      let (found, e1, e2) = >>=-eq-ok (get_device_raw db.devices j) _ e in
      let (u, e3, _) =
        >>=-eq-ok (raise_if (found.status == "running") (conflict "DEVICE_RUNNING")) _ e2 in
      (
        found,
        get_device_raw-eq-ok db.devices j found e1,
        differs found.status "running" (raise_if-eq-ok _ _ u e3),
      )

  update_at-self :
      (i : ℕ) (db : Database R W) (request : DeviceUpdate) (d : DeviceInstance) (r : Result ℕ)
      → ((port : ℕ)
          → r ≡ ok port
          → (device : DeviceInstance) × (row i db ≡ some device) × (¬ (device.status ≡ "running")))
      → row i db ≡ some d
      → Evolves i d (update i request) (row i (update_at db i request r).0)
  unfolding update_at change has_id
  update_at-self i db request d (err x) checked e = same_row i (update i request) d _ e
  update_at-self i db request d (ok port) checked e =
      let (device, found, idle) = checked port refl in
      let same : device ≡ d = ap (λ o. given o device) (sym found ∙ e) in
      evolved i (update i request) d
        (find-write_same i i (change request port) db.devices d refl (λ _. refl) e)
        (edited request port (subst (λ x. ¬ (x.status ≡ "running")) same idle))

  update_at-other :
      (i j : ℕ) (db : Database R W) (request : DeviceUpdate) (r : Result ℕ)
      → ¬ (i ≡ j)
      → row i (update_at db j request r).0 ≡ row i db
  unfolding update_at change has_id
  update_at-other i j db request (err x) apart = refl
  update_at-other i j db request (ok port) apart =
      find-write_other i j (change request port) db.devices (λ _. refl) apart

  pub update_device-Evolves :
      (i j : ℕ) (settings : Settings) (db : Database R W) (request : DeviceUpdate)
      (d : DeviceInstance)
      → row i db ≡ some d
      → Evolves i d (update j request) (row i (update_device settings db j request).0)
  unfolding update_device
  update_device-Evolves i j settings db request d e = elim (Bool-cases (i == j)) [
    | inl same ↦
        subst (λ k. Evolves i d (update k request) (row i (update_device settings db k request).0))
          ((==_iff i j).0 same)
          (update_at-self i db request d (check_update settings db i request)
            (check_update-eq-ok settings db i request) e)
    | inr other ↦ same_row i (update j request) d _ (
        update_at-other i j db request (check_update settings db j request)
          (λ same. ground (arith, ==_iff i j))
        ∙ e)
  ]
